-- ===== src/Samples/Callers.antt =====
-- The upload of the other samples, seen by its owner and by another caller.
use rag_semantic_search.Prelude.{◌≡◌, refl, arith, String, ltb}
use rag_semantic_search.Config.{defaults}
use rag_semantic_search.Config.Sizing.Exact.{exact}
use rag_semantic_search.Database.{UploadStatus}
use rag_semantic_search.Database
use rag_semantic_search.Errors.{DomainError, Raised, err}
use rag_semantic_search.Files.{get}
use rag_semantic_search.World.{World, Exec, pure}
use rag_semantic_search.Chunks.Counts.{tally}
use rag_semantic_search.UploadService.{get_status, append_chunk, complete_upload, delete_upload}
use rag_semantic_search.UploadService.Isolation.{foreign_refused}
use rag_semantic_search.UploadService.Deleting.{Deleted, delete_upload-Deleted}
use rag_semantic_search.Status.{to_status}
use rag_semantic_search.Status.Progress.{IsShare, to_status-IsShare}
use rag_semantic_search.Samples.Uploads.{live, body, file}
use rag_semantic_search.Samples.Queue.{db, db-IsCounted}
use rag_semantic_search.Samples.Queue

abbrev pub no_index : String → Exec (Unit {0})
no_index id = pure tt

foreign_refused_example :
    (get_status "f1" "bob" live ≡ (err (Raised.domain (DomainError.file_not_found "f1")), live))
    × (append_chunk exact defaults "f1" "bob" 7 body live
        ≡ (err (Raised.domain (DomainError.file_not_found "f1")), live))
    × (complete_upload defaults "f1" "bob" live
        ≡ (err (Raised.domain (DomainError.file_not_found "f1")), live))
    × (delete_upload no_index "f1" "bob" live
        ≡ (err (Raised.domain (DomainError.file_not_found "f1")), live))
unfolding get
foreign_refused_example =
    foreign_refused exact defaults no_index "f1" "bob" 7 body (file UploadStatus.interrupted) live
      refl refl (omega arith)

delete_upload-Deleted_example :
    (w' : World) × (delete_upload no_index "f1" "ann" live ≡ no_index "f1" w')
    × Deleted "f1" live w'
unfolding get
delete_upload-Deleted_example =
    delete_upload-Deleted no_index "f1" "ann" (file UploadStatus.interrupted) live refl refl

to_status-IsShare_example :
    IsShare (to_status Queue.file).upload_progress
    × IsShare (to_status Queue.file).processing_progress
    × ((to_status Queue.file).searchable ≡ ltb 0 (tally Database.is_indexed "f1" db.chunks))
unfolding get
to_status-IsShare_example = to_status-IsShare db "f1" Queue.file db-IsCounted refl
