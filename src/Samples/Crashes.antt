-- ===== src/Samples/Crashes.antt =====
-- The upload of the other samples, while the process dies.
use rag_semantic_search.Prelude.{refl, inl, ◌++◌, arith}
use rag_semantic_search.Config.{defaults}
use rag_semantic_search.Config.Sizing.{sizes_for, passage_size_for}
use rag_semantic_search.Config.Sizing.Exact.{exact}
use rag_semantic_search.Chunker.{line_buffer}
use rag_semantic_search.Database.{UploadStatus}
use rag_semantic_search.UploadService.{append_chunk, begin_completion, promote, complete_upload}
use rag_semantic_search.UploadService.Appending.{Appended}
use rag_semantic_search.UploadService.Restarting.{restarted, restarted_row, append_chunk-restarted}
use rag_semantic_search.UploadService.Recompleting.{Recompleted, complete_upload-restarted}
use rag_semantic_search.Samples.Uploads.{live, live-Uploading, sent, lost, body, file}

append_chunk-restarted_example :
    Appended exact defaults "f1" sent body 0 0
      (restarted_row 9 (file UploadStatus.interrupted))
      (restarted live)
      (append_chunk exact defaults "f1" "ann" 7 body (restarted live))
unfolding line_buffer passage_size_for sizes_for
append_chunk-restarted_example =
    append_chunk-restarted exact defaults "f1" sent lost 0 0 (file UploadStatus.interrupted) live
      "ann" body live-Uploading (omega arith) refl (omega arith, omega arith, inl (λ e. cc))

complete_upload-restarted_example :
    Recompleted "f1" (sent ++ lost) live (complete_upload defaults "f1" "ann" live) (
      complete_upload defaults "f1" "ann" (restarted (begin_completion defaults "f1" "ann" live).1))
    × Recompleted "f1" (sent ++ lost) live (complete_upload defaults "f1" "ann" live) (
        complete_upload defaults "f1" "ann"
          (restarted (promote "f1" (begin_completion defaults "f1" "ann" live).1).1))
unfolding line_buffer
complete_upload-restarted_example =
    complete_upload-restarted exact defaults "f1" "ann" sent lost 0 0
      (file UploadStatus.interrupted) live live-Uploading (omega arith) refl (λ e. cc)
