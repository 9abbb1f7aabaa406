-- ===== src/UploadService/Isolation.antt =====
-- app/services/upload_service.py: a caller and the uploads of another.
use rag_semantic_search.Prelude.{ℕ, ◌≤◌, ◌≡◌, false, some, List, arith, String, str_eq, length}
use rag_semantic_search.Config.{Settings}
use rag_semantic_search.Config.Sizing.{Floats}
use rag_semantic_search.Database.{FileRecord, Database}
use rag_semantic_search.Errors.{DomainError, Raised, err}
use rag_semantic_search.Files.{get, get_owned}
use rag_semantic_search.World.{World, Exec}
use rag_semantic_search.UploadService.{
  append_chunk, complete_upload, begin_completion, get_status, delete_upload,
}

pub get_owned-foreign :
    (db : Database) (id owner : String) (r : FileRecord)
    → get db id ≡ some r
    → str_eq r.owner_id owner ≡ false
    → get_owned db id owner ≡ err (Raised.domain (DomainError.file_not_found id))
unfolding get_owned
get_owned-foreign db id owner r row foreign = ground arith

-- To a caller who does not own an upload it does not exist: the status, a chunk of a legal size, the
-- completion and the deletion all answer that there is no such file, and change nothing.
pub foreign_refused :
    (f : Floats) (c : Settings) (drop : String → Exec (Unit {0})) (id owner : String) (offset : ℕ)
    (body : List ℕ) (r : FileRecord) (w : World)
    → get w.db id ≡ some r
    → str_eq r.owner_id owner ≡ false
    → length body ≤ c.max_chunk_bytes
    → (get_status id owner w ≡ (err (Raised.domain (DomainError.file_not_found id)), w))
      × (append_chunk f c id owner offset body w
          ≡ (err (Raised.domain (DomainError.file_not_found id)), w))
      × (complete_upload c id owner w ≡ (err (Raised.domain (DomainError.file_not_found id)), w))
      × (delete_upload drop id owner w ≡ (err (Raised.domain (DomainError.file_not_found id)), w))
unfolding get_status append_chunk complete_upload begin_completion delete_upload
foreign_refused f c drop id owner offset body r w row foreign small =
    let missing = get_owned-foreign w.db id owner r row foreign in
    (
      ground (arith, missing),
      ground (arith, missing),
      ground (arith, missing),
      ground (arith, missing),
    )
