-- ===== src/UploadService/Retrying.antt =====
-- app/services/upload_service.py: a client that sends a request again.
use rag_semantic_search.Prelude.{
  ℕ, ◌+◌, ◌≤◌, ◌≡◌, ◌≢◌, ap, ap₂, ◌∙◌, subst, true, List, [], arith, String, str_eq, length,
  length-append, eq-nil_of_length,
}
use rag_semantic_search.Config.{Settings}
use rag_semantic_search.Config.Sizing.{Floats}
use rag_semantic_search.Database.{UploadStatus, FileRecord}
use rag_semantic_search.Errors.{DomainError, Raised, err}
use rag_semantic_search.Files.Lookup.{get_owned-get}
use rag_semantic_search.Chunker.Cut.{IsSized}
use rag_semantic_search.World.{World}
use rag_semantic_search.UploadService.{
  append_chunk, append_buffer, is_closed, complete_upload, completion_buffer,
}
use rag_semantic_search.UploadService.Appending.{
  Uploading, Accepts, append_chunk_accepted, append_chunk_refused, append_chunk_mismatch,
  append_chunk_closed,
}
use rag_semantic_search.UploadService.Completing.{complete_upload-Completed}

-- A domain error comes with the world as it was.
refusal :
    (f : Floats) (c : Settings) (id owner : String) (offset : ℕ) (body : List ℕ) (w : World)
    (e : DomainError)
    → (append_chunk f c id owner offset body w).0 ≡ err (Raised.domain e)
    → append_chunk f c id owner offset body w ≡ (err (Raised.domain e), w)
refusal f c id owner offset body w e h =
    ap₂ (λ a b. (a, b)) h (append_chunk_refused f c id owner offset body w e h)

module _ (f : Floats) (c : Settings) (id owner : String) (stream extra body : List ℕ) (s e : ℕ)
    (r : FileRecord) (w : World) where
  -- A chunk that was taken, is not empty, and is sent again, since its answer was lost, is not
  -- appended twice: the
  -- answer names the offset to go on from, and nothing changes.
  pub append_chunk-append_chunk :
      Uploading f c id stream extra s e r w
      → IsSized (append_buffer f c r)
      → str_eq r.owner_id owner ≡ true
      → Accepts c stream body
      → body ≢ []
      → let w' = (append_chunk f c id owner (length stream) body w).1 in
        append_chunk f c id owner (length stream) body w' ≡ (
          err (
              Raised.domain
                (DomainError.offset_mismatch (length stream + length body) (length stream))),
          w',
        )
  append_chunk-append_chunk u sized owned accepts nonempty =
      let first =
        append_chunk_accepted f c id owner stream extra body s e r w u sized owned accepts in
      let w' = (append_chunk f c id owner (length stream) body w).1 in
      let found =
        get_owned-get w'.db id owner first.r' first.uploading.row (rw first.owner_kept owned) in
      let count : first.r'.bytes_received ≡ length stream + length body =
        first.uploading.received ∙ length-append stream body in
      refusal f c id owner (length stream) body w' _ (
        subst
          (λ n.
            (append_chunk f c id owner (length stream) body w').0
            ≡ err (Raised.domain (DomainError.offset_mismatch n (length stream))))
          count
          (append_chunk_mismatch f c id owner (length stream) body w' first.r' accepts.0 found
            first.uploading.live (λ same. nonempty (eq-nil_of_length body (omega (arith, count))))))

  -- A chunk of a legal size that comes after the completion is refused, whatever its offset, and
  -- nothing changes.
  pub append_chunk-complete_upload :
      (offset : ℕ)
      → Uploading f c id stream extra s e r w
      → IsSized (completion_buffer c r)
      → str_eq r.owner_id owner ≡ true
      → stream ≢ []
      → length body ≤ c.max_chunk_bytes
      → let w' = (complete_upload c id owner w).1 in
        append_chunk f c id owner offset body w'
        ≡ (err (Raised.domain (DomainError.upload_already_done UploadStatus.completed)), w')
  append_chunk-complete_upload offset u sized owned nonempty small =
      let w' = (complete_upload c id owner w).1 in
      let done =
        complete_upload-Completed f c id owner stream extra s e r w u sized owned nonempty in
      let found = get_owned-get w'.db id owner done.r' done.row (rw done.owner_kept owned) in
      refusal f c id owner offset body w' _ (
        subst
          (λ status.
            (append_chunk f c id owner offset body w').0
            ≡ err (Raised.domain (DomainError.upload_already_done status)))
          done.status
          (append_chunk_closed f c id owner offset body w' done.r' small found
            (ap is_closed done.status)))
