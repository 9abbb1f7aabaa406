-- ===== src/UploadService.antt =====
-- app/services/upload_service.py: creating, appending to, completing, listing and deleting uploads.
-- The clock is read once for a call. What the service takes from code that is not in the repository,
-- the hex of uuid4, is an argument; so is `vector_repository.drop`.
pub mod Appending
pub mod Completing
pub mod Retrying
pub mod Isolation
pub mod Deleting
pub mod Lifecycle
pub mod Accounting
pub mod Restarting
pub mod Recompleting
use rag_semantic_search.Prelude.{
  ℕ, ◌+◌, Bool, true, false, not, ◌&&◌, Option, none, some, List, [], ◌∷◌, ltb, ◌==◌, if◌then◌else◌,
  length, String,
}
use rag_semantic_search.Config.{Settings}
use rag_semantic_search.Config.Sizing.{Floats, Sizes, passage_size_for}
use rag_semantic_search.Validators.{looks_like_binary}
use rag_semantic_search.Database.{UploadStatus, FileRecord, Database}
use rag_semantic_search.Errors.{DomainError, Raised, Result, ok, err}
use rag_semantic_search.Files
use rag_semantic_search.Files.{
  get_owned, update_after_chunk, mark_finalizing, mark_completed, list_owned,
}
use rag_semantic_search.Storage
use rag_semantic_search.Storage.{Disk}
use rag_semantic_search.Chunker.{PassageRange, LineBuffer, line_buffer, feed, flush}
use rag_semantic_search.JobQueue.{enqueue, is_completed}
use rag_semantic_search.World.{
  World, Exec, pure, lift, gets, set_db, set_disk, raise_if, ◌>>=◌, ◌>>◌, transaction,
}

-- upload_status in ("completed", "finalizing")
abbrev pub is_closed : UploadStatus → Bool
is_closed UploadStatus.completed = true
is_closed UploadStatus.finalizing = true
is_closed UploadStatus.pending = false
is_closed UploadStatus.uploading = false
is_closed UploadStatus.interrupted = false

-- a loop of the chunker that does not end
abbrev pub or_diverges {ℓ} : {A : Type ℓ} → Option A → Result A
or_diverges none = err Raised.diverges
or_diverges (some a) = ok a

-- The sizes that are given. Where `passage_size_for` raises, the service makes no buffer; these make
-- the one that `append_buffer` stands for there a buffer that is not sized.
abbrev pub or_ones : Result Sizes → Sizes
or_ones (ok sizes) = sizes
or_ones (err e) = record { target = 1; maximum = 1; overlap = 1 }

-- the LineBuffer of `append_chunk`, from the sizes
abbrev pub buffer_of : Settings → FileRecord → Sizes → LineBuffer
buffer_of c r sizes =
    line_buffer c r.bytes_received r.pending_tail (some sizes.target) (some sizes.maximum)
      (some sizes.overlap)

-- the file is trimmed where its size is not what the database says
unfoldable pub reconcile : Disk → String → ℕ → Disk
reconcile disk file_id expected =
    if Storage.current_size disk file_id == expected
    then disk
    else Storage.truncate_to disk file_id expected

-- owner_id, filename and total_size; `file_id` is uuid.uuid4().hex
unfoldable pub create_upload : String → String → String → ℕ → Exec String
create_upload file_id owner_id filename total_size = transaction (do
  db ← gets (λ w. w.db)
  now ← gets (λ w. w.now)
  created ← lift (Files.create db file_id owner_id filename total_size now)
  set_db created
  pure file_id)

module _ (f : Floats) (c : Settings) where
  -- the LineBuffer of `append_chunk`, for a file that has `r.bytes_received` bytes
  abbrev pub append_buffer : FileRecord → LineBuffer
  append_buffer r = buffer_of c r (or_ones (passage_size_for f c r.total_size))

  -- the checks of `append_chunk`, in order, once the record is read
  abbrev pub check_append : FileRecord → ℕ → List ℕ → Exec (Unit {0})
  check_append r offset body = do
    raise_if (is_closed r.upload_status) (DomainError.upload_already_done r.upload_status)
    raise_if (not (offset == r.bytes_received))
        (DomainError.offset_mismatch r.bytes_received offset)
    raise_if (ltb c.max_file_bytes (r.bytes_received + length body))
        (DomainError.file_too_large c.max_file_bytes)
    raise_if (offset == 0 && looks_like_binary body) DomainError.not_text_file

  -- what `append_chunk` writes to disk
  abbrev pub write_body : FileRecord → String → List ℕ → Exec (Unit {0})
  write_body r file_id body = do
    disk ← gets (λ w. w.disk)
    set_disk (Storage.append_chunk (reconcile disk file_id r.bytes_received) file_id body).1

  -- what `append_chunk` writes to the database, from the passages and the buffer that are left
  abbrev pub record_chunk :
      FileRecord → String → List ℕ → List PassageRange × LineBuffer → Exec (Option FileRecord)
  record_chunk r file_id body (passages, buffer) = do
    db ← gets (λ w. w.db)
    now ← gets (λ w. w.now)
    set_db (
        update_after_chunk (enqueue db file_id passages r.next_sequence now).1 file_id
          (r.bytes_received + length body) (length passages)
          (enqueue db file_id passages r.next_sequence now).0 buffer.buffer now)
    updated ← gets (λ w. w.db)
    pure (Files.get updated file_id)

  unfoldable pub append_chunk : String → String → ℕ → List ℕ → Exec (Option FileRecord)
  append_chunk file_id owner_id offset body = do
    raise_if (ltb c.max_chunk_bytes (length body))
        (DomainError.chunk_too_large (length body) c.max_chunk_bytes)
    transaction (do
      db ← gets (λ w. w.db)
      r ← lift (get_owned db file_id owner_id)
      check_append r offset body
      write_body r file_id body
      sizes ← lift (passage_size_for f c r.total_size)
      split ← lift (or_diverges (feed (buffer_of c r sizes) body))
      record_chunk r file_id body split)

-- the LineBuffer of `complete_upload`, with the default sizes
abbrev pub completion_buffer : Settings → FileRecord → LineBuffer
completion_buffer c r = line_buffer c r.bytes_received r.pending_tail none none none

-- what the first transaction of `complete_upload` writes
abbrev pub record_finalizing :
    FileRecord → String → List PassageRange × LineBuffer → Exec (Option FileRecord)
record_finalizing r file_id (passages, buffer) = do
  db ← gets (λ w. w.db)
  now ← gets (λ w. w.now)
  set_db (
      mark_finalizing (enqueue db file_id passages r.next_sequence now).1 file_id (length passages)
        (enqueue db file_id passages r.next_sequence now).0 r.bytes_received now)
  pure none

abbrev pub finalize_record : Settings → FileRecord → String → Exec (Option FileRecord)
finalize_record c r file_id = do
  raise_if (r.bytes_received == 0) DomainError.no_bytes_received_yet
  split ← lift (or_diverges (flush (completion_buffer c r)))
  record_finalizing r file_id split

-- The first transaction of `complete_upload`: the record where the upload is already complete, and
-- `none` where the call goes on.
unfoldable pub begin_completion : Settings → String → String → Exec (Option FileRecord)
begin_completion c file_id owner_id = transaction (do
  db ← gets (λ w. w.db)
  r ← lift (get_owned db file_id owner_id)
  if is_completed r.upload_status then pure (some r) else finalize_record c r file_id)

-- the rename, outside any transaction
unfoldable pub promote : String → Exec (Unit {0})
promote file_id = do
  disk ← gets (λ w. w.disk)
  promoted ← lift (Storage.finalize disk file_id)
  set_disk promoted

-- the second transaction
unfoldable pub end_completion : String → Exec (Option FileRecord)
end_completion file_id = transaction (do
  db ← gets (λ w. w.db)
  now ← gets (λ w. w.now)
  set_db (mark_completed db file_id now)
  updated ← gets (λ w. w.db)
  pure (Files.get updated file_id))

abbrev pub go_on : String → Option FileRecord → Exec (Option FileRecord)
go_on file_id (some r) = pure (some r)
go_on file_id none = do promote file_id; end_completion file_id

unfoldable pub complete_upload : Settings → String → String → Exec (Option FileRecord)
complete_upload c file_id owner_id = do
  done ← begin_completion c file_id owner_id
  go_on file_id done

unfoldable pub get_status : String → String → Exec FileRecord
get_status file_id owner_id = do db ← gets (λ w. w.db); lift (get_owned db file_id owner_id)

unfoldable pub list_uploads : String → ℕ → Exec (List FileRecord)
list_uploads owner_id limit = gets (λ w. list_owned w.db owner_id limit)

unfoldable pub delete_upload : (String → Exec (Unit {0})) → String → String → Exec (Unit {0})
delete_upload drop file_id owner_id = do
  transaction (do
    db ← gets (λ w. w.db)
    lift (get_owned db file_id owner_id)
    set_db (Files.delete db file_id))
  disk ← gets (λ w. w.disk)
  set_disk (Storage.delete_all disk file_id)
  drop file_id
