-- ===== src/JobQueue.antt =====
-- app/tasks/job_queue.py: the queue on the two tables. Each function here is one transaction, so it
-- takes the database that it finds and returns the one that it commits.
pub mod Enqueue
pub mod Filling
pub mod Counters
pub mod Failing
pub mod Updating
pub mod Selecting
pub mod Claiming
pub mod Recovering
pub mod Soundness
pub mod Rekeying
pub mod Registering
use rag_semantic_search.Prelude.{
  ℕ, zero, suc, ◌+◌, ◌<◌, Bool, true, false, Option, none, some, List, [], ◌∷◌, map, leb, ltb, ◌==◌,
  if◌then◌else◌, length, take, String, select,
}
use rag_semantic_search.Config.{Settings}
use rag_semantic_search.Utf8.{Text}
use rag_semantic_search.Chunker.{PassageRange, or_default}
use rag_semantic_search.Database.{
  Time, UploadStatus, ProcessingStatus, FileRecord, ChunkRow, Database,
}
use rag_semantic_search.Files.{
  Progress, mark_processing_started, record_indexed, record_failed, get_processing_progress,
  set_processing_status, mark_interrupted_uploads, revert_stuck_finalizing,
}
use rag_semantic_search.Chunks.{
  Passage, insert_pending, oldest_pending_file, select_pending_for_file, mark_processing,
  mark_indexed, mark_pending_retry, mark_failed, reset_stuck_processing,
}
use rag_semantic_search.Chunks

pub record ChunkJob : Type 0 where
  pub chunk_id : ℕ
  pub file_id : String
  pub sequence : ℕ
  pub start_byte : ℕ
  pub end_byte : ℕ
  pub retry_count : ℕ

-- the rows of `enumerate(passages)`
unfoldable pub numbered : ℕ → List PassageRange → List Passage
numbered sequence [] = []
numbered sequence (p ∷ ps) =
    record { sequence = sequence; start_byte = p.start_byte; end_byte = p.end_byte }
    ∷ numbered (sequence + 1) ps

-- the next free sequence, and the database
unfoldable pub enqueue : Database → String → List PassageRange → ℕ → Time → ℕ × Database
unfolding numbered insert_pending
enqueue db file_id [] start_sequence now = (start_sequence, db)
enqueue db file_id (p ∷ ps) start_sequence now = (
  start_sequence + length (p ∷ ps),
  insert_pending db file_id (numbered start_sequence (p ∷ ps)) now,
)

abbrev pub to_job : ChunkRow → ChunkJob
to_job row = record {
  chunk_id = row.chunk_id;
  file_id = row.file_id;
  sequence = row.sequence;
  start_byte = row.start_byte;
  end_byte = row.end_byte;
  retry_count = row.retry_count;
}

-- the rest of `claim_batch`, from the rows of the oldest file on
abbrev pub claim_rows : Database → String → List ChunkRow → Time → List ChunkJob × Database
claim_rows db file_id [] now = ([], db)
claim_rows db file_id (row ∷ rows) now = (
  map to_job (row ∷ rows),
  mark_processing_started (mark_processing db (map (λ r. r.chunk_id) (row ∷ rows)) now) file_id now,
)

unfoldable pub claim_batch : Settings → Option ℕ → Database → Time → List ChunkJob × Database
unfolding oldest_pending_file select_pending_for_file mark_processing mark_processing_started
claim_batch c limit db now = elim (oldest_pending_file db) [
  | none ↦ ([], db)
  | some file_id ↦
      claim_rows db file_id
        (select_pending_for_file db file_id (or_default limit c.claim_batch_size)) now
]

abbrev pub is_completed : UploadStatus → Bool
is_completed UploadStatus.completed = true
is_completed UploadStatus.pending = false
is_completed UploadStatus.uploading = false
is_completed UploadStatus.finalizing = false
is_completed UploadStatus.interrupted = false

abbrev pub final_status : ℕ → ProcessingStatus
final_status chunks_failed =
    if chunks_failed == 0 then ProcessingStatus.completed else ProcessingStatus.failed

unfoldable pub refresh_processing_status : Database → String → Time → Database
unfolding get_processing_progress set_processing_status
refresh_processing_status db file_id now = elim (get_processing_progress db file_id) [
  | none ↦ db
  | some p ↦
      if is_completed p.upload_status
      then if ltb (p.chunks_indexed + p.chunks_failed) p.chunks_total
        then db
        else set_processing_status db file_id (final_status p.chunks_failed) now
      else db
]

abbrev pub chunk_ids : List ChunkJob → List ℕ
chunk_ids = map (λ j. j.chunk_id)

unfoldable pub complete_batch : Database → List ChunkJob → Time → Database
unfolding mark_indexed record_indexed refresh_processing_status
complete_batch db [] now = db
complete_batch db (job ∷ jobs) now =
    refresh_processing_status
      (record_indexed (mark_indexed db (chunk_ids (job ∷ jobs)) now) job.file_id
        (length (job ∷ jobs)) now)
      job.file_id now

abbrev pub is_retryable : Settings → ChunkJob → Bool
is_retryable c j = ltb (j.retry_count + 1) c.max_retries

abbrev pub is_exhausted : Settings → ChunkJob → Bool
is_exhausted c j = leb c.max_retries (j.retry_count + 1)

-- `if exhausted: record_failed(…)`
abbrev pub record_exhausted : Database → String → List ChunkJob → Text → Time → Database
record_exhausted db file_id [] error now = db
record_exhausted db file_id (j ∷ js) error now =
    record_failed db file_id (length (j ∷ js)) error now

unfoldable pub fail_batch : Settings → Database → List ChunkJob → Text → Time → Database
unfolding select mark_pending_retry mark_failed record_failed refresh_processing_status
fail_batch c db [] error now = db
fail_batch c db (job ∷ jobs) error now =
    let truncated = take 500 error in
    let retryable = select (is_retryable c) (job ∷ jobs) in
    let exhausted = select (is_exhausted c) (job ∷ jobs) in
    let retried = mark_pending_retry db (chunk_ids retryable) truncated now in
    let marked = mark_failed retried (chunk_ids exhausted) truncated now in
    refresh_processing_status (record_exhausted marked job.file_id exhausted truncated now)
      job.file_id now

unfoldable pub recover_stuck_jobs : Database → Time → ℕ × Database
unfolding reset_stuck_processing mark_interrupted_uploads revert_stuck_finalizing
recover_stuck_jobs db now =
    let (reset, recovered) = reset_stuck_processing db now in
    (recovered, revert_stuck_finalizing (mark_interrupted_uploads reset now) now)

unfoldable pub pending_count : Database → Option String → ℕ
unfolding Chunks.pending_count
pending_count = Chunks.pending_count
