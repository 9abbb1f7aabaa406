-- ===== src/JobQueue/Failing.antt =====
-- app/tasks/job_queue.py, `fail_batch`: retries, and passages given up.
use rag_semantic_search.Prelude.{
  ℕ, ◌≡◌, refl, inl, inr, Bool, true, false, List, [], ◌∷◌, arith, take, String, select, is_in,
  Bool-cases,
}
use rag_semantic_search.Config.{Settings}
use rag_semantic_search.Utf8.{Text}
use rag_semantic_search.Database.{Time, ChunkStatus, ChunkRow, Database}
use rag_semantic_search.Files.{record_failed}
use rag_semantic_search.Chunks.{
  mark_pending_retry, mark_failed, set_pending_retry, set_failed, update_each,
}
use rag_semantic_search.Chunks.Counts.{HeldRows, Apart, Apart-cons, HeldRows-update_each}
use rag_semantic_search.JobQueue.{
  ChunkJob, chunk_ids, fail_batch, is_retryable, is_exhausted, record_exhausted,
}
use rag_semantic_search.JobQueue.Counters.{
  IsCounted, Held, refresh-IsCounted, settle-IsCounted, moved-IsCounted, length-chunk_ids,
}

is_in-select :
    (p : ChunkJob → Bool) (i : ℕ) (jobs : List ChunkJob)
    → is_in i (chunk_ids jobs) ≡ false
    → is_in i (chunk_ids (select p jobs)) ≡ false
unfolding is_in select
is_in-select p i [] h = refl
is_in-select p i (j ∷ jobs) h = ground (arith, is_in-select p i jobs)

pub HeldRows-select :
    (p : ChunkJob → Bool) (id : String) (cs : List ChunkRow) (jobs : List ChunkJob)
    → HeldRows id cs (chunk_ids jobs)
    → HeldRows id cs (chunk_ids (select p jobs))
unfolding select
HeldRows-select p id cs [] h = tt
HeldRows-select p id cs (j ∷ jobs) h = elim (Bool-cases (p j)) [
  | inl t ↦ rw t (h.0, is_in-select p j.chunk_id jobs h.1, HeldRows-select p id cs jobs h.2)
  | inr t ↦ rw t (HeldRows-select p id cs jobs h.2)
]

pub Apart-select :
    (c : Settings) (id : String) (cs : List ChunkRow) (jobs : List ChunkJob)
    → HeldRows id cs (chunk_ids jobs)
    → Apart (chunk_ids (select (is_retryable c) jobs)) (chunk_ids (select (is_exhausted c) jobs))
unfolding select
Apart-select c id cs [] h = tt
Apart-select c id cs (j ∷ jobs) h =
    let rest = Apart-select c id cs jobs h.2 in
    elim (Bool-cases (is_retryable c j)) [
      | inl t ↦
          let u : is_exhausted c j ≡ false = ground arith in
          rw (t, u)
            (Apart-cons j.chunk_id _ _ (is_in-select (is_exhausted c) j.chunk_id jobs h.1) rest)
      | inr t ↦
          let u : is_exhausted c j ≡ true = ground arith in
          rw (t, u) (is_in-select (is_retryable c) j.chunk_id jobs h.1, rest)
    ]

give_up-IsCounted :
    (db : Database) (id : String) (exhausted : List ChunkJob) (error : Text) (now : Time)
    → IsCounted db
    → HeldRows id db.chunks (chunk_ids exhausted)
    → IsCounted
        (record_exhausted (mark_failed db (chunk_ids exhausted) error now) id exhausted error now)
unfolding mark_failed record_failed update_each
give_up-IsCounted db id [] error now h held = h
give_up-IsCounted db id (j ∷ js) error now h held =
    settle-IsCounted ChunkStatus.failed (set_failed error now) (λ c. (refl, refl)) (λ c. refl) db id
      _ (chunk_ids (j ∷ js)) (λ r. refl) (λ r. omega (arith, length-chunk_ids js)) h held

-- Failing a batch that a worker holds keeps right counters right: a passage that is retried is in
-- none of them, and one that
-- is given up is counted once.
pub fail_batch-IsCounted :
    (c : Settings) (db : Database) (jobs : List ChunkJob) (error : Text) (now : Time)
    → IsCounted db
    → Held db jobs
    → IsCounted (fail_batch c db jobs error now)
unfolding fail_batch
fail_batch-IsCounted c db [] error now h held = h
fail_batch-IsCounted c db (job ∷ jobs) error now h held =
    let all = job ∷ jobs in
    let retry = select (is_retryable c) all in
    let over = select (is_exhausted c) all in
    let message = take 500 error in
    let set : ChunkRow → ChunkRow = set_pending_retry message now in
    let retried : IsCounted (mark_pending_retry db (chunk_ids retry) message now) =
      moved-IsCounted ChunkStatus.pending set (λ r. (refl, refl)) (λ r. refl) db job.file_id
        (chunk_ids retry) refl refl h
        (HeldRows-select (is_retryable c) job.file_id db.chunks all held) in
    let left =
      HeldRows-update_each job.file_id set db.chunks (chunk_ids retry) (chunk_ids over)
        (λ r. (refl, refl)) (Apart-select c job.file_id db.chunks all held)
        (HeldRows-select (is_exhausted c) job.file_id db.chunks all held) in
    refresh-IsCounted _ job.file_id now (
      give_up-IsCounted (mark_pending_retry db (chunk_ids retry) message now) job.file_id over
        message now retried left)
