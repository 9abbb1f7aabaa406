-- ===== src/JobQueue/Updating.antt =====
-- app/tasks/job_queue.py: the rows of the queue after the end of a batch.
use rag_semantic_search.Prelude.{
  List, String, [], ap, false, inl, inr, is_in, refl, select, subst, sym, take, ℕ, ◌∙◌, ◌∷◌, ◌≡◌,
}
use rag_semantic_search.Config.{Settings}
use rag_semantic_search.Utf8.{Text}
use rag_semantic_search.Database.{Database, Time}
use rag_semantic_search.Chunks.{
  mark_failed, mark_indexed, mark_pending_retry, set_failed, set_indexed, set_pending_retry,
  update_each,
}
use rag_semantic_search.Files.{record_failed, record_indexed, set_processing_status, update_file}
use rag_semantic_search.Chunks.Counts.{Apart, HeldRows, HeldRows-update_each}
use rag_semantic_search.JobQueue.{
  ChunkJob, chunk_ids, complete_batch, fail_batch, is_exhausted, is_retryable, record_exhausted,
  refresh_processing_status,
}
use rag_semantic_search.JobQueue.Counters.{refresh_cases}
use rag_semantic_search.Prelude.All.{is_in-select}

abbrev pub job_id : ChunkJob → ℕ
job_id j = j.chunk_id

pub refresh-chunks :
    (db : Database) (id : String) (now : Time)
    → (refresh_processing_status db id now).chunks ≡ db.chunks
unfolding set_processing_status update_file
refresh-chunks db id now = elim (refresh_cases db id now) [
  | inl e ↦ ap (λ d. d.chunks) e
  | inr (status, e) ↦ ap (λ d. d.chunks) e
]

pub complete_batch-chunks :
    (db : Database) (job : ChunkJob) (jobs : List ChunkJob) (now : Time)
    → (complete_batch db (job ∷ jobs) now).chunks
      ≡ update_each (set_indexed now) db.chunks (chunk_ids (job ∷ jobs))
unfolding complete_batch mark_indexed record_indexed update_file
complete_batch-chunks db job jobs now = refresh-chunks _ job.file_id now

-- What is held besides stays held.
pub complete_batch-HeldRows :
    (id : String) (db : Database) (jobs : List ChunkJob) (is : List ℕ) (now : Time)
    → Apart (chunk_ids jobs) is
    → HeldRows id db.chunks is
    → HeldRows id (complete_batch db jobs now).chunks is
complete_batch-HeldRows id db [] is now apart h = unfold complete_batch in h
complete_batch-HeldRows id db (j ∷ jobs) is now apart h =
    subst (λ cs. HeldRows id cs is) (sym (complete_batch-chunks db j jobs now))
      (HeldRows-update_each id (set_indexed now) db.chunks (chunk_ids (j ∷ jobs)) is
        (λ c. (refl, refl)) apart h)

-- What a worker holds besides stays held while a batch is failed.
record_exhausted-chunks :
    (db : Database) (id : String) (jobs : List ChunkJob) (error : Text) (now : Time)
    → (record_exhausted db id jobs error now).chunks ≡ db.chunks
unfolding record_failed update_file
record_exhausted-chunks db id [] error now = refl
record_exhausted-chunks db id (j ∷ jobs) error now = refl

pub fail_batch-chunks :
    (c : Settings) (db : Database) (job : ChunkJob) (jobs : List ChunkJob) (error : Text)
    (now : Time)
    → (fail_batch c db (job ∷ jobs) error now).chunks
      ≡ update_each
          (set_failed (take 500 error) now)
          (update_each
            (set_pending_retry (take 500 error) now)
            db.chunks
            (chunk_ids (select (is_retryable c) (job ∷ jobs))))
          (chunk_ids (select (is_exhausted c) (job ∷ jobs)))
unfolding fail_batch mark_pending_retry mark_failed
fail_batch-chunks c db job jobs error now =
    refresh-chunks _ job.file_id now
    ∙ record_exhausted-chunks _ job.file_id (select (is_exhausted c) (job ∷ jobs)) (take 500 error)
        now

pub fail_batch-HeldRows :
    (c : Settings) (id : String) (db : Database) (jobs : List ChunkJob) (error : Text) (now : Time)
    (i : ℕ)
    → is_in i (chunk_ids jobs) ≡ false
    → HeldRows id db.chunks (i ∷ [])
    → HeldRows id (fail_batch c db jobs error now).chunks (i ∷ [])
fail_batch-HeldRows c id db [] error now i out h = unfold fail_batch in h
fail_batch-HeldRows c id db (j ∷ jobs) error now i out h =
    let all = j ∷ jobs in
    subst (λ cs. HeldRows id cs (i ∷ [])) (sym (fail_batch-chunks c db j jobs error now))
      (HeldRows-update_each id (set_failed (take 500 error) now) _
        (chunk_ids (select (is_exhausted c) all)) (i ∷ []) (λ r. (refl, refl))
        (is_in-select job_id (is_exhausted c) i all out, tt)
        (HeldRows-update_each id (set_pending_retry (take 500 error) now) db.chunks
          (chunk_ids (select (is_retryable c) all)) (i ∷ []) (λ r. (refl, refl))
          (is_in-select job_id (is_retryable c) i all out, tt) h))
