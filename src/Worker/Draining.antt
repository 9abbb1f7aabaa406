-- ===== src/Worker/Draining.antt =====
-- app/tasks/job_queue.py: what a claim and the end of a batch make of the attempts that are left.
use rag_semantic_search.JobQueue.Updating.{fail_batch-chunks, job_id, complete_batch-chunks}
use rag_semantic_search.Prelude.{
  ℕ, ◌+◌, ◌-◌, ◌≤◌, ◌≡◌, refl, ap, ◌∙◌, inl, inr, Bool, true, false, some, List, [], ◌∷◌, arith,
  ◌==◌, map, select, take, length, update_where, is_in, Option-cases, Bool-cases, if◌then◌else◌,
}
use rag_semantic_search.Prelude.All.{All, All-map, All-select, Distinct, Distinct-select}
use rag_semantic_search.Config.{Settings}
use rag_semantic_search.Utf8.{Text}
use rag_semantic_search.Database.{Time, ChunkStatus, ChunkRow, Database, is_pending}
use rag_semantic_search.Chunks.{update_each, set_indexed, set_pending_retry, set_failed}
use rag_semantic_search.Chunks.Lookup.{row_id, row-update_where, row-update_where-none}
use rag_semantic_search.Chunks.Counts.{
  row, KeepsKey, Ascending, row-update_ne, update_where-Ascending, update_each-Ascending,
}
use rag_semantic_search.JobQueue.{
  ChunkJob, chunk_ids, to_job, complete_batch, fail_batch, is_retryable, is_exhausted,
}
use rag_semantic_search.Worker.Attempts.{
  attempts, attempts_left, retries_left, Fresh, attempts_left-settle, attempts_left-retry,
  attempts_left-update, retries_left-select,
}

abbrev pub set_processing : Time → ChunkRow → ChunkRow
set_processing now r = record r { status = ChunkStatus.processing; updated_at = now }

update_where-is_in :
    (now : Time) (i : ℕ) (is : List ℕ) (cs : List ChunkRow)
    → update_where (λ r. is_in r.chunk_id (i ∷ is)) (set_processing now) cs
      ≡ update_where
          (λ r. is_in r.chunk_id is)
          (set_processing now)
          (update_where (λ r. r.chunk_id == i) (set_processing now) cs)
unfolding update_where is_in
update_where-is_in now i is [] = refl
update_where-is_in now i is (r ∷ cs) = ground (arith, update_where-is_in now i is cs)

update_where-none :
    (now : Time) (cs : List ChunkRow)
    → update_where (λ r. is_in r.chunk_id []) (set_processing now) cs ≡ cs
unfolding update_where is_in
update_where-none now [] = refl
update_where-none now (r ∷ cs) = ap (λ ds. r ∷ ds) (update_where-none now cs)

-- A row that waits, in the table.
abbrev pub Waits : List ChunkRow → ChunkRow → Type 0
Waits cs r = (row r.chunk_id cs ≡ some r) × (is_pending r.status ≡ true)

Waits-update_ne :
    (now : Time) (i : ℕ) (cs rows : List ChunkRow)
    → is_in i (map row_id rows) ≡ false
    → All (Waits cs) rows
    → All (Waits (update_where (λ r. r.chunk_id == i) (set_processing now) cs)) rows
unfolding is_in
Waits-update_ne now i cs [] out h = tt
Waits-update_ne now i cs (r ∷ rows) out h = (
  (
    row-update_ne i r.chunk_id (set_processing now) cs (λ x. (refl, refl)) (λ same. ground arith)
        ∙ h.0.0,
    h.0.1,
  ),
  Waits-update_ne now i cs rows (ground arith) h.1,
)

module _ (c : Settings) where
  -- A claim takes the attempts of its jobs, one for each and those that it may have after that.
  pub attempts_left-claim :
      (now : Time) (cs rows : List ChunkRow)
      → Ascending 0 cs
      → Distinct row_id rows
      → All (Waits cs) rows
      → attempts_left c
            (update_where (λ r. is_in r.chunk_id (map row_id rows)) (set_processing now) cs)
          + (length rows + retries_left c (map to_job rows))
        ≤ attempts_left c cs
  attempts_left-claim now cs [] a d h = rw (update_where-none now cs) (omega arith)
  attempts_left-claim now cs (r ∷ rows) a d h =
      let i = r.chunk_id in
      let ds = update_where (λ x. x.chunk_id == i) (set_processing now) cs in
      let rest =
        attempts_left-claim now ds rows (update_where-Ascending _ 0 _ cs (λ x. (refl, refl)) a) d.1
          (Waits-update_ne now i cs rows d.0 h.1) in
      let here = attempts_left-update c i 0 (set_processing now) cs r a h.0.0 in
      let due : attempts c r ≡ 1 + (c.max_retries - r.retry_count) = ground (arith, h.0.1) in
      rw (update_where-is_in now i (map row_id rows) cs) (omega (arith, rest, here, due))

pub Fresh-update_where :
    (p : ChunkRow → Bool) (set : ChunkRow → ChunkRow) (cs : List ChunkRow) (j : ChunkJob)
    → KeepsKey set
    → ((r : ChunkRow) → (set r).retry_count ≡ r.retry_count)
    → Fresh cs j
    → Fresh (update_where p set cs) j
Fresh-update_where p set cs j k same h r e = elim (Option-cases (row j.chunk_id cs)) [
  | inl absent ↦ absurd (ground (arith, row-update_where-none p set j.chunk_id cs k absent))
  | inr (d, found) ↦
      let after = row-update_where p set j.chunk_id cs d k found in
      let is : (if p d then set d else d) ≡ r = ground arith in
      elim (Bool-cases (p d)) [
        | inl t ↦ ground (arith, same d, h d found)
        | inr t ↦ ground (arith, h d found)
      ]
]

pub Fresh-update_each :
    (set : ChunkRow → ChunkRow) (cs : List ChunkRow) (is : List ℕ) (j : ChunkJob)
    → KeepsKey set
    → ((r : ChunkRow) → (set r).retry_count ≡ r.retry_count)
    → Fresh cs j
    → Fresh (update_each set cs is) j
unfolding update_each
Fresh-update_each set cs [] j k same h = h
Fresh-update_each set cs (i ∷ is) j k same h =
    Fresh-update_each set (update_where (λ r. r.chunk_id == i) set cs) is j k same
      (Fresh-update_where (λ r. r.chunk_id == i) set cs j k same h)

-- Jobs as a claim gives them, on the rows that it leaves.
pub record Due (cs : List ChunkRow) (jobs : List ChunkJob) : Type 0 where
  pub ascending : Ascending 0 cs
  pub distinct : Distinct job_id jobs
  pub fresh : All (Fresh cs) jobs

-- What is left of the attempts, on a table that may be processed further.
pub record Left (c : Settings) (n : ℕ) (cs : List ChunkRow) : Type 0 where
  pub ascending : Ascending 0 cs
  pub within : attempts_left c cs ≤ n

module _ (c : Settings) where
  pub complete_batch-Due :
      (db : Database) (done jobs : List ChunkJob) (now : Time)
      → Due db.chunks jobs
      → Due (complete_batch db done now).chunks jobs
  complete_batch-Due db [] jobs now h = unfold complete_batch in h
  complete_batch-Due db (d ∷ done) jobs now h = rw (complete_batch-chunks db d done now) (record {
    ascending =
        update_each-Ascending ChunkStatus.indexed (set_indexed now) (λ r. (refl, refl)) (λ r. refl)
          0 db.chunks (chunk_ids (d ∷ done)) h.ascending;
    distinct = h.distinct;
    fresh =
        All-map jobs
          (λ j.
            Fresh-update_each (set_indexed now) db.chunks (chunk_ids (d ∷ done)) j
              (λ r. (refl, refl)) (λ r. refl))
          h.fresh;
  })

  pub complete_batch-Left :
      (db : Database) (done : List ChunkJob) (now : Time)
      → Ascending 0 db.chunks
      → Left c (attempts_left c db.chunks) (complete_batch db done now).chunks
  complete_batch-Left db [] now a =
      unfold complete_batch in record { ascending = a; within = omega arith }
  complete_batch-Left db (d ∷ done) now a = rw (complete_batch-chunks db d done now) (record {
    ascending =
        update_each-Ascending ChunkStatus.indexed (set_indexed now) (λ r. (refl, refl)) (λ r. refl)
          0 db.chunks (chunk_ids (d ∷ done)) a;
    within =
        attempts_left-settle c (set_indexed now) 0 db.chunks (chunk_ids (d ∷ done))
          (λ r. (refl, refl)) (λ r. refl) a;
  })

  pub fail_batch-Left :
      (db : Database) (jobs : List ChunkJob) (error : Text) (now : Time)
      → Due db.chunks jobs
      → Left c
          (attempts_left c db.chunks + retries_left c jobs)
          (fail_batch c db jobs error now).chunks
  fail_batch-Left db [] error now h =
      unfold fail_batch in record { ascending = h.ascending; within = omega arith }
  fail_batch-Left db (j ∷ jobs) error now h =
      let all = j ∷ jobs in
      let retry = select (is_retryable c) all in
      let over = chunk_ids (select (is_exhausted c) all) in
      let t = take 500 error in
      let marked = update_each (set_pending_retry t now) db.chunks (chunk_ids retry) in
      let parts = All-select _ (is_retryable c) all h.fresh in
      let ascending : Ascending 0 marked =
        update_each-Ascending ChunkStatus.pending (set_pending_retry t now) (λ r. (refl, refl))
          (λ r. refl) 0 db.chunks (chunk_ids retry) h.ascending in
      let retried =
        attempts_left-retry c t now 0 db.chunks retry h.ascending
          (Distinct-select job_id (is_retryable c) all h.distinct)
          (All-map retry (λ k g. g.0) parts) (All-map retry (λ k g. g.1) parts) in
      let failed =
        attempts_left-settle c (set_failed t now) 0 marked over (λ r. (refl, refl)) (λ r. refl)
          ascending in
      rw (fail_batch-chunks c db j jobs error now) (record {
        ascending =
            update_each-Ascending ChunkStatus.failed (set_failed t now) (λ r. (refl, refl))
              (λ r. refl) 0 marked over ascending;
        within = omega (arith, retried, failed, retries_left-select c (is_retryable c) all);
      })
