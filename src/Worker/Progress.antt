-- ===== src/Worker/Progress.antt =====
-- app/tasks/worker.py, `_process_one_batch`: the attempts that a batch takes away.
use rag_semantic_search.JobQueue.Updating.{job_id}
use rag_semantic_search.Prelude.{
  ℕ, ◌+◌, ◌≤◌, ◌<◌, ◌≡◌, refl, sym, subst, Bool, true, false, Option, some, none, List, [], ◌∷◌,
  arith, map, String, update_where, is_in,
}
use rag_semantic_search.Prelude.All.{All, Distinct}
use rag_semantic_search.Config.{Settings}
use rag_semantic_search.Utf8.{Text}
use rag_semantic_search.Database.{Time, ChunkRow, Database}
use rag_semantic_search.Errors.{Raised, Result, ok, err}
use rag_semantic_search.Files.{mark_processing_started, update_file}
use rag_semantic_search.Chunks.{mark_processing}
use rag_semantic_search.Chunks.Lookup.{row_id}
use rag_semantic_search.Chunks.Counts.{Ascending, update_where-Ascending}
use rag_semantic_search.Storage.{Looks}
use rag_semantic_search.Index.{Backend}
use rag_semantic_search.JobQueue.{ChunkJob, to_job, claim_rows, complete_batch}
use rag_semantic_search.JobQueue.Claiming.{chunk_ids-to_job}
use rag_semantic_search.Worker.{
  read_texts, keep, empty, jobs_of, index_texts, settle, ingest_kept, process_claimed,
}
use rag_semantic_search.Worker.Attempts.{attempts_left, retries_left, Fresh}
use rag_semantic_search.Worker.Draining.{
  Waits, set_processing, Due, Left, attempts_left-claim, complete_batch-Due, complete_batch-Left,
  fail_batch-Left, Fresh-update_where,
}

-- A bound that is larger bounds too.
pub Left-weaken : {c : Settings} {m n : ℕ} {cs : List ChunkRow} → m ≤ n → Left c m cs → Left c n cs
Left-weaken l h = record { ascending = h.ascending; within = omega (arith, l, h.within) }

-- The jobs of a claim, on the rows that it leaves.
pub Due-claim :
    (now : Time) (cs rows : List ChunkRow)
    → Ascending 0 cs
    → Distinct row_id rows
    → All (Waits cs) rows
    → Due
        (update_where (λ r. is_in r.chunk_id (map row_id rows)) (set_processing now) cs)
        (map to_job rows)
Due-claim now cs rows a d h = record {
  ascending = update_where-Ascending _ 0 _ cs (λ x. (refl, refl)) a;
  distinct = jobs-Distinct rows d;
  fresh = jobs-Fresh rows h;
}
  where
    jobs-Distinct : (rs : List ChunkRow) → Distinct row_id rs → Distinct job_id (map to_job rs)
    jobs-Distinct [] d = tt
    jobs-Distinct (r ∷ rs) d = (
      subst (λ is. is_in r.chunk_id is ≡ false) (sym (chunk_ids-to_job rs)) d.0,
      jobs-Distinct rs d.1,
    )

    jobs-Fresh :
        (rs : List ChunkRow)
        → All (Waits cs) rs
        → All
            (Fresh (update_where (λ r. is_in r.chunk_id (map row_id rows)) (set_processing now) cs))
            (map to_job rs)
    jobs-Fresh [] h = tt
    jobs-Fresh (r ∷ rs) h = (
      Fresh-update_where _ (set_processing now) cs (to_job r) (λ x. (refl, refl)) (λ x. refl)
          (λ x e. ground (arith, h.0.0)),
      jobs-Fresh rs h.1,
    )

module _ (b : Backend) (describe : Raised → Text) (c : Settings) (now : Time) where
  settle-Left :
      (db : Database) (jobs : List ChunkJob) (kept : List (ChunkJob × Text))
      (out : Option Text × b.Collections)
      → Due db.chunks jobs
      → Left c
          (attempts_left c db.chunks + retries_left c jobs)
          (settle b describe c now db jobs kept out).0.chunks
  settle-Left db jobs kept (none, s) h =
      Left-weaken (omega arith) (complete_batch-Left c db (jobs_of kept) now h.ascending)
  settle-Left db jobs kept (some message, s) h = fail_batch-Left c db jobs message now h

  ingest_kept-Left :
      (db : Database) (s : b.Collections) (jobs : List ChunkJob) (kept : List (ChunkJob × Text))
      → Due db.chunks jobs
      → Left c
          (attempts_left c db.chunks + retries_left c jobs)
          (ingest_kept b describe c now db s jobs kept).0.chunks
  ingest_kept-Left db s jobs [] h = record { ascending = h.ascending; within = omega arith }
  ingest_kept-Left db s jobs ((job, text) ∷ kept) h = settle-Left db jobs ((job, text) ∷ kept) _ h

  -- Whatever the reads and the index do.
  index_texts-Left :
      (db : Database) (s : b.Collections) (jobs : List ChunkJob)
      (texts : Result (List (ChunkJob × Text)))
      → Due db.chunks jobs
      → Left c
          (attempts_left c db.chunks + retries_left c jobs)
          (index_texts b describe c now db s jobs texts).0.chunks
  index_texts-Left db s jobs (err e) h = fail_batch-Left c db jobs (describe e) now h
  index_texts-Left db s jobs (ok pairs) h =
      let done = complete_batch-Left c db (empty pairs) now h.ascending in
      let within = done.within in
      Left-weaken (omega arith) (
        ingest_kept-Left (complete_batch db (empty pairs) now) s jobs (keep pairs)
          (complete_batch-Due c db (empty pairs) jobs now h))

  -- A batch that takes attempts away.
  abbrev pub Progress : Database → Bool × Database × b.Collections → Type 0
  Progress db out =
      (out.0 ≡ true) × (n : ℕ) × (n < attempts_left c db.chunks) × Left c n out.1.chunks

  pub process_rows-Progress :
      (looks : ChunkJob → Looks) (id : String) (db : Database) (s : b.Collections) (r : ChunkRow)
      (rows : List ChunkRow)
      → Ascending 0 db.chunks
      → Distinct row_id (r ∷ rows)
      → All (Waits db.chunks) (r ∷ rows)
      → Progress db (process_claimed b describe c now looks s (claim_rows db id (r ∷ rows) now))
  unfolding mark_processing mark_processing_started update_file
  process_rows-Progress looks id db s r rows a d h =
      let all = r ∷ rows in
      let db' = mark_processing_started (mark_processing db (map row_id all) now) id now in
      let taken = attempts_left-claim c now db.chunks all a d h in
      let out =
        index_texts-Left db' s (map to_job all) (read_texts looks (map to_job all))
          (Due-claim now db.chunks all a d h) in
      (
        refl,
        attempts_left c db'.chunks + retries_left c (map to_job all),
        omega (arith, taken),
        out,
      )
