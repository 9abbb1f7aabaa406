-- ===== src/Worker/Batches.antt =====
-- app/tasks/worker.py, `_process_one_batch`: the counters of the files through a batch.
use rag_semantic_search.JobQueue.Updating.{complete_batch-HeldRows}
use rag_semantic_search.Prelude.{
  ℕ, ◌≡◌, refl, subst, sym, ◌⊎◌, inl, inr, false, Option, none, some, List, [], ◌∷◌, map, arith,
  is_in, String,
}
use rag_semantic_search.Config.{Settings}
use rag_semantic_search.Utf8.{Text}
use rag_semantic_search.Database.{Database, Time, ChunkRow}
use rag_semantic_search.Errors.{Raised, Result, ok, err}
use rag_semantic_search.Chunks.Counts.{HeldRows, Apart, Apart-cons}
use rag_semantic_search.Storage.{Looks}
use rag_semantic_search.Index.{Backend, ingest_batch}
use rag_semantic_search.JobQueue.{ChunkJob, chunk_ids, claim_batch, complete_batch}
use rag_semantic_search.JobQueue.Counters.{IsCounted, Held, OneFile, complete_batch-IsCounted}
use rag_semantic_search.JobQueue.Failing.{fail_batch-IsCounted}
use rag_semantic_search.JobQueue.Claiming.{Claimed, claim_batch-Claimed}
use rag_semantic_search.Worker.{
  paired, read_texts, keep, empty, jobs_of, process_one_batch, index_texts, settle, ingest_kept,
  to_passage, process_claimed,
}

-- The pairs are the jobs, in order.
jobs_of-paired :
    (job : ChunkJob) (jobs : List ChunkJob) (t : Result Text)
    (rest : Result (List (ChunkJob × Text)))
    → ((pairs : List (ChunkJob × Text)) → rest ≡ ok pairs → jobs_of pairs ≡ jobs)
    → (pairs : List (ChunkJob × Text)) → paired job t rest ≡ ok pairs
    → jobs_of pairs ≡ job ∷ jobs
jobs_of-paired job jobs (err e) rest h pairs q = absurd (ground arith)
jobs_of-paired job jobs (ok text) (err e) h pairs q = absurd (ground arith)
jobs_of-paired job jobs (ok text) (ok ps) h [] q = absurd (ground arith)
jobs_of-paired job jobs (ok text) (ok ps) h (p ∷ pairs) q = ground (arith, h ps refl)

jobs_of-read_texts :
    (looks : ChunkJob → Looks) (jobs : List ChunkJob) (pairs : List (ChunkJob × Text))
    → read_texts looks jobs ≡ ok pairs
    → jobs_of pairs ≡ jobs
unfolding read_texts
jobs_of-read_texts looks [] pairs e = ground arith
jobs_of-read_texts looks (job ∷ jobs) pairs e =
    jobs_of-paired job jobs _ _ (jobs_of-read_texts looks jobs) pairs e

-- An id that is in no job is in no part of them.
is_in-split :
    (i : ℕ) (pairs : List (ChunkJob × Text))
    → is_in i (chunk_ids (jobs_of pairs)) ≡ false
    → (is_in i (chunk_ids (jobs_of (keep pairs))) ≡ false)
      × (is_in i (chunk_ids (empty pairs)) ≡ false)
unfolding is_in keep empty
is_in-split i [] h = (refl, refl)
is_in-split i ((job, []) ∷ pairs) h = ground (arith, is_in-split i pairs)
is_in-split i ((job, x ∷ xs) ∷ pairs) h = ground (arith, is_in-split i pairs)

-- Both parts of the jobs are held, and no row is in both.
HeldRows-split :
    (id : String) (cs : List ChunkRow) (pairs : List (ChunkJob × Text))
    → HeldRows id cs (chunk_ids (jobs_of pairs))
    → HeldRows id cs (chunk_ids (jobs_of (keep pairs)))
      × HeldRows id cs (chunk_ids (empty pairs))
      × Apart (chunk_ids (empty pairs)) (chunk_ids (jobs_of (keep pairs)))
unfolding keep empty
HeldRows-split id cs [] h = (tt, tt, tt)
HeldRows-split id cs ((job, []) ∷ pairs) h =
    let rest = HeldRows-split id cs pairs h.2 in
    let out = is_in-split job.chunk_id pairs h.1 in
    (rest.0, (h.0, out.1, rest.1), Apart-cons job.chunk_id _ _ out.0 rest.2)
HeldRows-split id cs ((job, x ∷ xs) ∷ pairs) h =
    let rest = HeldRows-split id cs pairs h.2 in
    let out = is_in-split job.chunk_id pairs h.1 in ((h.0, out.0, rest.0), rest.1, (out.1, rest.2))

OneFile-split :
    (id : String) (pairs : List (ChunkJob × Text))
    → OneFile id (jobs_of pairs)
    → OneFile id (jobs_of (keep pairs)) × OneFile id (empty pairs)
unfolding keep empty
OneFile-split id [] h = (tt, tt)
OneFile-split id ((job, []) ∷ pairs) h =
    let rest = OneFile-split id pairs h.1 in (rest.0, (h.0, rest.1))
OneFile-split id ((job, x ∷ xs) ∷ pairs) h =
    let rest = OneFile-split id pairs h.1 in ((h.0, rest.0), rest.1)

pub HeldRows-Held :
    (id : String) (db : Database) (jobs : List ChunkJob)
    → OneFile id jobs
    → HeldRows id db.chunks (chunk_ids jobs)
    → Held db jobs
HeldRows-Held id db [] h g = tt
HeldRows-Held id db (j ∷ jobs) h g =
    subst (λ i. HeldRows i db.chunks (chunk_ids (j ∷ jobs))) (sym h.0) g

pub Held-HeldRows :
    (id : String) (db : Database) (jobs : List ChunkJob)
    → OneFile id jobs
    → Held db jobs
    → HeldRows id db.chunks (chunk_ids jobs)
Held-HeldRows id db [] h g = tt
Held-HeldRows id db (j ∷ jobs) h g = subst (λ i. HeldRows i db.chunks (chunk_ids (j ∷ jobs))) h.0 g

-- The index takes what is left of a batch.
abbrev pub Takes : (b : Backend) → Settings → b.Collections → List (ChunkJob × Text) → Type 0
Takes b c s [] = Unit {0}
Takes b c s ((job, text) ∷ kept) =
    (ingest_batch b c s job.file_id (map to_passage ((job, text) ∷ kept))).0 ≡ none

-- What the passages of a batch may be: where they are read, all have text, or the index takes those
-- that have.
abbrev pub Orderly :
    (b : Backend) → Settings → (ChunkJob → Looks) → b.Collections → List ChunkJob → Type 0
Orderly b c looks s jobs =
    (pairs : List (ChunkJob × Text))
    → read_texts looks jobs ≡ ok pairs
    → (empty pairs ≡ []) ⊎ Takes b c s (keep pairs)

module _ (b : Backend) (describe : Raised → Text) (c : Settings) (now : Time) where
  settle-IsCounted :
      (db : Database) (jobs : List ChunkJob) (kept : List (ChunkJob × Text))
      (out : Option Text × b.Collections)
      → IsCounted db
      → Held db (jobs_of kept)
      → Held db jobs ⊎ (out.0 ≡ none)
      → IsCounted (settle b describe c now db jobs kept out).0
  settle-IsCounted db jobs kept (none, s) h held sound =
      complete_batch-IsCounted db (jobs_of kept) now h held
  settle-IsCounted db jobs kept (some message, s) h held (inl all) =
      fail_batch-IsCounted c db jobs message now h all
  settle-IsCounted db jobs kept (some message, s) h held (inr e) = absurd (ground arith)

  ingest_kept-IsCounted :
      (db : Database) (s : b.Collections) (jobs : List ChunkJob) (kept : List (ChunkJob × Text))
      → IsCounted db
      → Held db (jobs_of kept)
      → Held db jobs ⊎ Takes b c s kept
      → IsCounted (ingest_kept b describe c now db s jobs kept).0
  ingest_kept-IsCounted db s jobs [] h held sound = h
  ingest_kept-IsCounted db s jobs ((job, text) ∷ kept) h held (inl all) =
      settle-IsCounted db jobs ((job, text) ∷ kept) _ h held (inl all)
  ingest_kept-IsCounted db s jobs ((job, text) ∷ kept) h held (inr takes) =
      settle-IsCounted db jobs ((job, text) ∷ kept) _ h held (inr takes)

  read-IsCounted :
      (db : Database) (s : b.Collections) (id : String) (jobs : List ChunkJob)
      (pairs : List (ChunkJob × Text))
      → IsCounted db
      → OneFile id jobs
      → Held db jobs
      → jobs_of pairs ≡ jobs
      → (empty pairs ≡ []) ⊎ Takes b c s (keep pairs)
      → IsCounted (index_texts b describe c now db s jobs (ok pairs)).0
  read-IsCounted db s id jobs pairs h one held same orderly =
      let (kept_one, empty_one) = OneFile-split id pairs (rw same one) in
      let (kept, gone, apart) =
        HeldRows-split id db.chunks pairs (rw same (Held-HeldRows id db jobs one held)) in
      let db' = complete_batch db (empty pairs) now in
      let whole : Held db' jobs ⊎ Takes b c s (keep pairs) = elim orderly [
        | inl none_empty ↦ inl (
            subst (λ es. Held (complete_batch db es now) jobs) (sym none_empty)
              (unfold complete_batch in held))
        | inr takes ↦ inr takes
      ] in
      ingest_kept-IsCounted db' s jobs (keep pairs)
        (complete_batch-IsCounted db (empty pairs) now h
          (HeldRows-Held id db (empty pairs) empty_one gone))
        (HeldRows-Held id db' (jobs_of (keep pairs)) kept_one
          (complete_batch-HeldRows id db (empty pairs) _ now apart kept))
        whole

  index_texts-IsCounted :
      (looks : ChunkJob → Looks) (db : Database) (s : b.Collections) (id : String)
      (jobs : List ChunkJob) (texts : Result (List (ChunkJob × Text)))
      → read_texts looks jobs ≡ texts
      → IsCounted db
      → OneFile id jobs
      → Held db jobs
      → Orderly b c looks s jobs
      → IsCounted (index_texts b describe c now db s jobs texts).0
  index_texts-IsCounted looks db s id jobs (err e) q h one held orderly =
      fail_batch-IsCounted c db jobs (describe e) now h held
  index_texts-IsCounted looks db s id jobs (ok pairs) q h one held orderly =
      read-IsCounted db s id jobs pairs h one held (jobs_of-read_texts looks jobs pairs q)
        (orderly pairs q)

  process_claimed-IsCounted :
      (looks : ChunkJob → Looks) (db : Database) (s : b.Collections) (limit : ℕ)
      (out : List ChunkJob × Database)
      → Claimed db limit out
      → Orderly b c looks s out.0
      → IsCounted (process_claimed b describe c now looks s out).1
  process_claimed-IsCounted looks db s limit ([], db') claimed orderly = claimed.counted
  process_claimed-IsCounted looks db s limit (job ∷ jobs, db') claimed orderly =
      index_texts-IsCounted looks db' s claimed.one_file.0 (job ∷ jobs) _ refl claimed.counted
        claimed.one_file.1 claimed.held orderly

  -- On tables with right counters a batch that a worker processes keeps the counters of every file
  -- equal to the numbers of its rows, also where reads fail or the index refuses the batch; where
  -- some passages of the claimed batch turn out empty, the index has to take the others.
  pub process_one_batch-IsCounted :
      (looks : ChunkJob → Looks) (db : Database) (s : b.Collections)
      → IsCounted db
      → Orderly b c looks s (claim_batch c none db now).0
      → IsCounted (process_one_batch b describe c now looks db s).1
  unfolding process_one_batch
  process_one_batch-IsCounted looks db s h orderly =
      process_claimed-IsCounted looks db s _ _ (claim_batch-Claimed c none db now h) orderly
