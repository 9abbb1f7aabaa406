-- ===== src/Worker.antt =====
-- app/tasks/worker.py: one batch of a worker, and the loop that drains the queue. The worker runs
-- alone on the tables; the disk may change between any two looks at it.
pub mod Batches
pub mod Attempts
pub mod Draining
pub mod Progress
pub mod Emptying
pub mod Turns
pub mod Agreeing
pub mod Running
pub mod Thread
use rag_semantic_search.Prelude.{
  ℕ, zero, suc, ◌+◌, Bool, true, false, not, Option, none, some, List, [], ◌∷◌, map, select,
  if◌then◌else◌,
}
use rag_semantic_search.Config.{Settings}
use rag_semantic_search.Utf8.{Text}
use rag_semantic_search.Database.{Database, Time}
use rag_semantic_search.Errors.{Raised, Result, ok, err}
use rag_semantic_search.Storage.{Looks, read_range}
use rag_semantic_search.Index.{Backend, IngestedPassage, ingest_batch}
use rag_semantic_search.JobQueue.{ChunkJob, claim_batch, complete_batch, fail_batch}

abbrev pub read_at : Looks → ChunkJob → Result Text
read_at l job =
    read_range l.look_1 l.look_2 l.look_3 l.look_4 job.file_id job.start_byte job.end_byte

abbrev pub paired :
    ChunkJob → Result Text → Result (List (ChunkJob × Text)) → Result (List (ChunkJob × Text))
paired job (err e) rest = err e
paired job (ok text) (err e) = err e
paired job (ok text) (ok pairs) = ok ((job, text) ∷ pairs)

-- the jobs with their texts, or what the first failing read raised
unfoldable pub read_texts : (ChunkJob → Looks) → List ChunkJob → Result (List (ChunkJob × Text))
read_texts looks [] = ok []
read_texts looks (job ∷ jobs) = paired job (read_at (looks job) job) (read_texts looks jobs)

abbrev pub add_kept : ChunkJob × Text → List (ChunkJob × Text) → List (ChunkJob × Text)
add_kept (job, []) pairs = pairs
add_kept (job, x ∷ xs) pairs = (job, x ∷ xs) ∷ pairs

abbrev pub add_empty : ChunkJob × Text → List ChunkJob → List ChunkJob
add_empty (job, []) jobs = job ∷ jobs
add_empty (job, x ∷ xs) jobs = jobs

-- keep, and empty
unfoldable pub keep : List (ChunkJob × Text) → List (ChunkJob × Text)
keep [] = []
keep (p ∷ pairs) = add_kept p (keep pairs)

unfoldable pub empty : List (ChunkJob × Text) → List ChunkJob
empty [] = []
empty (p ∷ pairs) = add_empty p (empty pairs)

abbrev pub jobs_of : List (ChunkJob × Text) → List ChunkJob
jobs_of = map (λ p. p.0)

abbrev pub to_passage : ChunkJob × Text → IngestedPassage
to_passage (job, text) = record {
  sequence = job.sequence;
  start_byte = job.start_byte;
  end_byte = job.end_byte;
  text = text;
}

-- `describe` is the text of `f"{type(exc).__name__}: {exc}"`.
module _ (b : Backend) (describe : Raised → Text) (c : Settings) (now : Time) where
  abbrev pub settle :
      Database
      → List ChunkJob
      → List (ChunkJob × Text)
      → Option Text × b.Collections
      → Database × b.Collections
  settle db jobs kept (none, s) = (complete_batch db (jobs_of kept) now, s)
  settle db jobs kept (some message, s) = (fail_batch c db jobs message now, s)

  -- from `if not keep` on
  abbrev pub ingest_kept :
      Database → b.Collections → List ChunkJob → List (ChunkJob × Text) → Database × b.Collections
  ingest_kept db s jobs [] = (db, s)
  ingest_kept db s jobs ((job, text) ∷ kept) =
      settle db jobs ((job, text) ∷ kept)
        (ingest_batch b c s job.file_id (map to_passage ((job, text) ∷ kept)))

  -- the body of the `try`, with its `except`
  abbrev pub index_texts :
      Database
      → b.Collections
      → List ChunkJob
      → Result (List (ChunkJob × Text))
      → Database × b.Collections
  index_texts db s jobs (err e) = (fail_batch c db jobs (describe e) now, s)
  index_texts db s jobs (ok pairs) =
      ingest_kept (complete_batch db (empty pairs) now) s jobs (keep pairs)

  -- the rest of a batch once it is claimed; `false` where there was nothing to do
  abbrev pub process_claimed :
      (ChunkJob → Looks)
      → b.Collections
      → List ChunkJob × Database
      → Bool × Database × b.Collections
  process_claimed looks s ([], db) = (false, db, s)
  process_claimed looks s (job ∷ jobs, db) =
      let (settled, s') = index_texts db s (job ∷ jobs) (read_texts looks (job ∷ jobs)) in
      (true, settled, s')

  unfoldable pub process_one_batch :
      (ChunkJob → Looks) → Database → b.Collections → Bool × Database × b.Collections
  unfolding claim_batch read_texts complete_batch fail_batch ingest_batch keep empty
  process_one_batch looks db s = process_claimed looks s (claim_batch c none db now)

-- The loop of `drain_once`, at its `batches`-th turn. Each turn has its own clock and its own looks at
-- the disk; the fuel bounds the turns, and `none` is a loop that has used it up.
module _ (b : Backend) (describe : Raised → Text) (c : Settings) (clock : ℕ → Time)
    (looks : ℕ → ChunkJob → Looks) where
  unfoldable pub drain_from :
      ℕ → ℕ → Database → b.Collections → Option (ℕ × Database × b.Collections)
  unfolding process_one_batch
  drain_from zero batches db s = none
  drain_from (suc fuel) batches db s =
      let (processed, db', s') =
        process_one_batch b describe c (clock batches) (looks batches) db s in
      let rest = drain_from fuel (batches + 1) db' s' in
      if processed then rest else some (batches, db', s')

  unfoldable pub drain_once : ℕ → Database → b.Collections → Option (ℕ × Database × b.Collections)
  unfolding drain_from
  drain_once fuel db s = drain_from fuel 0 db s
