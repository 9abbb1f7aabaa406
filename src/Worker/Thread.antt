-- ===== src/Worker/Thread.antt =====
-- app/tasks/worker.py, `IndexingWorker`: the loop of a worker's thread, and what its `except` takes.
-- The stop event, the clock, the disk and the database's outages are functions of the turn.
use rag_semantic_search.Prelude.{
  ℕ, zero, suc, ◌+◌, Bool, true, false, Option, some, none, List, [], ◌∷◌, map, if◌then◌else◌,
}
use rag_semantic_search.Config.{Settings}
use rag_semantic_search.Utf8.{Text}
use rag_semantic_search.Database.{Database, Time}
use rag_semantic_search.Errors.{Raised, Result, ok, err}
use rag_semantic_search.Storage.{Looks}
use rag_semantic_search.Index.{Backend, ingest_batch}
use rag_semantic_search.JobQueue.{ChunkJob, claim_batch, complete_batch, fail_batch}
use rag_semantic_search.Worker.{read_texts, keep, empty, jobs_of, to_passage}

-- Which of the transactions of a turn SQLite takes: those of `claim_batch`, of the two calls of
-- `complete_batch` and of `fail_batch`. One that it does not take raises `error` and is rolled back.
pub record Outage : Type 0 where
  pub claims : Bool
  pub completes_empty : Bool
  pub completes : Bool
  pub fails : Bool
  pub error : Raised

-- A thread with what it works on; `connected` is whether it has a connection of its own.
pub record Thread (b : Backend) : Type 0 where
  pub db : Database
  pub collections : b.Collections
  pub connected : Bool
  pub turns : ℕ
  pub waits : ℕ

-- How a batch ends: with its result, or with an exception.
pub data Attempt (b : Backend) : Type 0 where
  returned : Bool → Database → b.Collections → Attempt b
  raised : Database → b.Collections → Attempt b

module _ (b : Backend) (describe : Raised → Text) (c : Settings) (now : Time)
    (looks : ChunkJob → Looks) where
  -- the `except` of `_process_one_batch`
  abbrev pub try_fail : Outage → Database → b.Collections → List ChunkJob → Text → Attempt b
  try_fail o db s jobs message =
      if o.fails then returned true (fail_batch c db jobs message now) s else raised db s

  -- the end of the `try`, from what `ingest_batch` gives
  abbrev pub try_settle :
      Outage
      → Database
      → List ChunkJob
      → List (ChunkJob × Text)
      → Option Text × b.Collections
      → Attempt b
  try_settle o db jobs kept (none, s) =
      if o.completes
      then returned true (complete_batch db (jobs_of kept) now) s
      else try_fail o db s jobs (describe o.error)
  try_settle o db jobs kept (some message, s) = try_fail o db s jobs message

  -- from `if not keep` on
  abbrev pub try_kept :
      Outage → Database → b.Collections → List ChunkJob → List (ChunkJob × Text) → Attempt b
  try_kept o db s jobs [] = returned true db s
  try_kept o db s jobs ((job, text) ∷ kept) =
      try_settle o db jobs ((job, text) ∷ kept)
        (ingest_batch b c s job.file_id (map to_passage ((job, text) ∷ kept)))

  -- from `if empty` on
  abbrev pub try_empty :
      Outage
      → Database
      → b.Collections
      → List ChunkJob
      → List ChunkJob
      → List (ChunkJob × Text)
      → Attempt b
  try_empty o db s jobs [] kept = try_kept o db s jobs kept
  try_empty o db s jobs (job ∷ done) kept =
      if o.completes_empty
      then try_kept o (complete_batch db (job ∷ done) now) s jobs kept
      else try_fail o db s jobs (describe o.error)

  abbrev pub try_texts :
      Outage
      → Database
      → b.Collections
      → List ChunkJob
      → Result (List (ChunkJob × Text))
      → Attempt b
  try_texts o db s jobs (err e) = try_fail o db s jobs (describe e)
  try_texts o db s jobs (ok pairs) = try_empty o db s jobs (empty pairs) (keep pairs)

  abbrev pub try_claimed : Outage → b.Collections → List ChunkJob × Database → Attempt b
  try_claimed o s ([], db) = returned false db s
  try_claimed o s (job ∷ jobs, db) = try_texts o db s (job ∷ jobs) (read_texts looks (job ∷ jobs))

  unfoldable pub try_batch : Outage → Database → b.Collections → Attempt b
  unfolding claim_batch read_texts keep empty ingest_batch complete_batch fail_batch
  try_batch o db s = if o.claims then try_claimed o s (claim_batch c none db now) else raised db s

-- the `except`, and the wait where nothing was processed
abbrev pub after_attempt : {b : Backend} → Thread b → Attempt b → Thread b
after_attempt t (returned processed db s) = record t {
  db = db;
  collections = s;
  connected = true;
  turns = t.turns + 1;
  waits = if processed then t.waits else t.waits + 1;
}
after_attempt t (raised db s) = record t {
  db = db;
  collections = s;
  connected = true;
  turns = t.turns + 1;
  waits = t.waits + 1;
}

-- db.close_connection()
abbrev pub closed : {b : Backend} → Thread b → Thread b
closed t = record t { connected = false }

module _ (b : Backend) (describe : Raised → Text) (c : Settings) (clock : ℕ → Time)
    (looks : ℕ → ChunkJob → Looks) (stop_set : ℕ → Bool) (outage : ℕ → Outage) where
  -- one pass of the loop
  unfoldable pub turn : Thread b → Thread b
  unfolding try_batch
  turn t =
      after_attempt t
        (try_batch b describe c (clock t.turns) (looks t.turns) (outage t.turns) t.db t.collections)

  -- The loop; the fuel bounds its turns, and `none` is a loop that still runs.
  unfoldable pub run_from : ℕ → Thread b → Option (Thread b)
  unfolding turn
  run_from zero t = none
  run_from (suc fuel) t =
      let rest = run_from fuel (turn t) in if stop_set t.turns then some (closed t) else rest

  unfoldable pub run : ℕ → Database → b.Collections → Option (Thread b)
  unfolding run_from
  run fuel db s =
      run_from fuel (record { db = db; collections = s; connected = false; turns = 0; waits = 0 })
