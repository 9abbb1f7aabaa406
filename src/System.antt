-- ===== src/System.antt =====
-- app/services/upload_service.py with app/tasks/worker.py and app/tasks/job_queue.py: the requests of
-- all clients and the transactions of all workers, in any order. A step is one transaction on the
-- tables, or the rename of a completion, so that other callers come between the two transactions of a
-- completion and between the claim of a batch and its end. The jobs that workers hold stand in one
-- list; a worker ends each of its jobs once, with `complete_batch` or with `fail_batch`. So the batch
-- with empty passages whose other passages the index refuses, which ends the empty ones twice, is not
-- among the steps.
pub mod Holding
pub mod Ending
pub mod Changing
pub mod Batches
pub mod Soundness
pub mod Passages
pub mod Settling
pub mod Moving
pub mod Refining
pub mod Retries
pub mod Attempts
use rag_semantic_search.Prelude.{ℕ, ◌≡◌, ◌≢◌, Bool, not, Option, List, [], ◌++◌, select, String}
use rag_semantic_search.Prelude.All.{All}
use rag_semantic_search.Config.{Settings}
use rag_semantic_search.Config.Sizing.{Floats}
use rag_semantic_search.Utf8.{Text}
use rag_semantic_search.Database.{Time, Database, init_db}
use rag_semantic_search.Storage.{Disk}
use rag_semantic_search.World.{World, Exec}
use rag_semantic_search.UploadService.{
  create_upload, append_chunk, begin_completion, promote, end_completion, delete_upload,
}
use rag_semantic_search.JobQueue.{
  ChunkJob, claim_batch, complete_batch, fail_batch, recover_stuck_jobs,
}
use rag_semantic_search.JobQueue.Counters.{OneFile}

-- The tables, the disk and the clock, and the jobs that workers have claimed and not yet ended.
pub record System : Type 0 where
  pub world : World
  pub held : List ChunkJob

-- The program on an empty data directory.
abbrev pub initial : Disk → Time → System
initial disk now = record { world = record { db = init_db; disk = disk; now = now }; held = [] }

abbrev pub with_world : System → World → System
with_world s w = record s { world = w }

abbrev pub with_db : System → Database → List ChunkJob → System
with_db s db held = record { world = record s.world { db = db }; held = held }

-- `drop` is that of app/repositories/vector_repository.py.
module _ (f : Floats) (c : Settings) (drop : String → Exec (Unit {0})) where
  -- uuid4 gives no id that a worker still holds a job of; an id that is in the table is refused
  -- there.
  pub data Step (s : System) : System → Type 0 where
    create :
        (file_id owner filename : String) (total_size : ℕ)
        → All (λ j. j.file_id ≢ file_id) s.held
        → Step s (with_world s (create_upload file_id owner filename total_size s.world).1)
    append :
        (file_id owner : String) (offset : ℕ) (body : List ℕ)
        → Step s (with_world s (append_chunk f c file_id owner offset body s.world).1)
    begin :
        (file_id owner : String)
        → Step s (with_world s (begin_completion c file_id owner s.world).1)
    rename : (file_id : String) → Step s (with_world s (promote file_id s.world).1)
    end : (file_id : String) → Step s (with_world s (end_completion file_id s.world).1)
    delete :
        (file_id owner : String)
        → Step s (with_world s (delete_upload drop file_id owner s.world).1)
    claim :
        (limit : Option ℕ)
        → Step s (
            with_db s
              (claim_batch c limit s.world.db s.world.now).1
              ((claim_batch c limit s.world.db s.world.now).0 ++ s.held))
    complete :
        (file_id : String) (mine : ChunkJob → Bool)
        → OneFile file_id (select mine s.held)
        → Step s (
            with_db s
              (complete_batch s.world.db (select mine s.held) s.world.now)
              (select (λ j. not (mine j)) s.held))
    fail :
        (file_id : String) (mine : ChunkJob → Bool) (error : Text)
        → OneFile file_id (select mine s.held)
        → Step s (
            with_db s
              (fail_batch c s.world.db (select mine s.held) error s.world.now)
              (select (λ j. not (mine j)) s.held))
    restart : Step s (with_db s (recover_stuck_jobs s.world.db s.world.now).1 [])
    tick : (now : Time) → Step s (with_world s (record s.world { now = now }))

  -- The states that steps lead to.
  pub data Reachable : System → Type 0 where
    start : (disk : Disk) (now : Time) → Reachable (initial disk now)
    after : {s t : System} → Reachable s → Step s t → Reachable t
