-- ===== src/WorkerPool.antt =====
-- app/tasks/worker.py, `WorkerPool`, `start_workers` and `stop_workers`, and app/main.py, the lifespan
-- and the health check: the threads as a list with a flag for each that is alive. What a start of
-- Qdrant answers and what the `join` of a thread raises is not in the repository and is an argument.
pub mod Lifespan
use rag_semantic_search.Prelude.{
  ℕ, zero, suc, ◌+◌, ◌⊎◌, inl, inr, Bool, true, false, ◌||◌, Option, none, some, List, [], ◌∷◌,
  ◌++◌, if◌then◌else◌, String,
}
use rag_semantic_search.Config.{Settings}
use rag_semantic_search.Utf8.{Text}
use rag_semantic_search.Chunker.{or_default}
use rag_semantic_search.Database.{Database, Time, init_db}
use rag_semantic_search.JobQueue.{recover_stuck_jobs, pending_count}

-- `stopping` is the event that the threads share; a worker is the flag of `is_alive`.
pub record WorkerPool : Type 0 where
  pub count : ℕ
  pub stopping : Bool
  pub workers : List Bool

-- WorkerPool(count)
abbrev pub worker_pool : Settings → Option ℕ → WorkerPool
worker_pool c none = record { count = c.worker_count; stopping = false; workers = [] }
worker_pool c (some count) = record { count = count; stopping = false; workers = [] }

-- the loop over range(count): each thread is started and appended
unfoldable pub spawn : ℕ → List Bool → List Bool
spawn zero workers = workers
spawn (suc n) workers = spawn n (workers ++ true ∷ [])

abbrev pub or_else : Option Text → Option Text → Option Text
or_else (some raised) rest = some raised
or_else none rest = rest

abbrev pub start_with : WorkerPool → List Bool → WorkerPool
start_with pool [] = record pool { stopping = false; workers = spawn pool.count [] }
start_with pool (w ∷ ws) = pool

unfoldable pub start : WorkerPool → WorkerPool
unfolding spawn
start pool = start_with pool pool.workers

-- what the first `join` that raises raises; `joins` gives what the i-th does
unfoldable pub join_all : (ℕ → Option Text) → ℕ → List Bool → Option Text
join_all joins i [] = none
join_all joins i (w ∷ ws) = or_else (joins i) (join_all joins (i + 1) ws)

abbrev pub cleared : WorkerPool → Option Text → Option Text × WorkerPool
cleared pool none = (none, record pool { stopping = true; workers = [] })
cleared pool (some raised) = (some raised, record pool { stopping = true })

unfoldable pub stop : (ℕ → Option Text) → WorkerPool → Option Text × WorkerPool
unfolding join_all
stop joins pool = cleared pool (join_all joins 0 pool.workers)

unfoldable pub any_alive : List Bool → Bool
any_alive [] = false
any_alive (w ∷ ws) = w || any_alive ws

unfoldable pub running : WorkerPool → Bool
unfolding any_alive
running pool = any_alive pool.workers

-- The global `_pool`, before and after.
unfoldable pub start_workers : Settings → Option WorkerPool → WorkerPool × Option WorkerPool
unfolding start
start_workers c none = (start (worker_pool c none), some (start (worker_pool c none)))
start_workers c (some pool) = (start pool, some (start pool))

abbrev pub forget : Option Text × WorkerPool → Option Text × Option WorkerPool
forget (none, pool) = (none, none)
forget (some raised, pool) = (some raised, some pool)

unfoldable pub stop_workers :
    (ℕ → Option Text) → Option WorkerPool → Option Text × Option WorkerPool
unfolding stop
stop_workers joins none = (none, none)
stop_workers joins (some pool) = forget (stop joins pool)

-- The process: the tables, which stay when it ends, the pool, and whether the thread that runs the
-- lifespan has a connection.
pub record Process : Type 0 where
  pub db : Database
  pub pool : Option WorkerPool
  pub connected : Bool

-- `lifespan` up to its `yield`: the text of what Qdrant's client raised, or the number of recovered
-- passages with the process. The tables are those of the file, which `init_db` leaves as they are.
unfoldable pub start_up : Settings → Option Text → Process → Time → (Text ⊎ ℕ) × Process
unfolding recover_stuck_jobs start_workers
start_up c (some raised) p now = (inl raised, record p { connected = true })
start_up c none p now =
    let (recovered, db) = recover_stuck_jobs p.db now in
    (inr recovered, record { db = db; pool = (start_workers c p.pool).1; connected = true })

-- `lifespan` after its `yield`: a join that raises leaves the connection open
abbrev pub disconnected : Process → Option Text × Option WorkerPool → Option Text × Process
disconnected p (none, pool) = (none, record p { pool = pool; connected = false })
disconnected p (some raised, pool) = (some raised, record p { pool = pool })

unfoldable pub shut_down : (ℕ → Option Text) → Process → Option Text × Process
unfolding stop_workers
shut_down joins p = disconnected p (stop_workers joins p.pool)

pub record Health : Type 0 where
  pub status : String
  pub workers_running : Bool
  pub queue_depth : ℕ
  pub qdrant_reachable : Bool

abbrev pub is_running : Option WorkerPool → Bool
is_running none = false
is_running (some pool) = running pool

-- GET /health; `raised` is what Qdrant's client raised
unfoldable pub health : Option Text → Process → Health
unfolding pending_count running
health none p = record {
  status = "ok";
  workers_running = is_running p.pool;
  queue_depth = pending_count p.db none;
  qdrant_reachable = true;
}
health (some raised) p = record {
  status = "degraded";
  workers_running = is_running p.pool;
  queue_depth = pending_count p.db none;
  qdrant_reachable = false;
}
