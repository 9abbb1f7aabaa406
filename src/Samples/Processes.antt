-- ===== src/Samples/Processes.antt =====
-- A process that starts on the tables of the queue's samples, the loop that empties their queue, and a
-- thread on them.
use rag_semantic_search.Prelude.{
  ℕ, ◌≡◌, refl, true, false, none, some, [], ◌∷◌, ◌==◌, arith, length, ltb,
}
use rag_semantic_search.Config.{defaults}
use rag_semantic_search.Errors.{Raised}
use rag_semantic_search.JobQueue.{pending_count}
use rag_semantic_search.Worker.{drain_once}
use rag_semantic_search.Worker.Emptying.{Drained, drain_once-Drained}
use rag_semantic_search.Worker.Thread.{Outage, run}
use rag_semantic_search.Worker.Running.{Finished, available_turns, run-Finished}
use rag_semantic_search.WorkerPool.{Process, start_workers, start_up, shut_down, health}
use rag_semantic_search.WorkerPool.Lifespan.{start_up-health, shut_down-raised}
use rag_semantic_search.Samples.Queue.{db}
use rag_semantic_search.Samples.Batches.{listed, describe, looks}

abbrev started : Process
started = (start_up defaults none (record { db = db; pool = none; connected = false }) 9).1

start_up-health_example :
    (health none started ≡ record {
      status = "ok";
      workers_running = true;
      queue_depth = pending_count db none;
      qdrant_reachable = true;
    })
    × (length (start_workers defaults none).0.workers ≡ 2)
    × (start_workers defaults (start_workers defaults none).1 ≡ start_workers defaults none)
    × ((shut_down (λ n. none) started).0 ≡ none)
    × ((health none (shut_down (λ n. none) started).1).workers_running ≡ false)
    × ((shut_down (λ n. none) started).1.connected ≡ false)
start_up-health_example = start_up-health defaults db 9 (λ n. none) (omega arith) (λ n. refl)

shut_down-raised_example :
    (shut_down (λ n. some (69 ∷ [])) started ≡ (
      some (69 ∷ []),
      record started { pool = some (record (start_workers defaults none).0 { stopping = true }) },
    ))
    × (started.connected ≡ true)
    × ((start_workers defaults (shut_down (λ n. some (69 ∷ [])) started).1.pool).0.stopping ≡ true)
    × (length (start_workers defaults (shut_down (λ n. some (69 ∷ [])) started).1.pool).0.workers
        ≡ 2)
shut_down-raised_example =
    shut_down-raised defaults db 9 (λ n. some (69 ∷ [])) (69 ∷ []) (omega arith) refl

-- one passage waits, after two attempts
drain_once-Drained_example :
    Drained listed 2 (drain_once listed describe defaults (λ n. n) (λ n. looks) 3 db [])
drain_once-Drained_example =
    drain_once-Drained listed describe defaults (λ n. n) (λ n. looks) (omega arith) 3 db []
      (omega arith) (omega arith)

-- In the first turn the claim raises, in the second the end of the batch, and in the third that and
-- what should record its failure; the thread is told to stop in the sixth.
abbrev outage : ℕ → Outage
outage n = record {
  claims = ltb 0 n;
  completes_empty = ltb 2 n;
  completes = ltb 2 n;
  fails = n == 1;
  error = Raised.os_error;
}

run-Finished_example :
    Finished listed defaults 5 2
      (available_turns outage 0 5)
      (run listed describe defaults (λ n. n) (λ n. looks) (λ n. n == 5) outage 6 db [])
run-Finished_example =
    run-Finished listed describe defaults (λ n. n) (λ n. looks) (λ n. n == 5) outage (omega arith) 5
      (λ i below. ground arith) refl 6 db [] (omega arith) (omega arith)
