-- ===== src/WorkerPool/Lifespan.antt =====
-- app/main.py and app/tasks/worker.py: what holds of the process once it is up.
use rag_semantic_search.Prelude.{
  ℕ, zero, suc, ◌+◌, ◌<◌, ◌≡◌, refl, ap, ap₂, ◌∙◌, some, Bool, true, false, ◌||◌, none, some, List,
  [], ◌∷◌, ◌++◌, arith, length, Option, length-append, count_where, update_where,
}
use rag_semantic_search.Config.{Settings}
use rag_semantic_search.Utf8.{Text}
use rag_semantic_search.Database.{Database, Time, ChunkRow}
use rag_semantic_search.Chunks.{is_queued}
use rag_semantic_search.Chunks
use rag_semantic_search.JobQueue.{pending_count}
use rag_semantic_search.JobQueue.Recovering.{chunks-recover_stuck_jobs, reset}
use rag_semantic_search.WorkerPool.{
  WorkerPool, Process, start, stop, join_all, start_with, spawn, any_alive, running, start_workers,
  stop_workers, start_up, shut_down, health,
}

length-spawn : (n : ℕ) (ws : List Bool) → length (spawn n ws) ≡ n + length ws
unfolding spawn
length-spawn zero ws = omega arith
length-spawn (suc n) ws =
    omega (arith, length-spawn n (ws ++ true ∷ []), length-append ws (true ∷ []))

any_alive-append : (ws vs : List Bool) → any_alive (ws ++ vs) ≡ (any_alive ws || any_alive vs)
unfolding any_alive
any_alive-append [] vs = refl
any_alive-append (w ∷ ws) vs = ground (arith, any_alive-append ws vs)

any_alive-spawn-true :
    (n : ℕ) (ws : List Bool) → any_alive ws ≡ true → any_alive (spawn n ws) ≡ true
unfolding spawn
any_alive-spawn-true zero ws h = h
any_alive-spawn-true (suc n) ws h =
    any_alive-spawn-true n (ws ++ true ∷ []) (ground (arith, any_alive-append ws (true ∷ [])))

any_alive-spawn : (n : ℕ) → 0 < n → any_alive (spawn n []) ≡ true
unfolding spawn any_alive
any_alive-spawn zero h = absurd (omega arith)
any_alive-spawn (suc n) h = any_alive-spawn-true n (true ∷ []) refl

-- A reset of stuck passages leaves the length of the queue as it is.
count_where-reset :
    (now : Time) (cs : List ChunkRow)
    → count_where (λ c. is_queued c.status) (reset now cs)
      ≡ count_where (λ c. is_queued c.status) cs
unfolding count_where update_where
count_where-reset now [] = refl
count_where-reset now (c ∷ cs) = ground (arith, count_where-reset now cs)

start_with-alive :
    (pool : WorkerPool) (ws : List Bool) → any_alive ws ≡ true → start_with pool ws ≡ pool
unfolding any_alive
start_with-alive pool [] h = absurd (ground arith)
start_with-alive pool (w ∷ ws) h = refl

-- Where no join raises, no thread is left.
join_all-none :
    (joins : ℕ → Option Text) (i : ℕ) (ws : List Bool)
    → ((n : ℕ) → joins n ≡ none)
    → join_all joins i ws ≡ none
unfolding join_all
join_all-none joins i [] h = refl
join_all-none joins i (w ∷ ws) h = ground (arith, h i, join_all-none joins (i + 1) ws h)

join_all-first :
    (joins : ℕ → Option Text) (i : ℕ) (ws : List Bool) (raised : Text)
    → any_alive ws ≡ true
    → joins i ≡ some raised
    → join_all joins i ws ≡ some raised
unfolding join_all any_alive
join_all-first joins i [] raised alive e = absurd (ground arith)
join_all-first joins i (w ∷ ws) raised alive e = ground (arith, e)

module _ (c : Settings) (db : Database) (now : Time) (joins : ℕ → Option Text) where
  abbrev up : Process
  up = (start_up c none (record { db = db; pool = none; connected = false }) now).1

  -- After a start with Qdrant within reach, of a process that has no pool yet and is to have workers,
  -- the health check says that all is well and that as many passages are queued as before, those that
  -- a worker held at the last end included; there are as many workers as configured, and a second
  -- start of the workers adds none; and where the join of no thread raises, the end raises nothing and
  -- closes the connection, and the health check then finds no worker running, which does not say that
  -- a thread whose join timed out has ended.
  pub start_up-health :
      0 < c.worker_count
      → ((n : ℕ) → joins n ≡ none)
      → (health none up ≡ record {
        status = "ok";
        workers_running = true;
        queue_depth = pending_count db none;
        qdrant_reachable = true;
      })
        × (length (start_workers c none).0.workers ≡ c.worker_count)
        × (start_workers c (start_workers c none).1 ≡ start_workers c none)
        × ((shut_down joins up).0 ≡ none)
        × ((health none (shut_down joins up).1).workers_running ≡ false)
        × ((shut_down joins up).1.connected ≡ false)
  unfolding start_up shut_down health start_workers stop_workers start stop running pending_count
      Chunks.pending_count
  start_up-health positive joined =
      let workers = spawn c.worker_count [] in
      let alive = any_alive-spawn c.worker_count positive in
      let pool : WorkerPool = record {
        count = c.worker_count;
        stopping = false;
        workers = workers;
      } in
      let cs = chunks-recover_stuck_jobs db now in
      let all_joined = join_all-none joins 0 workers joined in
      (
        ap₂
            (λ b n. record {
              status = "ok";
              workers_running = b;
              queue_depth = n;
              qdrant_reachable = true;
            })
            alive (count_where-reset now db.chunks),
        omega (arith, length-spawn c.worker_count []),
        ap (λ p. (p, some p)) (start_with-alive pool workers alive),
        rw all_joined,
        rw all_joined,
        rw all_joined,
      )

  -- After such a start, the end passes on what the first join raises: the workers stay in the pool,
  -- with their event set, the connection stays open, and a further start of the workers in the process
  -- starts none and leaves the event set.
  pub shut_down-raised :
      (raised : Text)
      → 0 < c.worker_count
      → joins 0 ≡ some raised
      → (shut_down joins up ≡ (
        some raised,
        record up { pool = some (record (start_workers c none).0 { stopping = true }) },
      ))
        × (up.connected ≡ true)
        × ((start_workers c (shut_down joins up).1.pool).0.stopping ≡ true)
        × (length (start_workers c (shut_down joins up).1.pool).0.workers ≡ c.worker_count)
  unfolding start_up shut_down start_workers stop_workers start stop
  shut_down-raised raised positive first =
      let workers = spawn c.worker_count [] in
      let alive = any_alive-spawn c.worker_count positive in
      let pool : WorkerPool = record {
        count = c.worker_count;
        stopping = true;
        workers = workers;
      } in
      let kept = start_with-alive pool workers alive in
      let raises = join_all-first joins 0 workers raised alive first in
      (
        rw raises,
        refl,
        rw raises (ap (λ p. p.stopping) kept),
        rw raises (ap (λ p. length p.workers) kept ∙ omega (arith, length-spawn c.worker_count [])),
      )
