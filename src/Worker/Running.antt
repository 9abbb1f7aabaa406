-- ===== src/Worker/Running.antt =====
-- app/tasks/worker.py, `run`: no outage of the database ends a worker's thread, and each claim that
-- is taken attempts what waits.
use rag_semantic_search.Prelude.{
  ℕ, zero, suc, ◌+◌, ◌-◌, ◌≤◌, ◌<◌, ◌≡◌, refl, ap, ◌∙◌, Bool, true, false, Option, some, arith,
  String,
}
use rag_semantic_search.Config.{Settings}
use rag_semantic_search.Utf8.{Text}
use rag_semantic_search.Database.{Time, Database, is_pending}
use rag_semantic_search.Errors.{Raised}
use rag_semantic_search.Chunks.Counts.{tally, Ascending}
use rag_semantic_search.Storage.{Looks}
use rag_semantic_search.Index.{Backend}
use rag_semantic_search.JobQueue.{ChunkJob}
use rag_semantic_search.Worker.Attempts.{attempts_left}
use rag_semantic_search.Worker.Thread.{Outage, Thread, turn, run_from, run}
use rag_semantic_search.Worker.Turns.{one_available, tally-le-attempts_left, try_batch-Leaves}

-- The turns among the n from `from` on in which the claim is taken.
unfoldable pub available_turns : (ℕ → Outage) → ℕ → ℕ → ℕ
available_turns outage from zero = 0
available_turns outage from (suc n) =
    one_available (outage from) + available_turns outage (from + 1) n

-- What a thread leaves that was told to stop in its n-th turn, from the attempts that were left and
-- the turns in which the claim was taken.
pub record Finished (b : Backend) (c : Settings) (n left taken : ℕ) (out : Option (Thread b))
    : Type 0 where
  pub result : Thread b
  pub ends : out ≡ some result
  pub turned : result.turns ≡ n
  pub waited : result.waits ≤ n
  pub released : result.connected ≡ false
  pub fewer : attempts_left c result.db.chunks ≤ left - taken
  pub waiting : (id : String) → tally is_pending id result.db.chunks ≤ left - taken

module _ (b : Backend) (describe : Raised → Text) (c : Settings) (clock : ℕ → Time)
    (looks : ℕ → ChunkJob → Looks) (stop_set : ℕ → Bool) (outage : ℕ → Outage)
    (positive : 0 < c.claim_batch_size) (last : ℕ) (go : (i : ℕ) → i < last → stop_set i ≡ false)
    (stop : stop_set last ≡ true) where
  run_from-Finished :
      (n fuel : ℕ) (t : Thread b)
      → Ascending 0 t.db.chunks
      → n < fuel
      → t.waits ≤ t.turns
      → t.turns + n ≡ last
      → Finished b c last
          (attempts_left c t.db.chunks)
          (available_turns outage t.turns n)
          (run_from b describe c clock looks stop_set outage fuel t)
  unfolding run_from turn available_turns
  run_from-Finished n zero t a l w e = absurd (omega arith)
  run_from-Finished zero (suc fuel) t a l w e =
      let same : t.turns ≡ last = omega (arith, e) in
      let here : stop_set t.turns ≡ true = ap stop_set same ∙ stop in
      rw here (record {
        result = record t { connected = false };
        ends = refl;
        turned = same;
        waited = omega (arith, w, same);
        released = refl;
        fewer = omega arith;
        waiting = λ id. omega (arith, tally-le-attempts_left c id t.db.chunks);
      })
  run_from-Finished (suc n) (suc fuel) t a l w e =
      let here : stop_set t.turns ≡ false = go t.turns (omega (arith, e)) in
      let step =
        try_batch-Leaves b describe c positive (clock t.turns) (looks t.turns) t (outage t.turns)
          a in
      let t' = turn b describe c clock looks stop_set outage t in
      let rest =
        run_from-Finished n fuel t' step.queue.ascending (omega arith)
          (omega (arith, step.waits, step.turns, w)) (omega (arith, step.turns, e)) in
      let same = ap (λ i. available_turns outage i n) step.turns in
      rw here (record {
        result = rest.result;
        ends = rest.ends;
        turned = rest.turned;
        waited = rest.waited;
        released = rest.released;
        fewer = omega (arith, rest.fewer, step.queue.within, same);
        waiting = λ id. omega (arith, rest.waiting id, step.queue.within, same);
      })

  -- On a table in the order of its ids, where a batch may have a passage at all and the thread is told
  -- to stop in its turn `last` and not before: with fuel for more turns than that, whatever reads and
  -- the index do and whichever of the transactions of a batch raise, also that of `fail_batch`, the
  -- thread ends after exactly `last` turns, waits at most once in each and gives its connection back;
  -- each turn whose claim is taken takes at least one of the attempts that are left, while there are
  -- any, and in the end no file has more passages waiting than there are attempts left.
  pub run-Finished :
      (fuel : ℕ) (db : Database) (s : b.Collections)
      → Ascending 0 db.chunks
      → last < fuel
      → Finished b c last
          (attempts_left c db.chunks)
          (available_turns outage 0 last)
          (run b describe c clock looks stop_set outage fuel db s)
  unfolding run
  run-Finished fuel db s a l =
      run_from-Finished last fuel
        (record { db = db; collections = s; connected = false; turns = 0; waits = 0 }) a l
        (omega arith) (omega arith)
