-- ===== src/Worker/Emptying.antt =====
-- app/tasks/worker.py, `drain_once`: each batch takes attempts away, so the loop ends, and it ends on
-- an empty queue.
use rag_semantic_search.Prelude.{
  ℕ, zero, suc, ◌+◌, ◌≤◌, ◌<◌, ◌≡◌, refl, subst, ◌⊎◌, inl, inr, Bool, false, ◌&&◌, Option, some,
  none, List, [], ◌∷◌, arith, leb, select, order_by, length, String, str_eq, str_refl, length-take,
  Option-cases,
}
use rag_semantic_search.Prelude.All.{All, All-map, Distinct, length-insert_by}
use rag_semantic_search.Config.{Settings}
use rag_semantic_search.Utf8.{Text}
use rag_semantic_search.Chunker.{or_default}
use rag_semantic_search.Database.{Time, ChunkRow, Database, is_pending}
use rag_semantic_search.Errors.{Raised}
use rag_semantic_search.Chunks.{oldest_pending_file, first_pending, select_pending_for_file}
use rag_semantic_search.Chunks.Lookup.{row_id}
use rag_semantic_search.Chunks.Counts.{tally, Ascending}
use rag_semantic_search.Storage.{Looks}
use rag_semantic_search.Index.{Backend}
use rag_semantic_search.JobQueue.{ChunkJob, claim_batch, claim_rows}
use rag_semantic_search.JobQueue.Selecting.{select-Selected}
use rag_semantic_search.Worker.{process_one_batch, process_claimed, drain_from, drain_once}
use rag_semantic_search.Worker.Attempts.{attempts_left}
use rag_semantic_search.Worker.Draining.{Waits}
use rag_semantic_search.Worker.Progress.{Progress, process_rows-Progress}

-- A queue from which nothing is claimed is empty.
pub first_pending-none :
    (id : String) (cs : List ChunkRow) → first_pending cs ≡ none → tally is_pending id cs ≡ 0
unfolding first_pending
first_pending-none id [] e = refl
first_pending-none id (r ∷ cs) e = ground (arith, first_pending-none id cs)

first_pending-select :
    (id : String) (cs : List ChunkRow)
    → first_pending cs ≡ some id
    → 0 < length (select (λ r. is_pending r.status && str_eq r.file_id id) cs)
unfolding first_pending select
first_pending-select id [] e = absurd (ground arith)
first_pending-select id (r ∷ cs) e = ground (arith, first_pending-select id cs, str_refl id)

length-order_by :
    (before : ChunkRow → ChunkRow → Bool) (cs : List ChunkRow)
    → 0 < length cs
    → 0 < length (order_by before cs)
unfolding order_by
length-order_by before [] h = h
length-order_by before (r ∷ cs) h = length-insert_by before r (order_by before cs)

pub selected-some :
    (db : Database) (id : String) (n : ℕ)
    → 0 < n
    → oldest_pending_file db ≡ some id
    → 0 < length (select_pending_for_file db id n)
unfolding oldest_pending_file select_pending_for_file
selected-some db id n h e =
    let rows = select (λ r. is_pending r.status && str_eq r.file_id id) db.chunks in
    let before : ChunkRow → ChunkRow → Bool = λ r s. leb r.sequence s.sequence in
    omega (
      arith,
      h,
      length-take n (order_by before rows),
      length-order_by before rows (first_pending-select id db.chunks e),
    )

module _ (b : Backend) (describe : Raised → Text) (c : Settings)
    (positive : 0 < c.claim_batch_size) where
  -- What a batch does to a queue: there is nothing in it, or there are fewer attempts left after it.
  pub process_one_batch-cases :
      (now : Time) (looks : ChunkJob → Looks) (db : Database) (s : b.Collections)
      → Ascending 0 db.chunks
      → ((process_one_batch b describe c now looks db s ≡ (false, db, s))
          × ((id : String) → tally is_pending id db.chunks ≡ 0))
        ⊎ Progress b describe c now db (process_one_batch b describe c now looks db s)
  unfolding process_one_batch claim_batch
  process_one_batch-cases now looks db s a = elim (Option-cases (oldest_pending_file db)) [
    | inl idle ↦ inl (
      rw (idle, process_one_batch, claim_batch) refl,
      λ id. first_pending-none id db.chunks (unfold oldest_pending_file in idle),
    )
    | inr (id, e) ↦
        let n = or_default none c.claim_batch_size in
        let (selected, distinct) = select-Selected db id n a in
        rw (e, process_one_batch, claim_batch)
          (inr (
            rows-Progress id (select_pending_for_file db id n) distinct
              (All-map (select_pending_for_file db id n) (λ r h. (h.0, h.1)) selected)
              (selected-some db id n positive e)))
  ]
    where
      rows-Progress :
          (id : String) (rows : List ChunkRow)
          → Distinct row_id rows
          → All (Waits db.chunks) rows
          → 0 < length rows
          → Progress b describe c now db
              (process_claimed b describe c now looks s (claim_rows db id rows now))
      rows-Progress id [] d h l = absurd (omega arith)
      rows-Progress id (r ∷ rows) d h l =
          process_rows-Progress b describe c now looks id db s r rows a d h

-- What a loop that has ended leaves: it took at most so many turns, and nothing waits in the queue.
pub record Drained (b : Backend) (turns : ℕ) (out : Option (ℕ × Database × b.Collections))
    : Type 0 where
  pub result : ℕ × Database × b.Collections
  pub ends : out ≡ some result
  pub within : result.0 ≤ turns
  pub emptied : (id : String) → tally is_pending id result.1.chunks ≡ 0

module _ (b : Backend) (describe : Raised → Text) (c : Settings) (clock : ℕ → Time)
    (looks : ℕ → ChunkJob → Looks) (positive : 0 < c.claim_batch_size) where
  drain_from-Drained :
      (fuel turns : ℕ) (db : Database) (s : b.Collections)
      → Ascending 0 db.chunks
      → attempts_left c db.chunks < fuel
      → Drained b
          (turns + attempts_left c db.chunks)
          (drain_from b describe c clock looks fuel turns db s)
  unfolding drain_from
  drain_from-Drained zero turns db s a l = absurd (omega arith)
  drain_from-Drained (suc fuel) turns db s a l =
      elim (process_one_batch-cases b describe c positive (clock turns) (looks turns) db s a) [
        | inl (idle, nothing) ↦ rw idle (record {
          result = (turns, db, s);
          ends = refl;
          within = omega arith;
          emptied = nothing;
        })
        | inr (more, n, fewer, left) ↦
            let (processed, db', s') =
              process_one_batch b describe c (clock turns) (looks turns) db s in
            let rest =
              drain_from-Drained fuel (turns + 1) db' s' left.ascending
                (omega (arith, left.within)) in
            rw more (record {
              result = rest.result;
              ends = rest.ends;
              within = omega (arith, rest.within, left.within);
              emptied = rest.emptied;
            })
      ]

  -- On a table in the order of its ids, however reads and the index fail, the loop ends where a batch
  -- may have a passage at all: with more
  -- fuel than the bound on the attempts of the passages that wait, it takes at most so many turns, and
  -- nothing waits in the queue after it.
  pub drain_once-Drained :
      (fuel : ℕ) (db : Database) (s : b.Collections)
      → Ascending 0 db.chunks
      → attempts_left c db.chunks < fuel
      → Drained b (attempts_left c db.chunks) (drain_once b describe c clock looks fuel db s)
  unfolding drain_once
  drain_once-Drained fuel db s a l =
      let none_yet : 0 + attempts_left c db.chunks ≡ attempts_left c db.chunks = omega arith in
      subst (λ n. Drained b n (drain_from b describe c clock looks fuel 0 db s)) none_yet
        (drain_from-Drained fuel 0 db s a l)
