-- ===== src/JobQueue/Claiming.antt =====
-- app/tasks/job_queue.py, `claim_batch`: what a worker gets, and what it leaves to others.
use rag_semantic_search.Prelude.{
  ℕ, suc, ◌≤◌, ◌≡◌, refl, sym, ap, subst, ◌∙◌, inl, inr, Bool, true, ◌&&◌, Option, List, [], ◌∷◌,
  map, arith, leb, length, length-take, String, str_eq, eq_iff, select, order_by, is_in,
  Option-cases,
}
use rag_semantic_search.Prelude.All.{All, All-map, Distinct}
use rag_semantic_search.Config.{Settings}
use rag_semantic_search.Database.{
  Time, ChunkStatus, FileRecord, ChunkRow, Database, is_pending, is_indexed, is_failed,
}
use rag_semantic_search.Files.{update_file, mark_processing_started, started}
use rag_semantic_search.Chunker.{or_default}
use rag_semantic_search.Chunks.{select_pending_for_file, oldest_pending_file, mark_processing}
use rag_semantic_search.Chunks.Lookup.{row_id, row_self, tally-update_where}
use rag_semantic_search.Chunks.Counts.{
  tally, Ascending, HeldRows, Apart, update_where-Ascending, tally-update_where_all,
}
use rag_semantic_search.JobQueue.{ChunkJob, chunk_ids, claim_batch, claim_rows, to_job}
use rag_semantic_search.JobQueue.Counters.{Counts, IsCounted, Held, OneFile, recount}
use rag_semantic_search.JobQueue.Selecting.{
  Selected, select-Selected, taken, HeldRows-claim, All-is_in, Selected-is_pending, others_held,
}

-- What a claim leaves: the counters are right, the jobs are rows in `processing` of one file, and
-- there are at most `limit` of them.
pub record Claimed (db : Database) (limit : ℕ) (out : List ChunkJob × Database) : Type 0 where
  pub counted : IsCounted out.1
  pub held : Held out.1 out.0
  pub within : length out.0 ≤ limit
  pub one_file : (id : String) × OneFile id out.0
  pub others :
      (other : String) (is : List ℕ)
      → HeldRows other db.chunks is
      → Apart (chunk_ids out.0) is × HeldRows other out.1.chunks is

unselected_counts :
    (q : ChunkStatus → Bool) (id j : String) (now : Time) (cs rows : List ChunkRow)
    → q ChunkStatus.pending ≡ q ChunkStatus.processing
    → Ascending 0 cs
    → All (Selected id cs) rows
    → tally q j (taken id now cs (map row_id rows)) ≡ tally q j cs
unselected_counts q id j now cs rows even a h =
    tally-update_where q j (λ c. is_in c.chunk_id (map row_id rows))
      (λ c. record c { status = ChunkStatus.processing; updated_at = now }) cs (λ c. (refl, refl))
      (All-map cs
        (λ c g t.
          sym even
          ∙ ap q (sym (of_pending c.status (Selected-is_pending id c.chunk_id cs rows c h t g.1))))
        (row_self 0 cs a))
  where
    of_pending : (s : ChunkStatus) → is_pending s ≡ true → s ≡ ChunkStatus.pending
    of_pending s t = ground arith

length-select_pending_for_file :
    (db : Database) (id : String) (limit : ℕ) → length (select_pending_for_file db id limit) ≤ limit
unfolding select_pending_for_file
length-select_pending_for_file db id limit = omega (
  arith,
  length-take limit (
      order_by (λ (c d : ChunkRow). leb c.sequence d.sequence)
        (select (λ (c : ChunkRow). is_pending c.status && str_eq c.file_id id) db.chunks)),
)

pub chunk_ids-to_job : (rows : List ChunkRow) → chunk_ids (map to_job rows) ≡ map row_id rows
chunk_ids-to_job [] = refl
chunk_ids-to_job (c ∷ rows) = ap (λ is. c.chunk_id ∷ is) (chunk_ids-to_job rows)

to_job-OneFile :
    (id : String) (cs rows : List ChunkRow)
    → All (Selected id cs) rows
    → OneFile id (map to_job rows)
to_job-OneFile id cs [] h = tt
to_job-OneFile id cs (c ∷ rows) h = ((eq_iff c.file_id id).0 h.0.2, to_job-OneFile id cs rows h.1)

length-to_job : (rows : List ChunkRow) → length (map to_job rows) ≡ length rows
length-to_job [] = refl
length-to_job (c ∷ rows) = ap suc (length-to_job rows)

module _ (db : Database) (id : String) (limit : ℕ) (now : Time) (counted : IsCounted db) where
  claimed_counts :
      (rows : List ChunkRow)
      → All (Selected id db.chunks) rows
      → IsCounted (mark_processing_started (mark_processing db (map row_id rows) now) id now)
  unfolding mark_processing_started mark_processing
  claimed_counts rows h =
      let kept =
        λ (j : String) (r : FileRecord) (k : Counts j r db.chunks). kept_counts rows h j r k in
      recount db id
        (λ r. record r { processing_status = started r.processing_status; updated_at = now })
        (taken id now db.chunks (map row_id rows)) (λ r. refl) counted
        (update_where-Ascending _ 0 _ db.chunks (λ c. (refl, refl)) counted.ascending)
        (λ r k.
          let k' = kept id r k in
          record { total = k'.total; indexed = k'.indexed; failed = k'.failed })
        (λ j r ne k. kept j r k)
    where
      kept_counts :
          (rows : List ChunkRow)
          → All (Selected id db.chunks) rows
          → (j : String) (r : FileRecord) → Counts j r db.chunks
          → Counts j r (taken id now db.chunks (map row_id rows))
      kept_counts rows h j r k = record {
        total = k.total ∙ sym (tally-update_where_all _ _ (λ c. (refl, refl)) j db.chunks);
        indexed =
            k.indexed
            ∙ sym (unselected_counts is_indexed id j now db.chunks rows refl counted.ascending h);
        failed =
            k.failed
            ∙ sym (unselected_counts is_failed id j now db.chunks rows refl counted.ascending h);
      }

  claim_rows-Claimed :
      (rows : List ChunkRow)
      → All (Selected id db.chunks) rows
      → Distinct row_id rows
      → length rows ≤ limit
      → Claimed db limit (claim_rows db id rows now)
  unfolding mark_processing_started mark_processing update_file
  claim_rows-Claimed [] h d l = record {
    counted = counted;
    held = tt;
    within = omega arith;
    one_file = (id, tt);
    others = λ other is g. (apart_nil is, g);
  }
    where
      apart_nil : (is : List ℕ) → Apart [] is
      apart_nil [] = tt
      apart_nil (i ∷ is) = (unfold is_in in refl, apart_nil is)
  claim_rows-Claimed (c ∷ rows) h d l =
      let all = c ∷ rows in
      let mine : c.file_id ≡ id = (eq_iff c.file_id id).0 h.0.2 in
      let same = sym (chunk_ids-to_job all) in
      let cs = taken id now db.chunks (map row_id all) in
      record {
        counted = claimed_counts all h;
        held =
            subst (λ f. HeldRows f cs (chunk_ids (map to_job all))) (sym mine)
              (subst (HeldRows id cs) same
                (HeldRows-claim id now db.chunks (map row_id all) all h (All-is_in all) d));
        within = omega (arith, length-to_job rows);
        one_file = (id, to_job-OneFile id db.chunks all h);
        others = λ other is g.
            let (apart, kept) = others_held id other now db.chunks all is h g in
            (subst (λ js. Apart js is) same apart, kept);
      }

-- On tables with right counters a claim gives at most the limit of rows in `processing`, all of
-- one file, and none that another
-- worker holds; what others hold they keep, and the counters of every file stay right.
pub claim_batch-Claimed :
    (c : Settings) (limit : Option ℕ) (db : Database) (now : Time)
    → IsCounted db
    → Claimed db (or_default limit c.claim_batch_size) (claim_batch c limit db now)
unfolding claim_batch
claim_batch-Claimed c limit db now h = elim (Option-cases (oldest_pending_file db)) [
  | inl idle ↦
      rw (idle, claim_batch)
        (claim_rows-Claimed db "" (or_default limit c.claim_batch_size) now h [] tt tt
          (omega arith))
  | inr (id, e) ↦
      let n = or_default limit c.claim_batch_size in
      let (selected, distinct) = select-Selected db id n h.ascending in
      rw (e, claim_batch)
        (claim_rows-Claimed db id n now h (select_pending_for_file db id n) selected distinct
          (length-select_pending_for_file db id n))
]
