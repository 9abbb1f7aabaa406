-- ===== src/JobQueue/Soundness.antt =====
-- app/tasks/job_queue.py with app/db/db.py: what holds of the two tables between transactions.
use mathlib.Core.Option
use rag_semantic_search.Prelude.{
  ℕ, ◌+◌, ◌≤◌, ◌≡◌, ◌≢◌, refl, sym, ap, subst, ◌∙◌, ◌⊎◌, inl, inr, true, some, none, List, arith,
  length, String, str_eq, eq_iff, Bool-cases, Option-cases,
}
use rag_semantic_search.Prelude.All.{All}
use rag_semantic_search.Chunker.{PassageRange}
use rag_semantic_search.Database.{Time, FileRecord, Database, is_indexed, is_failed, init_db}
use rag_semantic_search.Files.{get, update_file}
use rag_semantic_search.Files.Lookup.{
  KeepsId, get-update_file, get-update_file_self, get-update_file_ne,
}
use rag_semantic_search.Chunks.Counts.{tally}
use rag_semantic_search.JobQueue.{enqueue}
use rag_semantic_search.JobQueue.Counters.{Counts, IsCounted}
use rag_semantic_search.JobQueue.Enqueue.{get-enqueue}
use rag_semantic_search.JobQueue.Filling.{Below, Filled, enqueue-Filled}

-- The counters are right, no row has an id that is still to be given, the passages of a file are
-- numbered below its next sequence, and no passage is left of a file that is not there.
pub record IsSound (db : Database) : Type 0 where
  pub counted : IsCounted db
  pub ids : All (λ c. c.chunk_id ≤ db.last_chunk_id) db.chunks
  pub numbered :
      (id : String) (r : FileRecord) → get db id ≡ some r → All (Below id r.next_sequence) db.chunks
  pub owned : (id : String) → get db id ≡ none → tally (λ _. true) id db.chunks ≡ 0

pub init_db-IsSound : IsSound init_db
unfolding get
init_db-IsSound = record {
  counted = record { ascending = tt; counted = λ id r e. ground arith };
  ids = tt;
  numbered = λ id r e. tt;
  owned = λ id e. refl;
}

-- A write that adds k passages to the total of a row, numbered from n on.
abbrev pub Adds : ℕ → ℕ → FileRecord → FileRecord → Type 0
Adds n k r r' =
    (r'.chunks_total ≡ r.chunks_total + k)
    × (r'.chunks_indexed ≡ r.chunks_indexed)
    × (r'.chunks_failed ≡ r.chunks_failed)
    × (r'.next_sequence ≡ n + k)

pub get-update_file-none :
    (db : Database) (id j : String) (set : FileRecord → FileRecord)
    → KeepsId set
    → get (update_file db id set) j ≡ none
    → get db j ≡ none
get-update_file-none db id j set k e = elim (Bool-cases (str_eq j id)) [
  | inl same ↦
      let eq : j ≡ id = (eq_iff j id).0 same in
      let e' : get (update_file db id set) id ≡ none =
        subst (λ i. get (update_file db id set) i ≡ none) eq e in
      let e'' : Option.map set (get db id) ≡ none = sym (get-update_file_self db id set k) ∙ e' in
      elim (Option-cases (get db id)) [
        | inl gone ↦ ap (get db) eq ∙ gone
        | inr (r, there) ↦ absurd (ground arith)
      ]
  | inr other ↦
      let ne : j ≢ id = λ eq. ground (arith, eq_iff j id) in
      sym (get-update_file_ne db id j set k ne) ∙ e
]

module _ (db : Database) (id : String) (ps : List PassageRange) (now : Time) (n : ℕ)
    (set : FileRecord → FileRecord) (keeps : KeepsId set)
    (adds : (r : FileRecord) → Adds n (length ps) r (set r)) where
  abbrev filled : Database
  filled = (enqueue db id ps n now).1

  filled-Counts :
      (j : String) (r r' : FileRecord)
      → Filled id n (length ps) db filled
      → Counts j r db.chunks
      → ((j ≡ id) × (r' ≡ set r)) ⊎ ((j ≢ id) × (r' ≡ r))
      → Counts j r' filled.chunks
  filled-Counts j r r' f k (inl (same, e)) =
      let k' : Counts id r db.chunks = subst (λ i. Counts i r db.chunks) same k in
      rw (same, e)
        (record {
          total = omega (arith, (adds r).0, k'.total, f.mine (λ _. true));
          indexed = omega (arith, (adds r).1, k'.indexed, f.mine is_indexed);
          failed = omega (arith, (adds r).2, k'.failed, f.mine is_failed);
        })
  filled-Counts j r r' f k (inr (ne, e)) = rw e (record {
    total = k.total ∙ sym (f.others (λ _. true) j ne);
    indexed = k.indexed ∙ sym (f.others is_indexed j ne);
    failed = k.failed ∙ sym (f.others is_failed j ne);
  })

  filled-numbered :
      (j : String) (r r' : FileRecord)
      → Filled id n (length ps) db filled
      → All (Below j r.next_sequence) db.chunks
      → ((j ≡ id) × (r' ≡ set r)) ⊎ ((j ≢ id) × (r' ≡ r))
      → All (Below j r'.next_sequence) filled.chunks
  filled-numbered j r r' f k (inl (same, e)) =
      rw (same, e) (subst (λ m. All (Below id m) filled.chunks) (sym (adds r).3) f.below)
  filled-numbered j r r' f k (inr (ne, e)) = rw e (f.below_other j r.next_sequence ne k)

  filled-owned :
      (j : String) (r : FileRecord)
      → Filled id n (length ps) db filled
      → IsSound db
      → get db id ≡ some r
      → get db j ≡ none
      → tally (λ _. true) j filled.chunks ≡ 0
  filled-owned j r f h row gone =
      let ne : j ≢ id = λ same. ground (arith, ap (get db) same) in
      f.others (λ _. true) j ne ∙ h.owned j gone

  -- Passages queued with the write of the row that counts them.
  pub enqueue-IsSound :
      (r : FileRecord)
      → IsSound db
      → get db id ≡ some r
      → n ≡ r.next_sequence
      → Filled id n (length ps) db filled × IsSound (update_file filled id set)
  unfolding update_file
  enqueue-IsSound r h row next =
      let f : Filled id n (length ps) db filled =
        enqueue-Filled id now n ps db h.counted.ascending h.ids
          (subst (λ m. All (Below id m) db.chunks) (sym next) (h.numbered id r row)) in
      let before =
        λ (j : String) (r' : FileRecord) (e : get (update_file filled id set) j ≡ some r').
          get-update_file filled id j set r' keeps e in
      (
        f,
        record {
          counted = record {
            ascending = f.ascending;
            counted = λ j r' e.
                let (x, there, changed) = before j r' e in
                filled-Counts j x r' f
                  (h.counted.counted j x (sym (get-enqueue db id ps n now j) ∙ there)) changed;
          };
          ids = f.ids;
          numbered = λ j r' e.
              let (x, there, changed) = before j r' e in
              filled-numbered j x r' f (h.numbered j x (sym (get-enqueue db id ps n now j) ∙ there))
                changed;
          owned = λ j e.
              filled-owned j r f h row
                (sym (get-enqueue db id ps n now j) ∙ get-update_file-none filled id j set keeps e);
        },
      )
