-- ===== src/JobQueue/Registering.antt =====
-- app/repositories/sql/file_repository.py, `create` and `delete`: the two tables when a file comes or
-- goes.
use rag_semantic_search.Prelude.{
  ℕ, ◌≤◌, ◌≡◌, ◌≢◌, refl, sym, subst, ◌∙◌, ◌⊎◌, inl, inr, Bool, true, false, some, none, List, [],
  ◌∷◌, ◌++◌, arith, select, String, str_eq, eq_iff, Bool-cases, if◌then◌else◌,
}
use rag_semantic_search.Prelude.All.{All, All-map, All-select}
use rag_semantic_search.Database.{
  ChunkStatus, FileRecord, ChunkRow, Database, is_indexed, is_failed,
}
use rag_semantic_search.Files
use rag_semantic_search.Files.{get, find_file, new_file}
use rag_semantic_search.Files.Lookup.{
  find_file-select_self, find_file-select_ne, find_file-append, find_file-append_ne,
  find_file-append_none,
}
use rag_semantic_search.Chunks.Counts.{tally, Ascending}
use rag_semantic_search.Chunks.Lookup.{tally-select_self, tally-select_ne}
use rag_semantic_search.JobQueue.Counters.{Counts}
use rag_semantic_search.JobQueue.Filling.{Below}
use rag_semantic_search.JobQueue.Soundness.{IsSound}

-- A file that has no row in the table has none in any status, and none numbered.
pub tally-le :
    (q : ChunkStatus → Bool) (id : String) (cs : List ChunkRow)
    → tally q id cs ≤ tally (λ _. true) id cs
tally-le q id [] = omega arith
tally-le q id (c ∷ cs) = ground (arith, tally-le q id cs)

none-Below :
    (id : String) (n : ℕ) (cs : List ChunkRow) → tally (λ _. true) id cs ≡ 0 → All (Below id n) cs
none-Below id n [] h = tt
none-Below id n (c ∷ cs) h = (ground arith, none-Below id n cs (ground arith))

-- The database with a file added, and with a file taken away.
abbrev pub with_file : Database → FileRecord → Database
with_file db r = record db { files = db.files ++ r ∷ [] }

-- The file found is the new one, or another that was there before.
module _ (db : Database) (r : FileRecord) (fresh : get db r.file_id ≡ none) where
  pub get-with_file :
      (id : String) (r' : FileRecord)
      → get (with_file db r) id ≡ some r'
      → ((id ≡ r.file_id) × (r' ≡ r)) ⊎ (get db id ≡ some r')
  unfolding get
  get-with_file id r' e = elim (Bool-cases (str_eq id r.file_id)) [
    | inl same ↦
        let eq : id ≡ r.file_id = (eq_iff id r.file_id).0 same in
        let found = find_file-append r.file_id db.files r fresh refl in
        inl
          (eq, ground (arith, found, subst (λ i. find_file i (db.files ++ r ∷ []) ≡ some r') eq e))
    | inr other ↦
        inr
          (sym (find_file-append_ne id db.files r (λ eq. ground (arith, eq_iff id r.file_id))) ∙ e)
  ]

  pub get-with_file-none : (id : String) → get (with_file db r) id ≡ none → get db id ≡ none
  unfolding get
  get-with_file-none id e = find_file-append_none id db.files r e

  pub with_file-IsSound :
      IsSound db
      → (r.chunks_total ≡ 0) × (r.chunks_indexed ≡ 0) × (r.chunks_failed ≡ 0)
      → IsSound (with_file db r)
  with_file-IsSound h zeros =
      let none_left = h.owned r.file_id fresh in
      record {
        counted = record {
          ascending = h.counted.ascending;
          counted = λ id r' e. elim (get-with_file id r' e) [
            | inl (same, new) ↦
                rw (same, new)
                  (record {
                    total = omega (arith, none_left);
                    indexed = omega (arith, none_left, tally-le is_indexed r.file_id db.chunks);
                    failed = omega (arith, none_left, tally-le is_failed r.file_id db.chunks);
                  })
            | inr old ↦ h.counted.counted id r' old
          ];
        };
        ids = h.ids;
        numbered = λ id r' e. elim (get-with_file id r' e) [
          | inl (same, new) ↦
              rw (same, new) (none-Below r.file_id r.next_sequence db.chunks none_left)
          | inr old ↦ h.numbered id r' old
        ];
        owned = λ id e. h.owned id (get-with_file-none id e);
      }

Ascending-lower : (m n : ℕ) (cs : List ChunkRow) → m ≤ n → Ascending n cs → Ascending m cs
Ascending-lower m n [] l a = tt
Ascending-lower m n (c ∷ cs) l a = (omega arith, a.1)

Ascending-select :
    (p : ChunkRow → Bool) (lo : ℕ) (cs : List ChunkRow)
    → Ascending lo cs
    → Ascending lo (select p cs)
unfolding select
Ascending-select p lo [] a = tt
Ascending-select p lo (c ∷ cs) a = elim (Bool-cases (p c)) [
  | inl t ↦ rw t (a.0, Ascending-select p c.chunk_id cs a.1)
  | inr t ↦
      rw t (Ascending-lower lo c.chunk_id _ (omega arith) (Ascending-select p c.chunk_id cs a.1))
]

module _ (db : Database) (id : String) where
  -- What is found after a deletion was there before, and is not what was deleted.
  pub get-delete :
      (j : String) (r : FileRecord)
      → get (Files.delete db id) j ≡ some r
      → (j ≢ id) × (get db j ≡ some r)
  unfolding get Files.delete
  get-delete j r e = elim (Bool-cases (str_eq j id)) [
    | inl same ↦
        let eq : j ≡ id = (eq_iff j id).0 same in
        absurd (
          ground (
            arith,
            subst
                (λ i.
                  find_file i (select (λ x. if str_eq x.file_id id then false else true) db.files)
                  ≡ some r)
                eq e,
            find_file-select_self id db.files,
          ))
    | inr other ↦
        let ne : j ≢ id = λ eq. ground (arith, eq_iff j id) in
        (ne, sym (find_file-select_ne id j db.files ne) ∙ e)
  ]

  kept-Counts :
      (j : String) (r : FileRecord)
      → j ≢ id
      → Counts j r db.chunks
      → Counts j r (Files.delete db id).chunks
  unfolding Files.delete
  kept-Counts j r ne k = record {
    total = k.total ∙ sym (tally-select_ne (λ _. true) id j db.chunks ne);
    indexed = k.indexed ∙ sym (tally-select_ne is_indexed id j db.chunks ne);
    failed = k.failed ∙ sym (tally-select_ne is_failed id j db.chunks ne);
  }

  left-owned :
      IsSound db
      → (j : String) → get (Files.delete db id) j ≡ none
      → tally (λ _. true) j (Files.delete db id).chunks ≡ 0
  unfolding get Files.delete
  left-owned h j e = elim (Bool-cases (str_eq j id)) [
    | inl same ↦
        let eq : j ≡ id = (eq_iff j id).0 same in rw eq (tally-select_self (λ _. true) id db.chunks)
    | inr other ↦
        let ne : j ≢ id = λ eq. ground (arith, eq_iff j id) in
        tally-select_ne (λ _. true) id j db.chunks ne
        ∙ h.owned j (sym (find_file-select_ne id j db.files ne) ∙ e)
  ]

  pub delete-IsSound : IsSound db → IsSound (Files.delete db id)
  unfolding Files.delete
  delete-IsSound h =
      let kept = λ (P : ChunkRow → Type 0) (all : All P db.chunks).
        All-map _ (λ c p. p.0)
          (All-select P (λ c. if str_eq c.file_id id then false else true) db.chunks all) in
      record {
        counted = record {
          ascending = Ascending-select _ 0 db.chunks h.counted.ascending;
          counted = λ j r e.
              let (ne, there) = get-delete j r e in
              kept-Counts j r ne (h.counted.counted j r there);
        };
        ids = kept _ h.ids;
        numbered = λ j r e. kept _ (h.numbered j r (get-delete j r e).1);
        owned = λ j e. left-owned h j e;
      }
