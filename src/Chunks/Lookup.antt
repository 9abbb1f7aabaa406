-- ===== src/Chunks/Lookup.antt =====
-- app/repositories/sql/chunk_repository.py: the rows of the table by their id, and updates of many.
use rag_semantic_search.Prelude.{
  ℕ, ◌≤◌, ◌<◌, ◌≡◌, ◌≢◌, refl, inl, inr, Bool, true, false, some, none, List, [], ◌∷◌, map, arith,
  select, String, str_eq, eq_iff, update_where, is_in, Bool-cases, if◌then◌else◌,
}
use rag_semantic_search.Prelude.All.{All, All-map, Distinct}
use rag_semantic_search.Database.{ChunkStatus, ChunkRow}
use rag_semantic_search.Chunks.Counts.{row, tally, KeepsKey, Ascending}

abbrev pub row_id : ChunkRow → ℕ
row_id c = c.chunk_id

-- In a table each row is found by its id.
pub row_self :
    (lo : ℕ) (cs : List ChunkRow)
    → Ascending lo cs
    → All (λ c. (lo < c.chunk_id) × (row c.chunk_id cs ≡ some c)) cs
unfolding row
row_self lo [] a = tt
row_self lo (c ∷ cs) a = (
  (a.0, ground arith),
  All-map cs (λ d h. (omega arith, ground arith)) (row_self c.chunk_id cs a.1),
)

not_in-Ascending :
    (i lo : ℕ) (cs : List ChunkRow) → Ascending lo cs → i ≤ lo → is_in i (map row_id cs) ≡ false
unfolding is_in
not_in-Ascending i lo [] a h = refl
not_in-Ascending i lo (c ∷ cs) a h = ground (arith, not_in-Ascending i c.chunk_id cs a.1)

pub Ascending-Distinct : (lo : ℕ) (cs : List ChunkRow) → Ascending lo cs → Distinct row_id cs
Ascending-Distinct lo [] a = tt
Ascending-Distinct lo (c ∷ cs) a = (
  not_in-Ascending c.chunk_id c.chunk_id cs a.1 (omega arith),
  Ascending-Distinct c.chunk_id cs a.1,
)

pub row-update_where :
    (p : ChunkRow → Bool) (set : ChunkRow → ChunkRow) (i : ℕ) (cs : List ChunkRow) (c : ChunkRow)
    → KeepsKey set
    → row i cs ≡ some c
    → row i (update_where p set cs) ≡ some (if p c then set c else c)
unfolding row update_where
row-update_where p set i [] c k e = ground arith
row-update_where p set i (d ∷ cs) c k e = ground (arith, k d, row-update_where p set i cs c k)

pub row-update_where_hit :
    (p : ChunkRow → Bool) (set : ChunkRow → ChunkRow) (i : ℕ) (cs : List ChunkRow) (c : ChunkRow)
    → KeepsKey set
    → row i cs ≡ some c
    → p c ≡ true
    → row i (update_where p set cs) ≡ some (set c)
row-update_where_hit p set i cs c k e hit = ground (arith, row-update_where p set i cs c k e)

pub row-update_where-none :
    (p : ChunkRow → Bool) (set : ChunkRow → ChunkRow) (i : ℕ) (cs : List ChunkRow)
    → KeepsKey set
    → row i cs ≡ none
    → row i (update_where p set cs) ≡ none
unfolding row update_where
row-update_where-none p set i [] k e = refl
row-update_where-none p set i (d ∷ cs) k e = ground (arith, k d, row-update_where-none p set i cs k)

pub tally-update_where :
    (q : ChunkStatus → Bool) (id : String) (p : ChunkRow → Bool) (set : ChunkRow → ChunkRow)
    (cs : List ChunkRow)
    → KeepsKey set
    → All (λ c. p c ≡ true → q (set c).status ≡ q c.status) cs
    → tally q id (update_where p set cs) ≡ tally q id cs
unfolding update_where
tally-update_where q id p set [] k h = refl
tally-update_where q id p set (c ∷ cs) k h = elim (Bool-cases (p c)) [
  | inl t ↦
      let same : q (set c).status ≡ q c.status = h.0 t in
      ground (arith, k c, tally-update_where q id p set cs k h.1)
  | inr t ↦ ground (arith, tally-update_where q id p set cs k h.1)
]

pub tally-select_self :
    (q : ChunkStatus → Bool) (id : String) (cs : List ChunkRow)
    → tally q id (select (λ c. if str_eq c.file_id id then false else true) cs) ≡ 0
unfolding select
tally-select_self q id [] = refl
tally-select_self q id (c ∷ cs) = ground (arith, tally-select_self q id cs)

pub tally-select_ne :
    (q : ChunkStatus → Bool) (id j : String) (cs : List ChunkRow)
    → j ≢ id
    → tally q j (select (λ c. if str_eq c.file_id id then false else true) cs) ≡ tally q j cs
unfolding select
tally-select_ne q id j [] ne = refl
tally-select_ne q id j (c ∷ cs) ne =
    ground (arith, eq_iff c.file_id id, eq_iff c.file_id j, tally-select_ne q id j cs ne)
