-- ===== src/JobQueue/Selecting.antt =====
-- app/tasks/job_queue.py, `claim_batch`: the rows that it selects and marks.
use rag_semantic_search.Prelude.{
  ℕ, ◌<◌, ◌≡◌, refl, sym, subst, ◌∙◌, inl, inr, Bool, true, false, ◌&&◌, some, List, [], ◌∷◌, map,
  arith, leb, ◌==◌, take, String, str_eq, eq_iff, select, order_by, update_where, is_in, Bool-cases,
}
use rag_semantic_search.Prelude.All.{
  All, All-select, All-order_by, All-take, All-map, Distinct, Distinct-select, Distinct-order_by,
  Distinct-take,
}
use rag_semantic_search.Database.{Time, ChunkStatus, ChunkRow, Database, is_pending}
use rag_semantic_search.Chunks.{select_pending_for_file}
use rag_semantic_search.Chunks.Lookup.{row_id, row_self, Ascending-Distinct, row-update_where}
use rag_semantic_search.Chunks.Counts.{row, Ascending, HeldRows, Apart}

pub row-chunk_id : (i : ℕ) (cs : List ChunkRow) (c : ChunkRow) → row i cs ≡ some c → c.chunk_id ≡ i
unfolding row
row-chunk_id i [] c e = ground arith
row-chunk_id i (d ∷ cs) c e = ground (arith, row-chunk_id i cs c)

-- A pending row of the file, in the table.
abbrev pub Selected : String → List ChunkRow → ChunkRow → Type 0
Selected id cs c =
    (row c.chunk_id cs ≡ some c) × (is_pending c.status ≡ true) × (str_eq c.file_id id ≡ true)

pub select-Selected :
    (db : Database) (id : String) (limit : ℕ)
    → Ascending 0 db.chunks
    → All (Selected id db.chunks) (select_pending_for_file db id limit)
      × Distinct row_id (select_pending_for_file db id limit)
unfolding select_pending_for_file
select-Selected db id limit a =
    let p : ChunkRow → Bool = λ c. is_pending c.status && str_eq c.file_id id in
    let before : ChunkRow → ChunkRow → Bool = λ c d. leb c.sequence d.sequence in
    let found =
      All-select (λ c. (0 < c.chunk_id) × (row c.chunk_id db.chunks ≡ some c)) p db.chunks
        (row_self 0 db.chunks a) in
    (
      All-map (take limit (order_by before (select p db.chunks)))
          (λ c h. (h.0.1, ground arith, ground arith))
          (All-take _ limit (order_by before (select p db.chunks))
            (All-order_by _ before (select p db.chunks) found)),
      Distinct-take row_id limit (order_by before (select p db.chunks)) (
          Distinct-order_by row_id before (select p db.chunks)
            (Distinct-select row_id p db.chunks (Ascending-Distinct 0 db.chunks a))),
    )

-- Each of the rows is in `processing` once all of them are marked.
module _ (id : String) (now : Time) (cs : List ChunkRow) (ids : List ℕ) where
  abbrev pub taken : List ChunkRow
  taken =
      update_where (λ c. is_in c.chunk_id ids)
        (λ c. record c { status = ChunkStatus.processing; updated_at = now }) cs

  pub HeldRows-claim :
      (rows : List ChunkRow)
      → All (Selected id cs) rows
      → All (λ c. is_in c.chunk_id ids ≡ true) rows
      → Distinct row_id rows
      → HeldRows id taken (map row_id rows)
  HeldRows-claim [] h m d = tt
  HeldRows-claim (c ∷ rows) h m d =
      let set : ChunkRow → ChunkRow =
        λ c. record c { status = ChunkStatus.processing; updated_at = now } in
      let found =
        row-update_where (λ c. is_in c.chunk_id ids) set c.chunk_id cs c (λ c. (refl, refl))
          h.0.0 in
      (
        (set c, found ∙ (rw m.0), (eq_iff c.file_id id).0 h.0.2, refl),
        d.0,
        HeldRows-claim rows h.1 m.1 d.1,
      )

pub All-is_in : (rows : List ChunkRow) → All (λ c. is_in c.chunk_id (map row_id rows) ≡ true) rows
unfolding is_in
All-is_in [] = tt
All-is_in (c ∷ rows) = (ground arith, All-map rows (λ d h. ground arith) (All-is_in rows))

-- An id that was selected is that of a pending row.
pub Selected-is_pending :
    (id : String) (i : ℕ) (cs rows : List ChunkRow) (c : ChunkRow)
    → All (Selected id cs) rows
    → is_in i (map row_id rows) ≡ true
    → row i cs ≡ some c
    → is_pending c.status ≡ true
unfolding is_in
Selected-is_pending id i cs [] c h m e = ground arith
Selected-is_pending id i cs (d ∷ rows) c h m e = elim (Bool-cases (d.chunk_id == i)) [
  | inl hit ↦
      let same : d.chunk_id ≡ i = ground arith in
      let eq : some d ≡ some c = sym (subst (λ k. row k cs ≡ some d) same h.0.0) ∙ e in ground arith
  | inr miss ↦ Selected-is_pending id i cs rows c h.1 (ground arith) e
]

-- Another worker's rows are in `processing`, so none of them is selected.
not-Selected :
    (id : String) (i : ℕ) (cs rows : List ChunkRow) (c : ChunkRow)
    → All (Selected id cs) rows
    → row i cs ≡ some c
    → c.status ≡ ChunkStatus.processing
    → is_in i (map row_id rows) ≡ false
not-Selected id i cs rows c h e s = elim (Bool-cases (is_in i (map row_id rows))) [
  | inl t ↦ absurd (ground (arith, Selected-is_pending id i cs rows c h t e))
  | inr f ↦ f
]

pub others_held :
    (id other : String) (now : Time) (cs rows : List ChunkRow) (is : List ℕ)
    → All (Selected id cs) rows
    → HeldRows other cs is
    → Apart (map row_id rows) is × HeldRows other (taken id now cs (map row_id rows)) is
others_held id other now cs rows [] h g = (tt, tt)
others_held id other now cs rows (i ∷ is) h g =
    let (c, e, f, s) = g.0 in
    let out = not-Selected id i cs rows c h e s in
    let rest = others_held id other now cs rows is h g.2 in
    let out' : is_in c.chunk_id (map row_id rows) ≡ false = rw (row-chunk_id i cs c e) out in
    let found =
      row-update_where (λ c. is_in c.chunk_id (map row_id rows))
        (λ c. record c { status = ChunkStatus.processing; updated_at = now }) i cs c
        (λ c. (refl, refl)) e in
    ((out, rest.0), ((c, found ∙ (rw out'), f, s), g.1, rest.1))
