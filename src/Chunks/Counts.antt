-- ===== src/Chunks/Counts.antt =====
-- app/repositories/sql/chunk_repository.py: how many rows of a file are in each status, and what the
-- updates of single rows make of these counts.
use rag_semantic_search.Prelude.{
  ℕ, ◌+◌, ◌*◌, ◌≤◌, ◌<◌, ◌≡◌, refl, ap, subst, ◌∙◌, ◌≢◌, inl, inr, Bool, true, false, ◌&&◌, Option,
  none, some, List, [], ◌∷◌, arith, ◌==◌, if◌then◌else◌, length, String, str_eq, eq_iff,
  update_where, is_in, Bool-cases,
}
use rag_semantic_search.Database.{ChunkStatus, ChunkRow}
use rag_semantic_search.Chunks.{update_each}

abbrev pub one_if : Bool → ℕ
one_if true = 1
one_if false = 0

-- The rows of the file `id` whose status passes the test `q`.
abbrev pub tally : (ChunkStatus → Bool) → String → List ChunkRow → ℕ
tally q id [] = 0
tally q id (c ∷ cs) = one_if (q c.status && str_eq c.file_id id) + tally q id cs

-- The ids rise along the table, from above `lo` on.
abbrev pub Ascending : ℕ → List ChunkRow → Type 0
Ascending lo [] = Unit {0}
Ascending lo (c ∷ cs) = (lo < c.chunk_id) × Ascending c.chunk_id cs

-- SELECT * FROM chunks WHERE chunk_id = ?
unfoldable pub row : ℕ → List ChunkRow → Option ChunkRow
row i [] = none
row i (c ∷ cs) = if c.chunk_id == i then some c else row i cs

-- An update that keeps a row's id and its file.
abbrev pub KeepsKey : (ChunkRow → ChunkRow) → Type 0
KeepsKey set = (c : ChunkRow) → ((set c).chunk_id ≡ c.chunk_id) × ((set c).file_id ≡ c.file_id)

Ascending-mono : (m n : ℕ) (cs : List ChunkRow) → m ≤ n → Ascending n cs → Ascending m cs
Ascending-mono m n [] h a = tt
Ascending-mono m n (c ∷ cs) h a = (omega arith, a.1)

update-below :
    (i lo : ℕ) (set : ChunkRow → ChunkRow) (cs : List ChunkRow)
    → Ascending lo cs
    → i ≤ lo
    → update_where (λ c. c.chunk_id == i) set cs ≡ cs
unfolding update_where
update-below i lo set [] a h = refl
update-below i lo set (c ∷ cs) a h = ground (arith, update-below i c.chunk_id set cs a.1)

pub update_where-Ascending :
    (p : ChunkRow → Bool) (lo : ℕ) (set : ChunkRow → ChunkRow) (cs : List ChunkRow)
    → KeepsKey set
    → Ascending lo cs
    → Ascending lo (update_where p set cs)
unfolding update_where
update_where-Ascending p lo set [] k a = tt
update_where-Ascending p lo set (c ∷ cs) k a =
    ground (arith, k c, update_where-Ascending p c.chunk_id set cs k a.1)

pub row-below : (i lo : ℕ) (cs : List ChunkRow) → Ascending lo cs → i ≤ lo → row i cs ≡ none
unfolding row
row-below i lo [] a h = refl
row-below i lo (c ∷ cs) a h = ground (arith, row-below i c.chunk_id cs a.1)

-- An update of the one row with the id i moves that row from one count to another.
tally-update_one :
    (q : ChunkStatus → Bool) (id : String) (i lo : ℕ) (set : ChunkRow → ChunkRow)
    (cs : List ChunkRow) (c : ChunkRow)
    → KeepsKey set
    → Ascending lo cs
    → row i cs ≡ some c
    → tally q id (update_where (λ d. d.chunk_id == i) set cs)
        + one_if (q c.status && str_eq c.file_id id)
      ≡ tally q id cs + one_if (q (set c).status && str_eq c.file_id id)
unfolding update_where row
tally-update_one q id i lo set [] c k a e = absurd (ground arith)
tally-update_one q id i lo set (d ∷ cs) c k a e = elim (Bool-cases (d.chunk_id == i)) [
  | inl hit ↦ ground (arith, k d, update-below i d.chunk_id set cs a.1)
  | inr miss ↦ ground (arith, tally-update_one q id i d.chunk_id set cs c k a.1)
]

pub row-update_ne :
    (i j : ℕ) (set : ChunkRow → ChunkRow) (cs : List ChunkRow)
    → KeepsKey set
    → j ≢ i
    → row j (update_where (λ d. d.chunk_id == i) set cs) ≡ row j cs
unfolding update_where row
row-update_ne i j set [] k h = refl
row-update_ne i j set (c ∷ cs) k h = ground (arith, k c, row-update_ne i j set cs k h)

-- Each id of the list is that of a row of the file, which a worker holds; none stands there twice.
abbrev pub HeldRows : String → List ChunkRow → List ℕ → Type 0
HeldRows id cs [] = Unit {0}
HeldRows id cs (i ∷ is) =
    ((c : ChunkRow) × (row i cs ≡ some c) × (c.file_id ≡ id) × (c.status ≡ ChunkStatus.processing))
    × (is_in i is ≡ false)
    × HeldRows id cs is

pub HeldRows-update :
    (id : String) (i : ℕ) (set : ChunkRow → ChunkRow) (cs : List ChunkRow) (is : List ℕ)
    → KeepsKey set
    → is_in i is ≡ false
    → HeldRows id cs is
    → HeldRows id (update_where (λ d. d.chunk_id == i) set cs) is
unfolding is_in
HeldRows-update id i set cs [] k out h = tt
HeldRows-update id i set cs (j ∷ is) k out h =
    let (c, e, f, s) = h.0 in
    (
      (c, row-update_ne i j set cs k (ground arith) ∙ e, f, s),
      h.1,
      HeldRows-update id i set cs is k (ground arith) h.2,
    )

one_if_no : (b : Bool) {d : Bool} → d ≡ false → one_if (b && d) ≡ 0
one_if_no b h = ground arith

one_if_neither : {b : Bool} (d : Bool) → b ≡ false → one_if (b && d) ≡ 0
one_if_neither d h = ground arith

one_if_yes : {b d e : Bool} → b ≡ e → d ≡ true → one_if (b && d) ≡ one_if e
one_if_yes h g = ground arith

pub tally-update_where_all :
    (p : ChunkRow → Bool) (set : ChunkRow → ChunkRow)
    → KeepsKey set
    → (id : String) (cs : List ChunkRow)
    → tally (λ _. true) id (update_where p set cs) ≡ tally (λ _. true) id cs
unfolding update_where
tally-update_where_all p set keeps id [] = refl
tally-update_where_all p set keeps id (c ∷ cs) =
    ground (arith, keeps c, tally-update_where_all p set keeps id cs)

-- None of the ids of the second list is in the first.
abbrev pub Apart : List ℕ → List ℕ → Type 0
Apart js [] = Unit {0}
Apart js (i ∷ is) = (is_in i js ≡ false) × Apart js is

pub Apart-cons : (j : ℕ) (js is : List ℕ) → is_in j is ≡ false → Apart js is → Apart (j ∷ js) is
unfolding is_in
Apart-cons j js [] h a = tt
Apart-cons j js (i ∷ is) h a = (ground arith, Apart-cons j js is (ground arith) a.1)

pub Apart-out : (i : ℕ) (js is : List ℕ) → Apart js is → is_in i is ≡ true → is_in i js ≡ false
unfolding is_in
Apart-out i js [] a t = absurd (ground arith)
Apart-out i js (k ∷ is) a t = elim (Bool-cases (k == i)) [
  | inl hit ↦ let same : k ≡ i = ground arith in subst (λ m. is_in m js ≡ false) same a.0
  | inr miss ↦ Apart-out i js is a.1 (ground arith)
]

HeldRows-update-Apart :
    (id : String) (i : ℕ) (set : ChunkRow → ChunkRow) (cs : List ChunkRow) (is : List ℕ)
    → KeepsKey set
    → Apart (i ∷ []) is
    → HeldRows id cs is
    → HeldRows id (update_where (λ d. d.chunk_id == i) set cs) is
unfolding is_in
HeldRows-update-Apart id i set cs [] k a h = tt
HeldRows-update-Apart id i set cs (j ∷ is) k a h =
    let (c, e, f, s) = h.0 in
    (
      (c, row-update_ne i j set cs k (ground arith) ∙ e, f, s),
      h.1,
      HeldRows-update-Apart id i set cs is k a.1 h.2,
    )

Apart-head : (j : ℕ) (js is : List ℕ) → Apart (j ∷ js) is → Apart (j ∷ []) is × Apart js is
unfolding is_in
Apart-head j js [] a = (tt, tt)
Apart-head j js (i ∷ is) a =
    let rest = Apart-head j js is a.1 in ((ground arith, rest.0), (ground arith, rest.1))

-- Rows held stay held while others are updated.
pub HeldRows-update_each :
    (id : String) (set : ChunkRow → ChunkRow) (cs : List ChunkRow) (js is : List ℕ)
    → KeepsKey set
    → Apart js is
    → HeldRows id cs is
    → HeldRows id (update_each set cs js) is
unfolding update_each
HeldRows-update_each id set cs [] is k a h = h
HeldRows-update_each id set cs (j ∷ js) is k a h =
    let split = Apart-head j js is a in
    HeldRows-update_each id set (update_where (λ d. d.chunk_id == j) set cs) js is k split.1
      (HeldRows-update-Apart id j set cs is k split.0 h)

module _ (status : ChunkStatus) (set : ChunkRow → ChunkRow) (keeps : KeepsKey set)
    (sets : (c : ChunkRow) → (set c).status ≡ status) where
  -- The rows held move to the count of their new status, one for each id, and no other count of a
  -- status that they were not in changes.
  pub tally-update_each :
      (q : ChunkStatus → Bool) (id : String) (lo : ℕ) (cs : List ChunkRow) (is : List ℕ)
      → q ChunkStatus.processing ≡ false
      → Ascending lo cs
      → HeldRows id cs is
      → tally q id (update_each set cs is) ≡ tally q id cs + one_if (q status) * length is
  unfolding update_each
  tally-update_each q id lo cs [] np a h = omega arith
  tally-update_each q id lo cs (i ∷ is) np a h =
      let (c, e, f, s) = h.0 in
      let here = tally-update_one q id i lo set cs c keeps a e in
      let rest =
        tally-update_each q id lo (update_where (λ d. d.chunk_id == i) set cs) is np
          (update_where-Ascending _ lo set cs keeps a)
          (HeldRows-update id i set cs is keeps h.1 h.2) in
      let mine : str_eq c.file_id id ≡ true = (eq_iff c.file_id id).1 f in
      let old : q c.status ≡ false = ap q s ∙ np in
      let new : q (set c).status ≡ q status = ap q (sets c) in
      omega (arith, here, rest, one_if_neither (str_eq c.file_id id) old, one_if_yes new mine)

  pub tally-update_each_other :
      (q : ChunkStatus → Bool) (id other : String) (lo : ℕ) (cs : List ChunkRow) (is : List ℕ)
      → other ≢ id
      → Ascending lo cs
      → HeldRows id cs is
      → tally q other (update_each set cs is) ≡ tally q other cs
  unfolding update_each
  tally-update_each_other q id other lo cs [] ne a h = refl
  tally-update_each_other q id other lo cs (i ∷ is) ne a h =
      let (c, e, f, s) = h.0 in
      let here = tally-update_one q other i lo set cs c keeps a e in
      let rest =
        tally-update_each_other q id other lo (update_where (λ d. d.chunk_id == i) set cs) is ne
          (update_where-Ascending _ lo set cs keeps a)
          (HeldRows-update id i set cs is keeps h.1 h.2) in
      let apart : str_eq c.file_id other ≡ false = ground (arith, eq_iff c.file_id other) in
      omega (arith, here, rest, one_if_no (q c.status) apart, one_if_no (q (set c).status) apart)

  pub update_each-Ascending :
      (lo : ℕ) (cs : List ChunkRow) (is : List ℕ)
      → Ascending lo cs
      → Ascending lo (update_each set cs is)
  unfolding update_each
  update_each-Ascending lo cs [] a = a
  update_each-Ascending lo cs (i ∷ is) a =
      update_each-Ascending lo (update_where (λ d. d.chunk_id == i) set cs) is
        (update_where-Ascending _ lo set cs keeps a)

  -- No update of a row changes how many rows a file has.
  pub tally-update_each_all :
      (id : String) (cs : List ChunkRow) (is : List ℕ)
      → tally (λ _. true) id (update_each set cs is) ≡ tally (λ _. true) id cs
  unfolding update_each
  tally-update_each_all id cs [] = refl
  tally-update_each_all id cs (i ∷ is) =
      tally-update_each_all id (update_where (λ d. d.chunk_id == i) set cs) is
      ∙ tally-update_where_all (λ d. d.chunk_id == i) set keeps id cs
