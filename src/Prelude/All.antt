-- ===== src/Prelude/All.antt =====
-- A predicate on all rows of a list, through WHERE, ORDER BY and LIMIT.
use Prim.Native.Nat.{ℕ, zero, suc, ◌<◌}
use mathlib.Core.Path.{◌≡◌, refl}
use mathlib.Core.Logic.{inl, inr}
use mathlib.Core.Bool.{Bool, true, false, not}
use mathlib.Core.List.{List, [], ◌∷◌, ◌++◌, map}
use native.Mathlib.Omega.{arith}
use rag_semantic_search.Prelude.Tests.{Bool-cases, ◌==◌}
use rag_semantic_search.Prelude.Lists.{take, length}
use rag_semantic_search.Prelude.Rows.{select, insert_by, order_by, is_in}

abbrev pub All {ℓ κ} : {A : Type ℓ} → (A → Type κ) → List A → Type κ
All P [] = Unit
All P (x ∷ xs) = P x × All P xs

module _ {ℓ κ} {A : Type ℓ} (P : A → Type κ) where
  pub All-select :
      (p : A → Bool) (xs : List A) → All P xs → All (λ x. P x × (p x ≡ true)) (select p xs)
  unfolding select
  All-select p [] h = tt
  All-select p (x ∷ xs) h = elim (Bool-cases (p x)) [
    | inl t ↦ rw t ((h.0, t), All-select p xs h.1)
    | inr t ↦ rw t (All-select p xs h.1)
  ]

  All-insert_by :
      (before : A → A → Bool) (x : A) (xs : List A) → P x → All P xs → All P (insert_by before x xs)
  unfolding insert_by
  All-insert_by before x [] h g = (h, tt)
  All-insert_by before x (y ∷ ys) h g = elim (Bool-cases (before x y)) [
    | inl t ↦ rw t (h, g)
    | inr t ↦ rw t (g.0, All-insert_by before x ys h g.1)
  ]

  pub All-order_by : (before : A → A → Bool) (xs : List A) → All P xs → All P (order_by before xs)
  unfolding order_by
  All-order_by before [] h = tt
  All-order_by before (x ∷ xs) h =
      All-insert_by before x (order_by before xs) h.0 (All-order_by before xs h.1)

  pub All-take : (n : ℕ) (xs : List A) → All P xs → All P (take n xs)
  All-take zero xs h = tt
  All-take (suc n) [] h = tt
  All-take (suc n) (x ∷ xs) h = (h.0, All-take n xs h.1)

pub All-map {ℓ κ ι} :
    {A : Type ℓ} {P : A → Type κ} {Q : A → Type ι} (xs : List A)
    → ((x : A) → P x → Q x)
    → All P xs
    → All Q xs
All-map [] f h = tt
All-map (x ∷ xs) f h = (f x h.0, All-map xs f h.1)

pub All-zip {ℓ κ ι μ} :
    {A : Type ℓ} {P : A → Type κ} {Q : A → Type ι} {R : A → Type μ} (xs : List A)
    → ((x : A) → P x → Q x → R x)
    → All P xs
    → All Q xs
    → All R xs
All-zip [] f h g = tt
All-zip (x ∷ xs) f h g = (f x h.0 g.0, All-zip xs f h.1 g.1)

pub All-append {ℓ κ} :
    {A : Type ℓ} (P : A → Type κ) (xs ys : List A) → All P xs → All P ys → All P (xs ++ ys)
All-append P [] ys h g = g
All-append P (x ∷ xs) ys h g = (h.0, All-append P xs ys h.1 g)

-- No number that the rows are given by stands in the list twice.
module _ {ℓ} {A : Type ℓ} (key : A → ℕ) where
  abbrev pub Distinct : List A → Type 0
  Distinct [] = Unit {0}
  Distinct (x ∷ xs) = (is_in (key x) (map key xs) ≡ false) × Distinct xs

  pub is_in-select :
      (p : A → Bool) (i : ℕ) (xs : List A)
      → is_in i (map key xs) ≡ false
      → is_in i (map key (select p xs)) ≡ false
  unfolding is_in select
  is_in-select p i [] h = refl
  is_in-select p i (x ∷ xs) h = ground (arith, is_in-select p i xs)

  pub Distinct-select : (p : A → Bool) (xs : List A) → Distinct xs → Distinct (select p xs)
  unfolding select
  Distinct-select p [] h = tt
  Distinct-select p (x ∷ xs) h = elim (Bool-cases (p x)) [
    | inl t ↦ rw t (is_in-select p (key x) xs h.0, Distinct-select p xs h.1)
    | inr t ↦ rw t (Distinct-select p xs h.1)
  ]

  none_in :
      (i : ℕ) (xs : List A) → is_in i (map key xs) ≡ false → All (λ x. (key x == i) ≡ false) xs
  unfolding is_in
  none_in i [] h = tt
  none_in i (x ∷ xs) h = (ground arith, none_in i xs (ground arith))

  is_in-cons :
      (i : ℕ) (x : A) (xs : List A)
      → (key x == i) ≡ false
      → is_in i (map key xs) ≡ false
      → is_in i (map key (x ∷ xs)) ≡ false
  unfolding is_in
  is_in-cons i x xs n h = ground arith

  -- The numbers of the rows that pass a test are not among those of the others.
  pub Distinct-parts :
      (p : A → Bool) (xs : List A)
      → Distinct xs
      → All (λ x. is_in (key x) (map key (select p xs)) ≡ false) (select (λ x. not (p x)) xs)
  unfolding select
  Distinct-parts p [] h = tt
  Distinct-parts p (x ∷ xs) h = elim (Bool-cases (p x)) [
    | inl t ↦
        let apart = All-select _ (λ y. not (p y)) xs (none_in (key x) xs h.0) in
        let rest = Distinct-parts p xs h.1 in
        rw t (
          All-zip (select (λ y. not (p y)) xs)
            (λ y ne out. is_in-cons (key y) x (select p xs) (ground arith) out) apart rest)
    | inr t ↦ rw t (is_in-select p (key x) xs h.0, Distinct-parts p xs h.1)
  ]

  is_in-append :
      (i : ℕ) (xs ys : List A)
      → is_in i (map key xs) ≡ false
      → All (λ y. (key y == i) ≡ false) ys
      → is_in i (map key (xs ++ ys)) ≡ false
  unfolding is_in
  is_in-append i [] [] h g = refl
  is_in-append i [] (y ∷ ys) h g = ground (arith, is_in-append i [] ys refl g.1)
  is_in-append i (x ∷ xs) ys h g = ground (arith, is_in-append i xs ys (ground arith) g)

  pub Distinct-append :
      (xs ys : List A)
      → Distinct xs
      → Distinct ys
      → All (λ y. is_in (key y) (map key xs) ≡ false) ys
      → Distinct (xs ++ ys)
  unfolding is_in
  Distinct-append [] ys d e apart = e
  Distinct-append (x ∷ xs) ys d e apart = (
    is_in-append (key x) xs ys d.0 (All-map ys (λ y h. ground arith) apart),
    Distinct-append xs ys d.1 e (All-map ys (λ y h. ground arith) apart),
  )

  is_in-insert_by :
      (before : A → A → Bool) (i : ℕ) (x : A) (xs : List A)
      → (key x == i) ≡ false
      → is_in i (map key xs) ≡ false
      → is_in i (map key (insert_by before x xs)) ≡ false
  unfolding is_in insert_by
  is_in-insert_by before i x [] n h = ground arith
  is_in-insert_by before i x (y ∷ ys) n h = ground (arith, is_in-insert_by before i x ys n)

  is_in-order_by :
      (before : A → A → Bool) (i : ℕ) (xs : List A)
      → is_in i (map key xs) ≡ false
      → is_in i (map key (order_by before xs)) ≡ false
  unfolding is_in order_by
  is_in-order_by before i [] h = refl
  is_in-order_by before i (x ∷ xs) h =
      is_in-insert_by before i x (order_by before xs) (ground arith)
        (is_in-order_by before i xs (ground arith))

  Distinct-insert_by :
      (before : A → A → Bool) (x : A) (xs : List A)
      → is_in (key x) (map key xs) ≡ false
      → Distinct xs
      → Distinct (insert_by before x xs)
  unfolding insert_by is_in
  Distinct-insert_by before x [] n h = (refl, tt)
  Distinct-insert_by before x (y ∷ ys) n h = elim (Bool-cases (before x y)) [
    | inl t ↦ rw t (n, h)
    | inr t ↦ rw t (
      is_in-insert_by before (key y) x ys (ground arith) h.0,
      Distinct-insert_by before x ys (ground arith) h.1,
    )
  ]

  pub Distinct-order_by :
      (before : A → A → Bool) (xs : List A) → Distinct xs → Distinct (order_by before xs)
  unfolding order_by
  Distinct-order_by before [] h = tt
  Distinct-order_by before (x ∷ xs) h =
      Distinct-insert_by before x (order_by before xs) (is_in-order_by before (key x) xs h.0)
        (Distinct-order_by before xs h.1)

  is_in-take :
      (n i : ℕ) (xs : List A) → is_in i (map key xs) ≡ false → is_in i (map key (take n xs)) ≡ false
  unfolding is_in
  is_in-take zero i xs h = refl
  is_in-take (suc n) i [] h = refl
  is_in-take (suc n) i (x ∷ xs) h = ground (arith, is_in-take n i xs)

  pub Distinct-take : (n : ℕ) (xs : List A) → Distinct xs → Distinct (take n xs)
  Distinct-take zero xs h = tt
  Distinct-take (suc n) [] h = tt
  Distinct-take (suc n) (x ∷ xs) h = (is_in-take n (key x) xs h.0, Distinct-take n xs h.1)

pub length-insert_by {ℓ} :
    {A : Type ℓ} (before : A → A → Bool) (x : A) (xs : List A) → 0 < length (insert_by before x xs)
unfolding insert_by
length-insert_by before x [] = omega arith
length-insert_by before x (y ∷ ys) = ground arith
