-- ===== src/Prelude/Dicts.antt =====
-- A Python dict with texts as its keys, as a list of its items in their order.
use mathlib.Core.Path.{◌≡◌, refl}
use mathlib.Core.Logic.{inl, inr}
use mathlib.Core.Bool.{false}
use mathlib.Core.Option.{Option, none, some}
use mathlib.Core.Option
use mathlib.Core.List.{List, [], ◌∷◌}
use native.Mathlib.Omega.{arith}
use Prim.Native.String.{String}
use text.Mathlib.Text.{◌==◌}
use text.Mathlib.TextEquality.{eq_iff}
use rag_semantic_search.Prelude.Tests.{Bool-cases, if◌then◌else◌}

module _ {ℓ} {V : Type ℓ} where
  -- dict.get(k)
  unfoldable pub lookup : String → List (String × V) → Option V
  lookup k [] = none
  lookup k ((j, v) ∷ m) = if j == k then some v else lookup k m

  -- all values, changed
  unfoldable pub map_values : (V → V) → List (String × V) → List (String × V)
  map_values f [] = []
  map_values f ((j, v) ∷ m) = (j, f v) ∷ map_values f m

  abbrev put_first : String → List (String × V) → Option V → Option (List (String × V))
  put_first j m none = none
  put_first j m (some v) = some ((j, v) ∷ m)

  abbrev put_before : String × V → Option (List (String × V)) → Option (List (String × V))
  put_before item none = none
  put_before item (some m) = some (item ∷ m)

  -- dict[k], changed in place; `none` is its KeyError, or the change's
  unfoldable pub change : String → (V → Option V) → List (String × V) → Option (List (String × V))
  change k f [] = none
  change k f ((j, v) ∷ m) = if j == k then put_first j m (f v) else put_before (j, v) (change k f m)

  pub lookup-map_values :
      (f : V → V) (k : String) (m : List (String × V))
      → lookup k (map_values f m) ≡ Option.map f (lookup k m)
  unfolding lookup map_values
  lookup-map_values f k [] = refl
  lookup-map_values f k ((j, v) ∷ m) = elim (Bool-cases (j == k)) [
    | inl same ↦ rw same refl
    | inr other ↦ rw other (lookup-map_values f k m)
  ]

  -- A key that is there can be changed, and nothing else changes.
  pub record Changed (k : String) (v : V) (m : List (String × V)) (out : Option (List (String × V)))
      : Type ℓ where
    pub result : List (String × V)
    pub is_result : out ≡ some result
    pub there : lookup k result ≡ some v
    pub others : (j : String) → (k == j) ≡ false → lookup j result ≡ lookup j m

  pub change-Changed :
      (k : String) (f : V → Option V) (m : List (String × V)) (v v' : V)
      → lookup k m ≡ some v
      → f v ≡ some v'
      → Changed k v' m (change k f m)
  unfolding lookup change
  change-Changed k f [] v v' e g = absurd (ground arith)
  change-Changed k f ((j, w) ∷ m) v v' e g = elim (Bool-cases (j == k)) [
    | inl same ↦
        let here : f w ≡ some v' = ground arith in
        rw (same, here)
          (record {
            result = (j, v') ∷ m;
            is_result = refl;
            there = rw same refl;
            others = λ i ne. ground (arith, eq_iff j k, eq_iff k i, eq_iff j i);
          })
    | inr other ↦
        let rest = change-Changed k f m v v' (ground arith) g in
        let is_result = rest.is_result in
        rw (other, is_result)
          (record {
            result = (j, w) ∷ rest.result;
            is_result = refl;
            there = rw other rest.there;
            others = λ i ne. ground (arith, rest.others i ne);
          })
  ]
