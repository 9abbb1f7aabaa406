-- ===== src/Validators.antt =====
-- app/services/upload/validators.py: reject uploads that are not text. The fraction test of the
-- source divides two numbers of at most 8192 as floats; at those sizes `invalid / n > 0.05` holds
-- exactly when `20 * invalid > n`. The loop takes fuel, the number of bytes that remain.
pub mod Plain
use rag_semantic_search.Prelude.{
  ℕ, zero, suc, ◌+◌, ◌-◌, ◌*◌, Bool, true, false, ◌||◌, none, some, List, [], ◌∷◌, ltb, ◌==◌,
  if◌then◌else◌, length, take, drop,
}
use rag_semantic_search.Utf8.{first_error}

abbrev pub sample_bytes : ℕ
sample_bytes = 8192

unfoldable pub contains : ℕ → List ℕ → Bool
contains b [] = false
contains b (x ∷ xs) = x == b || contains b xs

-- the loop over `remaining`, with what is counted so far
unfoldable pub count_invalid : ℕ → ℕ → List ℕ → ℕ
unfolding first_error
count_invalid zero invalid remaining = invalid
count_invalid (suc fuel) invalid remaining = elim (first_error remaining) [
  | none ↦ invalid
  | some (start, end) ↦ count_invalid fuel (invalid + (end - start)) (drop end remaining)
]

unfoldable pub looks_like_binary : List ℕ → Bool
unfolding contains count_invalid
looks_like_binary [] = false
looks_like_binary (b ∷ bytes) =
    let probe = take sample_bytes (b ∷ bytes) in
    if contains 0 probe
    then true
    else ltb (length probe) (20 * count_invalid (length probe) 0 probe)
