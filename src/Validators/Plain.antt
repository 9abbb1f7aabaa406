-- ===== src/Validators/Plain.antt =====
-- app/services/upload/validators.py: text in ASCII.
use rag_semantic_search.Prelude.{
  ℕ, zero, suc, ◌+◌, ◌≤◌, ◌≡◌, refl, inl, inr, none, List, [], ◌∷◌, arith, length, take, Bool-cases,
}
use rag_semantic_search.Prelude.All.{All, All-take}
use rag_semantic_search.Utf8.{Step, decode_step, first_error, first_error_from}
use rag_semantic_search.Validators.{sample_bytes, contains, count_invalid, looks_like_binary}

abbrev pub IsAscii : ℕ → Type 0
IsAscii b = b ≤ 127

decode_step-ascii : (b : ℕ) (bytes : List ℕ) → IsAscii b → decode_step b bytes ≡ Step.char b 1
unfolding decode_step
decode_step-ascii b bytes h = ground arith

first_error_from-ascii :
    (fuel start : ℕ) (bytes : List ℕ) → All IsAscii bytes → first_error_from fuel start bytes ≡ none
unfolding first_error_from
first_error_from-ascii zero start bytes h = refl
first_error_from-ascii (suc fuel) start [] h = refl
first_error_from-ascii (suc fuel) start (b ∷ bytes) h =
    rw (decode_step-ascii b bytes h.0, first_error_from)
      (first_error_from-ascii fuel (start + 1) bytes h.1)

count_invalid-ascii :
    (fuel : ℕ) (bytes : List ℕ) → All IsAscii bytes → count_invalid fuel 0 bytes ≡ 0
unfolding count_invalid first_error
count_invalid-ascii zero bytes h = refl
count_invalid-ascii (suc fuel) bytes h =
    ground (arith, first_error_from-ascii (length bytes) 0 bytes h)

-- Bytes in ASCII look like a binary file exactly when there is a NUL among the first 8192 of them.
pub looks_like_binary-contains :
    (bytes : List ℕ)
    → All IsAscii bytes
    → looks_like_binary bytes ≡ contains 0 (take sample_bytes bytes)
unfolding looks_like_binary contains
looks_like_binary-contains [] h = refl
looks_like_binary-contains (b ∷ bytes) h =
    let probe = take sample_bytes (b ∷ bytes) in
    let valid =
      count_invalid-ascii (length probe) probe (All-take IsAscii sample_bytes (b ∷ bytes) h) in
    elim (Bool-cases (contains 0 probe)) [
      | inl nul ↦ ground arith
      | inr text ↦ ground (arith, valid)
    ]
