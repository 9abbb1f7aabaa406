-- ===== src/Http/Decimals.antt =====
-- app/core/exceptions.py and app/core/config.py: a number that is printed is read back.
use Prim.Native.Char.{code}
use Prim.Native.String.{◌++◌ as ◌+++◌}
use text.Mathlib.TextLemmas.{nil-append, cons-append}
use mathlib.Core.List.{append_assoc, append-nil}
use rag_semantic_search.Prelude.{
  ℕ, zero, suc, ◌+◌, ◌*◌, ◌/◌, ◌%◌, ◌≤◌, ◌<◌, ◌≡◌, refl, sym, ap, ◌∙◌, inl, inr, Bool, true, false,
  [], ◌∷◌, ◌++◌, String, arith, ltb, Bool-cases,
}
use rag_semantic_search.Prelude.All.{All, All-append}
use rag_semantic_search.Utf8.{Text}
use rag_semantic_search.Config.Environment.{
  codes, is_digit, positive, read_digits, strip_left, strip_right, read_signed, int, value,
}
use rag_semantic_search.Http.{digit, decimal_from, decimal}

codes-append : (s t : String) → codes (s +++ t) ≡ codes s ++ codes t
codes-append String.[] t = ap codes (nil-append t)
codes-append (String.◌∷◌ c s) t =
    ap codes (cons-append c s t) ∙ ap (λ cs. code c ∷ cs) (codes-append s t)

codes-digit : (k : ℕ) → k < 10 → codes (digit k) ≡ (b'0' + k) ∷ []
codes-digit zero h = refl
codes-digit (suc zero) h = refl
codes-digit (suc (suc zero)) h = refl
codes-digit (suc (suc (suc zero))) h = refl
codes-digit (suc (suc (suc (suc zero)))) h = refl
codes-digit (suc (suc (suc (suc (suc zero))))) h = refl
codes-digit (suc (suc (suc (suc (suc (suc zero)))))) h = refl
codes-digit (suc (suc (suc (suc (suc (suc (suc zero))))))) h = refl
codes-digit (suc (suc (suc (suc (suc (suc (suc (suc zero)))))))) h = refl
codes-digit (suc (suc (suc (suc (suc (suc (suc (suc (suc zero))))))))) h = refl
codes-digit (suc (suc (suc (suc (suc (suc (suc (suc (suc (suc k)))))))))) h = absurd (omega arith)

-- One digit, read behind n.
read_digits-digit :
    (ended : Bool) (n k : ℕ) (rest : Text)
    → k < 10
    → read_digits ended n (codes (digit k) ++ rest) ≡ read_digits true (n * 10 + k) rest
unfolding read_digits
read_digits-digit true n k rest h = rw (codes-digit k h) (ground arith)
read_digits-digit false n k rest h = rw (codes-digit k h) (ground arith)

-- The digits of a number, read in front of what follows them.
read_digits-decimal_from :
    (fuel n : ℕ) (rest : Text)
    → n ≤ fuel
    → read_digits false 0 (codes (decimal_from fuel n) ++ rest) ≡ read_digits true n rest
unfolding decimal_from
read_digits-decimal_from zero n rest l =
    read_digits-digit false 0 (n % 10) rest (omega arith)
    ∙ ap (λ m. read_digits true m rest) (omega arith)
read_digits-decimal_from (suc fuel) n rest l = elim (Bool-cases (ltb n 10)) [
  | inl small ↦ rw small (
      read_digits-digit false 0 n rest (ground arith)
      ∙ ap (λ m. read_digits true m rest) (omega arith))
  | inr large ↦
      let front = codes (decimal_from fuel (n / 10)) in
      let last = codes (digit (n % 10)) in
      rw large (
        ap (λ s. read_digits false 0 (s ++ rest))
          (codes-append (decimal_from fuel (n / 10)) (digit (n % 10)))
        ∙ ap (read_digits false 0) (append_assoc front last rest)
        ∙ read_digits-decimal_from fuel (n / 10) (last ++ rest) (ground arith)
        ∙ read_digits-digit true (n / 10) (n % 10) rest (omega arith)
        ∙ ap (λ m. read_digits true m rest) (omega arith))
]

abbrev IsDigits : Text → Type 0
IsDigits = All (λ c. is_digit c ≡ true)

decimal_from-IsDigits : (fuel n : ℕ) → n ≤ fuel → IsDigits (codes (decimal_from fuel n))
unfolding decimal_from
decimal_from-IsDigits zero n l = rw (codes-digit (n % 10) (omega arith)) (ground arith, tt)
decimal_from-IsDigits (suc fuel) n l = elim (Bool-cases (ltb n 10)) [
  | inl small ↦ rw small (rw (codes-digit n (ground arith)) (ground arith, tt))
  | inr large ↦ rw large (
      rw (codes-append (decimal_from fuel (n / 10)) (digit (n % 10))) (
        All-append _ (codes (decimal_from fuel (n / 10))) (codes (digit (n % 10)))
          (decimal_from-IsDigits fuel (n / 10) (ground arith))
          (rw (codes-digit (n % 10) (omega arith)) (ground arith, tt))))
]

-- Digits hold no space and no sign.
strip_left-digits : (s : Text) → IsDigits s → strip_left s ≡ s
unfolding strip_left
strip_left-digits [] h = refl
strip_left-digits (c ∷ s) h = ground (arith, h.0)

strip_right-digits : (s : Text) → IsDigits s → strip_right s ≡ s
unfolding strip_right
strip_right-digits [] h = refl
strip_right-digits (c ∷ []) h = ground (arith, h.0)
strip_right-digits (c ∷ d ∷ s) h = rw (strip_right-digits (d ∷ s) h.1) refl

read_signed-digits : (s : Text) → IsDigits s → read_signed s ≡ positive (read_digits false 0 s)
unfolding read_signed read_digits
read_signed-digits [] h = refl
read_signed-digits (c ∷ s) h = ground (arith, h.0)

-- int(str(n)) == n
pub int-decimal : (n : ℕ) → int (codes (decimal n)) ≡ value n
unfolding int decimal
int-decimal n =
    let s = codes (decimal_from n n) in
    let digits = decimal_from-IsDigits n n (omega arith) in
    ap (λ t. read_signed (strip_left t)) (strip_right-digits s digits)
    ∙ ap read_signed (strip_left-digits s digits)
    ∙ read_signed-digits s digits
    ∙ ap positive (
        ap (read_digits false 0) (sym (append-nil s))
        ∙ read_digits-decimal_from n n [] (omega arith)
        ∙ unfold read_digits in refl)
