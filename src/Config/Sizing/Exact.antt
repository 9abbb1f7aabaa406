-- ===== src/Config/Sizing/Exact.antt =====
-- Fractions with exact arithmetic, in the place of the floats of `passage_size_for`: they meet the
-- laws that the theorems ask for.
use rag_semantic_search.Prelude.{ℕ, ◌*◌, ◌/◌, ◌≤◌, ◌≡◌, Bool, true, ◌&&◌, arith, ltb}
use rag_semantic_search.Prelude.Ints.{ℤ, pos, negsuc}
use rag_semantic_search.Config.Sizing.{Floats, FloatLaws}

-- numerator and denominator
abbrev Fraction : Type 0
Fraction = ℕ × ℕ

abbrev quotient : Fraction → Fraction → Fraction
quotient (a, b) (c, d) = (a * d, b * c)

abbrev product : Fraction → Fraction → Fraction
product (a, b) (c, d) = (a * c, b * d)

abbrev over : Fraction → ℤ → Bool
over (a, b) (pos n) = ltb 0 b && ltb (n * b) a
over (a, b) (negsuc n) = ltb 0 b

abbrev floor : Fraction → ℕ
floor (a, b) = a / b

abbrev pub exact : Floats
exact = record {
  Float = Fraction;
  of_int = λ n. (n, 1);
  div = quotient;
  mul = product;
  exceeds = over;
  trunc = floor;
  five_quarters = (5, 4);
  one_fifth = (1, 5);
}

exact_stretch : (a b n : ℕ) → over (a, b) (pos n) ≡ true → n ≤ (a * 5) / (b * 4)
exact_stretch a b n h = grind arith

pub exact-FloatLaws : FloatLaws exact
exact-FloatLaws = record {
  stretch = λ x n h. exact_stretch x.0 x.1 n h;
  shrink = λ n h. omega arith;
}
