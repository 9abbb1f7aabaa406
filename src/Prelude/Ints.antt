-- ===== src/Prelude/Ints.antt =====
-- Integers, for the one place where a size can fall below zero.
use Prim.Native.Nat.{ℕ, suc, ◌+◌, ◌-◌}
use mathlib.Core.Bool.{Bool, false}
use rag_semantic_search.Prelude.Tests.{leb, if◌then◌else◌}

-- `negsuc n` is -(n + 1).
pub data ℤ : Type 0 where
  pos : ℕ → ℤ
  negsuc : ℕ → ℤ

-- a - b, as an integer.
abbrev pub sub_ℕ : ℕ → ℕ → ℤ
sub_ℕ a b = if leb b a then pos (a - b) else negsuc (b - a - 1)

-- n - z where the result is known not to fall below zero.
abbrev pub minus : ℕ → ℤ → ℕ
minus n (pos m) = n - m
minus n (negsuc m) = n + suc m

-- Whether the number n is at most the integer z.
abbrev pub le_int : ℕ → ℤ → Bool
le_int n (pos m) = leb n m
le_int n (negsuc m) = false
