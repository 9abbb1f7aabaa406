-- ===== src/Config/Sizing.antt =====
-- app/core/config.py, `passage_size_for`. The source computes with Python's floats, whose operations
-- are parameters here.
pub mod Bounds
pub mod Exact
use rag_semantic_search.Prelude.{
  ℕ, ◌+◌, ◌*◌, ◌≤◌, ◌<◌, min, max, ◌≡◌, Bool, true, ltb, if◌then◌else◌, ◌&&◌, ◌||◌, ◌==◌,
}
use rag_semantic_search.Prelude.Ints.{ℤ, pos, sub_ℕ}
use rag_semantic_search.Config.{Settings}
use rag_semantic_search.Errors.{Raised, Result, ok, err}

-- Floats that are not negative: conversion of an int, `/`, `*`, `x > n` for an int n, int(x), and
-- the literals 1.25 and 0.2.
pub record Floats : Type 1 where
  pub Float : Type 0
  pub of_int : ℕ → Float
  pub div : Float → Float → Float
  pub mul : Float → Float → Float
  pub exceeds : Float → ℤ → Bool
  pub trunc : Float → ℕ
  pub five_quarters : Float
  pub one_fifth : Float

-- What IEEE arithmetic promises of the two products: x * 1.25 is not below x, and a positive n * 0.2
-- is below n.
pub record FloatLaws (f : Floats) : Type 0 where
  pub stretch :
      (x : f.Float) (n : ℕ) → f.exceeds x (pos n) ≡ true → n ≤ f.trunc (f.mul x f.five_quarters)
  pub shrink : (n : ℕ) → 0 < n → f.trunc (f.mul (f.of_int n) f.one_fifth) < n

pub record Sizes : Type 0 where
  pub target : ℕ
  pub maximum : ℕ
  pub overlap : ℕ

module _ (f : Floats) (c : Settings) where
  -- `needed_stride`
  abbrev pub stride : ℕ → f.Float
  stride total_size =
      f.div (f.of_int total_size)
        (f.div (f.of_int c.index_memory_budget_bytes) (f.of_int c.embedding_dim))

  abbrev pub coarse_target : ℕ → ℕ
  coarse_target total_size =
      min (f.trunc (f.mul (stride total_size) f.five_quarters)) c.passage_max_target_bytes

  abbrev pub coarse_overlap : ℕ → ℕ
  coarse_overlap target =
      max (f.trunc (f.mul (f.of_int target) f.one_fifth)) c.passage_overlap_bytes

  -- the last two lines: `maximum`, and the triple
  abbrev pub with_maximum : ℕ → ℕ → Sizes
  with_maximum target overlap = record {
    target = target;
    maximum = max (target * 3) c.passage_max_bytes;
    overlap = overlap;
  }

  -- the triple, where the two divisions have a result
  unfoldable pub sizes_for : ℕ → Sizes
  sizes_for total_size =
      if ltb 0 total_size
      then if f.exceeds (stride total_size) (sub_ℕ c.passage_target_bytes c.passage_overlap_bytes)
        then with_maximum (coarse_target total_size) (coarse_overlap (coarse_target total_size))
        else with_maximum c.passage_target_bytes c.passage_overlap_bytes
      else with_maximum c.passage_target_bytes c.passage_overlap_bytes

  -- `/` by a zero EMBEDDING_DIM, or by the zero quotient of a zero INDEX_MEMORY_BUDGET_BYTES
  abbrev pub divides_by_zero : ℕ → Bool
  divides_by_zero total_size =
      ltb 0 total_size && (c.embedding_dim == 0 || c.index_memory_budget_bytes == 0)

  unfoldable pub passage_size_for : ℕ → Result Sizes
  passage_size_for total_size =
      if divides_by_zero total_size then err Raised.zero_division else ok (sizes_for total_size)
