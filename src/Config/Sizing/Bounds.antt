-- ===== src/Config/Sizing/Bounds.antt =====
-- app/core/config.py, `passage_size_for`: the sizes that it can give.
use rag_semantic_search.Prelude.{
  ℕ, suc, ◌+◌, ◌-◌, ◌*◌, ◌≤◌, ◌<◌, max, ◌≡◌, ◌⊎◌, inl, inr, true, arith, ltb, leb, Bool-cases,
}
use rag_semantic_search.Prelude.Ints.{sub_ℕ}
use rag_semantic_search.Config.{Settings}
use rag_semantic_search.Errors.{Raised, ok, err}
use rag_semantic_search.Config.Sizing.{
  Floats, FloatLaws, Sizes, sizes_for, passage_size_for, stride, coarse_target, coarse_overlap,
  with_maximum,
}

-- Settings that leave room for a passage beside its overlap, before and after coarsening, and whose
-- divisors are not zero.
pub record IsSane (c : Settings) : Type 0 where
  pub some_overlap : 3 ≤ c.passage_overlap_bytes
  pub room : 12 + c.passage_overlap_bytes ≤ c.passage_target_bytes
  pub half : c.passage_overlap_bytes + c.passage_overlap_bytes < c.passage_target_bytes
  pub coarse_room : 12 + c.passage_overlap_bytes ≤ c.passage_max_target_bytes
  pub some_maximum : 9 ≤ c.passage_max_bytes
  pub some_dimension : 0 < c.embedding_dim
  pub some_budget : 0 < c.index_memory_budget_bytes

-- Sizes for which the passages advance: the overlap is less than the target, the maximum at least
-- three times the target, and the target between a floor and the larger of the two settings.
pub record Fits (c : Settings) (z : Sizes) : Type 0 where
  pub overlap_below : z.overlap < z.target
  pub overlap_floor : c.passage_overlap_bytes ≤ z.overlap
  pub target_floor : 12 ≤ z.target
  pub target_ceiling : z.target ≤ max c.passage_target_bytes c.passage_max_target_bytes
  pub maximum_floor : z.target * 3 ≤ z.maximum
  pub maximum_default : c.passage_max_bytes ≤ z.maximum

module _ (f : Floats) (laws : FloatLaws f) (c : Settings) (sane : IsSane c) where
  precise-Fits : Fits c (with_maximum f c c.passage_target_bytes c.passage_overlap_bytes)
  precise-Fits = omega arith

  -- A stride over the precise one gives a target that leaves room for the overlap.
  coarse_target_floor :
      (total : ℕ)
      → f.exceeds (stride f c total) (sub_ℕ c.passage_target_bytes c.passage_overlap_bytes) ≡ true
      → suc c.passage_overlap_bytes ≤ coarse_target f c total
  coarse_target_floor total over =
      let apart : leb c.passage_overlap_bytes c.passage_target_bytes ≡ true = ground arith in
      let n = c.passage_target_bytes - c.passage_overlap_bytes in
      omega (arith, laws.stretch (stride f c total) n (rw apart at over))

  coarse-Fits :
      (total : ℕ)
      → f.exceeds (stride f c total) (sub_ℕ c.passage_target_bytes c.passage_overlap_bytes) ≡ true
      → Fits c (
          with_maximum f c (coarse_target f c total) (coarse_overlap f c (coarse_target f c total)))
  coarse-Fits total over =
      let apart : leb c.passage_overlap_bytes c.passage_target_bytes ≡ true = ground arith in
      omega (
        arith,
        coarse_target_floor total over,
        laws.shrink (coarse_target f c total),
        laws.stretch (stride f c total) (c.passage_target_bytes - c.passage_overlap_bytes)
            (rw apart at over),
      )

  pub sizes_for-Fits : (total : ℕ) → Fits c (sizes_for f c total)
  unfolding sizes_for
  sizes_for-Fits total = elim (Bool-cases (ltb 0 total)) [
    | inl p ↦
        elim (Bool-cases
          (f.exceeds (stride f c total) (sub_ℕ c.passage_target_bytes c.passage_overlap_bytes))) [
            | inl over ↦ rw (p, sizes_for, over) (coarse-Fits total over)
            | inr under ↦ rw (p, sizes_for, under) precise-Fits
          ]
    | inr z ↦ rw (z, sizes_for) precise-Fits
  ]

  -- With sane settings, the two divisors above zero among them, and floats that keep the laws stated,
  -- no division fails, and every total size gets sizes that fit: a target of at least 12 bytes and at
  -- most the larger of the two configured ones, an overlap below it and not below the configured one,
  -- and a maximum of three targets or more, not below the configured one.
  pub passage_size_for-Fits :
      (total : ℕ) → (z : Sizes) × (passage_size_for f c total ≡ ok z) × Fits c z
  unfolding passage_size_for
  passage_size_for-Fits total = (sizes_for f c total, ground (arith, sane), sizes_for-Fits total)

-- With a divisor that is zero, a declared size above zero raises.
pub passage_size_for-zero :
    (f : Floats) (c : Settings) (total : ℕ)
    → 0 < total
    → (c.embedding_dim ≡ 0) ⊎ (c.index_memory_budget_bytes ≡ 0)
    → passage_size_for f c total ≡ err Raised.zero_division
unfolding passage_size_for
passage_size_for-zero f c total some (inl z) = ground arith
passage_size_for-zero f c total some (inr z) = ground arith
