-- ===== src/Chunker/Cut.antt =====
-- app/rag/ingestion/chunker.py: where `_find_cut`, `_safe_split_point` and `_overlap_size` can cut.
use rag_semantic_search.Prelude.{
  ℕ, zero, suc, ◌+◌, ◌-◌, ◌/◌, ◌≤◌, ◌<◌, min, max, ◌≡◌, refl, ◌⊎◌, inl, inr, Bool, true, false,
  ◌||◌, some, none, List, [], ◌∷◌, arith, leb, length, get_or, take, length-take, Bool-cases,
  Option-cases,
}
use rag_semantic_search.Prelude.Ints.{pos}
use rag_semantic_search.Chunker.{
  LineBuffer, newline, find, rfind, is_continuation, back_off, safe_split_point, step_forward,
  overlap_size, cut_long_line, cut_before_target, find_cut,
}

-- Sizes for which no step of the chunker can stall or skip a byte. The defaults are far above them.
pub record IsSized (lb : LineBuffer) : Type 0 where
  pub target_fits : 12 ≤ lb.target_bytes
  pub max_fits : 9 ≤ lb.max_bytes
  pub overlap_fits : 3 ≤ lb.overlap_bytes

find_bounds :
    (b : ℕ) (xs : List ℕ) (start i : ℕ) → find b xs start ≡ some i → (start ≤ i) × (i < length xs)
unfolding find
find_bounds b [] start i e = ground arith
find_bounds b (x ∷ xs) zero i e = elim (Option-cases (find b xs zero)) [
  | inl n ↦ ground arith
  | inr (j, f) ↦ ground (arith, find_bounds b xs zero j f)
]
find_bounds b (x ∷ xs) (suc start) i e = elim (Option-cases (find b xs start)) [
  | inl n ↦ ground arith
  | inr (j, f) ↦ ground (arith, find_bounds b xs start j f)
]

rfind_bound : (b : ℕ) (xs : List ℕ) (i : ℕ) → rfind b xs ≡ some i → i < length xs
unfolding rfind
rfind_bound b [] i e = ground arith
rfind_bound b (x ∷ xs) i e = elim (Option-cases (rfind b xs)) [
  | inl n ↦ ground arith
  | inr (j, f) ↦ ground (arith, rfind_bound b xs j f)
]

back_off_bounds :
    (rounds : ℕ) (buf : List ℕ) (fallback point : ℕ)
    → let cut = back_off rounds buf fallback point in
      (cut ≡ fallback) ⊎ ((cut ≤ point) × (point < cut + rounds))
unfolding back_off
back_off_bounds zero buf fallback point = inl refl
back_off_bounds (suc rounds) buf fallback point =
    ground (arith, back_off_bounds rounds buf fallback (point - 1))

-- The split point is at most three bytes before the limit.
pub safe_split_point_bounds :
    (lb : LineBuffer) (limit : ℕ)
    → (safe_split_point lb limit ≤ min limit (length lb.buffer))
      × (min limit (length lb.buffer) ≤ safe_split_point lb limit + 3)
unfolding safe_split_point
safe_split_point_bounds lb limit =
    let m = min limit (length lb.buffer) in ground (arith, back_off_bounds 4 lb.buffer m m)

-- What a cut can be: all that is left at the end of the upload, or long enough.
abbrev pub CutBounds : LineBuffer → Bool → ℕ → Type 0
CutBounds lb final cut =
    (0 < cut)
    × (cut ≤ length lb.buffer)
    × (cut ≤ max lb.target_bytes lb.max_bytes)
    × (((final ≡ true) × (cut ≡ length lb.buffer)) ⊎ (6 ≤ cut))

cut_long_line_bounds :
    (lb : LineBuffer) (final : Bool) (cut : ℕ)
    → IsSized lb
    → 0 < length lb.buffer
    → cut_long_line lb final ≡ some cut
    → CutBounds lb final cut
unfolding cut_long_line
cut_long_line_bounds lb final cut s p e = ground (arith, safe_split_point_bounds lb lb.max_bytes)

cut_before_target_bounds :
    (lb : LineBuffer) (final : Bool) (window : List ℕ) (cut : ℕ)
    → IsSized lb
    → 0 < length lb.buffer
    → length window ≤ min (length lb.buffer) lb.max_bytes
    → cut_before_target lb final window ≡ some cut
    → CutBounds lb final cut
unfolding cut_before_target
cut_before_target_bounds lb final window cut s p w e = elim (Option-cases (rfind newline window)) [
  | inl n ↦ ground (arith, cut_long_line_bounds lb final cut s p)
  | inr (i, f) ↦
      ground (arith, rfind_bound newline window i f, cut_long_line_bounds lb final cut s p)
]

pub find_cut_bounds :
    (lb : LineBuffer) (final : Bool) (cut : ℕ)
    → IsSized lb
    → find_cut lb final ≡ some cut
    → CutBounds lb final cut
unfolding find_cut
find_cut_bounds lb final cut s e =
    let m = min (length lb.buffer) lb.max_bytes in
    let window = take m lb.buffer in
    let fits : length window ≤ m = omega (arith, length-take m lb.buffer) in
    elim (Option-cases (find newline window (lb.target_bytes - 1))) [
      | inl n ↦
          ground (arith, cut_before_target_bounds lb final window cut s, length-take m lb.buffer)
      | inr (i, f) ↦
          ground
            (arith, find_bounds newline window (lb.target_bytes - 1) i f, length-take m lb.buffer)
    ]

cut_before_target-none :
    (lb : LineBuffer) (final : Bool) (window : List ℕ)
    → cut_before_target lb final window ≡ none
    → (final ≡ false) × (length lb.buffer < lb.max_bytes)
unfolding cut_before_target
cut_before_target-none lb final window e = elim (Option-cases (rfind newline window)) [
  | inl n ↦ ground arith
  | inr (i, f) ↦ ground arith
]

-- Without a cut, nothing is left at the end of the upload, and before it less than a full passage.
pub find_cut-none :
    (lb : LineBuffer) (final : Bool)
    → IsSized lb
    → find_cut lb final ≡ none
    → ((final ≡ true) × (length lb.buffer ≡ 0))
      ⊎ ((final ≡ false) × (length lb.buffer < max lb.target_bytes lb.max_bytes))
unfolding find_cut
find_cut-none lb final s e =
    let window = take (min (length lb.buffer) lb.max_bytes) lb.buffer in
    elim (Option-cases (find newline window (lb.target_bytes - 1))) [
      | inl n ↦ ground (arith, cut_before_target-none lb final window)
      | inr (i, f) ↦ ground arith
    ]

step_forward_short :
    (rounds : ℕ) (buf : List ℕ) (cut overlap point : ℕ)
    → cut - overlap ≤ point
    → point + rounds ≤ cut + 1
    → overlap ≤ cut
    → (k : ℕ) × (step_forward rounds buf cut overlap point ≡ pos k) × (k ≤ overlap)
unfolding step_forward
step_forward_short zero buf cut overlap point h f g = (overlap, refl, omega arith)
step_forward_short (suc rounds) buf cut overlap point h f g =
    elim (Bool-cases (leb point 0 || leb (length buf) point)) [
      | inl t ↦ (cut - point, ground arith, omega arith)
      | inr t ↦ elim (Bool-cases (is_continuation (get_or buf point 0))) [
        | inl c ↦
            let (k, e, b) =
              step_forward_short rounds buf cut overlap (point + 1) (omega arith) (omega arith) g in
            (k, rw (t, step_forward, c, e), b)
        | inr c ↦ (cut - point, ground arith, omega arith)
      ]
    ]

step_forward_at_end :
    (rounds : ℕ) (buf : List ℕ) (cut overlap point : ℕ)
    → cut ≡ length buf
    → cut - overlap ≤ point
    → point ≤ cut
    → (k : ℕ) × (step_forward rounds buf cut overlap point ≡ pos k) × (k ≤ overlap)
unfolding step_forward
step_forward_at_end zero buf cut overlap point l h f = (overlap, refl, omega arith)
step_forward_at_end (suc rounds) buf cut overlap point l h f =
    elim (Bool-cases (leb point 0 || leb (length buf) point)) [
      | inl t ↦ (cut - point, ground arith, omega arith)
      | inr t ↦ elim (Bool-cases (is_continuation (get_or buf point 0))) [
        | inl c ↦
            let (k, e, b) =
              step_forward_at_end rounds buf cut overlap (point + 1) l (omega arith)
                (ground arith) in
            (k, rw (t, step_forward, c, e), b)
        | inr c ↦ (cut - point, ground arith, omega arith)
      ]
    ]

step_forward_at :
    (lb : LineBuffer) (final : Bool) (cut : ℕ)
    → IsSized lb
    → CutBounds lb final cut
    → let overlap = min lb.overlap_bytes (cut / 2) in
      (k : ℕ) × (step_forward 4 lb.buffer cut overlap (cut - overlap) ≡ pos k) × (k ≤ overlap)
step_forward_at lb final cut s (p, n, m, inl (f, e)) =
    step_forward_at_end 4 lb.buffer cut _ _ e (omega arith) (omega arith)
step_forward_at lb final cut s (p, n, m, inr long) =
    step_forward_short 4 lb.buffer cut _ _ (omega arith) (omega arith) (omega arith)

-- For every cut that `_find_cut` makes, the overlap is a length of at most half the passage.
pub overlap_size_bounds :
    (lb : LineBuffer) (final : Bool) (cut : ℕ)
    → IsSized lb
    → CutBounds lb final cut
    → (k : ℕ) × (overlap_size lb cut ≡ pos k) × (k ≤ cut / 2)
unfolding overlap_size
overlap_size_bounds lb final cut s b = elim (Bool-cases (leb (min lb.overlap_bytes (cut / 2)) 0)) [
  | inl z ↦ (0, ground arith, omega arith)
  | inr z ↦
      let overlap = min lb.overlap_bytes (cut / 2) in
      let (k, e, h) = step_forward_at lb final cut s b in (k, rw z e, omega arith)
]
