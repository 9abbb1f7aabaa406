-- ===== src/Chunker/Coverage.antt =====
-- app/rag/ingestion/chunker.py: what the passages of a whole upload cover. `stream` is all that the
-- upload has sent so far.
use rag_semantic_search.Prelude.{
  ℕ, zero, suc, ◌+◌, ◌-◌, ◌≤◌, ◌<◌, max, ◌≡◌, refl, sym, ap, ◌∙◌, subst, inl, inr, Bool, true,
  false, ◌&&◌, Option, some, none, List, [], ◌∷◌, arith, length, drop, length-drop, drop-drop,
  drop-length, eq-nil_of_length, Bool-cases, Option-cases,
}
use rag_semantic_search.Prelude.Ints.{ℤ, pos, le_int}
use rag_semantic_search.Chunker.{
  PassageRange, LineBuffer, overlap_size, find_cut, advance, cleared, drain,
}
use rag_semantic_search.Chunker.Cut.{
  IsSized, CutBounds, find_cut_bounds, find_cut-none, overlap_size_bounds,
}

-- Passages that follow a passage from s to e and end with one from s' to e': each starts inside the
-- one before it or at its end, not before its start, and is not empty nor longer than `limit`.
abbrev pub Tiles : ℕ → ℕ → ℕ → List PassageRange → ℕ → ℕ → Type 0
Tiles limit s e [] s' e' = (s ≡ s') × (e ≡ e')
Tiles limit s e (p ∷ ps) s' e' =
    (s ≤ p.start_byte)
    × (p.start_byte ≤ e)
    × (p.start_byte < p.end_byte)
    × (p.end_byte ≤ p.start_byte + limit)
    × Tiles limit p.start_byte p.end_byte ps s' e'

-- The buffer holds the end of the stream, from inside the last passage on.
pub record Holds (stream : List ℕ) (s e : ℕ) (lb : LineBuffer) : Type 0 where
  pub content : lb.buffer ≡ drop lb.absolute_offset stream
  pub after_start : s ≤ lb.absolute_offset
  pub no_gap : lb.absolute_offset ≤ e
  pub within : e ≤ length stream

abbrev pub limit_of : LineBuffer → ℕ
limit_of lb = max lb.target_bytes lb.max_bytes

-- The sizes are set once.
pub record SameSizes (lb lb' : LineBuffer) : Type 0 where
  pub same_target : lb'.target_bytes ≡ lb.target_bytes
  pub same_max : lb'.max_bytes ≡ lb.max_bytes
  pub same_overlap : lb'.overlap_bytes ≡ lb.overlap_bytes

pub SameSizes-IsSized : {lb lb' : LineBuffer} → SameSizes lb lb' → IsSized lb → IsSized lb'
SameSizes-IsSized m s = ground arith

pub record Turned (stream : List ℕ) (lb : LineBuffer) (cut k : ℕ) : Type 0 where
  pub overlap_is : overlap_size lb cut ≡ pos k
  pub smaller : length (advance lb cut).buffer < length lb.buffer
  pub left : length (advance lb cut).buffer + (lb.absolute_offset + cut) ≡ length stream + k
  pub sizes : SameSizes lb (advance lb cut)
  pub holds : Holds stream lb.absolute_offset (lb.absolute_offset + cut) (advance lb cut)

pub length-buffer :
    {stream : List ℕ} {s e : ℕ} {lb : LineBuffer}
    → Holds stream s e lb
    → length lb.buffer + lb.absolute_offset ≡ length stream
length-buffer {stream} {lb = lb} h =
    omega
      (arith, ap (length {0}) h.content, length-drop lb.absolute_offset stream, h.no_gap, h.within)

advance-Turned :
    (stream : List ℕ) (lb : LineBuffer) (final : Bool) (cut s e : ℕ)
    → IsSized lb
    → Holds stream s e lb
    → CutBounds lb final cut
    → (k : ℕ) × Turned stream lb cut k
unfolding advance
advance-Turned stream lb final cut s e sized h b =
    let (k, ek, hk) = overlap_size_bounds lb final cut sized b in
    let len = length-buffer h in
    (
      k,
      record {
        overlap_is = ek;
        smaller = rw ek (omega (arith, length-drop (cut - k) lb.buffer));
        left = rw ek (omega (arith, length-drop (cut - k) lb.buffer));
        sizes = record { same_target = refl; same_max = refl; same_overlap = refl };
        holds = record {
          content = rw ek (
              ap (drop (cut - k)) h.content
              ∙ drop-drop (cut - k) lb.absolute_offset stream
              ∙ ap (λ n. drop n stream) (omega arith));
          after_start = rw ek (omega arith);
          no_gap = rw ek (omega arith);
          within = omega arith;
        };
      },
    )

-- How a run of the loop ends: at the end of the upload nothing is held back, before it less than a
-- passage of the largest size.
abbrev pub IsSettled : Bool → LineBuffer → Type 0
IsSettled true lb = lb.buffer ≡ []
IsSettled false lb = length lb.buffer < limit_of lb

stopped-IsSettled :
    (final : Bool) (lb : LineBuffer) → IsSized lb → find_cut lb final ≡ none → IsSettled final lb
stopped-IsSettled true lb sized stop =
    eq-nil_of_length lb.buffer (grind (arith, find_cut-none lb true sized stop))
stopped-IsSettled false lb sized stop = grind (arith, find_cut-none lb false sized stop)

-- A run that began after a passage from s to e, and gave passages that tile on from there.
pub record Runs (stream : List ℕ) (s e : ℕ) (final : Bool) (lb : LineBuffer)
    (r : Option (List PassageRange × LineBuffer)) : Type 0 where
  pub passages : List PassageRange
  pub end_state : LineBuffer
  pub s' : ℕ
  pub e' : ℕ
  pub returns : r ≡ some (passages, end_state)
  pub tiles : Tiles (limit_of lb) s e passages s' e'
  pub holds : Holds stream s' e' end_state
  pub settled : IsSettled final end_state
  pub sizes : SameSizes lb end_state

last_covers :
    (final : Bool) (left k total end : ℕ) (z : ℤ)
    → z ≡ pos k
    → (final && le_int left z) ≡ true
    → left + end ≡ total + k
    → total ≤ end
last_covers final left k total end z e last l =
    let e' : (final && le_int left (pos k)) ≡ true =
      subst (λ w. (final && le_int left w) ≡ true) e last in
    ground arith

module _ (stream : List ℕ) where
  drain-stops :
      (fuel : ℕ) (final : Bool) (lb : LineBuffer) (s e : ℕ)
      → IsSized lb
      → Holds stream s e lb
      → find_cut lb final ≡ none
      → Runs stream s e final lb (drain (suc fuel) final lb)
  unfolding drain
  drain-stops fuel final lb s e sized h stop = record {
    passages = [];
    end_state = lb;
    s' = s;
    e' = e;
    returns = rw (stop, drain);
    tiles = (refl, refl);
    holds = h;
    settled = stopped-IsSettled final lb sized stop;
    sizes = record { same_target = refl; same_max = refl; same_overlap = refl };
  }

  -- The last turn: what is left lies inside the passage just given.
  drain-clears :
      (fuel : ℕ) (final : Bool) (lb : LineBuffer) (s e cut k : ℕ)
      → Holds stream s e lb
      → CutBounds lb final cut
      → Turned stream lb cut k
      → find_cut lb final ≡ some cut
      → (final && le_int (length (advance lb cut).buffer) (overlap_size lb cut)) ≡ true
      → Runs stream s e final lb (drain (suc fuel) final lb)
  unfolding drain
  drain-clears fuel final lb s e cut k h b turn found last = record {
    passages = record { start_byte = lb.absolute_offset; end_byte = lb.absolute_offset + cut } ∷ [];
    end_state = cleared (advance lb cut) (lb.absolute_offset + cut);
    s' = lb.absolute_offset;
    e' = lb.absolute_offset + cut;
    returns = rw (found, drain, last);
    tiles = (h.after_start, h.no_gap, omega arith, omega arith, (refl, refl));
    holds = record {
      content = sym (
          drop-length (lb.absolute_offset + cut) stream
            (last_covers final _ k _ _ _ turn.overlap_is last turn.left));
      after_start = omega arith;
      no_gap = omega arith;
      within = turn.holds.within;
    };
    settled = let t : final ≡ true = ground arith in rw t refl;
    sizes = record {
      same_target = turn.sizes.same_target;
      same_max = turn.sizes.same_max;
      same_overlap = turn.sizes.same_overlap;
    };
  }

  drain-goes_on :
      (fuel : ℕ) (final : Bool) (lb : LineBuffer) (s e cut k : ℕ)
      → Holds stream s e lb
      → CutBounds lb final cut
      → Turned stream lb cut k
      → find_cut lb final ≡ some cut
      → (final && le_int (length (advance lb cut).buffer) (overlap_size lb cut)) ≡ false
      → Runs stream lb.absolute_offset
          (lb.absolute_offset + cut)
          final
          (advance lb cut)
          (drain fuel final (advance lb cut))
      → Runs stream s e final lb (drain (suc fuel) final lb)
  unfolding drain
  drain-goes_on fuel final lb s e cut k h b turn found more rest = record {
    passages =
        record { start_byte = lb.absolute_offset; end_byte = lb.absolute_offset + cut }
        ∷ rest.passages;
    end_state = rest.end_state;
    s' = rest.s';
    e' = rest.e';
    returns = rw (found, drain, more, rest.returns);
    tiles = (h.after_start, h.no_gap, omega arith, omega arith, rest.tiles);
    holds = rest.holds;
    settled = rest.settled;
    sizes = ground arith;
  }

  pub drain-Runs :
      (fuel : ℕ) (final : Bool) (lb : LineBuffer) (s e : ℕ)
      → length lb.buffer < fuel
      → IsSized lb
      → Holds stream s e lb
      → Runs stream s e final lb (drain fuel final lb)
  drain-Runs zero final lb s e enough sized h = absurd (omega arith)
  drain-Runs (suc fuel) final lb s e enough sized h = elim (Option-cases (find_cut lb final)) [
    | inl stop ↦ drain-stops fuel final lb s e sized h stop
    | inr (cut, found) ↦
        let b = find_cut_bounds lb final cut sized found in
        let (k, turn) = advance-Turned stream lb final cut s e sized h b in
        let rest =
          drain-Runs fuel final (advance lb cut) lb.absolute_offset (lb.absolute_offset + cut)
            (omega (arith, turn.smaller)) (SameSizes-IsSized turn.sizes sized) turn.holds in
        elim (Bool-cases (final && le_int (length (advance lb cut).buffer) (overlap_size lb cut))) [
          | inl last ↦ drain-clears fuel final lb s e cut k h b turn found last
          | inr more ↦ drain-goes_on fuel final lb s e cut k h b turn found more rest
        ]
  ]
