-- ===== src/Samples/Chunks.antt =====
-- The chunker and its sizes on small inputs.
use mathlib.Core.List.{flatten}
use rag_semantic_search.Prelude.{ℕ, ◌*◌, ◌≡◌, refl, some, List, [], ◌∷◌, arith, length, take}
use rag_semantic_search.Validators.{sample_bytes, contains, looks_like_binary}
use rag_semantic_search.Validators.Plain.{looks_like_binary-contains}
use rag_semantic_search.Config.{defaults}
use rag_semantic_search.Config.Sizing.{Sizes, sizes_for, passage_size_for}
use rag_semantic_search.Errors.{ok}
use rag_semantic_search.Config.Sizing.Exact.{exact, exact-FloatLaws}
use rag_semantic_search.Config.Sizing.Bounds.{IsSane, Fits, passage_size_for-Fits}
use rag_semantic_search.Chunker.{PassageRange, LineBuffer, line_buffer, pending_tail, collect}
use rag_semantic_search.Chunker.Cut.{IsSized}
use rag_semantic_search.Chunker.Coverage.{limit_of}
use rag_semantic_search.Chunker.Session.{Covers, collect-Covers, line_buffer-pending_tail}

-- "alpha beta⏎gamma⏎delta" in three chunks
abbrev chunks : List (List ℕ)
chunks =
    (97 ∷ 108 ∷ 112 ∷ 104 ∷ 97 ∷ 32 ∷ 98 ∷ [])
    ∷ (101 ∷ 116 ∷ 97 ∷ 10 ∷ 103 ∷ 97 ∷ 109 ∷ 109 ∷ 97 ∷ 10 ∷ [])
    ∷ (100 ∷ 101 ∷ 108 ∷ 116 ∷ 97 ∷ [])
    ∷ []

abbrev small : LineBuffer
small = record {
  absolute_offset = 0;
  buffer = [];
  target_bytes = 12;
  max_bytes = 20;
  overlap_bytes = 3;
}

collect-small :
    collect small chunks
    ≡ some
        (record { start_byte = 0; end_byte = 17 } ∷ record { start_byte = 14; end_byte = 22 } ∷ [])
unfolding collect
collect-small = refl

small-IsSized : IsSized (line_buffer defaults 0 [] (some 12) (some 20) (some 3))
unfolding line_buffer
small-IsSized = omega arith

collect-Covers_example :
    (ps : List PassageRange) × (collect
        (line_buffer defaults 0 [] (some 12) (some 20) (some 3))
        chunks
      ≡ some ps)
    × Covers
        (limit_of (line_buffer defaults 0 [] (some 12) (some 20) (some 3)))
        (length (flatten chunks))
        ps
collect-Covers_example = collect-Covers defaults (some 12) (some 20) (some 3) chunks small-IsSized

-- a buffer that holds back the end of a line
abbrev halfway : LineBuffer
halfway = record {
  absolute_offset = 4;
  buffer = 97 ∷ 32 ∷ 98 ∷ [];
  target_bytes = 12;
  max_bytes = 20;
  overlap_bytes = 3;
}

line_buffer-pending_tail_example :
    line_buffer defaults 7 (pending_tail halfway) (some 12) (some 20) (some 3) ≡ halfway
line_buffer-pending_tail_example =
    line_buffer-pending_tail defaults (97 ∷ 108 ∷ 112 ∷ 104 ∷ 97 ∷ 32 ∷ 98 ∷ []) 0 5 halfway
      (omega arith)
      (record {
        content = refl;
        after_start = omega arith;
        no_gap = omega arith;
        within = omega arith;
      })

pub defaults-IsSane : IsSane defaults
defaults-IsSane = omega arith

passage_size_for-Fits_example :
    (z : Sizes) × (passage_size_for exact defaults 10_000_000_000 ≡ ok z) × Fits defaults z
passage_size_for-Fits_example =
    passage_size_for-Fits exact exact-FloatLaws defaults defaults-IsSane 10_000_000_000

-- a 10 GB file is coarsened
passage_size_for_large :
    passage_size_for exact defaults (10 * 1024 * 1024 * 1024)
    ≡ ok (record { target = 4800; maximum = 14400; overlap = 960 })
unfolding passage_size_for sizes_for
passage_size_for_large = refl

looks_like_binary-contains_example :
    looks_like_binary (104 ∷ 105 ∷ 10 ∷ []) ≡ contains 0 (take sample_bytes (104 ∷ 105 ∷ 10 ∷ []))
looks_like_binary-contains_example =
    looks_like_binary-contains (104 ∷ 105 ∷ 10 ∷ []) (omega arith, (omega arith, (omega arith, tt)))
