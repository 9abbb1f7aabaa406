-- ===== src/Chunker/Session.antt =====
-- app/rag/ingestion/chunker.py: `feed`, `flush` and the restart from a persisted tail, over a whole
-- upload.
use mathlib.Core.List.{flatten}
use rag_semantic_search.Prelude.{
  ℕ, suc, ◌+◌, ◌-◌, ◌≤◌, ◌<◌, max, ◌≡◌, refl, ap, ap₂, ◌∙◌, subst, ◌⊎◌, inl, inr, true, false,
  Option, some, List, [], ◌∷◌, ◌++◌, arith, Bool-cases, ltb, length, length-append, drop-append,
}
use rag_semantic_search.Config.{Settings}
use rag_semantic_search.Chunker.{
  PassageRange, LineBuffer, pending_tail, feed, flush, line_buffer, collect,
}
use rag_semantic_search.Chunker.Cut.{IsSized}
use rag_semantic_search.Chunker.Coverage.{
  Tiles, Holds, limit_of, SameSizes-IsSized, Runs, drain-Runs, length-buffer,
}

abbrev pub fed : LineBuffer → List ℕ → LineBuffer
fed lb bytes = record lb { buffer = lb.buffer ++ bytes }

fed-IsSized : {lb : LineBuffer} (bytes : List ℕ) → IsSized lb → IsSized (fed lb bytes)
fed-IsSized bytes z = record {
  target_fits = z.target_fits;
  max_fits = z.max_fits;
  overlap_fits = z.overlap_fits;
}

fed-Holds :
    (stream bytes : List ℕ) (s e : ℕ) (lb : LineBuffer)
    → Holds stream s e lb
    → Holds (stream ++ bytes) s e (fed lb bytes)
fed-Holds stream bytes s e lb h = record {
  content = rw (drop-append lb.absolute_offset stream bytes (omega arith), h.content);
  after_start = h.after_start;
  no_gap = h.no_gap;
  within = omega (arith, length-append stream bytes);
}

-- However the chunk boundaries fall, `feed` returns, goes on tiling where the last passage ended,
-- and
-- holds back less than a passage of the largest size, which is the unread end of the stream.
pub feed-Runs :
    (stream bytes : List ℕ) (s e : ℕ) (lb : LineBuffer)
    → IsSized lb
    → Holds stream s e lb
    → Runs (stream ++ bytes) s e false (fed lb bytes) (feed lb bytes)
unfolding feed
feed-Runs stream bytes s e lb sized h =
    drain-Runs (stream ++ bytes) (suc (length (lb.buffer ++ bytes))) false (fed lb bytes) s e
      (omega arith) (fed-IsSized bytes sized) (fed-Holds stream bytes s e lb h)

pub flush-Runs :
    (stream : List ℕ) (s e : ℕ) (lb : LineBuffer)
    → IsSized lb
    → Holds stream s e lb
    → Runs stream s e true lb (flush lb)
unfolding flush
flush-Runs stream s e lb sized h =
    drain-Runs stream (suc (length lb.buffer)) true lb s e (omega arith) sized h

Tiles-append :
    (limit s e s' e' s'' e'' : ℕ) (ps qs : List PassageRange)
    → Tiles limit s e ps s' e'
    → Tiles limit s' e' qs s'' e''
    → Tiles limit s e (ps ++ qs) s'' e''
Tiles-append limit s e s' e' s'' e'' [] qs h g = rw (h.0, h.1) g
Tiles-append limit s e s' e' s'' e'' (p ∷ ps) qs h g =
    (h.0, h.1, h.2, h.3, Tiles-append limit _ _ s' e' s'' e'' ps qs h.4 g)

-- Once nothing is held back the last passage ends where the stream does.
pub end_of_stream :
    {stream : List ℕ} {s e : ℕ} {lb : LineBuffer}
    → Holds stream s e lb
    → lb.buffer ≡ []
    → e ≡ length stream
end_of_stream h empty = omega (arith, length-buffer h, ap (length {0}) empty, h.no_gap, h.within)

-- The byte at position i lies in one of the passages.
abbrev pub Contains : ℕ → List PassageRange → Type 0
Contains i [] = ⊥
Contains i (p ∷ ps) = ((p.start_byte ≤ i) × (i < p.end_byte)) ⊎ Contains i ps

Tiles-Contains :
    (limit s e s' e' i : ℕ) (ps : List PassageRange)
    → Tiles limit s e ps s' e'
    → e ≤ i
    → i < e'
    → Contains i ps
Tiles-Contains limit s e s' e' i [] t h g = absurd (omega arith)
Tiles-Contains limit s e s' e' i (p ∷ ps) t h g = elim (Bool-cases (ltb i p.end_byte)) [
  | inl inside ↦ inl (omega arith, ground arith)
  | inr after ↦ inr (Tiles-Contains limit _ _ s' e' i ps t.4 (ground arith) g)
]

collect-Tiles :
    (limit total : ℕ) (stream : List ℕ) (chunks : List (List ℕ)) (s e : ℕ) (lb : LineBuffer)
    → limit_of lb ≡ limit
    → length stream + length (flatten chunks) ≡ total
    → IsSized lb
    → Holds stream s e lb
    → (ps : List PassageRange) × (s' : ℕ) × (collect lb chunks ≡ some ps)
      × Tiles limit s e ps s' total
unfolding collect flatten
collect-Tiles limit total stream [] s e lb l n sized h =
    let r = flush-Runs stream s e lb sized h in
    let ends : r.e' ≡ total = omega (arith, end_of_stream r.holds r.settled) in
    (r.passages, r.s', rw (r.returns, collect), rw (← l, ← ends) r.tiles)
collect-Tiles limit total stream (chunk ∷ chunks) s e lb l n sized h =
    let r = feed-Runs stream chunk s e lb sized h in
    let same : limit_of r.end_state ≡ limit = ap₂ max r.sizes.same_target r.sizes.same_max ∙ l in
    let all : length (stream ++ chunk) + length (flatten chunks) ≡ total =
      omega (arith, length-append stream chunk, length-append chunk (flatten chunks)) in
    let (ps, s', q, t) =
      collect-Tiles limit total (stream ++ chunk) chunks r.s' r.e' r.end_state same all
        (SameSizes-IsSized r.sizes (fed-IsSized chunk sized)) r.holds in
    (
      r.passages ++ ps,
      s',
      rw (r.returns, collect, q),
      Tiles-append limit s e r.s' r.e' s' total r.passages ps
          (subst (λ m. Tiles m s e r.passages r.s' r.e') l r.tiles) t,
    )

-- Passages that start at byte 0, follow one another with no gap and in order, and end after `total`
-- bytes, so that each of these bytes is in a passage.
abbrev pub Covers : ℕ → ℕ → List PassageRange → Type 0
Covers limit total ps =
    ((s : ℕ) × Tiles limit 0 0 ps s total) × ((i : ℕ) → i < total → Contains i ps)

-- A fresh buffer with sane sizes, fed any chunks and flushed, returns passages that start at byte
-- 0, follow one
-- another with no gap and in order, none empty nor over the largest size, and end at the last byte;
-- so each byte of the upload is in a passage.
pub collect-Covers :
    (c : Settings) (target maximum overlap : Option ℕ) (chunks : List (List ℕ))
    → let lb = line_buffer c 0 [] target maximum overlap in
      IsSized lb
      → (ps : List PassageRange) × (collect lb chunks ≡ some ps)
        × Covers (limit_of lb) (length (flatten chunks)) ps
unfolding line_buffer
collect-Covers c target maximum overlap chunks sized =
    let lb : LineBuffer = line_buffer c 0 [] target maximum overlap in
    let total : ℕ = length (flatten chunks) in
    let begins : Holds [] 0 0 lb = record {
      content = refl;
      after_start = omega arith;
      no_gap = omega arith;
      within = omega arith;
    } in
    let (ps, s', q, t) =
      collect-Tiles (limit_of lb) total [] chunks 0 0 lb refl (omega arith) sized begins in
    (ps, q, ((s', t), λ i h. Tiles-Contains (limit_of lb) 0 0 s' total i ps t (omega arith) h))

-- A buffer rebuilt from the number of bytes received and the persisted tail, with the sane sizes
-- that it had, is the buffer that was given up: after a feed nothing of the state is lost in a
-- restart.
pub line_buffer-pending_tail :
    (c : Settings) (stream : List ℕ) (s e : ℕ) (lb : LineBuffer)
    → IsSized lb
    → Holds stream s e lb
    → line_buffer c
        (length stream)
        (pending_tail lb)
        (some lb.target_bytes)
        (some lb.max_bytes)
        (some lb.overlap_bytes)
      ≡ lb
unfolding line_buffer
line_buffer-pending_tail c stream s e lb sized h = ground (arith, length-buffer h)

-- A restart keeps the place in the stream, whatever sizes the new buffer gets.
pub restarted-Holds :
    (c : Settings) (target maximum overlap : Option ℕ) (n : ℕ) (stream : List ℕ) (s e : ℕ)
    (lb : LineBuffer)
    → n ≡ length stream
    → Holds stream s e lb
    → Holds stream s e (line_buffer c n (pending_tail lb) target maximum overlap)
unfolding line_buffer
restarted-Holds c target maximum overlap n stream s e lb all h =
    let same : n - length lb.buffer ≡ lb.absolute_offset = omega (arith, length-buffer h) in
    record {
      content = rw same h.content;
      after_start = rw same h.after_start;
      no_gap = rw same h.no_gap;
      within = h.within;
    }
