-- ===== src/Chunker.antt =====
-- app/rag/ingestion/chunker.py: bytes that arrive in any grouping become passage byte-ranges that
-- end on line boundaries. A byte string is a list of numbers; `del self._buffer[: n]` is `drop n`.
-- The loop of `_drain` takes fuel, one unit for each byte in the buffer and one more.
pub mod Cut
pub mod Coverage
pub mod Session
use Prim.Native.Nat.{bit_and}
use mathlib.Core.Option
use rag_semantic_search.Prelude.{
  ℕ, zero, suc, ◌+◌, ◌-◌, ◌/◌, min, Bool, true, false, ◌&&◌, ◌||◌, Option, none, some, List, [],
  ◌∷◌, ◌++◌, leb, ◌==◌, if◌then◌else◌, length, get_or, take, drop,
}
use rag_semantic_search.Config.{Settings}
use rag_semantic_search.Prelude.Ints.{ℤ, pos, sub_ℕ, minus, le_int}

pub record PassageRange : Type 0 where
  pub start_byte : ℕ
  pub end_byte : ℕ

unfoldable pub size : PassageRange → ℕ
size p = p.end_byte - p.start_byte

pub record LineBuffer : Type 0 where
  pub absolute_offset : ℕ
  pub buffer : List ℕ
  pub target_bytes : ℕ
  pub max_bytes : ℕ
  pub overlap_bytes : ℕ

-- `value or default`: None and 0 both give the default
abbrev pub or_default : Option ℕ → ℕ → ℕ
or_default none default = default
or_default (some value) default = if value == 0 then default else value

abbrev pub newline : ℕ
newline = 0x0A

-- bytes.find(b, start): the first position at or after `start`
unfoldable pub find : ℕ → List ℕ → ℕ → Option ℕ
find b [] start = none
find b (x ∷ xs) zero = if x == b then some 0 else Option.map suc (find b xs zero)
find b (x ∷ xs) (suc start) = Option.map suc (find b xs start)

-- bytes.rfind(b): the last position
unfoldable pub rfind : ℕ → List ℕ → Option ℕ
rfind b [] = none
rfind b (x ∷ xs) = elim (rfind b xs) [
  | some i ↦ some (suc i)
  | none ↦ if x == b then some 0 else none
]

-- (b & 0xC0) == 0x80
pub is_continuation : ℕ → Bool
is_continuation b = bit_and b 0xC0 == 0x80

-- LineBuffer.__init__
unfoldable pub line_buffer : Settings → ℕ → List ℕ → Option ℕ → Option ℕ → Option ℕ → LineBuffer
line_buffer c start_offset pending_tail target_bytes max_bytes overlap_bytes = record {
  absolute_offset = start_offset - length pending_tail;
  buffer = pending_tail;
  target_bytes = or_default target_bytes c.passage_target_bytes;
  max_bytes = or_default max_bytes c.passage_max_bytes;
  overlap_bytes = or_default overlap_bytes c.passage_overlap_bytes;
}

abbrev pub pending_tail : LineBuffer → List ℕ
pending_tail lb = lb.buffer

-- the loop of `_safe_split_point`: `rounds` turns left, `fallback` for when they run out
unfoldable pub back_off : ℕ → List ℕ → ℕ → ℕ → ℕ
unfolding is_continuation
back_off zero buf fallback point = fallback
back_off (suc rounds) buf fallback point =
    let earlier = back_off rounds buf fallback (point - 1) in
    if leb point 0 || leb (length buf) point
    then point
    else if is_continuation (get_or buf point 0)
    then earlier
    else point

unfoldable pub safe_split_point : LineBuffer → ℕ → ℕ
unfolding back_off
safe_split_point lb limit =
    back_off 4 lb.buffer (min limit (length lb.buffer)) (min limit (length lb.buffer))

-- the loop of `_overlap_size`; its result can be negative
unfoldable pub step_forward : ℕ → List ℕ → ℕ → ℕ → ℕ → ℤ
unfolding is_continuation
step_forward zero buf cut overlap point = pos overlap
step_forward (suc rounds) buf cut overlap point =
    let later = step_forward rounds buf cut overlap (point + 1) in
    if leb point 0 || leb (length buf) point
    then sub_ℕ cut point
    else if is_continuation (get_or buf point 0)
    then later
    else sub_ℕ cut point

unfoldable pub overlap_size : LineBuffer → ℕ → ℤ
unfolding step_forward
overlap_size lb cut =
    let overlap = min lb.overlap_bytes (cut / 2) in
    if leb overlap 0 then pos 0 else step_forward 4 lb.buffer cut overlap (cut - overlap)

-- `size if final else None`
abbrev pub rest_if_final : ℕ → Bool → Option ℕ
rest_if_final size final = if final then some size else none

-- the last two cases of `_find_cut`: no break in the window serves
unfoldable pub cut_long_line : LineBuffer → Bool → Option ℕ
unfolding safe_split_point
cut_long_line lb final =
    if leb lb.max_bytes (length lb.buffer)
    then some (safe_split_point lb lb.max_bytes)
    else rest_if_final (length lb.buffer) final

-- the last break before the target, if the passage is still substantial
unfoldable pub cut_before_target : LineBuffer → Bool → List ℕ → Option ℕ
unfolding rfind cut_long_line
cut_before_target lb final window = elim (rfind newline window) [
  | none ↦ cut_long_line lb final
  | some i ↦ if leb (lb.target_bytes / 2) (i + 1) then some (i + 1) else cut_long_line lb final
]

unfoldable pub find_cut : LineBuffer → Bool → Option ℕ
unfolding find cut_before_target
find_cut lb final =
    let size = length lb.buffer in
    let window = take (min size lb.max_bytes) lb.buffer in
    if size == 0
    then none
    else if leb lb.target_bytes size
    then elim (find newline window (lb.target_bytes - 1)) [
      | some i ↦ some (i + 1)
      | none ↦ cut_before_target lb final window
    ]
    else rest_if_final size final

-- one turn of the loop of `_drain`, up to its test for the end
unfoldable pub advance : LineBuffer → ℕ → LineBuffer
unfolding overlap_size
advance lb cut = record lb {
  buffer = drop (minus cut (overlap_size lb cut)) lb.buffer;
  absolute_offset = minus (lb.absolute_offset + cut) (overlap_size lb cut);
}

abbrev pub cleared : LineBuffer → ℕ → LineBuffer
cleared lb end = record lb { buffer = []; absolute_offset = end }

abbrev pub prepend : PassageRange → List PassageRange × LineBuffer → List PassageRange × LineBuffer
prepend p (ps, lb) = (p ∷ ps, lb)

-- `none` when the fuel runs out
unfoldable pub drain : ℕ → Bool → LineBuffer → Option (List PassageRange × LineBuffer)
unfolding find_cut advance
drain zero final lb = none
drain (suc fuel) final lb = elim (find_cut lb final) [
  | none ↦ some ([], lb)
  | some cut ↦
      let p : PassageRange = record {
        start_byte = lb.absolute_offset;
        end_byte = lb.absolute_offset + cut;
      } in
      let next = advance lb cut in
      let rest = drain fuel final next in
      if final && le_int (length next.buffer) (overlap_size lb cut)
      then some (p ∷ [], cleared next (lb.absolute_offset + cut))
      else Option.map (prepend p) rest
]

unfoldable pub feed : LineBuffer → List ℕ → Option (List PassageRange × LineBuffer)
unfolding drain
feed lb bytes =
    let fed = record lb { buffer = lb.buffer ++ bytes } in drain (suc (length fed.buffer)) false fed

unfoldable pub flush : LineBuffer → Option (List PassageRange × LineBuffer)
unfolding drain
flush lb = drain (suc (length lb.buffer)) true lb

-- tests/test_chunker.py, `collect`: chunks fed one after the other, and then the flush
unfoldable pub collect : LineBuffer → List (List ℕ) → Option (List PassageRange)
unfolding feed flush
collect lb [] = Option.map (λ r. r.0) (flush lb)
collect lb (chunk ∷ chunks) = elim (feed lb chunk) [
  | none ↦ none
  | some (ps, lb') ↦ Option.map (λ rest. ps ++ rest) (collect lb' chunks)
]
