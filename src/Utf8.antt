-- ===== src/Utf8.antt =====
-- Python's `bytes.decode("utf-8")`, as app/services/upload/validators.py and
-- app/repositories/file_storage_repository.py use it: the strict decoder's error span, and
-- errors="replace". A decoded text is the list of its code points.
use rag_semantic_search.Prelude.{
  ℕ, zero, suc, ◌+◌, ◌-◌, ◌*◌, Bool, ◌&&◌, Option, none, some, List, [], ◌∷◌, leb, ◌==◌,
  if◌then◌else◌, length, drop,
}

abbrev pub Text : Type 0
Text = List ℕ

abbrev between : ℕ → ℕ → ℕ → Bool
between lo hi b = leb lo b && leb b hi

-- What the decoder makes of the bytes at its position: a character, or an error, with the number of
-- bytes that it takes.
pub data Step : Type 0 where
  char : ℕ → ℕ → Step
  bad : ℕ → Step

-- how many bytes follow a lead byte; none for a byte that cannot lead
lead_length : ℕ → ℕ
lead_length b =
    if between 0xC2 0xDF b
    then 1
    else if between 0xE0 0xEF b
    then 2
    else if between 0xF0 0xF4 b
    then 3
    else 0

-- the second byte's range depends on the lead: no overlong forms, no surrogates, nothing over 10FFFF
second_fits : ℕ → ℕ → Bool
second_fits lead b =
    if lead == 0xE0
    then between 0xA0 0xBF b
    else if lead == 0xED
    then between 0x80 0x9F b
    else if lead == 0xF0
    then between 0x90 0xBF b
    else if lead == 0xF4
    then between 0x80 0x8F b
    else between 0x80 0xBF b

-- the third and the fourth byte: `more` to come, `taken` so far
tail_step : ℕ → ℕ → ℕ → List ℕ → Step
tail_step zero taken code bytes = char code taken
tail_step (suc more) taken code [] = bad taken
tail_step (suc more) taken code (b ∷ bytes) =
    let rest = tail_step more (taken + 1) (code * 64 + (b - 0x80)) bytes in
    if between 0x80 0xBF b then rest else bad taken

-- the bits of a lead byte that belong to the code point
lead_bits : ℕ → ℕ → ℕ
lead_bits more b = if more == 1 then b - 0xC0 else if more == 2 then b - 0xE0 else b - 0xF0

second_step : ℕ → ℕ → List ℕ → Step
unfolding lead_bits second_fits tail_step
second_step lead zero bytes = bad 1
second_step lead (suc more) [] = bad 1
second_step lead (suc more) (b ∷ bytes) =
    if second_fits lead b
    then tail_step more 2 (lead_bits (suc more) lead * 64 + (b - 0x80)) bytes
    else bad 1

unfoldable pub decode_step : ℕ → List ℕ → Step
unfolding lead_length second_step
decode_step b bytes = if leb b 0x7F then char b 1 else second_step b (lead_length b) bytes

abbrev pub width : Step → ℕ
width (char code n) = n
width (bad n) = n

-- The UnicodeDecodeError of the strict decoder: (exc.start, exc.end), or `none` where all decodes.
-- The fuel is the number of bytes.
unfoldable pub first_error_from : ℕ → ℕ → List ℕ → Option (ℕ × ℕ)
unfolding decode_step
first_error_from zero start bytes = none
first_error_from (suc fuel) start [] = none
first_error_from (suc fuel) start (b ∷ bytes) = elim (decode_step b bytes) [
  | char code n ↦ first_error_from fuel (start + n) (drop n (b ∷ bytes))
  | bad n ↦ some (start, start + n)
]

unfoldable pub first_error : List ℕ → Option (ℕ × ℕ)
unfolding first_error_from
first_error bytes = first_error_from (length bytes) 0 bytes

-- decode("utf-8", errors="replace")
unfoldable pub decode_from : ℕ → List ℕ → Text
unfolding decode_step
decode_from zero bytes = []
decode_from (suc fuel) [] = []
decode_from (suc fuel) (b ∷ bytes) = elim (decode_step b bytes) [
  | char code n ↦ code ∷ decode_from fuel (drop n (b ∷ bytes))
  | bad n ↦ 0xFFFD ∷ decode_from fuel (drop n (b ∷ bytes))
]

unfoldable pub decode_replace : List ℕ → Text
unfolding decode_from
decode_replace bytes = decode_from (length bytes) bytes
