-- ===== src/Storage.antt =====
-- app/repositories/file_storage_repository.py: the two files that an upload can have on disk.
pub mod Reads
use rag_semantic_search.Prelude.{
  ℕ, ◌-◌, Option, none, some, List, [], ◌++◌, ltb, if◌then◌else◌, length, take, drop, String,
  str_eq,
}
use rag_semantic_search.Utf8.{Text, decode_replace}
use rag_semantic_search.Errors.{Raised, Result, ok, err}

-- The upload directory: `partial id` is {id}.partial and `final id` is {id}.dat, `none` where there
-- is no such file.
pub record Disk : Type 0 where
  pub partial : String → Option (List ℕ)
  pub final : String → Option (List ℕ)

abbrev pub empty_disk : Disk
empty_disk = record { partial = λ id. none; final = λ id. none }

-- one file of the directory given anew
abbrev pub put : (String → Option (List ℕ)) → String → Option (List ℕ) → String → Option (List ℕ)
put files file_id file id = if str_eq id file_id then file else files id

pub data Stage : Type 0 where
  at_final at_partial : Stage

unfoldable pub readable_path : Disk → String → Option Stage
readable_path d file_id = elim (d.final file_id) [
  | some bytes ↦ some at_final
  | none ↦ elim (d.partial file_id) [ some bytes ↦ some at_partial | none ↦ none ]
]

abbrev pub or_empty : Option (List ℕ) → List ℕ
or_empty none = []
or_empty (some bytes) = bytes

-- open(path, "ab") creates the file where it is missing
unfoldable pub append_chunk : Disk → String → List ℕ → ℕ × Disk
append_chunk d file_id bytes =
    let grown = or_empty (d.partial file_id) ++ bytes in
    (length grown, record d { partial = put d.partial file_id (some grown) })

unfoldable pub current_size : Disk → String → ℕ
current_size d file_id = elim (d.partial file_id) [
  | some bytes ↦ length bytes
  | none ↦ elim (d.final file_id) [ some bytes ↦ length bytes | none ↦ 0 ]
]

-- `rename` raises FileNotFoundError where there is no partial file
unfoldable pub finalize : Disk → String → Result Disk
finalize d file_id = elim (d.final file_id) [
  | some bytes ↦ ok d
  | none ↦ elim (d.partial file_id) [
    | some bytes ↦
        ok (record {
          partial = put d.partial file_id none;
          final = put d.final file_id (some bytes);
        })
    | none ↦ err Raised.os_error
  ]
]

unfoldable pub truncate_to : Disk → String → ℕ → Disk
truncate_to d file_id size = elim (d.partial file_id) [
  | some bytes ↦
      if ltb size (length bytes)
      then record d { partial = put d.partial file_id (some (take size bytes)) }
      else d
  | none ↦ d
]

-- open(path, "rb")
abbrev pub open_at : Disk → String → Stage → Option (List ℕ)
open_at d file_id at_final = d.final file_id
open_at d file_id at_partial = d.partial file_id

-- seek(start) and read(max(0, end - start))
abbrev pub slice : List ℕ → ℕ → ℕ → List ℕ
slice bytes start end = take (end - start) (drop start bytes)

-- One attempt of `read_range`: the directory as `readable_path` finds it, and as `open` does.
pub data Attempt : Type 0 where
  no_file : Attempt
  vanished : Attempt
  read : List ℕ → Attempt

abbrev pub opened : ℕ → ℕ → Option (List ℕ) → Attempt
opened start end none = vanished
opened start end (some bytes) = read (slice bytes start end)

unfoldable pub attempt : Disk → Disk → String → ℕ → ℕ → Attempt
unfolding readable_path
attempt checked found file_id start end = elim (readable_path checked file_id) [
  | none ↦ no_file
  | some stage ↦ opened start end (open_at found file_id stage)
]

-- The directory may change between any two of the four looks at it.
unfoldable pub read_range : Disk → Disk → Disk → Disk → String → ℕ → ℕ → Result Text
unfolding attempt decode_replace
read_range d₁ d₂ d₃ d₄ file_id start end = elim (attempt d₁ d₂ file_id start end) [
  | no_file ↦ ok []
  | read bytes ↦ ok (decode_replace bytes)
  | vanished ↦ elim (attempt d₃ d₄ file_id start end) [
    | no_file ↦ ok []
    | read bytes ↦ ok (decode_replace bytes)
    | vanished ↦ err Raised.os_error
  ]
]

-- The directory as `read_range` finds it for one range, at each of its four looks.
pub record Looks : Type 0 where
  pub look_1 : Disk
  pub look_2 : Disk
  pub look_3 : Disk
  pub look_4 : Disk

-- unlink(missing_ok=True) of both files
unfoldable pub delete_all : Disk → String → Disk
delete_all d file_id = record {
  partial = put d.partial file_id none;
  final = put d.final file_id none;
}
