-- ===== src/Storage/Reads.antt =====
-- app/repositories/file_storage_repository.py: `read_range` beside the rename of `finalize`.
use rag_semantic_search.Prelude.{
  ℕ, ◌≡◌, Bool, true, false, some, none, List, arith, String, str_refl, if◌then◌else◌, not, ◌&&◌,
}
use rag_semantic_search.Utf8.{decode_replace}
use rag_semantic_search.Errors.{ok}
use rag_semantic_search.Storage.{
  Disk, finalize, vanished, read, readable_path, attempt, slice, read_range,
}

-- The directory at one look of a reader, before or after the rename.
abbrev pub seen : Bool → Disk → Disk → Disk
seen renamed d d' = if renamed then d' else d

-- A look after the rename is followed by looks after it.
abbrev pub Ordered : Bool → Bool → Bool → Bool → Type 0
Ordered a b c d = (a ≡ true → b ≡ true) × (b ≡ true → c ≡ true) × (c ≡ true → d ≡ true)

pub final-finalize :
    (d d' : Disk) (id : String) (bytes : List ℕ)
    → d.final id ≡ none
    → d.partial id ≡ some bytes
    → finalize d id ≡ ok d'
    → (d'.final id ≡ some bytes) × (d'.partial id ≡ none)
unfolding finalize
final-finalize d d' id bytes none_yet there h = ground (arith, str_refl id)

module _ (d d' : Disk) (id : String) (bytes : List ℕ) (start end : ℕ) where
  attempt-seen :
      (w x : Bool)
      → d.final id ≡ none
      → d.partial id ≡ some bytes
      → (d'.final id ≡ some bytes) × (d'.partial id ≡ none)
      → (w ≡ true → x ≡ true)
      → attempt (seen w d d') (seen x d d') id start end
        ≡ (if x && not w then vanished else read (slice bytes start end))
  unfolding attempt readable_path
  attempt-seen false false missing there renamed h = ground arith
  attempt-seen false true missing there renamed h = ground arith
  attempt-seen true false missing there renamed h = absurd (ground arith)
  attempt-seen true true missing there renamed h = ground arith

  -- Where the upload has only a partial file and it is renamed: wherever the rename falls among
  -- the four looks of a reader, the reader gets the bytes of the
  -- range.
  pub read_range-finalize :
      (w x y z : Bool)
      → d.final id ≡ none
      → d.partial id ≡ some bytes
      → finalize d id ≡ ok d'
      → Ordered w x y z
      → read_range (seen w d d') (seen x d d') (seen y d d') (seen z d d') id start end
        ≡ ok (decode_replace (slice bytes start end))
  unfolding read_range
  read_range-finalize w x y z missing there renamed order =
      let after = final-finalize d d' id bytes missing there renamed in
      let first = attempt-seen w x missing there after order.0 in
      let second = attempt-seen y z missing there after order.2 in
      ground (arith, first, second, order.1)
