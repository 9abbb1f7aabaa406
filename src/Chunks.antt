-- ===== src/Chunks.antt =====
-- app/repositories/sql/chunk_repository.py: the statements on the `chunks` table. `executemany` runs
-- its statement once for each row of its list, in order.
pub mod Counts
pub mod Lookup
use mathlib.Core.List.{foldl}
use rag_semantic_search.Prelude.{
  ℕ, zero, suc, ◌+◌, Bool, true, false, ◌&&◌, ◌||◌, Option, none, some, List, [], ◌∷◌, ◌++◌, map,
  leb, ◌==◌, if◌then◌else◌, take, String, str_eq, select, update_where, count_where, order_by,
  is_in,
}
use rag_semantic_search.Utf8.{Text}
use rag_semantic_search.Database.{Time, ChunkStatus, ChunkRow, Database, is_pending, is_processing}

-- a triple (sequence, start_byte, end_byte)
pub record Passage : Type 0 where
  pub sequence : ℕ
  pub start_byte : ℕ
  pub end_byte : ℕ

-- the row of a conflict on the unique index over (file_id, sequence)
unfoldable pub has_sequence : String → ℕ → List ChunkRow → Bool
has_sequence file_id sequence [] = false
has_sequence file_id sequence (c ∷ cs) =
    (str_eq c.file_id file_id && c.sequence == sequence) || has_sequence file_id sequence cs

abbrev pub new_chunk : ℕ → String → Passage → Time → ChunkRow
new_chunk chunk_id file_id p now = record {
  chunk_id = chunk_id;
  file_id = file_id;
  sequence = p.sequence;
  start_byte = p.start_byte;
  end_byte = p.end_byte;
  status = ChunkStatus.pending;
  retry_count = 0;
  error_message = none;
  created_at = now;
  updated_at = now;
}

-- INSERT … ON CONFLICT(file_id, sequence) DO NOTHING
unfoldable pub insert_one : String → Time → Database → Passage → Database
unfolding has_sequence
insert_one file_id now db p = if has_sequence file_id p.sequence db.chunks then db else record db {
  chunks = db.chunks ++ new_chunk (suc db.last_chunk_id) file_id p now ∷ [];
  last_chunk_id = suc db.last_chunk_id;
}

unfoldable pub insert_pending : Database → String → List Passage → Time → Database
unfolding insert_one
insert_pending db file_id [] now = db
insert_pending db file_id (p ∷ rows) now =
    insert_pending (insert_one file_id now db p) file_id rows now

-- ORDER BY chunk_id LIMIT 1: the first row in the order of the rowid
unfoldable pub first_pending : List ChunkRow → Option String
first_pending [] = none
first_pending (c ∷ cs) = if is_pending c.status then some c.file_id else first_pending cs

unfoldable pub oldest_pending_file : Database → Option String
unfolding first_pending
oldest_pending_file db = first_pending db.chunks

-- WHERE status = 'pending' AND file_id = ? ORDER BY sequence LIMIT ?
unfoldable pub select_pending_for_file : Database → String → ℕ → List ChunkRow
unfolding select order_by
select_pending_for_file db file_id limit = take limit (
    order_by (λ c d. leb c.sequence d.sequence)
      (select (λ c. is_pending c.status && str_eq c.file_id file_id) db.chunks))

unfoldable pub mark_processing : Database → List ℕ → Time → Database
unfolding update_where is_in
mark_processing db chunk_ids now = record db {
  chunks =
      update_where (λ c. is_in c.chunk_id chunk_ids)
        (λ c. record c { status = ChunkStatus.processing; updated_at = now }) db.chunks;
}

-- UPDATE chunks SET … WHERE chunk_id = ?, for each id of the list
unfoldable pub update_each : (ChunkRow → ChunkRow) → List ChunkRow → List ℕ → List ChunkRow
unfolding update_where
update_each set chunks [] = chunks
update_each set chunks (chunk_id ∷ chunk_ids) =
    update_each set (update_where (λ c. c.chunk_id == chunk_id) set chunks) chunk_ids

abbrev pub set_indexed : Time → ChunkRow → ChunkRow
set_indexed now c = record c { status = ChunkStatus.indexed; updated_at = now }

unfoldable pub mark_indexed : Database → List ℕ → Time → Database
unfolding update_each
mark_indexed db chunk_ids now = record db {
  chunks = update_each (set_indexed now) db.chunks chunk_ids;
}

abbrev pub set_pending_retry : Text → Time → ChunkRow → ChunkRow
set_pending_retry error now c = record c {
  status = ChunkStatus.pending;
  retry_count = c.retry_count + 1;
  error_message = some error;
  updated_at = now;
}

unfoldable pub mark_pending_retry : Database → List ℕ → Text → Time → Database
unfolding update_each
mark_pending_retry db chunk_ids error now = record db {
  chunks = update_each (set_pending_retry error now) db.chunks chunk_ids;
}

abbrev pub set_failed : Text → Time → ChunkRow → ChunkRow
set_failed error now c = record c {
  status = ChunkStatus.failed;
  retry_count = c.retry_count + 1;
  error_message = some error;
  updated_at = now;
}

unfoldable pub mark_failed : Database → List ℕ → Text → Time → Database
unfolding update_each
mark_failed db chunk_ids error now = record db {
  chunks = update_each (set_failed error now) db.chunks chunk_ids;
}

-- `cursor.rowcount`, and the rows reset
unfoldable pub reset_stuck_processing : Database → Time → Database × ℕ
unfolding update_where count_where
reset_stuck_processing db now = (
  record db {
    chunks =
        update_where (λ c. is_processing c.status)
          (λ c. record c { status = ChunkStatus.pending; updated_at = now }) db.chunks;
  },
  count_where (λ c. is_processing c.status) db.chunks,
)

-- status IN ('pending', 'processing')
abbrev pub is_queued : ChunkStatus → Bool
is_queued status = is_pending status || is_processing status

unfoldable pub pending_count : Database → Option String → ℕ
unfolding count_where
pending_count db none = count_where (λ c. is_queued c.status) db.chunks
pending_count db (some file_id) =
    count_where (λ c. is_queued c.status && str_eq c.file_id file_id) db.chunks
