-- ===== src/Database.antt =====
-- app/db/db.py, with the row types of app/repositories/sql/file_repository.py and
-- app/repositories/sql/chunk_repository.py: the two tables. The rows of `chunks` stand in the order
-- of their rowid, `chunk_id`, which is how SQLite keeps a table with an INTEGER PRIMARY KEY. A time
-- is a number of clock ticks, and a text the list of its code points.
pub mod Connections
pub mod Transactions
use rag_semantic_search.Prelude.{ℕ, Bool, true, false, Option, List, [], String}
use rag_semantic_search.Utf8.{Text}

abbrev pub Time : Type 0
Time = ℕ

pub data UploadStatus : Type 0 where
  pending uploading finalizing interrupted completed : UploadStatus

pub data ProcessingStatus : Type 0 where
  pending processing completed failed : ProcessingStatus

pub data ChunkStatus : Type 0 where
  pending processing indexed failed : ChunkStatus

pub record FileRecord : Type 0 where
  pub file_id : String
  pub owner_id : String
  pub filename : String
  pub total_size : ℕ
  pub bytes_received : ℕ
  pub upload_status : UploadStatus
  pub processing_status : ProcessingStatus
  pub chunks_total : ℕ
  pub chunks_indexed : ℕ
  pub chunks_failed : ℕ
  pub pending_tail : List ℕ
  pub next_sequence : ℕ
  pub error_message : Option Text
  pub created_at : Time
  pub updated_at : Time

pub record ChunkRow : Type 0 where
  pub chunk_id : ℕ
  pub file_id : String
  pub sequence : ℕ
  pub start_byte : ℕ
  pub end_byte : ℕ
  pub status : ChunkStatus
  pub retry_count : ℕ
  pub error_message : Option Text
  pub created_at : Time
  pub updated_at : Time

-- `last_chunk_id` is the counter of AUTOINCREMENT: no id is given twice, also after a DELETE.
pub record Database : Type 0 where
  pub files : List FileRecord
  pub chunks : List ChunkRow
  pub last_chunk_id : ℕ

-- the schema, just created
abbrev pub init_db : Database
init_db = record { files = []; chunks = []; last_chunk_id = 0 }

abbrev pub is_pending : ChunkStatus → Bool
is_pending ChunkStatus.pending = true
is_pending ChunkStatus.processing = false
is_pending ChunkStatus.indexed = false
is_pending ChunkStatus.failed = false

abbrev pub is_processing : ChunkStatus → Bool
is_processing ChunkStatus.pending = false
is_processing ChunkStatus.processing = true
is_processing ChunkStatus.indexed = false
is_processing ChunkStatus.failed = false

abbrev pub is_indexed : ChunkStatus → Bool
is_indexed ChunkStatus.pending = false
is_indexed ChunkStatus.processing = false
is_indexed ChunkStatus.indexed = true
is_indexed ChunkStatus.failed = false

abbrev pub is_failed : ChunkStatus → Bool
is_failed ChunkStatus.pending = false
is_failed ChunkStatus.processing = false
is_failed ChunkStatus.indexed = false
is_failed ChunkStatus.failed = true
