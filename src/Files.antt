-- ===== src/Files.antt =====
-- app/repositories/sql/file_repository.py: the statements on the `files` table.
pub mod Lookup
use rag_semantic_search.Prelude.{
  ℕ, ◌+◌, Bool, true, false, Option, none, some, List, [], ◌∷◌, ◌++◌, leb, if◌then◌else◌, take,
  String, str_eq, select, update_where, order_by,
}
use rag_semantic_search.Utf8.{Text}
use rag_semantic_search.Database.{
  Time, UploadStatus, ProcessingStatus, FileRecord, ChunkRow, Database,
}
use rag_semantic_search.Errors.{Result, ok, err, Raised, DomainError}

-- `fetchone` of SELECT * FROM files WHERE file_id = ?
unfoldable pub find_file : String → List FileRecord → Option FileRecord
find_file file_id [] = none
find_file file_id (r ∷ rs) = if str_eq r.file_id file_id then some r else find_file file_id rs

unfoldable pub get : Database → String → Option FileRecord
unfolding find_file
get db file_id = find_file file_id db.files

-- the row that INSERT writes, the defaults of the schema included
abbrev pub new_file : String → String → String → ℕ → Time → FileRecord
new_file file_id owner_id filename total_size now = record {
  file_id = file_id;
  owner_id = owner_id;
  filename = filename;
  total_size = total_size;
  bytes_received = 0;
  upload_status = UploadStatus.pending;
  processing_status = ProcessingStatus.pending;
  chunks_total = 0;
  chunks_indexed = 0;
  chunks_failed = 0;
  pending_tail = [];
  next_sequence = 0;
  error_message = none;
  created_at = now;
  updated_at = now;
}

-- a second row with one id violates the PRIMARY KEY
unfoldable pub create : Database → String → String → String → ℕ → Time → Result Database
unfolding get
create db file_id owner_id filename total_size now = elim (get db file_id) [
  | some r ↦ err Raised.integrity_error
  | none ↦
      ok (record db { files = db.files ++ new_file file_id owner_id filename total_size now ∷ [] })
]

-- `record is None or record.owner_id != owner_id`
abbrev pub check_owner : String → String → Option FileRecord → Result FileRecord
check_owner file_id owner_id none = err (Raised.domain (DomainError.file_not_found file_id))
check_owner file_id owner_id (some r) =
    if str_eq r.owner_id owner_id
    then ok r
    else err (Raised.domain (DomainError.file_not_found file_id))

unfoldable pub get_owned : Database → String → String → Result FileRecord
unfolding get
get_owned db file_id owner_id = check_owner file_id owner_id (get db file_id)

-- ORDER BY created_at DESC LIMIT ?; rows of one time stay in the order of their insertion
unfoldable pub list_owned : Database → String → ℕ → List FileRecord
unfolding select order_by
list_owned db owner_id limit = take limit (
    order_by (λ r s. leb s.created_at r.created_at)
      (select (λ r. str_eq r.owner_id owner_id) db.files))

-- UPDATE files SET … WHERE file_id = ?
unfoldable pub update_file : Database → String → (FileRecord → FileRecord) → Database
unfolding update_where
update_file db file_id set = record db {
  files = update_where (λ r. str_eq r.file_id file_id) set db.files;
}

abbrev pub set_after_chunk : ℕ → ℕ → ℕ → List ℕ → Time → FileRecord → FileRecord
set_after_chunk bytes_received chunks_added next_sequence pending_tail now r = record r {
  bytes_received = bytes_received;
  upload_status = UploadStatus.uploading;
  chunks_total = r.chunks_total + chunks_added;
  next_sequence = next_sequence;
  pending_tail = pending_tail;
  updated_at = now;
}

unfoldable pub update_after_chunk : Database → String → ℕ → ℕ → ℕ → List ℕ → Time → Database
unfolding update_file
update_after_chunk db file_id bytes_received chunks_added next_sequence pending_tail now =
    update_file db file_id
      (set_after_chunk bytes_received chunks_added next_sequence pending_tail now)

abbrev pub set_finalizing : ℕ → ℕ → ℕ → Time → FileRecord → FileRecord
set_finalizing chunks_added next_sequence total_size now r = record r {
  upload_status = UploadStatus.finalizing;
  chunks_total = r.chunks_total + chunks_added;
  next_sequence = next_sequence;
  pending_tail = [];
  total_size = total_size;
  updated_at = now;
}

unfoldable pub mark_finalizing : Database → String → ℕ → ℕ → ℕ → Time → Database
unfolding update_file
mark_finalizing db file_id chunks_added next_sequence total_size now =
    update_file db file_id (set_finalizing chunks_added next_sequence total_size now)

unfoldable pub mark_completed : Database → String → Time → Database
unfolding update_file
mark_completed db file_id now =
    update_file db file_id
      (λ r. record r { upload_status = UploadStatus.completed; updated_at = now })

-- both DELETE statements
unfoldable pub delete : Database → String → Database
unfolding select
delete db file_id = record db {
  files = select (λ r. if str_eq r.file_id file_id then false else true) db.files;
  chunks = select (λ c. if str_eq c.file_id file_id then false else true) db.chunks;
}

-- CASE WHEN processing_status = 'pending' THEN 'processing' ELSE processing_status END
abbrev pub started : ProcessingStatus → ProcessingStatus
started ProcessingStatus.pending = ProcessingStatus.processing
started ProcessingStatus.processing = ProcessingStatus.processing
started ProcessingStatus.completed = ProcessingStatus.completed
started ProcessingStatus.failed = ProcessingStatus.failed

unfoldable pub mark_processing_started : Database → String → Time → Database
unfolding update_file
mark_processing_started db file_id now =
    update_file db file_id
      (λ r. record r { processing_status = started r.processing_status; updated_at = now })

unfoldable pub record_indexed : Database → String → ℕ → Time → Database
unfolding update_file
record_indexed db file_id count now =
    update_file db file_id
      (λ r. record r { chunks_indexed = r.chunks_indexed + count; updated_at = now })

unfoldable pub record_failed : Database → String → ℕ → Text → Time → Database
unfolding update_file
record_failed db file_id count error now = update_file db file_id (λ r. record r {
  chunks_failed = r.chunks_failed + count;
  error_message = some error;
  updated_at = now;
})

pub record Progress : Type 0 where
  pub upload_status : UploadStatus
  pub chunks_total : ℕ
  pub chunks_indexed : ℕ
  pub chunks_failed : ℕ

abbrev pub progress_of : Option FileRecord → Option Progress
progress_of none = none
progress_of (some r) = some (record {
  upload_status = r.upload_status;
  chunks_total = r.chunks_total;
  chunks_indexed = r.chunks_indexed;
  chunks_failed = r.chunks_failed;
})

unfoldable pub get_processing_progress : Database → String → Option Progress
unfolding get
get_processing_progress db file_id = progress_of (get db file_id)

unfoldable pub set_processing_status : Database → String → ProcessingStatus → Time → Database
unfolding update_file
set_processing_status db file_id status now =
    update_file db file_id (λ r. record r { processing_status = status; updated_at = now })

abbrev pub is_uploading : UploadStatus → Bool
is_uploading UploadStatus.uploading = true
is_uploading UploadStatus.pending = false
is_uploading UploadStatus.finalizing = false
is_uploading UploadStatus.interrupted = false
is_uploading UploadStatus.completed = false

abbrev pub is_finalizing : UploadStatus → Bool
is_finalizing UploadStatus.finalizing = true
is_finalizing UploadStatus.pending = false
is_finalizing UploadStatus.uploading = false
is_finalizing UploadStatus.interrupted = false
is_finalizing UploadStatus.completed = false

unfoldable pub mark_interrupted_uploads : Database → Time → Database
unfolding update_where
mark_interrupted_uploads db now = record db {
  files =
      update_where (λ r. is_uploading r.upload_status)
        (λ r. record r { upload_status = UploadStatus.interrupted; updated_at = now }) db.files;
}

unfoldable pub revert_stuck_finalizing : Database → Time → Database
unfolding update_where
revert_stuck_finalizing db now = record db {
  files =
      update_where (λ r. is_finalizing r.upload_status)
        (λ r. record r { upload_status = UploadStatus.uploading; updated_at = now }) db.files;
}
