-- ===== src/Status.antt =====
-- app/api/v1/upload.py: the status of an upload as a client gets it. A float quotient of two numbers
-- is kept as the two numbers.
pub mod Progress
use rag_semantic_search.Prelude.{ℕ, ◌+◌, Bool, Option, String, ltb, ◌==◌, if◌then◌else◌}
use rag_semantic_search.Utf8.{Text}
use rag_semantic_search.Database.{Time, UploadStatus, ProcessingStatus, FileRecord}

pub record Quotient : Type 0 where
  pub numerator : ℕ
  pub denominator : ℕ

pub record FileStatus : Type 0 where
  pub file_id : String
  pub owner_id : String
  pub filename : String
  pub total_size : ℕ
  pub bytes_received : ℕ
  pub upload_status : UploadStatus
  pub upload_progress : Quotient
  pub processing_status : ProcessingStatus
  pub processing_progress : Quotient
  pub chunks_total : ℕ
  pub chunks_indexed : ℕ
  pub chunks_failed : ℕ
  pub searchable : Bool
  pub error_message : Option Text
  pub created_at : Time
  pub updated_at : Time

abbrev pub quotient : ℕ → ℕ → Quotient
quotient m n = record { numerator = m; denominator = n }

-- min(x / y, 1.0), where y is not 0
abbrev pub at_most_one : Quotient → Quotient
at_most_one x = if ltb x.denominator x.numerator then quotient 1 1 else x

unfoldable pub to_status : FileRecord → FileStatus
to_status r = record {
  file_id = r.file_id;
  owner_id = r.owner_id;
  filename = r.filename;
  total_size = r.total_size;
  bytes_received = r.bytes_received;
  upload_status = r.upload_status;
  upload_progress =
      if r.total_size == 0
      then quotient 1 1
      else at_most_one (quotient r.bytes_received r.total_size);
  processing_status = r.processing_status;
  processing_progress =
      if r.chunks_total == 0
      then quotient 0 1
      else quotient (r.chunks_indexed + r.chunks_failed) r.chunks_total;
  chunks_total = r.chunks_total;
  chunks_indexed = r.chunks_indexed;
  chunks_failed = r.chunks_failed;
  searchable = ltb 0 r.chunks_indexed;
  error_message = r.error_message;
  created_at = r.created_at;
  updated_at = r.updated_at;
}
