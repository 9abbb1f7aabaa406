-- ===== src/Samples/Queue.antt =====
-- The job queue on a table with two files.
use rag_semantic_search.Prelude.{
  ℕ, ◌+◌, ◌*◌, ◌≡◌, refl, none, some, List, [], ◌∷◌, arith, String, eq_iff, is_in,
}
use rag_semantic_search.Config.{defaults}
use rag_semantic_search.Database.{
  UploadStatus, ProcessingStatus, ChunkStatus, FileRecord, ChunkRow, Database,
}
use rag_semantic_search.Files.{get}
use rag_semantic_search.Chunks.Counts.{row}
use rag_semantic_search.JobQueue.{ChunkJob, claim_batch, complete_batch, fail_batch, to_job}
use rag_semantic_search.JobQueue.Counters.{Counts, IsCounted, Held, complete_batch-IsCounted}
use rag_semantic_search.JobQueue.Failing.{fail_batch-IsCounted}
use rag_semantic_search.JobQueue.Claiming.{Claimed, claim_batch-Claimed}

abbrev pub chunk : ℕ → String → ℕ → ChunkStatus → ChunkRow
chunk i id n s = record {
  chunk_id = i;
  file_id = id;
  sequence = n;
  start_byte = 600 * n;
  end_byte = 600 * n + 700;
  status = s;
  retry_count = 2;
  error_message = none;
  created_at = 5;
  updated_at = 5;
}

abbrev pub file : FileRecord
file = record {
  file_id = "f1";
  owner_id = "ann";
  filename = "server.log";
  total_size = 2000;
  bytes_received = 2000;
  upload_status = UploadStatus.completed;
  processing_status = ProcessingStatus.processing;
  chunks_total = 3;
  chunks_indexed = 1;
  chunks_failed = 0;
  pending_tail = [];
  next_sequence = 3;
  error_message = none;
  created_at = 1;
  updated_at = 5;
}

-- one passage indexed, one held by a worker, one waiting
abbrev pub db : Database
db = record {
  files = file ∷ [];
  chunks =
      chunk 1 "f1" 0 ChunkStatus.indexed
      ∷ chunk 2 "f1" 1 ChunkStatus.processing
      ∷ chunk 3 "f1" 2 ChunkStatus.pending
      ∷ [];
  last_chunk_id = 3;
}

abbrev jobs : List ChunkJob
jobs = to_job (chunk 2 "f1" 1 ChunkStatus.processing) ∷ []

db-counted : (id : String) (r : FileRecord) → get db id ≡ some r → Counts id r db.chunks
unfolding get
db-counted id r e = ground (arith, eq_iff "f1" id)

pub db-IsCounted : IsCounted db
db-IsCounted = record { ascending = omega arith; counted = db-counted }

db-Held : Held db jobs
unfolding row is_in
db-Held = ((chunk 2 "f1" 1 ChunkStatus.processing, refl, refl, refl), refl, tt)

claim_batch-Claimed_example : Claimed db 32 (claim_batch defaults none db 9)
claim_batch-Claimed_example = claim_batch-Claimed defaults none db 9 db-IsCounted

complete_batch-IsCounted_example : IsCounted (complete_batch db jobs 9)
complete_batch-IsCounted_example = complete_batch-IsCounted db jobs 9 db-IsCounted db-Held

fail_batch-IsCounted_example : IsCounted (fail_batch defaults db jobs (69 ∷ []) 9)
fail_batch-IsCounted_example =
    fail_batch-IsCounted defaults db jobs (69 ∷ []) 9 db-IsCounted db-Held
