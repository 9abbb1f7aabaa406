-- ===== src/System/Ending.antt =====
-- app/tasks/job_queue.py: the end of a batch whose file is deleted.
use rag_semantic_search.Prelude.{
  Bool, List, String, [], ap, arith, length, none, refl, select, str_eq, take, update_where, ℕ,
  ◌==◌, ◌∙◌, ◌∷◌, ◌≡◌,
}
use rag_semantic_search.Prelude.All.{All, All-map, All-select}
use rag_semantic_search.Config.{Settings}
use rag_semantic_search.Utf8.{Text}
use rag_semantic_search.Database.{ChunkRow, Database, FileRecord, Time}
use rag_semantic_search.Files.{
  find_file, get, get_processing_progress, record_failed, record_indexed, update_file,
}
use rag_semantic_search.Chunks.{
  mark_failed, mark_indexed, mark_pending_retry, set_failed, set_indexed, set_pending_retry,
  update_each,
}
use rag_semantic_search.Chunks.Counts.{row}
use rag_semantic_search.JobQueue.{
  ChunkJob, chunk_ids, complete_batch, fail_batch, is_exhausted, is_retryable, record_exhausted,
  refresh_processing_status,
}
use rag_semantic_search.JobQueue.Counters.{OneFile}

-- Where the file is deleted, the end of a batch of it changes nothing.
update_where-absent :
    (i : ℕ) (set : ChunkRow → ChunkRow) (cs : List ChunkRow)
    → row i cs ≡ none
    → update_where (λ c. c.chunk_id == i) set cs ≡ cs
unfolding row update_where
update_where-absent i set [] e = refl
update_where-absent i set (c ∷ cs) e = ground (arith, update_where-absent i set cs)

update_each-absent :
    (set : ChunkRow → ChunkRow) (cs : List ChunkRow) (jobs : List ChunkJob)
    → All (λ j. row j.chunk_id cs ≡ none) jobs
    → update_each set cs (chunk_ids jobs) ≡ cs
unfolding update_each
update_each-absent set cs [] h = refl
update_each-absent set cs (j ∷ jobs) h =
    ap (λ ds. update_each set ds (chunk_ids jobs)) (update_where-absent j.chunk_id set cs h.0)
    ∙ update_each-absent set cs jobs h.1

find_file-absent :
    (id : String) (set : FileRecord → FileRecord) (rs : List FileRecord)
    → find_file id rs ≡ none
    → update_where (λ r. str_eq r.file_id id) set rs ≡ rs
unfolding find_file update_where
find_file-absent id set [] e = refl
find_file-absent id set (r ∷ rs) e = ground (arith, find_file-absent id set rs)

update_file-absent :
    (db : Database) (id : String) (set : FileRecord → FileRecord)
    → get db id ≡ none
    → update_file db id set ≡ db
unfolding get update_file
update_file-absent db id set e =
    ap (λ rs. record db { files = rs }) (find_file-absent id set db.files e)

refresh-absent :
    (db : Database) (id : String) (now : Time)
    → get db id ≡ none
    → refresh_processing_status db id now ≡ db
unfolding get refresh_processing_status get_processing_progress
refresh-absent db id now e = ground arith

pub complete_batch-absent :
    (id : String) (db : Database) (jobs : List ChunkJob) (now : Time)
    → OneFile id jobs
    → get db id ≡ none
    → All (λ j. row j.chunk_id db.chunks ≡ none) jobs
    → complete_batch db jobs now ≡ db
unfolding complete_batch mark_indexed record_indexed
complete_batch-absent id db [] now one e h = refl
complete_batch-absent id db (j ∷ jobs) now one e h =
    let e' : get db j.file_id ≡ none = ap (get db) one.0 ∙ e in
    let cs = update_each-absent (set_indexed now) db.chunks (j ∷ jobs) h in
    ap
      (λ ds.
        refresh_processing_status
          (record_indexed (record db { chunks = ds }) j.file_id (length (j ∷ jobs)) now) j.file_id
          now)
      cs
    ∙ ap (λ d. refresh_processing_status d j.file_id now) (update_file-absent db j.file_id _ e')
    ∙ refresh-absent db j.file_id now e'

record_exhausted-absent :
    (db : Database) (id : String) (jobs : List ChunkJob) (error : Text) (now : Time)
    → get db id ≡ none
    → record_exhausted db id jobs error now ≡ db
unfolding record_failed
record_exhausted-absent db id [] error now e = refl
record_exhausted-absent db id (j ∷ jobs) error now e = update_file-absent db id _ e

All-part :
    (p : ChunkJob → Bool) (cs : List ChunkRow) (jobs : List ChunkJob)
    → All (λ j. row j.chunk_id cs ≡ none) jobs
    → All (λ j. row j.chunk_id cs ≡ none) (select p jobs)
All-part p cs jobs h = All-map (select p jobs) (λ j g. g.0) (All-select _ p jobs h)

pub fail_batch-absent :
    (c : Settings) (id : String) (db : Database) (jobs : List ChunkJob) (error : Text) (now : Time)
    → OneFile id jobs
    → get db id ≡ none
    → All (λ j. row j.chunk_id db.chunks ≡ none) jobs
    → fail_batch c db jobs error now ≡ db
unfolding fail_batch mark_pending_retry mark_failed
fail_batch-absent c id db [] error now one e h = refl
fail_batch-absent c id db (j ∷ jobs) error now one e h =
    let e' : get db j.file_id ≡ none = ap (get db) one.0 ∙ e in
    let all = j ∷ jobs in
    let t = take 500 error in
    let retry = select (is_retryable c) all in
    let over = select (is_exhausted c) all in
    let cs =
      update_each-absent (set_pending_retry t now) db.chunks retry
        (All-part (is_retryable c) db.chunks all h) in
    let ds =
      update_each-absent (set_failed t now) db.chunks over
        (All-part (is_exhausted c) db.chunks all h) in
    ap
      (λ xs.
        refresh_processing_status
          (record_exhausted
            (record db { chunks = update_each (set_failed t now) xs (chunk_ids over) }) j.file_id
            over t now)
          j.file_id now)
      cs
    ∙ ap
        (λ xs.
          refresh_processing_status
            (record_exhausted (record db { chunks = xs }) j.file_id over t now) j.file_id now)
        ds
    ∙ ap (λ d. refresh_processing_status d j.file_id now)
        (record_exhausted-absent db j.file_id over t now e')
    ∙ refresh-absent db j.file_id now e'
