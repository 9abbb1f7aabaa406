-- ===== src/JobQueue/Recovering.antt =====
-- app/tasks/job_queue.py, `recover_stuck_jobs`: the tables after a start.
use mathlib.Core.Option
use rag_semantic_search.Prelude.{
  ℕ, ◌+◌, ◌≡◌, refl, sym, ap, ◌∙◌, inl, inr, Bool, true, false, ◌&&◌, some, none, List, [], ◌∷◌,
  arith, String, str_eq, update_where, Option-cases, if◌then◌else◌,
}
use rag_semantic_search.Database.{
  Time, ChunkStatus, FileRecord, ChunkRow, Database, UploadStatus, is_indexed, is_failed,
  is_processing, is_pending,
}
use rag_semantic_search.Files.{
  find_file, get, mark_interrupted_uploads, revert_stuck_finalizing, is_finalizing, is_uploading,
}
use rag_semantic_search.Chunks.{reset_stuck_processing}
use rag_semantic_search.Chunks.Counts.{tally, one_if, update_where-Ascending}
use rag_semantic_search.JobQueue.{recover_stuck_jobs}
use rag_semantic_search.JobQueue.Counters.{Counts, IsCounted}

abbrev pub if_so : (FileRecord → Bool) → (FileRecord → FileRecord) → FileRecord → FileRecord
if_so p set r = if p r then set r else r

find_file-update_where :
    (p : FileRecord → Bool) (set : FileRecord → FileRecord) (id : String) (rs : List FileRecord)
    → ((r : FileRecord) → (set r).file_id ≡ r.file_id)
    → find_file id (update_where p set rs) ≡ Option.map (if_so p set) (find_file id rs)
unfolding find_file update_where
find_file-update_where p set id [] k = refl
find_file-update_where p set id (r ∷ rs) k =
    ground (arith, k r, find_file-update_where p set id rs k)

-- The rows of the queue after the reset.
abbrev pub reset : Time → List ChunkRow → List ChunkRow
reset now =
    update_where (λ c. is_processing c.status)
      (λ c. record c { status = ChunkStatus.pending; updated_at = now })

-- A test that a row passes after the reset is the test of what its status becomes.
abbrev after_reset : ChunkStatus → ChunkStatus
after_reset s = if is_processing s then ChunkStatus.pending else s

tally-reset :
    (q : ChunkStatus → Bool) (id : String) (now : Time) (cs : List ChunkRow)
    → tally q id (reset now cs) ≡ tally (λ s. q (after_reset s)) id cs
unfolding update_where
tally-reset q id now [] = refl
tally-reset q id now (c ∷ cs) = ground (arith, tally-reset q id now cs)

tally-ext :
    (p q : ChunkStatus → Bool) (id : String) (cs : List ChunkRow)
    → ((s : ChunkStatus) → p s ≡ q s)
    → tally p id cs ≡ tally q id cs
tally-ext p q id [] h = refl
tally-ext p q id (c ∷ cs) h =
    omega (arith, ap (λ b. one_if (b && str_eq c.file_id id)) (h c.status), tally-ext p q id cs h)

tally-none :
    (p : ChunkStatus → Bool) (id : String) (cs : List ChunkRow)
    → ((s : ChunkStatus) → p s ≡ false)
    → tally p id cs ≡ 0
tally-none p id [] h = refl
tally-none p id (c ∷ cs) h = ground (arith, h c.status, tally-none p id cs h)

tally-sum :
    (p q r : ChunkStatus → Bool) (id : String) (cs : List ChunkRow)
    → ((s : ChunkStatus) → one_if (p s) ≡ one_if (q s) + one_if (r s))
    → tally p id cs ≡ tally q id cs + tally r id cs
tally-sum p q r id [] h = refl
tally-sum p q r id (c ∷ cs) h = ground (arith, h c.status, tally-sum p q r id cs h)

-- A row of `files` after a start.
abbrev pub interrupted : Time → FileRecord → FileRecord
interrupted now =
    if_so (λ r. is_uploading r.upload_status)
      (λ r. record r { upload_status = UploadStatus.interrupted; updated_at = now })

abbrev pub reverted : Time → FileRecord → FileRecord
reverted now =
    if_so (λ r. is_finalizing r.upload_status)
      (λ r. record r { upload_status = UploadStatus.uploading; updated_at = now })

pub get-recover_stuck_jobs :
    (db : Database) (now : Time) (id : String)
    → get (recover_stuck_jobs db now).1 id
      ≡ Option.map (reverted now) (Option.map (interrupted now) (get db id))
unfolding get recover_stuck_jobs mark_interrupted_uploads revert_stuck_finalizing
    reset_stuck_processing
get-recover_stuck_jobs db now id =
    find_file-update_where (λ r. is_finalizing r.upload_status) _ id _ (λ r. refl)
    ∙ ap (Option.map (reverted now))
        (find_file-update_where (λ r. is_uploading r.upload_status) _ id db.files (λ r. refl))

-- A row of `files` as it may be resumed: nothing that an upload goes on from has changed.
pub record Resumable (r r' : FileRecord) : Type 0 where
  pub not_finalizing : is_finalizing r'.upload_status ≡ false
  pub same_bytes : r'.bytes_received ≡ r.bytes_received
  pub same_tail : r'.pending_tail ≡ r.pending_tail
  pub same_sequence : r'.next_sequence ≡ r.next_sequence
  pub same_total : r'.chunks_total ≡ r.chunks_total
  pub same_indexed : r'.chunks_indexed ≡ r.chunks_indexed
  pub same_failed : r'.chunks_failed ≡ r.chunks_failed

pub reverted-Resumable :
    (now : Time) (r : FileRecord) → Resumable r (reverted now (interrupted now r))
reverted-Resumable now r = ground arith

-- The tables after a start.
pub record Recovered (db : Database) (out : ℕ × Database) : Type 0 where
  pub counted : IsCounted out.1
  pub released : (id : String) → tally is_processing id out.1.chunks ≡ 0
  pub waiting :
      (id : String)
      → tally is_pending id out.1.chunks
        ≡ tally is_pending id db.chunks + tally is_processing id db.chunks
  pub resumable :
      (id : String) (r : FileRecord)
      → get db id ≡ some r
      → (r' : FileRecord) × (get out.1 id ≡ some r') × Resumable r r'

pub chunks-recover_stuck_jobs :
    (db : Database) (now : Time) → (recover_stuck_jobs db now).1.chunks ≡ reset now db.chunks
unfolding recover_stuck_jobs mark_interrupted_uploads revert_stuck_finalizing reset_stuck_processing
chunks-recover_stuck_jobs db now = refl

after_reset-Counts :
    (db : Database) (now : Time) (id : String) (r r' : FileRecord)
    → Resumable r r'
    → Counts id r db.chunks
    → Counts id r' (reset now db.chunks)
after_reset-Counts db now id r r' same k = record {
  total = same.same_total ∙ k.total ∙ sym (tally-reset (λ _. true) id now db.chunks);
  indexed =
      same.same_indexed
      ∙ k.indexed
      ∙ sym (
          tally-reset is_indexed id now db.chunks
          ∙ tally-ext _ is_indexed id db.chunks (λ s. ground arith));
  failed =
      same.same_failed
      ∙ k.failed
      ∙ sym (
          tally-reset is_failed id now db.chunks
          ∙ tally-ext _ is_failed id db.chunks (λ s. ground arith));
}

pub found_after :
    (db : Database) (now : Time) (id : String) (r' : FileRecord)
    → get (recover_stuck_jobs db now).1 id ≡ some r'
    → (r : FileRecord) × (get db id ≡ some r) × (r' ≡ reverted now (interrupted now r))
found_after db now id r' e =
    let e' = sym (get-recover_stuck_jobs db now id) ∙ e in
    elim (Option-cases (get db id)) [
      | inl gone ↦ absurd (ground arith)
      | inr (r, there) ↦ (r, there, ground arith)
    ]

pub gone_after :
    (db : Database) (now : Time) (id : String)
    → get (recover_stuck_jobs db now).1 id ≡ none
    → get db id ≡ none
gone_after db now id e =
    let e' = sym (get-recover_stuck_jobs db now id) ∙ e in
    elim (Option-cases (get db id)) [ inl gone ↦ gone | inr (r, there) ↦ absurd (ground arith) ]

pub last-recover_stuck_jobs :
    (db : Database) (now : Time) → (recover_stuck_jobs db now).1.last_chunk_id ≡ db.last_chunk_id
unfolding recover_stuck_jobs mark_interrupted_uploads revert_stuck_finalizing reset_stuck_processing
last-recover_stuck_jobs db now = refl

pub recover_stuck_jobs-Recovered :
    (db : Database) (now : Time) → IsCounted db → Recovered db (recover_stuck_jobs db now)
recover_stuck_jobs-Recovered db now h =
    let cs = chunks-recover_stuck_jobs db now in
    record {
      counted = record {
        ascending = rw cs (update_where-Ascending _ 0 _ db.chunks (λ c. (refl, refl)) h.ascending);
        counted = λ id r' e.
            let (r, there, same) = found_after db now id r' e in
            rw (cs, same)
              (after_reset-Counts db now id r (reverted now (interrupted now r))
                (reverted-Resumable now r) (h.counted id r there));
      };
      released = λ id. rw cs (
          tally-reset is_processing id now db.chunks
          ∙ tally-none _ id db.chunks (λ s. ground arith));
      waiting = λ id. rw cs (
          tally-reset is_pending id now db.chunks
          ∙ tally-sum _ is_pending is_processing id db.chunks (λ s. ground arith));
      resumable = λ id r there. (
        reverted now (interrupted now r),
        get-recover_stuck_jobs db now id
            ∙ ap (λ o. Option.map (reverted now) (Option.map (interrupted now) o)) there,
        reverted-Resumable now r,
      );
    }
