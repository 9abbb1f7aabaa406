-- ===== src/System/Retries.antt =====
-- app/tasks/job_queue.py: a job in hand has the count of retries of its row, while the tables change
-- under it.
use rag_semantic_search.Prelude.{
  ℕ, ◌≡◌, refl, sym, ap, ◌∙◌, subst, inl, inr, Bool, true, false, not, Option, List, [], ◌∷◌, ◌++◌,
  arith, map, select, take, String, str_eq, is_in, Option-cases, Bool-cases, if◌then◌else◌,
}
use rag_semantic_search.Prelude.All.{
  All, All-map, All-zip, All-append, All-select, Distinct, Distinct-parts, is_in-select,
}
use rag_semantic_search.Config.{Settings}
use rag_semantic_search.Config.Sizing.{Floats}
use rag_semantic_search.Utf8.{Text}
use rag_semantic_search.Chunker.{or_default}
use rag_semantic_search.Database.{Time, ChunkRow, Database}
use rag_semantic_search.Files
use rag_semantic_search.Files.{mark_processing_started, update_file}
use rag_semantic_search.Chunks.{
  oldest_pending_file, select_pending_for_file, mark_processing, set_indexed, set_failed,
  set_pending_retry, update_each,
}
use rag_semantic_search.Chunks.Lookup.{row_id}
use rag_semantic_search.Chunks.Counts.{row, Ascending}
use rag_semantic_search.JobQueue.{
  ChunkJob, to_job, chunk_ids, enqueue, claim_batch, claim_rows, complete_batch, fail_batch,
  is_retryable, is_exhausted,
}
use rag_semantic_search.JobQueue.Updating.{job_id, complete_batch-chunks, fail_batch-chunks}
use rag_semantic_search.JobQueue.Selecting.{select-Selected}
use rag_semantic_search.JobQueue.Soundness.{IsSound, enqueue-IsSound}
use rag_semantic_search.Worker.Attempts.{Fresh}
use rag_semantic_search.Worker.Draining.{
  Waits, set_processing, Fresh-update_where, Fresh-update_each,
}
use rag_semantic_search.Worker.Progress.{Due-claim}
use rag_semantic_search.World.{World, Exec}
use rag_semantic_search.UploadService.{create_upload}
use rag_semantic_search.UploadService.Accounting.{
  Accounted, untouched, added, append_chunk-Accounted, begin_completion-Accounted, promote-db,
  delete_upload_db,
}
use rag_semantic_search.System.{
  System, Step, create, append, begin, rename, end, delete, claim, complete, fail, restart, tick,
  Reachable, start, after,
}
use rag_semantic_search.System.Batches.{Consistent}
use rag_semantic_search.System.Soundness.{Reachable-Consistent}
use rag_semantic_search.System.Holding.{InHand}
use rag_semantic_search.System.Changing.{
  row-select-none, row-select-some, row-select_out, end_completion-Rekeyed,
}
use rag_semantic_search.System.Settling.{row-update_each_out}

-- through a write that leaves the row of the job alone
Fresh-same :
    (cs ds : List ChunkRow) (j : ChunkJob)
    → row j.chunk_id ds ≡ row j.chunk_id cs
    → Fresh cs j
    → Fresh ds j
Fresh-same cs ds j e h r found = h r (sym e ∙ found)

-- through a deletion
pub delete-Fresh :
    (id : String) (db : Database) (j : ChunkJob)
    → Ascending 0 db.chunks
    → Fresh db.chunks j
    → Fresh (Files.delete db id).chunks j
unfolding Files.delete
delete-Fresh id db j a h r found =
    let p : ChunkRow → Bool = λ c. if str_eq c.file_id id then false else true in
    elim (Option-cases (row j.chunk_id db.chunks)) [
      | inl absent ↦ absurd (ground (arith, row-select-none p j.chunk_id db.chunks absent, found))
      | inr (d, there) ↦ elim (Bool-cases (p d)) [
        | inl kept ↦ h r (there ∙ sym (row-select-some p j.chunk_id db.chunks d there kept) ∙ found)
        | inr out ↦
            absurd (ground (arith, row-select_out p j.chunk_id 0 db.chunks d a there out, found))
      ]
    ]

-- through passages that are queued
pub Accounted-Fresh :
    (j : ChunkJob) (id : String) (w : World) {db' : Database}
    → IsSound w.db
    → Accounted id w db'
    → InHand w.db j
    → Fresh w.db.chunks j
    → Fresh db'.chunks j
unfolding update_file
Accounted-Fresh j id w {db'} sound (untouched e) hand h =
    Fresh-same w.db.chunks db'.chunks j (ap (λ d. row j.chunk_id d.chunks) e) h
Accounted-Fresh j id w {db'} sound (added r ps set file keeps adds e) hand h =
    let f = (enqueue-IsSound w.db id ps w.now r.next_sequence set keeps adds r sound file refl).0 in
    let cs = (enqueue w.db id ps r.next_sequence w.now).1.chunks in
    let same : db'.chunks ≡ cs = ap (λ d. d.chunks) e in
    subst (λ ds. Fresh ds j) (sym same)
      (elim (Option-cases (row j.chunk_id w.db.chunks)) [
        | inl absent ↦
            Fresh-same w.db.chunks cs j (f.no_rows j.chunk_id hand.known absent ∙ sym absent) h
        | inr (d, there) ↦ Fresh-same w.db.chunks cs j (f.rows j.chunk_id d there ∙ sym there) h
      ])

-- through the end of a batch with other jobs
pub complete_batch-Fresh :
    (db : Database) (jobs : List ChunkJob) (now : Time) (j : ChunkJob)
    → Fresh db.chunks j
    → Fresh (complete_batch db jobs now).chunks j
complete_batch-Fresh db [] now j h = unfold complete_batch in h
complete_batch-Fresh db (k ∷ jobs) now j h = rw (complete_batch-chunks db k jobs now) (
    Fresh-update_each (set_indexed now) db.chunks (chunk_ids (k ∷ jobs)) j (λ r. (refl, refl))
      (λ r. refl) h)

pub fail_batch-Fresh :
    (c : Settings) (db : Database) (jobs : List ChunkJob) (error : Text) (now : Time) (j : ChunkJob)
    → is_in j.chunk_id (chunk_ids jobs) ≡ false
    → Fresh db.chunks j
    → Fresh (fail_batch c db jobs error now).chunks j
fail_batch-Fresh c db [] error now j out h = unfold fail_batch in h
fail_batch-Fresh c db (k ∷ jobs) error now j out h =
    let all = k ∷ jobs in
    let i = j.chunk_id in
    let retry = chunk_ids (select (is_retryable c) all) in
    let over = chunk_ids (select (is_exhausted c) all) in
    let first = update_each (set_pending_retry (take 500 error) now) db.chunks retry in
    rw (fail_batch-chunks c db k jobs error now) (
      Fresh-same db.chunks (update_each (set_failed (take 500 error) now) first over) j
        (row-update_each_out i (set_failed (take 500 error) now) first over (λ r. (refl, refl))
            (is_in-select job_id (is_exhausted c) i all out)
          ∙ row-update_each_out i (set_pending_retry (take 500 error) now) db.chunks retry
              (λ r. (refl, refl)) (is_in-select job_id (is_retryable c) i all out))
        h)

-- through a claim, with the jobs that it takes
claim_rows-Fresh :
    (id : String) (db : Database) (rows : List ChunkRow) (now : Time) (held : List ChunkJob)
    → Ascending 0 db.chunks
    → Distinct row_id rows
    → All (Waits db.chunks) rows
    → All (Fresh db.chunks) held
    → All (Fresh (claim_rows db id rows now).1.chunks) ((claim_rows db id rows now).0 ++ held)
unfolding mark_processing mark_processing_started update_file
claim_rows-Fresh id db [] now held a d h old = old
claim_rows-Fresh id db (r ∷ rows) now held a d h old =
    let all = r ∷ rows in
    let ids = map row_id all in
    All-append _ (map to_job all) held (Due-claim now db.chunks all a d h).fresh (
      All-map held
        (λ j.
          Fresh-update_where (λ x. is_in x.chunk_id ids) (set_processing now) db.chunks j
            (λ x. (refl, refl)) (λ x. refl))
        old)

pub claim_batch-Fresh :
    (c : Settings) (limit : Option ℕ) (db : Database) (now : Time) (held : List ChunkJob)
    → Ascending 0 db.chunks
    → All (Fresh db.chunks) held
    → All (Fresh (claim_batch c limit db now).1.chunks) ((claim_batch c limit db now).0 ++ held)
unfolding claim_batch
claim_batch-Fresh c limit db now held a old = elim (Option-cases (oldest_pending_file db)) [
  | inl idle ↦ rw (idle, claim_batch) old
  | inr (id, e) ↦
      let n = or_default limit c.claim_batch_size in
      let (selected, distinct) = select-Selected db id n a in
      rw (e, claim_batch)
        (claim_rows-Fresh id db (select_pending_for_file db id n) now held a distinct
          (All-map (select_pending_for_file db id n) (λ r h. (h.0, h.1)) selected) old)
]

pub create_upload-chunks :
    (id owner filename : String) (total_size : ℕ) (w : World)
    → (create_upload id owner filename total_size w).1.db.chunks ≡ w.db.chunks
unfolding create_upload Files.create
create_upload-chunks id owner filename total_size w = ground arith

-- All jobs in hand through a write that leaves the rows alone.
all_same :
    (cs ds : List ChunkRow) (held : List ChunkJob)
    → ds ≡ cs
    → All (Fresh cs) held
    → All (Fresh ds) held
all_same cs ds held e h = subst (λ rs. All (Fresh rs) held) (sym e) h

module _ (f : Floats) (c : Settings) (drop : String → Exec (Unit {0}))
    (outside : (id : String) (v : World) → (drop id v).1.db ≡ v.db) where
  step-Fresh :
      (s t : System)
      → Step f c drop s t
      → Consistent s.world.db s.held
      → All (Fresh s.world.db.chunks) s.held
      → All (Fresh t.world.db.chunks) t.held
  step-Fresh s _ (create id owner filename size fresh) g h =
      all_same s.world.db.chunks _ s.held (create_upload-chunks id owner filename size s.world) h
  step-Fresh s _ (append id owner offset body) g h =
      let a = append_chunk-Accounted f c id owner offset body s.world in
      All-zip s.held (λ j. Accounted-Fresh j id s.world g.sound a) g.in_hand h
  step-Fresh s _ (begin id owner) g h =
      let a = begin_completion-Accounted c id owner s.world in
      All-zip s.held (λ j. Accounted-Fresh j id s.world g.sound a) g.in_hand h
  step-Fresh s _ (rename id) g h =
      all_same s.world.db.chunks _ s.held (ap (λ d. d.chunks) (promote-db id s.world)) h
  step-Fresh s _ (end id) g h =
      all_same s.world.db.chunks _ s.held (end_completion-Rekeyed id s.world).1 h
  step-Fresh s _ (delete id owner) g h =
      elim (delete_upload_db drop id owner s.world (outside id)) [
        | inl same ↦ all_same s.world.db.chunks _ s.held (ap (λ d. d.chunks) same) h
        | inr gone ↦
            subst (λ d. All (Fresh d.chunks) s.held) (sym gone)
              (All-map s.held (λ j. delete-Fresh id s.world.db j g.sound.counted.ascending) h)
      ]
  step-Fresh s _ (claim limit) g h =
      claim_batch-Fresh c limit s.world.db s.world.now s.held g.sound.counted.ascending h
  step-Fresh s _ (complete id mine one) g h =
      All-map (select (λ j. not (mine j)) s.held)
        (λ j rest. complete_batch-Fresh s.world.db (select mine s.held) s.world.now j rest.0)
        (All-select (Fresh s.world.db.chunks) (λ j. not (mine j)) s.held h)
  step-Fresh s _ (fail id mine error one) g h =
      All-zip (select (λ j. not (mine j)) s.held)
        (λ j out rest.
          fail_batch-Fresh c s.world.db (select mine s.held) error s.world.now j out rest.0)
        (Distinct-parts job_id mine s.held g.distinct)
        (All-select (Fresh s.world.db.chunks) (λ j. not (mine j)) s.held h)
  step-Fresh s _ restart g h = tt
  step-Fresh s _ (tick now) g h = h

  pub Reachable-Fresh : (s : System) → Reachable f c drop s → All (Fresh s.world.db.chunks) s.held
  Reachable-Fresh _ (start disk now) = tt
  Reachable-Fresh _ (after {s} {t} before step) =
      step-Fresh s t step (Reachable-Consistent f c drop outside s before)
        (Reachable-Fresh s before)
