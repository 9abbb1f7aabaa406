-- ===== src/System/Moving.antt =====
-- app/tasks/job_queue.py: what a claim, the end of a batch, a start, a new passage and a deletion do to
-- one passage.
use rag_semantic_search.JobQueue.Updating.{job_id}
use rag_semantic_search.Prelude.{
  ℕ, ◌≡◌, refl, sym, ap, subst, ◌∙◌, inl, inr, Bool, true, false, Option, some, none, List, [], ◌∷◌,
  arith, map, select, String, str_eq, update_where, is_in, ◌==◌, Option-cases, Bool-cases,
  if◌then◌else◌,
}
use rag_semantic_search.Prelude.All.{All, All-map, All-select, All-zip, Distinct-select}
use rag_semantic_search.Config.{Settings}
use rag_semantic_search.Chunker.{or_default}
use rag_semantic_search.Database.{Time, ChunkStatus, ChunkRow, Database, is_pending, is_processing}
use rag_semantic_search.Files
use rag_semantic_search.Files.{get, update_file, mark_processing_started}
use rag_semantic_search.Chunks.{oldest_pending_file, select_pending_for_file, mark_processing}
use rag_semantic_search.Chunks.Lookup.{
  row_id, row-update_where, row-update_where_hit, row-update_where-none,
}
use rag_semantic_search.Chunks.Counts.{row, HeldRows, Ascending}
use rag_semantic_search.JobQueue.{
  ChunkJob, enqueue, chunk_ids, claim_batch, claim_rows, recover_stuck_jobs,
}
use rag_semantic_search.JobQueue.Counters.{OneFile}
use rag_semantic_search.JobQueue.Selecting.{
  Selected, select-Selected, Selected-is_pending, row-chunk_id,
}
use rag_semantic_search.JobQueue.Soundness.{IsSound, enqueue-IsSound}
use rag_semantic_search.JobQueue.Recovering.{chunks-recover_stuck_jobs, reset}
use rag_semantic_search.World.{World}
use rag_semantic_search.UploadService.Accounting.{Accounted, untouched, added}
use rag_semantic_search.System.Holding.{InHand, InHand-HeldRows}
use rag_semantic_search.System.Changing.{row-select-none, row-select-some, row-select_out}
use rag_semantic_search.System.Batches.{Consistent}
use rag_semantic_search.System.Passages.{
  Stage, Cause, by_request, by_claim, by_restart, by_deletion, forces, stays, queued, claimed,
  released, deleted, stage, stage_of, stage_in, Moves, moves, stays_put,
}

claim_rows-Moves :
    (c : Settings) (i : ℕ) (id : String) (db : Database) (rows : List ChunkRow) (now : Time)
    → All (Selected id db.chunks) rows
    → Moves c by_claim i db.chunks (claim_rows db id rows now).1.chunks
unfolding mark_processing mark_processing_started update_file
claim_rows-Moves c i id db [] now h = stays by_claim (stage_of i db.chunks) refl
claim_rows-Moves c i id db (r ∷ rows) now h =
    let ids = map row_id (r ∷ rows) in
    let set : ChunkRow → ChunkRow =
      λ d. record d { status = ChunkStatus.processing; updated_at = now } in
    let p : ChunkRow → Bool = λ d. is_in d.chunk_id ids in
    elim (Option-cases (row i db.chunks)) [
      | inl absent ↦
          stays_put c by_claim i db.chunks (update_where p set db.chunks) refl
            (row-update_where-none p set i db.chunks (λ d. (refl, refl)) absent ∙ sym absent)
      | inr (d, found) ↦
          let after = row-update_where p set i db.chunks d (λ x. (refl, refl)) found in
          let own : d.chunk_id ≡ i = row-chunk_id i db.chunks d found in
          elim (Bool-cases (is_in i ids)) [
            | inl t ↦
                let waits = Selected-is_pending id i db.chunks (r ∷ rows) d h t found in
                let t' : p d ≡ true = ap (λ k. is_in k ids) own ∙ t in
                moves c by_claim i db.chunks (update_where p set db.chunks)
                  (stage i db.chunks d found (of_pending d.status waits))
                  (ap stage_in
                    (row-update_where_hit p set i db.chunks d (λ x. (refl, refl)) found t'))
                  (claimed d.retry_count)
            | inr out ↦
                let out' : p d ≡ false = ap (λ k. is_in k ids) own ∙ out in
                stays_put c by_claim i db.chunks (update_where p set db.chunks) refl
                  (ground (arith, after, out'))
          ]
    ]
  where
    of_pending : (s : ChunkStatus) → is_pending s ≡ true → s ≡ ChunkStatus.pending
    of_pending s t = ground arith

pub claim_batch-Moves :
    (c : Settings) (limit : Option ℕ) (i : ℕ) (db : Database) (now : Time)
    → Ascending 0 db.chunks
    → Moves c by_claim i db.chunks (claim_batch c limit db now).1.chunks
unfolding claim_batch
claim_batch-Moves c limit i db now a = elim (Option-cases (oldest_pending_file db)) [
  | inl idle ↦ rw (idle, claim_batch) (stays by_claim (stage_of i db.chunks) refl)
  | inr (id, e) ↦
      let n = or_default limit c.claim_batch_size in
      rw (e, claim_batch)
        (claim_rows-Moves c i id db (select_pending_for_file db id n) now
          (select-Selected db id n a).0)
]

module _ (c : Settings) (i : ℕ) where
  pub recover_stuck_jobs-Moves :
      (db : Database) (now : Time)
      → Moves c by_restart i db.chunks (recover_stuck_jobs db now).1.chunks
  recover_stuck_jobs-Moves db now =
      let p : ChunkRow → Bool = λ r. is_processing r.status in
      let set : ChunkRow → ChunkRow =
        λ r. record r { status = ChunkStatus.pending; updated_at = now } in
      let over : Moves c by_restart i db.chunks (reset now db.chunks) =
        elim (Option-cases (row i db.chunks)) [
          | inl absent ↦
              stays_put c by_restart i db.chunks (reset now db.chunks)
                (ap (λ r. forces by_restart (stage_in r)) absent)
                (row-update_where-none p set i db.chunks (λ d. (refl, refl)) absent ∙ sym absent)
          | inr (d, found) ↦
              let after = row-update_where p set i db.chunks d (λ x. (refl, refl)) found in
              elim (Bool-cases (p d)) [
                | inl t ↦
                    let held : d.status ≡ ChunkStatus.processing = ground arith in
                    moves c by_restart i db.chunks (reset now db.chunks)
                      (stage i db.chunks d found held)
                      (ap stage_in
                        (row-update_where_hit p set i db.chunks d (λ x. (refl, refl)) found t))
                      (released d.retry_count)
                | inr out ↦
                    stays_put c by_restart i db.chunks (reset now db.chunks)
                      (ap (λ r. forces by_restart (stage_in r)) found ∙ out)
                      (ground (arith, after, out))
              ]
        ] in
      subst (λ ds. Moves c by_restart i db.chunks ds) (sym (chunks-recover_stuck_jobs db now)) over

  pub Accounted-Moves :
      (id : String) (w : World) {db' : Database}
      → IsSound w.db
      → Accounted id w db'
      → Moves c by_request i w.db.chunks db'.chunks
  unfolding update_file
  Accounted-Moves id w sound (untouched e) =
      stays_put c by_request i w.db.chunks _ refl (ap (λ d. row i d.chunks) e)
  Accounted-Moves id w {db'} sound (added r ps set file keeps adds e) =
      let f =
        (enqueue-IsSound w.db id ps w.now r.next_sequence set keeps adds r sound file refl).0 in
      let cs = (enqueue w.db id ps r.next_sequence w.now).1.chunks in
      let same : db'.chunks ≡ cs = ap (λ d. d.chunks) e in
      subst (λ ds. Moves c by_request i w.db.chunks ds) (sym same)
        (elim (Option-cases (row i w.db.chunks)) [
          | inr (d, found) ↦
              stays_put c by_request i w.db.chunks cs refl (f.rows i d found ∙ sym found)
          | inl absent ↦ elim (Option-cases (row i cs)) [
            | inl still ↦ stays_put c by_request i w.db.chunks cs refl (still ∙ sym absent)
            | inr (d, new) ↦
                let (waits, untried) = f.new_rows i d absent new in
                moves c by_request i w.db.chunks cs (ap stage_in absent)
                  (stage i cs d new waits ∙ ap (λ n. some (ChunkStatus.pending, n)) untried) queued
          ]
        ])

  pub delete-Moves :
      (id : String) (db : Database)
      → Ascending 0 db.chunks
      → Moves c by_deletion i db.chunks (Files.delete db id).chunks
  unfolding Files.delete
  delete-Moves id db a =
      let p : ChunkRow → Bool = λ r. if str_eq r.file_id id then false else true in
      elim (Option-cases (row i db.chunks)) [
        | inl absent ↦
            stays_put c by_deletion i db.chunks (select p db.chunks) refl
              (row-select-none p i db.chunks absent ∙ sym absent)
        | inr (d, found) ↦ elim (Bool-cases (p d)) [
          | inl kept ↦
              stays_put c by_deletion i db.chunks (select p db.chunks) refl
                (row-select-some p i db.chunks d found kept ∙ sym found)
          | inr out ↦
              moves c by_deletion i db.chunks (select p db.chunks) (ap stage_in found)
                (ap stage_in (row-select_out p i 0 db.chunks d a found out))
                (deleted (d.status, d.retry_count))
        ]
      ]

  -- A passage of a batch whose rows are gone is gone.
  gone_row :
      (cs : List ChunkRow) (jobs : List ChunkJob)
      → All (λ j. row j.chunk_id cs ≡ none) jobs
      → is_in i (chunk_ids jobs) ≡ true
      → row i cs ≡ none
  unfolding is_in
  gone_row cs [] h t = absurd (ground arith)
  gone_row cs (j ∷ jobs) h t = elim (Bool-cases (j.chunk_id == i)) [
    | inl hit ↦ let own : j.chunk_id ≡ i = ground arith in subst (λ k. row k cs ≡ none) own h.0
    | inr miss ↦ gone_row cs jobs h.1 (ground arith)
  ]

  -- A batch in hand, whose file is there or deleted.
  pub close_batch-Moves :
      (ended : Bool → Cause)
      → ((x : Stage) → forces (ended false) x ≡ false)
      → ((b : Bool) → forces (ended b) none ≡ false)
      → (id : String) (mine : ChunkJob → Bool) (held : List ChunkJob) (db db' : Database)
      → OneFile id (select mine held)
      → Consistent db held
      → (get db id ≡ none
          → All (λ j. row j.chunk_id db.chunks ≡ none) (select mine held)
          → db' ≡ db)
      → (HeldRows id db.chunks (chunk_ids (select mine held))
          → Moves c (ended (is_in i (chunk_ids (select mine held)))) i db.chunks db'.chunks)
      → Moves c (ended (is_in i (chunk_ids (select mine held)))) i db.chunks db'.chunks
  close_batch-Moves ended free free_none id mine held db db' one h absent there =
      let b = is_in i (chunk_ids (select mine held)) in
      let in_hand =
        All-map (select mine held) (λ j g. g.0) (All-select (InHand db) mine held h.in_hand) in
      elim (Option-cases (get db id)) [
        | inl gone ↦
            let rows =
              All-zip (select mine held) (λ j same g. g.gone (ap (get db) same ∙ gone)) one
                in_hand in
            let quiet : forces (ended b) (stage_of i db.chunks) ≡ false = elim (Bool-cases b) [
              | inl t ↦
                  ap (λ r. forces (ended b) (stage_in r))
                    (gone_row db.chunks (select mine held) rows t)
                  ∙ free_none b
              | inr out ↦
                  ap (λ v. forces (ended v) (stage_of i db.chunks)) out
                  ∙ free (stage_of i db.chunks)
            ] in
            stays_put c (ended b) i db.chunks db'.chunks quiet
              (ap (λ d. row i d.chunks) (absent gone rows))
        | inr (r, found) ↦ there (
            InHand-HeldRows id db r (select mine held) found one in_hand
              (Distinct-select job_id mine held h.distinct))
      ]
