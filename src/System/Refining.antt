-- ===== src/System/Refining.antt =====
-- app/tasks/job_queue.py: each transaction of the program moves a passage along its lifecycle, or
-- leaves it.
use rag_semantic_search.System.Ending.{fail_batch-absent, complete_batch-absent}
use rag_semantic_search.Prelude.{
  Bool, true, false, none, refl, is_in, ℕ, ◌≡◌, sym, ap, subst, inl, inr, select, String,
}
use rag_semantic_search.Prelude.All.{All, All-map, All-select}
use rag_semantic_search.Config.{Settings}
use rag_semantic_search.Config.Sizing.{Floats}
use rag_semantic_search.Chunks.Counts.{row}
use rag_semantic_search.World.{World, Exec}
use rag_semantic_search.JobQueue.{chunk_ids}
use rag_semantic_search.UploadService.Accounting.{
  append_chunk-Accounted, begin_completion-Accounted, promote-db, delete_upload_db,
}
use rag_semantic_search.System.{
  System, Step, create, append, begin, rename, end, delete, claim, complete, fail, restart, tick,
  Reachable,
}
use rag_semantic_search.System.Changing.{end_completion-Rekeyed}
use rag_semantic_search.System.Batches.{Consistent}
use rag_semantic_search.System.Soundness.{Reachable-Consistent}
use rag_semantic_search.System.Retries.{create_upload-chunks, Reachable-Fresh}
use rag_semantic_search.Worker.Attempts.{Fresh}
use rag_semantic_search.System.Passages.{
  Cause, by_request, by_claim, by_restart, by_deletion, by_other, by_completion, by_failure, forces,
  Move, stays, stage_of, Moves, stays_put,
}
use rag_semantic_search.System.Settling.{complete_batch-Moves, fail_batch-Moves}
use rag_semantic_search.System.Moving.{
  claim_batch-Moves, recover_stuck_jobs-Moves, Accounted-Moves, delete-Moves, close_batch-Moves,
}

-- What a step is to the passage i; a batch is the jobs that the worker ends.
abbrev pub cause :
    (f : Floats) (c : Settings) (drop : String → Exec (Unit {0})) (i : ℕ) (s t : System)
    → Step f c drop s t
    → Cause
cause f c drop i s _ (create id owner filename size fresh) = by_other
cause f c drop i s _ (append id owner offset body) = by_request
cause f c drop i s _ (begin id owner) = by_request
cause f c drop i s _ (rename id) = by_other
cause f c drop i s _ (end id) = by_other
cause f c drop i s _ (delete id owner) = by_deletion
cause f c drop i s _ (claim limit) = by_claim
cause f c drop i s _ (complete id mine one) =
    by_completion (is_in i (chunk_ids (select mine s.held)))
cause f c drop i s _ (fail id mine error one) =
    by_failure (is_in i (chunk_ids (select mine s.held)))
cause f c drop i s _ restart = by_restart
cause f c drop i s _ (tick now) = by_other

cases_done : (b : Bool) → forces (by_completion b) none ≡ false
cases_done true = refl
cases_done false = refl

cases_failed : (b : Bool) → forces (by_failure b) none ≡ false
cases_failed true = refl
cases_failed false = refl

module _ (f : Floats) (c : Settings) (drop : String → Exec (Unit {0}))
    (outside : (id : String) (v : World) → (drop id v).1.db ≡ v.db) (i : ℕ) where
  step-Move :
      (s t : System) (step : Step f c drop s t)
      → Consistent s.world.db s.held
      → All (Fresh s.world.db.chunks) s.held
      → Moves c (cause f c drop i s t step) i s.world.db.chunks t.world.db.chunks
  step-Move s _ (create id owner filename size fresh) h g =
      stays_put c by_other i s.world.db.chunks _ refl
        (ap (row i) (create_upload-chunks id owner filename size s.world))
  step-Move s _ (append id owner offset body) h g =
      Accounted-Moves c i id s.world h.sound
        (append_chunk-Accounted f c id owner offset body s.world)
  step-Move s _ (begin id owner) h g =
      Accounted-Moves c i id s.world h.sound (begin_completion-Accounted c id owner s.world)
  step-Move s _ (rename id) h g =
      stays_put c by_other i s.world.db.chunks _ refl
        (ap (λ d. row i d.chunks) (promote-db id s.world))
  step-Move s _ (end id) h g =
      stays_put c by_other i s.world.db.chunks _ refl
        (ap (row i) (end_completion-Rekeyed id s.world).1)
  step-Move s _ (delete id owner) h g = elim (delete_upload_db drop id owner s.world (outside id)) [
    | inl same ↦ stays_put c by_deletion i s.world.db.chunks _ refl (ap (λ d. row i d.chunks) same)
    | inr gone ↦
        subst (λ d. Moves c by_deletion i s.world.db.chunks d.chunks) (sym gone)
          (delete-Moves c i id s.world.db h.sound.counted.ascending)
  ]
  step-Move s _ (claim limit) h g =
      claim_batch-Moves c limit i s.world.db s.world.now h.sound.counted.ascending
  step-Move s _ (complete id mine one) h g =
      close_batch-Moves c i by_completion (λ x. refl) cases_done id mine s.held s.world.db _ one h
        (complete_batch-absent id s.world.db (select mine s.held) s.world.now one)
        (complete_batch-Moves c i id s.world.db (select mine s.held) s.world.now)
  step-Move s _ (fail id mine error one) h g =
      close_batch-Moves c i by_failure (λ x. refl) cases_failed id mine s.held s.world.db _ one h
        (fail_batch-absent c id s.world.db (select mine s.held) error s.world.now one)
        (fail_batch-Moves c i id s.world.db (select mine s.held) error s.world.now (
          All-map (select mine s.held) (λ j k. k.0)
            (All-select (Fresh s.world.db.chunks) mine s.held g)))
  step-Move s _ restart h g = recover_stuck_jobs-Moves c i s.world.db s.world.now
  step-Move s _ (tick now) h g = stays by_other (stage_of i s.world.db.chunks) refl

  -- From every state that requests, restarts and workers that end each job once lead to, where the
  -- deletion of a collection leaves the tables alone, a step of any of them moves each passage along
  -- its lifecycle or leaves it: only a request puts it into the queue, with a count of retries of
  -- zero; only a claim gives it to a worker; only the completion of a batch that it is in makes it
  -- indexed; only a restart puts it back as it is; only a deletion takes it away; and only the failure
  -- of a batch that it is in puts it back with the count one higher, while attempts are left, or gives
  -- it up, when none is. The end of a batch leaves no passage that is in it and in the table as it
  -- was, nor does a restart one that a worker has.
  pub Reachable-Move :
      (s t : System)
      → Reachable f c drop s
      → (step : Step f c drop s t)
      → Move c
          (cause f c drop i s t step)
          (stage_of i s.world.db.chunks)
          (stage_of i t.world.db.chunks)
  Reachable-Move s t before step =
      step-Move s t step (Reachable-Consistent f c drop outside s before)
        (Reachable-Fresh f c drop outside s before)
