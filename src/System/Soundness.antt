-- ===== src/System/Soundness.antt =====
-- app/services/upload_service.py, app/tasks/worker.py and app/tasks/job_queue.py: the two tables in
-- every state that requests, workers and restarts lead to.
use rag_semantic_search.Prelude.{◌≡◌, sym, subst, inl, inr, List, [], ◌∷◌, select, String}
use rag_semantic_search.Prelude.All.{All-map, All-zip}
use rag_semantic_search.Config.{Settings}
use rag_semantic_search.Config.Sizing.{Floats}
use rag_semantic_search.Database.{Database}
use rag_semantic_search.Chunks.Counts.{HeldRows}
use rag_semantic_search.JobQueue.{ChunkJob}
use rag_semantic_search.JobQueue.Recovering.{recover_stuck_jobs-Recovered}
use rag_semantic_search.JobQueue.Soundness.{init_db-IsSound}
use rag_semantic_search.JobQueue.Registering.{delete-IsSound}
use rag_semantic_search.JobQueue.Rekeying.{Rekeyed-IsSound, recover_stuck_jobs-Rekeyed}
use rag_semantic_search.World.{World, Exec}
use rag_semantic_search.UploadService.{end_completion, delete_upload}
use rag_semantic_search.UploadService.Accounting.{
  Accounted, Accounted-IsSound, append_chunk-Accounted, begin_completion-Accounted, promote-db,
  end_completion-IsSound, create_upload-IsSound, delete_upload_db,
}
use rag_semantic_search.System.{
  System, Step, create, append, begin, rename, end, delete, claim, complete, fail, restart, tick,
  Reachable, start, after,
}
use rag_semantic_search.System.Holding.{InHand-Rekeyed}
use rag_semantic_search.System.Changing.{
  delete-InHand, Accounted-InHand, create_upload-InHand, end_completion-Rekeyed,
}
use rag_semantic_search.System.Batches.{
  Consistent, close_batch-Consistent, complete_batch-Ended, fail_batch-Ended,
  claim_batch-Consistent,
}

delete_upload-Consistent :
    (drop : String → Exec (Unit {0})) (id owner : String) (w : World) (held : List ChunkJob)
    → ((v : World) → (drop id v).1.db ≡ v.db)
    → Consistent w.db held
    → Consistent (delete_upload drop id owner w).1.db held
delete_upload-Consistent drop id owner w held outside h =
    elim (delete_upload_db drop id owner w outside) [
      | inl same ↦ rw same h
      | inr deleted ↦ rw deleted (record {
        sound = delete-IsSound w.db id h.sound;
        in_hand = All-map held (λ j g. delete-InHand j w.db g id h.sound) h.in_hand;
        distinct = h.distinct;
      })
    ]

Accounted-Consistent :
    (id : String) (w : World) (held : List ChunkJob) {db' : Database}
    → Accounted id w db'
    → Consistent w.db held
    → Consistent db' held
Accounted-Consistent id w held a h = record {
  sound = Accounted-IsSound id w a h.sound;
  in_hand = All-map held (λ j g. Accounted-InHand j id w h.sound a g) h.in_hand;
  distinct = h.distinct;
}

end_completion-Consistent :
    (id : String) (w : World) (held : List ChunkJob)
    → Consistent w.db held
    → Consistent (end_completion id w).1.db held
end_completion-Consistent id w held h =
    let (rekeyed, same) = end_completion-Rekeyed id w in
    record {
      sound = end_completion-IsSound id w h.sound;
      in_hand =
          All-map held
            (λ j g.
              InHand-Rekeyed j rekeyed
                (subst (λ cs. HeldRows j.file_id cs (j.chunk_id ∷ [])) (sym same)) g)
            h.in_hand;
      distinct = h.distinct;
    }

-- `drop` works on the collections of Qdrant, not on the tables.
module _ (f : Floats) (c : Settings) (drop : String → Exec (Unit {0}))
    (outside : (id : String) (v : World) → (drop id v).1.db ≡ v.db) where
  -- One step of any caller keeps the tables and the jobs in hand consistent.
  pub step-Consistent :
      (s t : System)
      → Step f c drop s t
      → Consistent s.world.db s.held
      → Consistent t.world.db t.held
  step-Consistent s _ (create id owner filename size fresh) h = record {
    sound = create_upload-IsSound id owner filename size s.world h.sound;
    in_hand =
        All-zip s.held (λ j ne g. create_upload-InHand j id owner filename size s.world ne g) fresh
          h.in_hand;
    distinct = h.distinct;
  }
  step-Consistent s _ (append id owner offset body) h =
      Accounted-Consistent id s.world s.held
        (append_chunk-Accounted f c id owner offset body s.world) h
  step-Consistent s _ (begin id owner) h =
      Accounted-Consistent id s.world s.held (begin_completion-Accounted c id owner s.world) h
  step-Consistent s _ (rename id) h = rw (promote-db id s.world) h
  step-Consistent s _ (end id) h = end_completion-Consistent id s.world s.held h
  step-Consistent s _ (delete id owner) h =
      delete_upload-Consistent drop id owner s.world s.held (outside id) h
  step-Consistent s _ (claim limit) h =
      claim_batch-Consistent c limit s.world.db s.held s.world.now h
  step-Consistent s _ (complete id mine one) h =
      close_batch-Consistent id mine s.held s.world.db one h
        (complete_batch-Ended id s.world.db (select mine s.held) s.world.now one h.sound)
  step-Consistent s _ (fail id mine error one) h =
      close_batch-Consistent id mine s.held s.world.db one h
        (fail_batch-Ended c id s.world.db (select mine s.held) error s.world.now one h.sound)
  step-Consistent s _ restart h = record {
    sound =
        Rekeyed-IsSound (recover_stuck_jobs-Rekeyed s.world.db s.world.now)
          (recover_stuck_jobs-Recovered s.world.db s.world.now h.sound.counted).counted h.sound;
    in_hand = tt;
    distinct = tt;
  }
  step-Consistent s _ (tick now) h = h

  -- In every state that requests, restarts and workers that end each job once lead to, in whatever
  -- order their transactions come and where the deletion of a collection leaves the tables alone, the counters of every file are the numbers of its rows, no row is held by two workers, and
  -- each job that a worker holds is a row in `processing` or its file is deleted.
  pub Reachable-Consistent : (s : System) → Reachable f c drop s → Consistent s.world.db s.held
  Reachable-Consistent _ (start disk now) = record {
    sound = init_db-IsSound;
    in_hand = tt;
    distinct = tt;
  }
  Reachable-Consistent _ (after {s} {t} before step) =
      step-Consistent s t step (Reachable-Consistent s before)
