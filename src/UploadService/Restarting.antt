-- ===== src/UploadService/Restarting.antt =====
-- app/tasks/job_queue.py, `recover_stuck_jobs`, and app/services/upload_service.py: an upload through
-- the death of the process and the start of the next.
use mathlib.Core.Option
use rag_semantic_search.Prelude.{
  ℕ, ◌≡◌, sym, ap, subst, ◌∙◌, true, List, arith, String, str_eq, length,
}
use rag_semantic_search.Config.{Settings}
use rag_semantic_search.Config.Sizing.{Floats}
use rag_semantic_search.Chunker.Cut.{IsSized}
use rag_semantic_search.Chunker.Coverage.{Holds}
use rag_semantic_search.Database.{Time, FileRecord}
use rag_semantic_search.JobQueue.{recover_stuck_jobs}
use rag_semantic_search.JobQueue.Recovering.{get-recover_stuck_jobs, reverted, interrupted}
use rag_semantic_search.World.{World}
use rag_semantic_search.UploadService.{append_chunk, append_buffer}
use rag_semantic_search.UploadService.Appending.{
  Uploading, Accepts, Appended, append_chunk_accepted,
}

-- The world after a start: the disk is as the last process left it.
abbrev pub restarted : World → World
restarted w = record w { db = (recover_stuck_jobs w.db w.now).1 }

abbrev pub restarted_row : Time → FileRecord → FileRecord
restarted_row now r = reverted now (interrupted now r)

module _ (f : Floats) (c : Settings) (id : String) (stream extra : List ℕ) (s e : ℕ)
    (r : FileRecord) (w : World) where
  restarted-Uploading :
      Uploading f c id stream extra s e r w
      → Uploading f c id stream extra s e (restarted_row w.now r) (restarted w)
  restarted-Uploading u =
      let same_buffer : append_buffer f c (restarted_row w.now r) ≡ append_buffer f c r =
        ground arith in
      record {
        row =
            get-recover_stuck_jobs w.db w.now id
            ∙ ap (λ o. Option.map (reverted w.now) (Option.map (interrupted w.now) o)) u.row;
        received = ground (arith, u.received);
        on_disk = u.on_disk;
        not_final = u.not_final;
        tail = subst (Holds stream s e) (sym same_buffer) u.tail;
        live = ground (arith, u.live);
      }

  -- An open upload goes on after the death of the process, also where it died with bytes on disk that it
  -- had not recorded: with sane sizes, an acceptable chunk of the owner at the number of bytes that the
  -- row counts is taken after the start as it would have been before it.
  pub append_chunk-restarted :
      (owner : String) (body : List ℕ)
      → Uploading f c id stream extra s e r w
      → IsSized (append_buffer f c r)
      → str_eq r.owner_id owner ≡ true
      → Accepts c stream body
      → Appended f c id stream body s e
          (restarted_row w.now r)
          (restarted w)
          (append_chunk f c id owner (length stream) body (restarted w))
  append_chunk-restarted owner body u sized owned accepts =
      let same_buffer : append_buffer f c (restarted_row w.now r) ≡ append_buffer f c r =
        ground arith in
      append_chunk_accepted f c id owner stream extra body s e (restarted_row w.now r) (restarted w)
        (restarted-Uploading u) (subst IsSized (sym same_buffer) sized) (ground (arith, owned))
        accepts
