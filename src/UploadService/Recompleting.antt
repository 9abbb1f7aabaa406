-- ===== src/UploadService/Recompleting.antt =====
-- app/services/upload_service.py, `complete_upload`, and app/tasks/job_queue.py, `recover_stuck_jobs`: a
-- completion during which the process dies, and the next one.
use mathlib.Core.Option
use rag_semantic_search.Prelude.{
  ℕ, ◌≡◌, ◌≢◌, refl, ap, ◌∙◌, true, false, Option, some, none, List, [], ◌++◌, arith, String,
  str_eq, str_refl, length,
}
use rag_semantic_search.Config.{Settings}
use rag_semantic_search.Config.Sizing.{Floats}
use rag_semantic_search.Chunker.{PassageRange, LineBuffer, line_buffer, flush, find_cut, drain}
use rag_semantic_search.Chunker.Cut.{IsSized}
use rag_semantic_search.Chunker.Session.{flush-Runs}
use rag_semantic_search.Database.{FileRecord, UploadStatus}
use rag_semantic_search.Errors.{Result, ok}
use rag_semantic_search.Files.{get, mark_finalizing, mark_completed, update_file}
use rag_semantic_search.Files.Lookup.{get_owned-get}
use rag_semantic_search.Storage.{Disk, finalize}
use rag_semantic_search.JobQueue.{enqueue}
use rag_semantic_search.JobQueue.Recovering.{
  get-recover_stuck_jobs, chunks-recover_stuck_jobs, reverted, interrupted, reset,
}
use rag_semantic_search.World.{World}
use rag_semantic_search.UploadService.{
  complete_upload, begin_completion, promote, end_completion, completion_buffer, is_closed,
}
use rag_semantic_search.UploadService.Appending.{Uploading}
use rag_semantic_search.UploadService.Completing.{
  finalizing, queued, get-queued, get-mark_completed, renamed, finalize-renamed, partial-some,
  begin_completion-queued, complete_upload-renamed, completion-Holds,
}
use rag_semantic_search.UploadService.Restarting.{restarted, restarted_row}

-- A completion that has queued its last passages before leaves the queue as it is.
complete_upload-finalize :
    (c : Settings) (id owner : String) (stream : List ℕ) (r : FileRecord) (v : World)
    (buffer : LineBuffer) (d : Disk)
    → get v.db id ≡ some r
    → str_eq r.owner_id owner ≡ true
    → is_closed r.upload_status ≡ false
    → r.bytes_received ≡ length stream
    → stream ≢ []
    → flush (completion_buffer c r) ≡ some ([], buffer)
    → finalize v.disk id ≡ ok d
    → complete_upload c id owner v ≡ (
      ok (get (mark_completed (queued r [] v id) id v.now) id),
      record v { db = mark_completed (queued r [] v id) id v.now; disk = d },
    )
unfolding complete_upload promote end_completion
complete_upload-finalize c id owner stream r v buffer d row owned live received nonempty flushed
      moved =
    let found = get_owned-get v.db id owner r row owned in
    rw
      (
        begin_completion-queued c id owner stream [] r v [] buffer found live received nonempty
            flushed,
        complete_upload,
      )
      (ground (arith, moved))

flush_nothing :
    (c : Settings) (r : FileRecord)
    → r.pending_tail ≡ []
    → (buffer : LineBuffer) × (flush (completion_buffer c r) ≡ some ([], buffer))
unfolding flush drain find_cut line_buffer
flush_nothing c r e = rw e (_, refl)

finalize_again :
    (d : Disk) (id : String) (bytes : List ℕ)
    → finalize (renamed d id bytes) id ≡ ok (renamed d id bytes)
unfolding finalize
finalize_again d id bytes = ground (arith, str_refl id)

-- What a completion leaves that comes after the death of one and a start: the upload is complete with
-- its bytes, and the queue has the passages of an undisturbed completion, none of them in a worker's
-- hands.
pub record Recompleted (id : String) (bytes : List ℕ) (w : World)
    (straight out : Result (Option FileRecord) × World) : Type 0 where
  pub r' : FileRecord
  pub returns : out.0 ≡ ok (some r')
  pub row : get out.1.db id ≡ some r'
  pub status : r'.upload_status ≡ UploadStatus.completed
  pub rows : out.1.db.chunks ≡ reset w.now straight.1.db.chunks
  pub final : out.1.disk.final id ≡ some bytes
  pub no_partial : out.1.disk.partial id ≡ none

module _ (f : Floats) (c : Settings) (id owner : String) (stream extra : List ℕ) (s e : ℕ)
    (r : FileRecord) (w : World) (u : Uploading f c id stream extra s e r w)
    (sized : IsSized (completion_buffer c r)) (owned : str_eq r.owner_id owner ≡ true)
    (nonempty : stream ≢ []) where
  there : w.disk.partial id ≡ some (stream ++ extra)
  there = partial-some w.disk id stream extra nonempty u.on_disk

  -- After the start, with the file where it was or already renamed.
  complete_upload_after :
      (ps : List PassageRange) (buffer : LineBuffer) (d : Disk)
      → flush (completion_buffer c r) ≡ some (ps, buffer)
      → finalize d id ≡ ok (renamed w.disk id (stream ++ extra))
      → Recompleted id
          (stream ++ extra)
          w
          (complete_upload c id owner w)
          (complete_upload c id owner (restarted (record w { db = queued r ps w id; disk = d })))
  unfolding mark_completed mark_finalizing update_file enqueue
  complete_upload_after ps buffer d flushed moved =
      let v = restarted (record w { db = queued r ps w id; disk = d }) in
      let r₁ = finalizing r ps w id in
      let r₂ = restarted_row w.now r₁ in
      let (rest, empty) = flush_nothing c r₂ refl in
      let row : get v.db id ≡ some r₂ =
        get-recover_stuck_jobs (queued r ps w id) w.now id
        ∙ ap (λ o. Option.map (reverted w.now) (Option.map (interrupted w.now) o))
            (get-queued r ps w id u.row) in
      let result =
        complete_upload-finalize c id owner stream r₂ v rest (renamed w.disk id (stream ++ extra))
          row owned refl u.received nonempty empty moved in
      let straight =
        complete_upload-renamed c id owner stream extra r w ps buffer
          (get_owned-get w.db id owner r u.row owned) u.row u.live u.received nonempty flushed
          u.not_final there in
      let found = get-mark_completed _ id w.now _ (get-queued r₂ [] v id row) in
      rw (result, straight)
        (record {
          r' = _;
          returns = ap ok found;
          row = found;
          status = refl;
          rows = chunks-recover_stuck_jobs (queued r ps w id) w.now;
          final = rw (str_refl id) refl;
          no_partial = rw (str_refl id) refl;
        })

  -- Where the default sizes of passages are sane and some bytes were sent: when the process dies during
  -- the owner's completion of an open upload, after the first transaction or after the rename, then
  -- after the next start the call completes the upload and queues no passage twice; the final file has
  -- all bytes that are on disk, those included that a request which died before left beyond the count
  -- of the row.
  pub complete_upload-restarted :
      Recompleted id
        (stream ++ extra)
        w
        (complete_upload c id owner w)
        (complete_upload c id owner (restarted (begin_completion c id owner w).1))
      × Recompleted id
          (stream ++ extra)
          w
          (complete_upload c id owner w)
          (complete_upload c id owner (restarted (promote id (begin_completion c id owner w).1).1))
  unfolding promote
  complete_upload-restarted =
      let run =
        flush-Runs stream s e (completion_buffer c r) sized
          (completion-Holds f c id owner stream extra s e r w u) in
      let begun =
        begin_completion-queued c id owner stream extra r w run.passages run.end_state
          (get_owned-get w.db id owner r u.row owned) u.live u.received nonempty run.returns in
      let moved = finalize-renamed w.disk id (stream ++ extra) u.not_final there in
      let done = finalize_again w.disk id (stream ++ extra) in
      rw (begun, moved)
        (
          complete_upload_after run.passages run.end_state w.disk run.returns moved,
          complete_upload_after run.passages run.end_state (renamed w.disk id (stream ++ extra))
              run.returns done,
        )
