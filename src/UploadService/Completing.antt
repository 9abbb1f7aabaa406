-- ===== src/UploadService/Completing.antt =====
-- app/services/upload_service.py, `complete_upload`: what it leaves behind, and a second call.
use mathlib.Core.Option
use rag_semantic_search.Prelude.{
  ℕ, ◌≡◌, ◌≢◌, refl, sym, ap, ◌∙◌, subst, inl, inr, true, false, Option, none, some, List, [], ◌++◌,
  arith, String, str_eq, str_refl, length, Option-cases, append-eq-nil,
}
use rag_semantic_search.Config.{Settings}
use rag_semantic_search.Config.Sizing.{Floats}
use rag_semantic_search.Database.{UploadStatus, FileRecord, Database, Time}
use rag_semantic_search.Errors.{Result, ok}
use rag_semantic_search.Files.{
  get, get_owned, update_file, set_finalizing, mark_finalizing, mark_completed,
}
use rag_semantic_search.Files.Lookup.{get-update_file_self, get_owned-get}
use rag_semantic_search.Storage
use rag_semantic_search.Storage.{Disk, or_empty, finalize}
use rag_semantic_search.Chunker.{PassageRange, LineBuffer, flush, line_buffer}
use rag_semantic_search.Chunker.Cut.{IsSized}
use rag_semantic_search.Chunker.Coverage.{Holds, Tiles, limit_of}
use rag_semantic_search.Chunker.Session.{flush-Runs, end_of_stream, restarted-Holds}
use rag_semantic_search.JobQueue.{enqueue}
use rag_semantic_search.JobQueue.Enqueue.{get-enqueue}
use rag_semantic_search.World.{World}
use rag_semantic_search.UploadService.{
  append_buffer, is_closed, complete_upload, begin_completion, promote, end_completion,
  completion_buffer,
}
use rag_semantic_search.UploadService.Appending.{Uploading}

-- What a completed upload leaves behind.
pub record Completed (c : Settings) (id : String) (stream extra : List ℕ) (s e : ℕ) (r : FileRecord)
    (w : World) (out : Result (Option FileRecord) × World) : Type 0 where
  pub passages : List PassageRange
  pub s' : ℕ
  pub r' : FileRecord
  pub returns : out.0 ≡ ok (some r')
  pub row : get out.1.db id ≡ some r'
  pub status : r'.upload_status ≡ UploadStatus.completed
  pub size : r'.total_size ≡ length stream
  pub owner_kept : r'.owner_id ≡ r.owner_id
  pub tiles : Tiles (limit_of (completion_buffer c r)) s e passages s' (length stream)
  pub rows : out.1.db.chunks ≡ (enqueue w.db id passages r.next_sequence w.now).1.chunks
  pub final : out.1.disk.final id ≡ some (stream ++ extra)
  pub no_partial : out.1.disk.partial id ≡ none

-- The row as the first transaction leaves it, and as the second does.
abbrev pub finalizing : FileRecord → List PassageRange → World → String → FileRecord
finalizing r passages w id =
    set_finalizing (length passages) (enqueue w.db id passages r.next_sequence w.now).0
      r.bytes_received w.now r

abbrev pub queued : FileRecord → List PassageRange → World → String → Database
queued r passages w id =
    mark_finalizing (enqueue w.db id passages r.next_sequence w.now).1 id (length passages)
      (enqueue w.db id passages r.next_sequence w.now).0 r.bytes_received w.now

pub get-queued :
    (r : FileRecord) (passages : List PassageRange) (w : World) (id : String)
    → get w.db id ≡ some r
    → get (queued r passages w id) id ≡ some (finalizing r passages w id)
unfolding mark_finalizing
get-queued r passages w id e =
    get-update_file_self _ id _ (λ x. refl)
    ∙ ap (Option.map _) (get-enqueue w.db id passages r.next_sequence w.now id ∙ e)

pub get-mark_completed :
    (db : Database) (id : String) (now : Time) (r : FileRecord)
    → get db id ≡ some r
    → get (mark_completed db id now) id
      ≡ some (record r { upload_status = UploadStatus.completed; updated_at = now })
unfolding mark_completed
get-mark_completed db id now r e = get-update_file_self _ id _ (λ x. refl) ∙ ap (Option.map _) e

pub mark_completed-chunks :
    (r : FileRecord) (passages : List PassageRange) (w : World) (id : String)
    → (mark_completed (queued r passages w id) id w.now).chunks
      ≡ (enqueue w.db id passages r.next_sequence w.now).1.chunks
unfolding mark_completed mark_finalizing update_file
mark_completed-chunks r passages w id = refl

-- The rename of a partial file.
abbrev pub renamed : Disk → String → List ℕ → Disk
renamed d id bytes = record {
  partial = Storage.put d.partial id none;
  final = Storage.put d.final id (some bytes);
}

pub finalize-renamed :
    (d : Disk) (id : String) (bytes : List ℕ)
    → d.final id ≡ none
    → d.partial id ≡ some bytes
    → finalize d id ≡ ok (renamed d id bytes)
unfolding finalize
finalize-renamed d id bytes missing there = ground arith

pub partial-some :
    (d : Disk) (id : String) (stream extra : List ℕ)
    → stream ≢ []
    → or_empty (d.partial id) ≡ stream ++ extra
    → d.partial id ≡ some (stream ++ extra)
partial-some d id stream extra nonempty e = elim (Option-cases (d.partial id)) [
  | inl missing ↦ absurd (nonempty (append-eq-nil stream extra (sym e ∙ ap or_empty missing)))
  | inr (bytes, there) ↦ there ∙ ap some (sym (ap or_empty there) ∙ e)
]

module _ (c : Settings) (id owner : String) (stream extra : List ℕ) (r : FileRecord)
    (w : World) where
  pub begin_completion-queued :
      (passages : List PassageRange) (buffer : LineBuffer)
      → get_owned w.db id owner ≡ ok r
      → is_closed r.upload_status ≡ false
      → r.bytes_received ≡ length stream
      → stream ≢ []
      → flush (completion_buffer c r) ≡ some (passages, buffer)
      → begin_completion c id owner w ≡ (ok none, record w { db = queued r passages w id })
  unfolding begin_completion
  begin_completion-queued passages buffer found live received nonempty flushed = ground arith

  pub complete_upload-renamed :
      (passages : List PassageRange) (buffer : LineBuffer)
      → get_owned w.db id owner ≡ ok r
      → get w.db id ≡ some r
      → is_closed r.upload_status ≡ false
      → r.bytes_received ≡ length stream
      → stream ≢ []
      → flush (completion_buffer c r) ≡ some (passages, buffer)
      → w.disk.final id ≡ none
      → w.disk.partial id ≡ some (stream ++ extra)
      → complete_upload c id owner w ≡ (
        ok (get (mark_completed (queued r passages w id) id w.now) id),
        record w {
          db = mark_completed (queued r passages w id) id w.now;
          disk = renamed w.disk id (stream ++ extra);
        },
      )
  unfolding complete_upload promote end_completion
  complete_upload-renamed passages buffer found row live received nonempty flushed missing there =
      rw
        (
          begin_completion-queued passages buffer found live received nonempty flushed,
          complete_upload,
        )
        (ground (arith, finalize-renamed w.disk id (stream ++ extra) missing there))

complete_upload_again :
    (c : Settings) (id owner : String) (r : FileRecord) (w : World)
    → get w.db id ≡ some r
    → str_eq r.owner_id owner ≡ true
    → r.upload_status ≡ UploadStatus.completed
    → complete_upload c id owner w ≡ (ok (some r), w)
unfolding complete_upload begin_completion
complete_upload_again c id owner r w row owned done =
    ground (arith, get_owned-get w.db id owner r row owned)

module _ (f : Floats) (c : Settings) (id owner : String) (stream extra : List ℕ) (s e : ℕ)
    (r : FileRecord) (w : World) where
  pub completion-Holds :
      Uploading f c id stream extra s e r w → Holds stream s e (completion_buffer c r)
  unfolding line_buffer
  completion-Holds u =
      restarted-Holds c none none none r.bytes_received stream s e (append_buffer f c r) u.received
        u.tail

  -- Where the default sizes of passages are sane, the owner who completes an upload that is still
  -- open
  -- and to which some bytes were sent gets its row as completed, with its size; the
  -- last passages end at the last byte and are queued; and the partial file has become the final
  -- one.
  pub complete_upload-Completed :
      Uploading f c id stream extra s e r w
      → IsSized (completion_buffer c r)
      → str_eq r.owner_id owner ≡ true
      → stream ≢ []
      → Completed c id stream extra s e r w (complete_upload c id owner w)
  complete_upload-Completed u sized owned nonempty =
      let run = flush-Runs stream s e (completion_buffer c r) sized (completion-Holds u) in
      let there = partial-some w.disk id stream extra nonempty u.on_disk in
      let result =
        complete_upload-renamed c id owner stream extra r w run.passages run.end_state
          (get_owned-get w.db id owner r u.row owned) u.row u.live u.received nonempty run.returns
          u.not_final there in
      let found = get-mark_completed _ id w.now _ (get-queued r run.passages w id u.row) in
      subst (Completed c id stream extra s e r w) (sym result) (record {
        passages = run.passages;
        s' = run.s';
        r' = _;
        returns = ap ok found;
        row = found;
        status = refl;
        size = u.received;
        owner_kept = refl;
        tiles =
            subst (Tiles (limit_of (completion_buffer c r)) s e run.passages run.s')
              (end_of_stream run.holds run.settled) run.tiles;
        rows = mark_completed-chunks r run.passages w id;
        final = rw (str_refl id) refl;
        no_partial = rw (str_refl id) refl;
      })

  -- After a completion as above a second call finds the upload completed: it returns the same row
  -- and changes nothing.
  pub complete_upload-complete_upload :
      Uploading f c id stream extra s e r w
      → IsSized (completion_buffer c r)
      → str_eq r.owner_id owner ≡ true
      → stream ≢ []
      → complete_upload c id owner (complete_upload c id owner w).1 ≡ complete_upload c id owner w
  complete_upload-complete_upload u sized owned nonempty =
      let first = complete_upload-Completed u sized owned nonempty in
      complete_upload_again c id owner first.r' (complete_upload c id owner w).1 first.row
        (rw first.owner_kept owned) first.status
      ∙ ap (λ result. (result, (complete_upload c id owner w).1)) (sym first.returns)
