-- ===== src/UploadService/Lifecycle.antt =====
-- app/services/upload_service.py: a whole upload, from its creation to its completion.
use mathlib.Core.List.{flatten}
use mathlib.Core.List.{append-nil, append_assoc}
use rag_semantic_search.Prelude.{
  ℕ, ◌+◌, ◌≡◌, ◌≢◌, refl, sym, ap, ◌∙◌, subst, true, some, none, List, [], ◌∷◌, ◌++◌, arith, String,
  str_eq, str_refl, length, length-append,
}
use rag_semantic_search.Config.{Settings}
use rag_semantic_search.Config.Sizing.{Floats, FloatLaws}
use rag_semantic_search.Config.Sizing.Bounds.{IsSane, passage_size_for-Fits}
use rag_semantic_search.Database.{UploadStatus, FileRecord}
use rag_semantic_search.Errors.{ok}
use rag_semantic_search.Files
use rag_semantic_search.Files.{get, find_file, new_file}
use rag_semantic_search.Files.Lookup.{find_file-append}
use rag_semantic_search.Storage.{or_empty}
use rag_semantic_search.Chunker.{line_buffer}
use rag_semantic_search.Chunker.Cut.{IsSized}
use rag_semantic_search.World.{World}
use rag_semantic_search.UploadService.{
  create_upload, append_chunk, complete_upload, append_buffer, completion_buffer,
}
use rag_semantic_search.UploadService.Appending.{Uploading, Accepts, append_chunk_accepted}
use rag_semantic_search.UploadService.Completing.{complete_upload-Completed}

module _ (f : Floats) (laws : FloatLaws f) (c : Settings) (sane : IsSane c) where
  append_buffer-IsSized : (r : FileRecord) → IsSized (append_buffer f c r)
  unfolding line_buffer
  append_buffer-IsSized r =
      let (z, given, fits) = passage_size_for-Fits f laws c sane r.total_size in ground arith

  completion_buffer-IsSized : (r : FileRecord) → IsSized (completion_buffer c r)
  unfolding line_buffer
  completion_buffer-IsSized r = ground arith

-- A client that sends each body at the offset where the last one ended.
abbrev pub send_all : Floats → Settings → String → String → ℕ → List (List ℕ) → World → World
send_all f c id owner offset [] w = w
send_all f c id owner offset (body ∷ bodies) w =
    send_all f c id owner (offset + length body) bodies (append_chunk f c id owner offset body w).1

-- Each body is within the limits where it is sent.
abbrev pub AcceptsAll : Settings → List ℕ → List (List ℕ) → Type 0
AcceptsAll c stream [] = Unit {0}
AcceptsAll c stream (body ∷ bodies) = Accepts c stream body × AcceptsAll c (stream ++ body) bodies

-- No upload has the name `id` yet.
pub record IsFresh (id : String) (w : World) : Type 0 where
  pub no_row : get w.db id ≡ none
  pub no_partial : w.disk.partial id ≡ none
  pub no_final : w.disk.final id ≡ none

module _ (f : Floats) (c : Settings) (id owner : String) where
  abbrev created : String → ℕ → World → World
  created filename total_size w = record w {
    db = record w.db { files = w.db.files ++ (new_file id owner filename total_size w.now ∷ []) };
  }

  create_upload-created :
      (filename : String) (total_size : ℕ) (w : World)
      → IsFresh id w
      → create_upload id owner filename total_size w ≡ (ok id, created filename total_size w)
  unfolding create_upload Files.create
  create_upload-created filename total_size w fresh = ground (arith, fresh.no_row)

  created-Uploading :
      (filename : String) (total_size : ℕ) (w : World)
      → IsFresh id w
      → Uploading f c id [] [] 0 0
          (new_file id owner filename total_size w.now)
          (created filename total_size w)
  unfolding line_buffer get
  created-Uploading filename total_size w fresh = record {
    row = find_file-append id w.db.files _ fresh.no_row refl;
    received = refl;
    on_disk = ap or_empty fresh.no_partial;
    not_final = fresh.no_final;
    tail = record {
      content = refl;
      after_start = omega arith;
      no_gap = omega arith;
      within = omega arith;
    };
    live = refl;
  }

  create_upload-Uploading :
      (filename : String) (total_size : ℕ) (w : World)
      → IsFresh id w
      → Uploading f c id [] [] 0 0
          (new_file id owner filename total_size w.now)
          (create_upload id owner filename total_size w).1
  create_upload-Uploading filename total_size w fresh =
      subst (λ out. Uploading f c id [] [] 0 0 (new_file id owner filename total_size w.now) out.1)
        (sym (create_upload-created filename total_size w fresh))
        (created-Uploading filename total_size w fresh)

  -- What is known of an upload once all of `stream` is in.
  abbrev Sent : List ℕ → World → Type 0
  Sent stream w =
      (s : ℕ) × (e : ℕ) × (r : FileRecord) × (str_eq r.owner_id owner ≡ true)
      × Uploading f c id stream [] s e r w

  send_all-Sent :
      FloatLaws f
      → IsSane c
      → (stream : List ℕ) (bodies : List (List ℕ)) (w : World) → Sent stream w
      → AcceptsAll c stream bodies
      → Sent (stream ++ flatten bodies) (send_all f c id owner (length stream) bodies w)
  unfolding flatten
  send_all-Sent laws sane stream [] w sent h =
      subst (λ xs. Sent xs w) (sym (append-nil stream)) sent
  send_all-Sent laws sane stream (body ∷ bodies) w (s, e, r, owned, u) h =
      let next =
        append_chunk_accepted f c id owner stream [] body s e r w u
          (append_buffer-IsSized f laws c sane r) owned h.0 in
      let w' = (append_chunk f c id owner (length stream) body w).1 in
      let rest =
        send_all-Sent laws sane (stream ++ body) bodies w'
          (next.s', next.e', next.r', rw next.owner_kept owned, next.uploading) h.1 in
      subst (λ n. Sent (stream ++ (body ++ flatten bodies)) (send_all f c id owner n bodies w'))
        (length-append stream body)
        (subst (λ xs. Sent xs (send_all f c id owner (length (stream ++ body)) bodies w'))
          (append_assoc stream body (flatten bodies)) rest)

  -- A whole upload, with sane settings and floats that keep the laws stated: created under a
  -- fresh name, sent in bodies within the limits, and completed. The
  -- call returns the row as completed, with the number of bytes that were sent, and the final
  -- file is
  -- those bytes in order.
  pub complete_upload-send_all :
      FloatLaws f
      → IsSane c
      → (filename : String) (total_size : ℕ) (bodies : List (List ℕ)) (w : World) → IsFresh id w
      → AcceptsAll c [] bodies
      → flatten bodies ≢ []
      → let created = (create_upload id owner filename total_size w).1 in
        let out = complete_upload c id owner (send_all f c id owner 0 bodies created) in
        (r : FileRecord) × (out.0 ≡ ok (some r))
        × (r.upload_status ≡ UploadStatus.completed)
        × (r.total_size ≡ length (flatten bodies))
        × (out.1.disk.final id ≡ some (flatten bodies))
  complete_upload-send_all laws sane filename total_size bodies w fresh h nonempty =
      let created = (create_upload id owner filename total_size w).1 in
      let (s, e, r, owned, u) =
        send_all-Sent laws sane [] bodies created
          (0, 0, _, str_refl owner, create_upload-Uploading filename total_size w fresh) h in
      let done =
        complete_upload-Completed f c id owner (flatten bodies) [] s e r
          (send_all f c id owner 0 bodies created) u (completion_buffer-IsSized f laws c sane r)
          owned nonempty in
      (
        done.r',
        done.returns,
        done.status,
        done.size,
        done.final ∙ ap some (append-nil (flatten bodies)),
      )
