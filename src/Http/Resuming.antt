-- ===== src/Http/Resuming.antt =====
-- app/api/v1/upload.py: a client that resumes an upload from what the routes tell it.
use rag_semantic_search.Prelude.{
  ℕ, suc, ◌+◌, ◌≡◌, ◌≢◌, sym, ap, ap₂, subst, ◌∙◌, inr, true, Option, none, some, List, [], ◌++◌,
  arith, String, str_eq, length,
}
use rag_semantic_search.Prelude.Ints.{pos}
use rag_semantic_search.Config.{Settings}
use rag_semantic_search.Config.Sizing.{Floats}
use rag_semantic_search.Database.{FileRecord}
use rag_semantic_search.Errors.{DomainError}
use rag_semantic_search.Files.Lookup.{get_owned-get}
use rag_semantic_search.Chunker.Cut.{IsSized}
use rag_semantic_search.UploadSlots.{enter, exit}
use rag_semantic_search.UploadService
use rag_semantic_search.UploadService.{append_buffer}
use rag_semantic_search.UploadService.Appending.{
  Uploading, Accepts, append_chunk_accepted, append_chunk_mismatch, append_chunk_refused,
}
use rag_semantic_search.Status.{to_status}
use rag_semantic_search.Http.{
  Response, reply, failure, message, raised_response, error_response, respond, get_user_id,
}
use rag_semantic_search.Http.Uploads.{
  Server, ChunkUploadResponse, answer, with_slot, chunk_response, upload_chunk, get_status,
}

-- The answer to a chunk after which n bytes are in.
abbrev pub received_answer : String → ℕ → FileRecord → Response ChunkUploadResponse
received_answer id n r = reply 200 (record {
  file_id = id;
  bytes_received = n;
  total_size = r.total_size;
  upload_status = r.upload_status;
  chunks_enqueued = r.next_sequence;
})

-- A chunk while a slot is free: what the service answers, with the slot given back.
upload_chunk-append_chunk :
    (f : Floats) (c : Settings) (id : String) (x_user_id : Option String) (offset : ℕ)
    (body : List ℕ) (server : Server) (left : ℕ)
    → server.free ≡ suc left
    → upload_chunk f c id x_user_id (some (pos offset)) (inr body) server
      ≡ answer server
          (UploadService.append_chunk f c id (get_user_id x_user_id) offset body server.world)
          (chunk_response id)
unfolding upload_chunk enter exit
upload_chunk-append_chunk f c id x_user_id offset body server left free =
    let out = UploadService.append_chunk f c id (get_user_id x_user_id) offset body server.world in
    let given_back : left + 1 ≡ server.free = omega arith in
    ap (λ n. with_slot f c id (get_user_id x_user_id) offset (inr body) server (enter c n)) free
    ∙ ap (λ n. (respond out.0 (chunk_response id), record { world = out.1; free = n })) given_back

module _ (f : Floats) (c : Settings) (id : String) (x_user_id : Option String)
    (stream extra body : List ℕ) (s e : ℕ) (r : FileRecord) (server : Server) (left other : ℕ) where
  -- What a client may do with an upload of its own that is open, while a slot is free and the sizes of
  -- the passages are sane: the status names the number of bytes that are in; an acceptable chunk at
  -- another offset is answered with 409 and that number, and changes nothing; and at that offset it is
  -- answered with 200 and the number of bytes after it, from where the upload goes on as before.
  pub upload_chunk_resumed :
      Uploading f c id stream extra s e r server.world
      → IsSized (append_buffer f c r)
      → str_eq r.owner_id (get_user_id x_user_id) ≡ true
      → Accepts c stream body
      → server.free ≡ suc left
      → other ≢ length stream
      → ((get_status id x_user_id server).0 ≡ reply 200 (to_status r))
        × ((to_status r).bytes_received ≡ length stream)
        × (upload_chunk f c id x_user_id (some (pos other)) (inr body) server ≡ (
          failure 409 (message (DomainError.offset_mismatch (length stream) other)) none,
          server,
        ))
        × (r' : FileRecord) × (s' : ℕ) × (e' : ℕ) × ((upload_chunk f c id x_user_id
              (some (pos (length stream)))
              (inr body)
              server).0
            ≡ received_answer id (length (stream ++ body)) r')
        × Uploading f c id
            (stream ++ body)
            []
            s'
            e'
            r'
            (upload_chunk f c id x_user_id (some (pos (length stream))) (inr body) server).1.world
  unfolding get_status UploadService.get_status to_status raised_response error_response
  upload_chunk_resumed u sized owned accepts free apart =
      let owner = get_user_id x_user_id in
      let w = server.world in
      let found = get_owned-get w.db id owner r u.row owned in
      let elsewhere : other ≢ r.bytes_received = λ same. apart (same ∙ u.received) in
      let refused =
        append_chunk_mismatch f c id owner other body w r accepts.0 found u.live elsewhere in
      let unchanged =
        append_chunk_refused f c id owner other body w
          (DomainError.offset_mismatch r.bytes_received other) refused in
      let taken =
        append_chunk_accepted f c id owner stream extra body s e r w u sized owned accepts in
      let here = upload_chunk-append_chunk f c id x_user_id (length stream) body server left free in
      (
        ap (λ a. respond a (λ x. reply 200 (to_status x))) found,
        u.received,
        upload_chunk-append_chunk f c id x_user_id other body server left free
            ∙ ap₂ (λ a v. (respond a (chunk_response id), record server { world = v })) refused
                unchanged
            ∙ ap (λ n. (failure 409 (message (DomainError.offset_mismatch n other)) none, server))
                u.received,
        taken.r',
        taken.s',
        taken.e',
        ap (λ o. o.0) here
            ∙ ap (λ a. respond a (chunk_response id)) taken.returns
            ∙ ap (λ n. received_answer id n taken.r') taken.uploading.received,
        subst (λ o. Uploading f c id (stream ++ body) [] taken.s' taken.e' taken.r' o.1.world)
            (sym here) taken.uploading,
      )
