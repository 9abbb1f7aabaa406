-- ===== src/Http/Hidden.antt =====
-- app/api/v1/upload.py and app/api/v1/search.py: what a client can tell of another's upload.
use rag_semantic_search.Prelude.{
  ℕ, ◌⊎◌, inl, inr, ◌≡◌, refl, ap, ◌∙◌, false, Option, none, some, List, arith, String, str_eq, ltb,
  length, Bool-cases,
}
use rag_semantic_search.Prelude.Ints.{ℤ, pos, negsuc}
use rag_semantic_search.Config.{Settings}
use rag_semantic_search.Config.Sizing.{Floats}
use rag_semantic_search.Utf8.{Text}
use rag_semantic_search.Database.{FileRecord, Database}
use rag_semantic_search.Errors.{DomainError, Raised, Result, ok, err}
use rag_semantic_search.Files.{get, get_owned}
use rag_semantic_search.Storage.{Looks}
use rag_semantic_search.Index.{Backend}
use rag_semantic_search.Search.{Querying, Hit, search}
use rag_semantic_search.UploadSlots.{enter}
use rag_semantic_search.UploadService
use rag_semantic_search.UploadService.Isolation.{get_owned-foreign}
use rag_semantic_search.World.{World, Exec}
use rag_semantic_search.Status.{to_status}
use rag_semantic_search.Http.{reply, get_user_id, respond}
use rag_semantic_search.Http.Uploads.{
  Server, upload_chunk, complete_upload, get_status, delete_file, with_slot, append_body,
  chunk_response, status_response,
}
use rag_semantic_search.Http.Searching.{SearchRequest, search_file, top_k_of}

get_owned-missing :
    (db : Database) (id owner : String)
    → get db id ≡ none
    → get_owned db id owner ≡ err (Raised.domain (DomainError.file_not_found id))
unfolding get_owned
get_owned-missing db id owner gone = ground arith

-- Two worlds in which the service finds no file of the caller under the id.
module _ (id owner : String) (w w' : World) (e : Raised) (missing : get_owned w.db id owner ≡ err e)
    (missing' : get_owned w'.db id owner ≡ err e) where
  append_chunk_missing :
      (f : Floats) (c : Settings) (offset : ℕ) (body : List ℕ)
      → (UploadService.append_chunk f c id owner offset body w).0
        ≡ (UploadService.append_chunk f c id owner offset body w').0
  unfolding UploadService.append_chunk
  append_chunk_missing f c offset body = elim (Bool-cases (ltb c.max_chunk_bytes (length body))) [
    | inl large ↦ ground arith
    | inr small ↦ ground arith
  ]

  append_body_missing :
      (f : Floats) (c : Settings) (offset : ℕ) (body : Text ⊎ List ℕ)
      → (append_body f c id owner offset body w).0 ≡ (append_body f c id owner offset body w').0
  append_body_missing f c offset (inl raised) = refl
  append_body_missing f c offset (inr body) = append_chunk_missing f c offset body

  with_slot_missing :
      (f : Floats) (c : Settings) (offset : ℕ) (body : Text ⊎ List ℕ) (free free' : ℕ)
      (slot : Result ℕ)
      → (with_slot f c id owner offset body (record { world = w; free = free }) slot).0
        ≡ (with_slot f c id owner offset body (record { world = w'; free = free' }) slot).0
  with_slot_missing f c offset body free free' (err busy) = refl
  with_slot_missing f c offset body free free' (ok left) =
      ap (λ r. respond r (chunk_response id)) (append_body_missing f c offset body)

  complete_upload_missing :
      (c : Settings)
      → (UploadService.complete_upload c id owner w).0
        ≡ (UploadService.complete_upload c id owner w').0
  unfolding UploadService.complete_upload UploadService.begin_completion
  complete_upload_missing c = ground arith

  get_status_missing :
      (UploadService.get_status id owner w).0 ≡ (UploadService.get_status id owner w').0
  unfolding UploadService.get_status
  get_status_missing = ground arith

  delete_upload_missing :
      (drop : String → Exec (Unit {0}))
      → (UploadService.delete_upload drop id owner w).0
        ≡ (UploadService.delete_upload drop id owner w').0
  unfolding UploadService.delete_upload
  delete_upload_missing drop = ground arith

upload_chunk_missing :
    (f : Floats) (c : Settings) (id : String) (x_user_id : Option String) (s s' : Server)
    (e : Raised)
    → get_owned s.world.db id (get_user_id x_user_id) ≡ err e
    → get_owned s'.world.db id (get_user_id x_user_id) ≡ err e
    → (body : Text ⊎ List ℕ) → s.free ≡ s'.free
    → (offset : Option ℤ)
    → (upload_chunk f c id x_user_id offset body s).0
      ≡ (upload_chunk f c id x_user_id offset body s').0
unfolding upload_chunk
upload_chunk_missing f c id x_user_id s s' e m m' body free none = refl
upload_chunk_missing f c id x_user_id s s' e m m' body free (some (negsuc n)) = refl
upload_chunk_missing f c id x_user_id s s' e m m' body free (some (pos offset)) =
    let owner = get_user_id x_user_id in
    with_slot_missing id owner s.world s'.world e m m' f c offset body s.free s'.free
      (enter c s.free)
    ∙ ap (λ n. (with_slot f c id owner offset body s' (enter c n)).0) free

module _ (b : Backend) (q : Querying b) (looks : Hit q.Score → Looks) where
  search_missing :
      (db db' : Database) (s : b.Collections) (id owner : String) (query : Text) (top_k : ℕ)
      (e : Raised)
      → get_owned db id owner ≡ err e
      → get_owned db' id owner ≡ err e
      → search b q looks db s id owner query top_k ≡ search b q looks db' s id owner query top_k
  unfolding search
  search_missing db db' s id owner query top_k e missing missing' = ground arith

  -- With as many free slots, a client gets from every route on a file id the same answer where the
  -- file is another's as where there is none: so it cannot tell the two apart.
  pub foreign_hidden :
      (f : Floats) (c : Settings) (drop : String → Exec (Unit {0})) (s s' : Server)
      (collections : b.Collections) (id : String) (x_user_id : Option String) (offset : Option ℤ)
      (body : Text ⊎ List ℕ) (payload : SearchRequest) (r : FileRecord)
      → get s.world.db id ≡ some r
      → str_eq r.owner_id (get_user_id x_user_id) ≡ false
      → get s'.world.db id ≡ none
      → s.free ≡ s'.free
      → ((upload_chunk f c id x_user_id offset body s).0
          ≡ (upload_chunk f c id x_user_id offset body s').0)
        × ((complete_upload c id x_user_id s).0 ≡ (complete_upload c id x_user_id s').0)
        × ((get_status id x_user_id s).0 ≡ (get_status id x_user_id s').0)
        × ((delete_file drop id x_user_id s).0 ≡ (delete_file drop id x_user_id s').0)
        × (search_file b q c looks id payload x_user_id s.world.db collections
            ≡ search_file b q c looks id payload x_user_id s'.world.db collections)
  unfolding complete_upload get_status delete_file search_file
  foreign_hidden f c drop s s' collections id x_user_id offset body payload r row foreign gone
        free =
      let owner = get_user_id x_user_id in
      let e = Raised.domain (DomainError.file_not_found id) in
      let m = get_owned-foreign s.world.db id owner r row foreign in
      let m' = get_owned-missing s'.world.db id owner gone in
      (
        upload_chunk_missing f c id x_user_id s s' e m m' body free offset,
        ap (λ a. respond a status_response)
            (complete_upload_missing id owner s.world s'.world e m m' c),
        ap (λ a. respond a (λ x. reply 200 (to_status x)))
            (get_status_missing id owner s.world s'.world e m m'),
        ap (λ a. respond a (λ u. reply 204 tt))
            (delete_upload_missing id owner s.world s'.world e m m' drop),
        ground (
          arith,
          search_missing s.world.db s'.world.db collections id owner payload.query
              (top_k_of c payload.top_k) e m m',
        ),
      )
