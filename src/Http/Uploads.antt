-- ===== src/Http/Uploads.antt =====
-- app/api/v1/upload.py and app/schemas/upload.py: the routes of an upload. The id of a new upload is
-- that of uuid4, and `drop` is that of app/repositories/vector_repository.py. Query and path
-- parameters come here as FastAPI parsed them; what it checks of them is part of the routes.
use Prim.Native.String.{count}
use rag_semantic_search.Prelude.{
  ℕ, ◌⊎◌, inl, inr, Bool, ◌&&◌, Option, none, some, List, map, String, leb, if◌then◌else◌,
}
use rag_semantic_search.Prelude.Ints.{ℤ, pos, negsuc}
use rag_semantic_search.Config.{Settings}
use rag_semantic_search.Config.Sizing.{Floats}
use rag_semantic_search.Utf8.{Text}
use rag_semantic_search.Database.{UploadStatus, FileRecord}
use rag_semantic_search.Errors.{Raised, Result, ok, err}
use rag_semantic_search.World.{World, Exec}
use rag_semantic_search.UploadSlots.{enter, exit}
use rag_semantic_search.UploadService
use rag_semantic_search.Status.{FileStatus, to_status}
use rag_semantic_search.Http.{
  Response, reply, unprocessable, unhandled, raised_response, respond, get_user_id,
}

-- What the routes share: the world of the service, and the counter of free upload slots.
pub record Server : Type 0 where
  pub world : World
  pub free : ℕ

pub record CreateUploadRequest : Type 0 where
  pub filename : String
  pub total_size : ℕ

-- the constraints of its fields
abbrev pub is_valid : Settings → CreateUploadRequest → Bool
is_valid c payload =
    leb 1 (count payload.filename)
    && leb (count payload.filename) 512
    && leb 1 payload.total_size
    && leb payload.total_size c.max_file_bytes

pub record CreateUploadResponse : Type 0 where
  pub file_id : String
  pub filename : String
  pub total_size : ℕ
  pub chunk_size : ℕ
  pub upload_status : UploadStatus

pub record ChunkUploadResponse : Type 0 where
  pub file_id : String
  pub bytes_received : ℕ
  pub total_size : ℕ
  pub upload_status : UploadStatus
  pub chunks_enqueued : ℕ

pub record FileListResponse : Type 0 where
  pub files : List FileStatus

-- a call of the service, and the shape of its answer
abbrev pub answer :
    {A B : Type 0} → Server → Result A × World → (A → Response B) → Response B × Server
answer s (result, w) shape = (respond result shape, record s { world = w })

abbrev pub created : Settings → CreateUploadRequest → String → Response CreateUploadResponse
created c payload file_id = reply 201 (record {
  file_id = file_id;
  filename = payload.filename;
  total_size = payload.total_size;
  chunk_size = c.max_chunk_bytes;
  upload_status = UploadStatus.pending;
})

-- POST /files; `fresh_id` is uuid4
unfoldable pub create_upload :
    Settings
    → String
    → CreateUploadRequest
    → Option String
    → Server
    → Response CreateUploadResponse × Server
unfolding get_user_id
create_upload c fresh_id payload x_user_id s =
    if is_valid c payload
    then answer s
        (UploadService.create_upload fresh_id (get_user_id x_user_id) payload.filename
          payload.total_size s.world)
        (created c payload)
    else (unprocessable, s)

abbrev pub chunk_response : String → Option FileRecord → Response ChunkUploadResponse
chunk_response file_id none = unhandled
chunk_response file_id (some r) = reply 200 (record {
  file_id = file_id;
  bytes_received = r.bytes_received;
  total_size = r.total_size;
  upload_status = r.upload_status;
  chunks_enqueued = r.next_sequence;
})

abbrev pub status_response : Option FileRecord → Response FileStatus
status_response none = unhandled
status_response (some r) = reply 200 (to_status r)

module _ (f : Floats) (c : Settings) where
  -- the body of the `with` block, once the request's body is read
  abbrev pub append_body :
      String → String → ℕ → Text ⊎ List ℕ → World → Result (Option FileRecord) × World
  append_body file_id user_id offset (inl raised) w = (err (Raised.external raised), w)
  append_body file_id user_id offset (inr body) w =
      UploadService.append_chunk f c file_id user_id offset body w

  -- the `with` block, from the slots that are left
  abbrev pub with_slot :
      String
      → String
      → ℕ
      → Text ⊎ List ℕ
      → Server
      → Result ℕ
      → Response ChunkUploadResponse × Server
  with_slot file_id user_id offset body s (err e) = (raised_response e, s)
  with_slot file_id user_id offset body s (ok free) =
      let (result, w) = append_body file_id user_id offset body s.world in
      (respond result (chunk_response file_id), record { world = w; free = exit free })

  -- PUT /files/{file_id}/chunk, from the `ge=0` of its offset on; `offset` is `none` where the query
  -- has none, or one that is not an integer. `body` is what `await request.body()` gives, or the text
  -- of what it raises.
  unfoldable pub upload_chunk :
      String
      → Option String
      → Option ℤ
      → Text ⊎ List ℕ
      → Server
      → Response ChunkUploadResponse × Server
  unfolding enter exit get_user_id
  upload_chunk file_id x_user_id none body s = (unprocessable, s)
  upload_chunk file_id x_user_id (some (negsuc n)) body s = (unprocessable, s)
  upload_chunk file_id x_user_id (some (pos offset)) body s =
      with_slot file_id (get_user_id x_user_id) offset body s (enter c s.free)

-- POST /files/{file_id}/complete
unfoldable pub complete_upload :
    Settings → String → Option String → Server → Response FileStatus × Server
unfolding get_user_id
complete_upload c file_id x_user_id s =
    answer s (UploadService.complete_upload c file_id (get_user_id x_user_id) s.world)
      status_response

-- GET /files/{file_id}/status
unfoldable pub get_status : String → Option String → Server → Response FileStatus × Server
unfolding get_user_id
get_status file_id x_user_id s =
    answer s (UploadService.get_status file_id (get_user_id x_user_id) s.world)
      (λ r. reply 200 (to_status r))

-- GET /files
unfoldable pub list_files : ℕ → Option String → Server → Response FileListResponse × Server
unfolding get_user_id
list_files limit x_user_id s =
    if leb 1 limit && leb limit 1000
    then answer s (UploadService.list_uploads (get_user_id x_user_id) limit s.world)
        (λ rs. reply 200 (record { files = map to_status rs }))
    else (unprocessable, s)

-- DELETE /files/{file_id}
unfoldable pub delete_file :
    (String → Exec (Unit {0})) → String → Option String → Server → Response (Unit {0}) × Server
unfolding get_user_id
delete_file drop file_id x_user_id s =
    answer s (UploadService.delete_upload drop file_id (get_user_id x_user_id) s.world)
      (λ u. reply 204 tt)
