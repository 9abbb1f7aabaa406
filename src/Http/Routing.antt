-- ===== src/Http/Routing.antt =====
-- app/api/v1/upload.py, app/api/v1/search.py, app/api/v1/router.py and app/main.py: which handler stands
-- at which path, with what its decorator says of its answers. `include_router` is FastAPI's.
use rag_semantic_search.Prelude.{ℕ, Option, some, none, List, [], ◌∷◌, ◌++◌, String}

pub data Endpoint : Type 0 where
  create_upload : Endpoint
  upload_chunk : Endpoint
  complete_upload : Endpoint
  get_status : Endpoint
  list_files : Endpoint
  delete_file : Endpoint
  search_file : Endpoint
  health : Endpoint

-- A route, with the key of its method in an OpenAPI document.
pub record Route : Type 0 where
  pub path : String
  pub method : String
  pub endpoint : Endpoint
  pub status_code : ℕ
  pub response_model : Option String
  pub tag : String
  pub summary : String
  pub responses : List (ℕ × String)

-- the decorators of app/api/v1/upload.py and app/api/v1/search.py
abbrev pub create_route : Route
create_route = record {
  path = "/files";
  method = "post";
  endpoint = create_upload;
  status_code = 201;
  response_model = some "CreateUploadResponse";
  tag = "uploads";
  summary = "Register a new upload";
  responses = [];
}

abbrev pub chunk_route : Route
chunk_route = record {
  path = "/files/{file_id}/chunk";
  method = "put";
  endpoint = upload_chunk;
  status_code = 200;
  response_model = some "ChunkUploadResponse";
  tag = "uploads";
  summary = "Upload one chunk at a byte offset";
  responses =
      (404, "Unknown file")
      ∷ (409, "Offset mismatch")
      ∷ (413, "Chunk too large")
      ∷ (415, "Content looks like binary, not text")
      ∷ (503, "Too many uploads in progress; retry shortly")
      ∷ [];
}

abbrev pub complete_route : Route
complete_route = record {
  path = "/files/{file_id}/complete";
  method = "post";
  endpoint = complete_upload;
  status_code = 200;
  response_model = some "FileStatus";
  tag = "uploads";
  summary = "Mark an upload finished";
  responses = (404, "Unknown file") ∷ (409, "No bytes received yet") ∷ [];
}

abbrev pub status_route : Route
status_route = record {
  path = "/files/{file_id}/status";
  method = "get";
  endpoint = get_status;
  status_code = 200;
  response_model = some "FileStatus";
  tag = "uploads";
  summary = "Upload and processing progress";
  responses = [];
}

abbrev pub list_route : Route
list_route = record {
  path = "/files";
  method = "get";
  endpoint = list_files;
  status_code = 200;
  response_model = some "FileListResponse";
  tag = "uploads";
  summary = "List your uploads";
  responses = [];
}

abbrev pub delete_route : Route
delete_route = record {
  path = "/files/{file_id}";
  method = "delete";
  endpoint = delete_file;
  status_code = 204;
  response_model = none;
  tag = "uploads";
  summary = "Delete a file and its index";
  responses = [];
}

abbrev pub search_route : Route
search_route = record {
  path = "/files/{file_id}/search";
  method = "post";
  endpoint = search_file;
  status_code = 200;
  response_model = some "SearchResponse";
  tag = "search";
  summary = "Search a file in natural language";
  responses = (404, "Unknown file") ∷ (409, "Nothing indexed yet") ∷ [];
}

-- `router` of app/api/v1/upload.py, in the order of its decorators
abbrev pub upload_router : List Route
upload_router =
    create_route ∷ chunk_route ∷ complete_route ∷ status_route ∷ list_route ∷ delete_route ∷ []

-- `router` of app/api/v1/search.py
abbrev pub search_router : List Route
search_router = search_route ∷ []

-- @app.get("/health")
abbrev pub health_route : Route
health_route = record {
  path = "/health";
  method = "get";
  endpoint = health;
  status_code = 200;
  response_model = none;
  tag = "meta";
  summary = "Liveness, worker, and Qdrant state";
  responses = [];
}

-- `include_router`: what a router has, the router that it takes in, and the prefix.
abbrev pub Including : Type 0
Including = List Route → List Route → String → List Route

module _ (include_router : Including) where
  -- `router` of app/api/v1/router.py
  abbrev pub v1_router : List Route
  v1_router = include_router (include_router [] upload_router "") search_router ""

  -- app.routes, without those that FastAPI adds itself
  abbrev pub app_routes : List Route
  app_routes = include_router [] v1_router "/v1" ++ health_route ∷ []
