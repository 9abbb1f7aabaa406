-- ===== src/Http/OpenApi.antt =====
-- app/core/openapi.py: the OpenAPI document of the service. `get_openapi` is FastAPI's, and so is what
-- it writes into an operation besides the security and the body.
use rag_semantic_search.Prelude.{Bool, true, Option, some, none, List, [], ◌∷◌, ◌++◌, String}
use rag_semantic_search.Prelude.Dicts.{map_values, change}
use rag_semantic_search.Http.Routing.{Route}

-- {"required": …, "content": {media_type: {"schema": {"type": …, "format": …}}}}
pub record RequestBody : Type 0 where
  pub required : Bool
  pub media_type : String
  pub schema_type : String
  pub schema_format : String

-- `security` is the list of the schemes that it names, `none` where the key is missing.
pub record Operation (Rest : Type 0) : Type 0 where
  pub security : Option (List String)
  pub request_body : Option RequestBody
  pub rest : Rest

pub record SecurityScheme : Type 0 where
  pub type : String
  pub location : String
  pub name : String

pub record Components (Models : Type 0) : Type 0 where
  pub security_schemes : List (String × SecurityScheme)
  pub models : Models

abbrev pub Paths : Type 0 → Type 0
Paths Rest = List (String × List (String × Operation Rest))

pub record Schema (Rest Models : Type 0) : Type 0 where
  pub components : Option (Components Models)
  pub paths : Paths Rest

pub record Generator : Type 1 where
  pub Rest : Type 0
  pub Models : Type 0
  pub get_openapi : String → String → String → List Route → Schema Rest Models

pub record App (g : Generator) : Type 0 where
  pub title : String
  pub version : String
  pub description : String
  pub routes : List Route
  pub openapi_schema : Option (Schema g.Rest g.Models)

abbrev pub user_id_scheme : SecurityScheme
user_id_scheme = record { type = "apiKey"; location = "header"; name = "X-User-Id" }

abbrev pub chunk_path : String
chunk_path = "/v1/files/{file_id}/chunk"

abbrev pub chunk_body : RequestBody
chunk_body = record {
  required = true;
  media_type = "application/octet-stream";
  schema_type = "string";
  schema_format = "binary";
}

-- setdefault("security", []).append({"UserId": []})
abbrev pub append_user_id : Option (List String) → List String
append_user_id none = "UserId" ∷ []
append_user_id (some schemes) = schemes ++ "UserId" ∷ []

module _ (g : Generator) where
  abbrev pub secure : Operation g.Rest → Operation g.Rest
  secure op = record op { security = some (append_user_id op.security) }

  abbrev pub with_body : Operation g.Rest → Operation g.Rest
  with_body op = record op { request_body = some chunk_body }

  -- the loop over schema["paths"]
  unfoldable pub secure_all : Paths g.Rest → Paths g.Rest
  unfolding map_values
  secure_all paths = map_values (map_values secure) paths

  -- schema["paths"][chunk_path]["put"]["requestBody"] = …; `none` is a KeyError
  unfoldable pub document_body : Paths g.Rest → Option (Paths g.Rest)
  unfolding change
  document_body paths = change chunk_path (change "put" (λ op. some (with_body op))) paths

  abbrev pub with_paths :
      Components g.Models → Option (Paths g.Rest) → Option (Schema g.Rest g.Models)
  with_paths components none = none
  with_paths components (some paths) = some (record { components = some components; paths = paths })

  -- schema["components"]["securitySchemes"] = …, and the rest
  abbrev pub with_scheme :
      Option (Components g.Models) → Paths g.Rest → Option (Schema g.Rest g.Models)
  with_scheme none paths = none
  with_scheme (some components) paths =
      with_paths (record components { security_schemes = ("UserId", user_id_scheme) ∷ [] })
        (document_body (secure_all paths))

  abbrev pub cache :
      App g → Option (Schema g.Rest g.Models) → Option (Schema g.Rest g.Models) × App g
  cache app none = (none, app)
  cache app (some schema) = (some schema, record app { openapi_schema = some schema })

  abbrev pub generated : App g → Schema g.Rest g.Models
  generated app = g.get_openapi app.title app.version app.description app.routes

  abbrev pub cached_or_generated :
      App g → Option (Schema g.Rest g.Models) → Option (Schema g.Rest g.Models) × App g
  cached_or_generated app (some schema) = (some schema, app)
  cached_or_generated app none =
      cache app (with_scheme (generated app).components (generated app).paths)

  unfoldable pub custom_openapi : App g → Option (Schema g.Rest g.Models) × App g
  unfolding secure_all document_body
  custom_openapi app = cached_or_generated app app.openapi_schema
