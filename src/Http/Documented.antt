-- ===== src/Http/Documented.antt =====
-- app/core/openapi.py against the routes of app/api/v1 and app/main.py: what the document says.
use mathlib.Core.Option
use rag_semantic_search.Prelude.{
  ◌≡◌, refl, ap, ◌∙◌, true, Option, some, none, [], ◌∷◌, ◌++◌, map, String, if◌then◌else◌,
}
use rag_semantic_search.Http.Routing.{
  Including, upload_router, search_router, health_route, app_routes,
}
use rag_semantic_search.Http.OpenApi.{
  Schema, Generator, App, user_id_scheme, chunk_path, chunk_body, secure, with_body, secure_all,
  generated, custom_openapi,
}
use rag_semantic_search.Http.Operations.{
  routed, models_any, find_operation, FastApi, prefixed, documented, is_chunk_route,
  find_operation-secure_all, document_body-Bodied, map-documented,
}

-- The document, against what FastAPI generates for the same routes.
pub record Documents (g : Generator) (app : App g) (out : Option (Schema g.Rest g.Models) × App g)
    : Type 0 where
  pub schema : Schema g.Rest g.Models
  pub is_result : out ≡ (some schema, record app { openapi_schema = some schema })
  pub kept : custom_openapi g out.1 ≡ out
  pub scheme :
      Option.map (λ c. c.security_schemes) schema.components
      ≡ some (("UserId", user_id_scheme) ∷ [])
  pub finds :
      (path method : String)
      → find_operation schema.paths path method
        ≡ Option.map (documented g path method) (find_operation (generated g app).paths path method)
  pub chunk :
      Option.map (λ op. op.request_body) (find_operation schema.paths chunk_path "put")
      ≡ some (some chunk_body)

module _ (g : Generator) (include_router : Including) (h : FastApi g include_router) where
  app_routes-eq :
      app_routes include_router
      ≡ map (prefixed "/v1") (map (prefixed "") upload_router ++ map (prefixed "") search_router)
        ++ health_route ∷ []
  app_routes-eq =
      ap (λ rs. include_router [] (include_router rs search_router "") "/v1" ++ health_route ∷ [])
        (h.includes [] upload_router "")
      ∙ ap (λ rs. include_router [] rs "/v1" ++ health_route ∷ [])
          (h.includes (map (prefixed "") upload_router) search_router "")
      ∙ ap (λ rs. rs ++ health_route ∷ [])
          (h.includes [] (map (prefixed "") upload_router ++ map (prefixed "") search_router) "/v1")

  chunk-routed : routed chunk_path "put" (app_routes include_router) ≡ true
  chunk-routed = ap (routed chunk_path "put") app_routes-eq

  routes-modelled : models_any (app_routes include_router) ≡ true
  routes-modelled = ap models_any app_routes-eq

  -- Where FastAPI mounts routers and generates documents as it says: the first call on the routes of
  -- the service raises no KeyError and caches a document that later calls give back as it is; the
  -- document has the scheme of X-User-Id; each operation is the generated one with that scheme added,
  -- the chunk route alone with a body besides; and the chunk route is there, with the binary body.
  pub custom_openapi-Documents :
      (app : App g)
      → app.routes ≡ app_routes include_router
      → app.openapi_schema ≡ none
      → Documents g app (custom_openapi g app)
  unfolding custom_openapi
  custom_openapi-Documents app routes fresh =
      let base = generated g app in
      let (op, found) =
        h.operations app.title app.version app.description app.routes chunk_path "put"
          (ap (routed chunk_path "put") routes ∙ chunk-routed) in
      let (c, has) =
        h.components app.title app.version app.description app.routes
          (ap models_any routes ∙ routes-modelled) in
      let secured = find_operation-secure_all g base.paths in
      let chunk : find_operation (secure_all g base.paths) chunk_path "put" ≡ some (secure g op) =
        secured chunk_path "put" ∙ ap (Option.map (secure g)) found in
      let bodied = document_body-Bodied g (secure_all g base.paths) (secure g op) chunk in
      let is_result = bodied.is_result in
      rw (fresh, has, is_result)
        (record {
          schema = record {
            components = some (record c { security_schemes = ("UserId", user_id_scheme) ∷ [] });
            paths = bodied.result;
          };
          is_result = refl;
          kept = unfold custom_openapi in refl;
          scheme = refl;
          finds = λ path method.
              bodied.finds path method
              ∙ ap (λ o. if is_chunk_route path method then Option.map (with_body g) o else o)
                  (secured path method)
              ∙ map-documented g (is_chunk_route path method)
                  (find_operation base.paths path method);
          chunk =
              ap (Option.map (λ o. o.request_body))
                (bodied.finds chunk_path "put" ∙ ap (Option.map (with_body g)) chunk);
        })
