-- ===== src/Samples/Documents.antt =====
-- A generator of documents that gives each path the operations of its routes, and the document of the
-- service.
use rag_semantic_search.Prelude.{
  ◌≡◌, refl, ap, inl, inr, true, some, none, List, [], ◌∷◌, ◌++◌, map, arith, String, str_eq,
  eq_iff, Bool-cases, if◌then◌else◌,
}
use rag_semantic_search.Prelude.Dicts.{lookup}
use rag_semantic_search.Http.Routing.{Route, Including, app_routes}
use rag_semantic_search.Http.OpenApi.{Operation, Paths, Generator, App, custom_openapi}
use rag_semantic_search.Http.Operations.{routed, find_operation, prefixed, FastApi}
use rag_semantic_search.Http.Documented.{Documents, custom_openapi-Documents}

abbrev include_router : Including
include_router before routes prefix = before ++ map (prefixed prefix) routes

abbrev plain : Operation (Unit {0})
plain = record { security = none; request_body = none; rest = tt }

abbrev item_of : String → List Route → List (String × Operation (Unit {0}))
item_of path [] = []
item_of path (r ∷ routes) =
    if str_eq r.path path then (r.method, plain) ∷ item_of path routes else item_of path routes

abbrev paths_of : List Route → List Route → Paths (Unit {0})
paths_of all [] = []
paths_of all (r ∷ routes) = (r.path, item_of r.path all) ∷ paths_of all routes

abbrev generator : Generator
generator = record {
  Rest = Unit {0};
  Models = Unit {0};
  get_openapi = λ title version description routes. record {
    components = some (record { security_schemes = []; models = tt });
    paths = paths_of routes routes;
  };
}

lookup-item_of :
    (path method : String) (routes : List Route)
    → routed path method routes ≡ true
    → (op : Operation (Unit {0})) × (lookup method (item_of path routes) ≡ some op)
unfolding lookup
lookup-item_of path method [] h = absurd (ground arith)
lookup-item_of path method (r ∷ routes) h = elim (Bool-cases (str_eq r.path path)) [
  | inr other ↦ rw other (lookup-item_of path method routes (ground arith))
  | inl same ↦ elim (Bool-cases (str_eq r.method method)) [
    | inl here ↦ (plain, ground arith)
    | inr later ↦
        let (op, found) = lookup-item_of path method routes (ground arith) in (op, ground arith)
  ]
]

lookup-paths_of :
    (all : List Route) (path method : String) (routes : List Route)
    → routed path method routes ≡ true
    → lookup path (paths_of all routes) ≡ some (item_of path all)
unfolding lookup
lookup-paths_of all path method [] h = absurd (ground arith)
lookup-paths_of all path method (r ∷ routes) h = elim (Bool-cases (str_eq r.path path)) [
  | inl same ↦ rw same (ap (λ p. some (item_of p all)) ((eq_iff r.path path).0 same))
  | inr other ↦ rw other (lookup-paths_of all path method routes (ground arith))
]

found :
    (path method : String) (routes : List Route)
    → routed path method routes ≡ true
    → (op : Operation (Unit {0})) × (find_operation (paths_of routes routes) path method ≡ some op)
found path method routes h =
    rw (lookup-paths_of routes path method routes h) (lookup-item_of path method routes h)

generator-FastApi : FastApi generator include_router
generator-FastApi = record {
  includes = λ before routes prefix. refl;
  operations = λ title version description routes path method h. found path method routes h;
  components =
      λ title version description routes h. (record { security_schemes = []; models = tt }, refl);
}

abbrev app : App generator
app = record {
  title = "Large File Processing & Search";
  version = "1.0.0";
  description = "";
  routes = app_routes include_router;
  openapi_schema = none;
}

custom_openapi-Documents_example : Documents generator app (custom_openapi generator app)
custom_openapi-Documents_example =
    custom_openapi-Documents generator include_router generator-FastApi app refl refl
