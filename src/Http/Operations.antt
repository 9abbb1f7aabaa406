-- ===== src/Http/Operations.antt =====
-- app/core/openapi.py: the operations of a document, through the two changes that the code makes.
use mathlib.Core.Option
use Prim.Native.String.{◌++◌ as ◌+++◌}
use rag_semantic_search.Prelude.{
  ◌≡◌, refl, sym, ap, ◌∙◌, subst, inl, inr, Bool, true, false, ◌&&◌, ◌||◌, Option, some, none, List,
  [], ◌∷◌, ◌++◌, map, arith, String, str_eq, eq_iff, Bool-cases, Option-cases, if◌then◌else◌,
}
use rag_semantic_search.Prelude.Dicts.{
  lookup, map_values, change, lookup-map_values, change-Changed,
}
use rag_semantic_search.Http.Routing.{Route, Including}
use rag_semantic_search.Http.OpenApi.{
  Operation, Components, Paths, Generator, chunk_path, secure, with_body, secure_all, document_body,
}

abbrev pub routed : String → String → List Route → Bool
routed path method [] = false
routed path method (r ∷ routes) =
    (str_eq r.path path && str_eq r.method method) || routed path method routes

abbrev pub has_model : Option String → Bool
has_model none = false
has_model (some name) = true

abbrev pub models_any : List Route → Bool
models_any [] = false
models_any (r ∷ routes) = has_model r.response_model || models_any routes

abbrev pub find_in :
    {R : Type 0} → String → Option (List (String × Operation R)) → Option (Operation R)
find_in method none = none
find_in method (some item) = lookup method item

-- schema["paths"][path][method]
abbrev pub find_operation : {R : Type 0} → Paths R → String → String → Option (Operation R)
find_operation paths path method = find_in method (lookup path paths)

abbrev pub prefixed : String → Route → Route
prefixed prefix r = record r { path = prefix +++ r.path }

-- What FastAPI documents: a router that is taken in adds its routes under the prefix, and the document
-- has an operation for each route, and components where a route has a model.
pub record FastApi (g : Generator) (include_router : Including) : Type 0 where
  pub includes :
      (before routes : List Route) (prefix : String)
      → include_router before routes prefix ≡ before ++ map (prefixed prefix) routes
  pub operations :
      (title version description : String) (routes : List Route) (path method : String)
      → routed path method routes ≡ true
      → (op : Operation g.Rest) × (find_operation
            (g.get_openapi title version description routes).paths
            path
            method
          ≡ some op)
  pub components :
      (title version description : String) (routes : List Route)
      → models_any routes ≡ true
      → (c : Components g.Models) × ((g.get_openapi title version description routes).components
          ≡ some c)

abbrev pub is_chunk_route : String → String → Bool
is_chunk_route path method = str_eq chunk_path path && str_eq "put" method

-- An operation as the document has it.
abbrev pub documented : (g : Generator) → String → String → Operation g.Rest → Operation g.Rest
documented g path method op =
    if is_chunk_route path method then with_body g (secure g op) else secure g op

module _ (g : Generator) where
  pub find_operation-secure_all :
      (paths : Paths g.Rest) (path method : String)
      → find_operation (secure_all g paths) path method
        ≡ Option.map (secure g) (find_operation paths path method)
  unfolding secure_all
  find_operation-secure_all paths path method =
      ap (find_in method) (lookup-map_values (map_values (secure g)) path paths)
      ∙ elim (lookup path paths)
          as (λ o.
            find_in method (Option.map (map_values (secure g)) o)
            ≡ Option.map (secure g) (find_in method o)) [
              | none ↦ refl
              | some item ↦ lookup-map_values (secure g) method item
            ]

  found-item :
      (paths : Paths g.Rest) (path method : String) (op : Operation g.Rest)
      → find_operation paths path method ≡ some op
      → (item : List (String × Operation g.Rest)) × (lookup path paths ≡ some item)
        × (lookup method item ≡ some op)
  found-item paths path method op e = elim (Option-cases (lookup path paths)) [
    | inl gone ↦ absurd (ground (arith, gone, e))
    | inr (item, there) ↦ (item, there, ap (find_in method) (sym there) ∙ e)
  ]

  -- The paths with the body of the one operation that is there.
  pub record Bodied (paths : Paths g.Rest) (out : Option (Paths g.Rest)) : Type 0 where
    pub result : Paths g.Rest
    pub is_result : out ≡ some result
    pub finds :
        (path method : String)
        → find_operation result path method ≡ (
            if is_chunk_route path method
            then Option.map (with_body g) (find_operation paths path method)
            else find_operation paths path method)

  pub document_body-Bodied :
      (paths : Paths g.Rest) (op : Operation g.Rest)
      → find_operation paths chunk_path "put" ≡ some op
      → Bodied paths (document_body g paths)
  unfolding document_body
  document_body-Bodied paths op e =
      let (item, there, found) = found-item paths chunk_path "put" op e in
      let inner =
        change-Changed "put" (λ o. some (with_body g o)) item op (with_body g op) found refl in
      let outer =
        change-Changed chunk_path (change "put" (λ o. some (with_body g o))) paths item inner.result
          there inner.is_result in
      record {
        result = outer.result;
        is_result = outer.is_result;
        finds = λ path method. elim (Bool-cases (str_eq chunk_path path)) [
          | inr other ↦ rw other (ap (find_in method) (outer.others path other))
          | inl same ↦
              subst
                (λ p. find_operation outer.result p method ≡ (
                  if is_chunk_route p method
                  then Option.map (with_body g) (find_operation paths p method)
                  else find_operation paths p method))
                ((eq_iff chunk_path path).0 same)
                (elim (Bool-cases (str_eq "put" method)) [
                  | inr other ↦ rw other (
                      ap (find_in method) outer.there
                      ∙ inner.others method other
                      ∙ ap (find_in method) (sym there))
                  | inl put ↦
                      subst
                        (λ m. find_operation outer.result chunk_path m ≡ (
                          if is_chunk_route chunk_path m
                          then Option.map (with_body g) (find_operation paths chunk_path m)
                          else find_operation paths chunk_path m))
                        ((eq_iff "put" method).0 put)
                        (ap (find_in "put") outer.there
                          ∙ inner.there
                          ∙ ap (Option.map (with_body g)) (sym e))
                ])
        ];
      }

-- The two changes of an operation as one.
pub map-documented :
    (g : Generator) (is_chunk : Bool) (o : Option (Operation g.Rest))
    → (if is_chunk
        then Option.map (with_body g) (Option.map (secure g) o)
        else Option.map (secure g) o)
      ≡ Option.map (λ op. if is_chunk then with_body g (secure g op) else secure g op) o
map-documented g is_chunk none = ground arith
map-documented g true (some op) = refl
map-documented g false (some op) = refl
