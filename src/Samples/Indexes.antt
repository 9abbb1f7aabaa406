-- ===== src/Samples/Indexes.antt =====
-- An index in which a point overwrites those before it, and a batch that goes into it twice.
use rag_semantic_search.Prelude.{
  ℕ, ◌≡◌, refl, inr, Bool, true, arith, Option, none, some, List, [], ◌∷◌, map, length, String,
  str_eq, if◌then◌else◌,
}
use rag_semantic_search.Config.{defaults}
use rag_semantic_search.Index.{Backend, Point, IngestedPassage, ingest_batch, add_vectors}
use rag_semantic_search.Index.Repeating.{Overwrites, latest, ingest_batch-ingest_batch}

abbrev find_point : String → List (Point ℕ) → Option (Point ℕ)
find_point i [] = none
find_point i (p ∷ ps) = if str_eq p.id i then some p else find_point i ps

abbrev put_points : List (Point ℕ) → List (Point ℕ) → List (Point ℕ)
put_points [] stored = stored
put_points (p ∷ ps) stored = put_points ps (p ∷ stored)

abbrev layered : Backend
layered = record {
  Vector = ℕ;
  Collections = List (Point ℕ);
  uuid5 = λ id n. id;
  encode = λ texts. inr (map (λ t. length t) texts);
  collection_exists = λ ps name. inr true;
  create_collection = λ ps name config. (none, ps);
  delete_collection = λ ps name. (none, []);
  upsert = λ ps name qs. (none, put_points qs ps);
}

find_point-put_points :
    (i : String) (qs ps : List (Point ℕ))
    → find_point i (put_points qs ps) ≡ latest i qs (find_point i ps)
find_point-put_points i [] ps = refl
find_point-put_points i (q ∷ qs) ps = find_point-put_points i qs (q ∷ ps)

told : (there : Bool) → layered.collection_exists [] "f1" ≡ inr there → true ≡ there
told there h = ground (arith, h)

abbrev layered_laws : Overwrites layered
layered_laws = record {
  point_at = λ ps name i. find_point i ps;
  overwritten = λ ps name qs i done. find_point-put_points i qs ps;
  present = λ ps name. true;
  asked = λ ps name there h. told there h;
  created = λ ps name config made. refl;
  kept = λ ps name qs there. refl;
}

abbrev passages : List IngestedPassage
passages = record { sequence = 0; start_byte = 0; end_byte = 2; text = 97 ∷ 98 ∷ [] } ∷ []

ingest_batch-ingest_batch_example :
    find_point "f1"
      (ingest_batch layered defaults
        (ingest_batch layered defaults [] "f1" passages).1
        "f1"
        passages).1
    ≡ find_point "f1" (ingest_batch layered defaults [] "f1" passages).1
unfolding ingest_batch add_vectors
ingest_batch-ingest_batch_example =
    ingest_batch-ingest_batch layered defaults layered_laws "f1" "f1" [] passages refl refl
