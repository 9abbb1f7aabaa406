-- ===== src/Index/Repeating.antt =====
-- app/rag/pipeline.py and app/repositories/vector_repository.py: a batch that is ingested again.
use rag_semantic_search.Prelude.{
  ◌≡◌, refl, sym, ap, ◌∙◌, ◌⊎◌, inl, inr, Bool, true, false, Option, none, some, List, [], ◌∷◌,
  arith, map, String, str_eq, Bool-cases, if◌then◌else◌,
}
use rag_semantic_search.Config.{Settings}
use rag_semantic_search.Utf8.{Text}
use rag_semantic_search.Index.{
  Backend, Point, IngestedPassage, collection_name, ensure_known, ensure_collection, upsert_into,
  CollectionConfig, collection_config, points, add_vectors, store_vectors, embed_texts,
  ingest_batch,
}

-- What an upsert of points makes of the point with one id: the last one with that id, if any.
abbrev pub latest : {V : Type 0} → String → List (Point V) → Option (Point V) → Option (Point V)
latest i [] old = old
latest i (p ∷ ps) old = latest i ps (if str_eq p.id i then some p else old)

latest-cases :
    {V : Type 0} (i : String) (ps : List (Point V))
    → ((old : Option (Point V)) → latest i ps old ≡ old)
      ⊎ ((p : Point V) × ((old : Option (Point V)) → latest i ps old ≡ some p))
latest-cases i [] = inl (λ old. refl)
latest-cases i (p ∷ ps) = elim (latest-cases i ps) [
  | inr (q, found) ↦ inr (q, λ old. found (if str_eq p.id i then some p else old))
  | inl without ↦ elim (Bool-cases (str_eq p.id i)) [
    | inl hit ↦ inr (p, λ old. ground (arith, without (some p)))
    | inr miss ↦ inl (λ old. ground (arith, without old))
  ]
]

latest-latest :
    {V : Type 0} (i : String) (ps : List (Point V)) (old : Option (Point V))
    → latest i ps (latest i ps old) ≡ latest i ps old
latest-latest i ps old = elim (latest-cases i ps) [
  | inl without ↦ without (latest i ps old)
  | inr (p, found) ↦ found (latest i ps old) ∙ sym (found old)
]

-- What Qdrant documents: an upsert that succeeds overwrites points by their ids; `present` is whether a
-- collection is there, which an answer of `collection_exists` tells; and a collection is there once it is created and after an upsert.
pub record Overwrites (b : Backend) : Type 0 where
  pub point_at : b.Collections → String → String → Option (Point b.Vector)
  pub overwritten :
      (s : b.Collections) (name : String) (ps : List (Point b.Vector)) (i : String)
      → (b.upsert s name ps).0 ≡ none
      → point_at (b.upsert s name ps).1 name i ≡ latest i ps (point_at s name i)
  pub present : b.Collections → String → Bool
  pub asked :
      (s : b.Collections) (name : String) (there : Bool)
      → b.collection_exists s name ≡ inr there
      → present s name ≡ there
  pub created :
      (s : b.Collections) (name : String) (config : CollectionConfig)
      → (b.create_collection s name config).0 ≡ none
      → present (b.create_collection s name config).1 name ≡ true
  pub kept :
      (s : b.Collections) (name : String) (ps : List (Point b.Vector))
      → present s name ≡ true
      → present (b.upsert s name ps).1 name ≡ true

-- The upsert takes place where the creation of the collection does not raise.
module _ (b : Backend) (name : String) (ps : List (Point b.Vector)) where
  upsert_into-none :
      (out : Option Text × b.Collections)
      → out.0 ≡ none
      → upsert_into b name ps out ≡ b.upsert out.1 name ps
  upsert_into-none (none, s) e = refl
  upsert_into-none (some message, s) e = absurd (ground (arith, e))

  upsert_into-made :
      (out : Option Text × b.Collections) → (upsert_into b name ps out).0 ≡ none → out.0 ≡ none
  upsert_into-made (none, s) e = refl
  upsert_into-made (some message, s) e = e

module _ (b : Backend) (c : Settings) (o : Overwrites b) (file_id i : String) where
  ensured_known :
      (s : b.Collections) (known : Text ⊎ Bool)
      → b.collection_exists s (collection_name file_id) ≡ known
      → (ensure_known b c s (collection_name file_id) known).0 ≡ none
      → o.present (ensure_known b c s (collection_name file_id) known).1 (collection_name file_id)
        ≡ true
  ensured_known s (inl message) q e = absurd (ground (arith, e))
  ensured_known s (inr true) q e = o.asked s (collection_name file_id) true q
  ensured_known s (inr false) q e = o.created s (collection_name file_id) (collection_config c) e

  -- A collection that is there is not created again.
  ensure_again :
      (s : b.Collections) (known : Text ⊎ Bool)
      → b.collection_exists s (collection_name file_id) ≡ known
      → o.present s (collection_name file_id) ≡ true
      → (ensure_known b c s (collection_name file_id) known).0 ≡ none
      → ensure_known b c s (collection_name file_id) known ≡ (none, s)
  ensure_again s (inl message) q there e = absurd (ground (arith, e))
  ensure_again s (inr true) q there e = refl
  ensure_again s (inr false) q there e =
      absurd (ground (arith, o.asked s (collection_name file_id) false q, there))

  abbrev upsert_once : b.Collections → List (Point b.Vector) → Option Text × b.Collections
  upsert_once s ps = upsert_into b (collection_name file_id) ps (ensure_collection b c s file_id)

  upsert_again :
      (s : b.Collections) (ps : List (Point b.Vector))
      → (upsert_once s ps).0 ≡ none
      → (upsert_once (upsert_once s ps).1 ps).0 ≡ none
      → o.point_at (upsert_once (upsert_once s ps).1 ps).1 (collection_name file_id) i
        ≡ o.point_at (upsert_once s ps).1 (collection_name file_id) i
  upsert_again s ps first second =
      let name = collection_name file_id in
      let out = ensure_collection b c s file_id in
      let made : out.0 ≡ none = upsert_into-made b name ps out first in
      let once = (b.upsert out.1 name ps).1 in
      let eq : upsert_once s ps ≡ b.upsert out.1 name ps = upsert_into-none b name ps out made in
      let there : o.present once name ≡ true =
        o.kept out.1 name ps (ensured_known s (b.collection_exists s name) refl made) in
      let second' : (upsert_once once ps).0 ≡ none =
        ap (λ r. (upsert_once r.1 ps).0) (sym eq) ∙ second in
      let ready =
        ensure_again once (b.collection_exists once name) refl there
          (upsert_into-made b name ps (ensure_collection b c once file_id) second') in
      let again : upsert_once once ps ≡ b.upsert once name ps = ap (upsert_into b name ps) ready in
      let taken : (b.upsert out.1 name ps).0 ≡ none = ap (λ r. r.0) (sym eq) ∙ first in
      let twice : upsert_once (upsert_once s ps).1 ps ≡ b.upsert once name ps =
        ap (λ r. upsert_once r.1 ps) eq ∙ again in
      let before = o.overwritten out.1 name ps i taken in
      ap (λ r. o.point_at r.1 name i) twice
      ∙ o.overwritten once name ps i (ap (λ r. r.0) (sym twice) ∙ second)
      ∙ ap (latest i ps) before
      ∙ latest-latest i ps (o.point_at out.1 name i)
      ∙ sym before
      ∙ ap (λ r. o.point_at r.1 name i) (sym eq)

  store_vectors_again :
      (s : b.Collections) (ps : List IngestedPassage) (encoded : Text ⊎ List b.Vector)
      → (store_vectors b c s file_id ps encoded).0 ≡ none
      → (store_vectors b c (store_vectors b c s file_id ps encoded).1 file_id ps encoded).0 ≡ none
      → o.point_at
          (store_vectors b c (store_vectors b c s file_id ps encoded).1 file_id ps encoded).1
          (collection_name file_id)
          i
        ≡ o.point_at (store_vectors b c s file_id ps encoded).1 (collection_name file_id) i
  unfolding add_vectors
  store_vectors_again s ps (inl message) first second = refl
  store_vectors_again s ps (inr []) first second = refl
  store_vectors_again s ps (inr (v ∷ vs)) first second =
      upsert_again s (points b file_id (v ∷ vs) ps) first second

  -- Where Qdrant overwrites points by their ids: a batch that is ingested a second time, as after a
  -- retry, and both times without an error, leaves under every id the point that the first time left.
  pub ingest_batch-ingest_batch :
      (s : b.Collections) (ps : List IngestedPassage)
      → (ingest_batch b c s file_id ps).0 ≡ none
      → (ingest_batch b c (ingest_batch b c s file_id ps).1 file_id ps).0 ≡ none
      → o.point_at
          (ingest_batch b c (ingest_batch b c s file_id ps).1 file_id ps).1
          (collection_name file_id)
          i
        ≡ o.point_at (ingest_batch b c s file_id ps).1 (collection_name file_id) i
  unfolding ingest_batch
  ingest_batch-ingest_batch s [] first second = refl
  ingest_batch-ingest_batch s (p ∷ ps) first second =
      store_vectors_again s (p ∷ ps) (embed_texts b (map (λ q. q.text) (p ∷ ps))) first second
