-- ===== src/Index.antt =====
-- app/repositories/vector_repository.py, app/rag/pipeline.py and app/rag/ingestion/embedder.py: what
-- goes into the vector index.
pub mod Repeating
pub mod Model
pub mod Once
use Prim.Native.String.{◌++◌}
use rag_semantic_search.Prelude.{
  ℕ, ◌⊎◌, inl, inr, Bool, true, false, Option, none, some, List, [], ◌∷◌, map, String,
}
use rag_semantic_search.Config.{Settings}
use rag_semantic_search.Utf8.{Text}

pub record Payload : Type 0 where
  pub file_id : String
  pub sequence : ℕ
  pub start_byte : ℕ
  pub end_byte : ℕ

-- qm.PointStruct
pub record Point (Vector : Type 0) : Type 0 where
  pub id : String
  pub vector : Vector
  pub payload : Payload

-- What a collection is created with: VectorParams, ScalarQuantizationConfig and HnswConfigDiff, the
-- quantile in percent.
pub record CollectionConfig : Type 0 where
  pub size : ℕ
  pub distance : String
  pub vectors_on_disk : Bool
  pub scalar_type : String
  pub quantile : ℕ
  pub always_ram : Bool
  pub hnsw_on_disk : Bool

abbrev pub collection_config : Settings → CollectionConfig
collection_config c = record {
  size = c.embedding_dim;
  distance = "Cosine";
  vectors_on_disk = true;
  scalar_type = "int8";
  quantile = 99;
  always_ram = c.quantization_always_ram;
  hnsw_on_disk = true;
}

-- The Qdrant client, the model's `encode` and uuid5 of `{file_id}:{sequence}`, which are not in the
-- repository. Each call of the client can raise: it gives the text of what it raised, or `none` or a result; what a
-- failing upsert wrote is part of its state.
pub record Backend : Type 1 where
  pub Vector : Type 0
  pub Collections : Type 0
  pub uuid5 : String → ℕ → String
  pub encode : List Text → Text ⊎ List Vector
  pub collection_exists : Collections → String → Text ⊎ Bool
  pub create_collection : Collections → String → CollectionConfig → Option Text × Collections
  pub delete_collection : Collections → String → Option Text × Collections
  pub upsert : Collections → String → List (Point Vector) → Option Text × Collections

pub record IngestedPassage : Type 0 where
  pub sequence : ℕ
  pub start_byte : ℕ
  pub end_byte : ℕ
  pub text : Text

abbrev pub collection_name : String → String
collection_name file_id = "file_" ++ file_id

module _ (b : Backend) where
  abbrev pub point_id : String → ℕ → String
  point_id = b.uuid5

  abbrev pub embed_texts : List Text → Text ⊎ List b.Vector
  embed_texts [] = inr []
  embed_texts (t ∷ ts) = b.encode (t ∷ ts)

  abbrev pub embed_query : Text → Text ⊎ List b.Vector
  embed_query query = embed_texts (query ∷ [])

  -- the points of `zip(vectors, sequences, start_bytes, end_bytes)`
  unfoldable pub points : String → List b.Vector → List IngestedPassage → List (Point b.Vector)
  points file_id [] ps = []
  points file_id (v ∷ vs) [] = []
  points file_id (v ∷ vs) (p ∷ ps) =
      record {
        id = point_id file_id p.sequence;
        vector = v;
        payload = record {
          file_id = file_id;
          sequence = p.sequence;
          start_byte = p.start_byte;
          end_byte = p.end_byte;
        };
      }
      ∷ points file_id vs ps

  -- the upsert, unless the creation of the collection raised
  abbrev pub upsert_into :
      String → List (Point b.Vector) → Option Text × b.Collections → Option Text × b.Collections
  upsert_into name ps (none, s) = b.upsert s name ps
  upsert_into name ps (some message, s) = (some message, s)

  -- from the answer of `collection_exists`
  abbrev pub drop_known : b.Collections → String → Text ⊎ Bool → Option Text × b.Collections
  drop_known s name (inl message) = (some message, s)
  drop_known s name (inr true) = b.delete_collection s name
  drop_known s name (inr false) = (none, s)

  unfoldable pub drop : b.Collections → String → Option Text × b.Collections
  drop s file_id =
      drop_known s (collection_name file_id) (b.collection_exists s (collection_name file_id))

module _ (b : Backend) (c : Settings) where
  -- from the answer of `collection_exists`
  abbrev pub ensure_known : b.Collections → String → Text ⊎ Bool → Option Text × b.Collections
  ensure_known s name (inl message) = (some message, s)
  ensure_known s name (inr true) = (none, s)
  ensure_known s name (inr false) = b.create_collection s name (collection_config c)

  abbrev pub ensure_collection : b.Collections → String → Option Text × b.Collections
  ensure_collection s file_id =
      ensure_known s (collection_name file_id) (b.collection_exists s (collection_name file_id))

  unfoldable pub add_vectors :
      b.Collections → String → List b.Vector → List IngestedPassage → Option Text × b.Collections
  unfolding points
  add_vectors s file_id [] ps = (none, s)
  add_vectors s file_id (v ∷ vs) ps =
      upsert_into b (collection_name file_id) (points b file_id (v ∷ vs) ps)
        (ensure_collection s file_id)

  abbrev pub store_vectors :
      b.Collections
      → String
      → List IngestedPassage
      → Text ⊎ List b.Vector
      → Option Text × b.Collections
  store_vectors s file_id ps (inl message) = (some message, s)
  store_vectors s file_id ps (inr vectors) = add_vectors s file_id vectors ps

  -- `none`, or the text of what was raised
  unfoldable pub ingest_batch :
      b.Collections → String → List IngestedPassage → Option Text × b.Collections
  unfolding add_vectors
  ingest_batch s file_id [] = (none, s)
  ingest_batch s file_id (p ∷ ps) =
      store_vectors s file_id (p ∷ ps) (embed_texts b (map (λ q. q.text) (p ∷ ps)))
