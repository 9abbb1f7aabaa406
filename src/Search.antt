-- ===== src/Search.antt =====
-- app/services/search_service.py and app/rag/retrieval/retriever.py: search over one file.
pub mod Hits
use rag_semantic_search.Prelude.{
  ℕ, ◌⊎◌, inl, inr, Bool, true, false, List, [], ◌∷◌, map, String, ◌==◌, if◌then◌else◌,
}
use rag_semantic_search.Utf8.{Text}
use rag_semantic_search.Database.{FileRecord, Database}
use rag_semantic_search.Errors.{DomainError, Raised, Result, ok, err}
use rag_semantic_search.Files.{get_owned}
use rag_semantic_search.Storage.{Looks, read_range}
use rag_semantic_search.Index.{Backend, Payload, collection_name, embed_query}

-- A hit of Qdrant, with its score.
pub record ScoredPoint (Score : Type 0) : Type 0 where
  pub payload : Payload
  pub score : Score

-- The dicts of the retriever.
pub record Hit (Score : Type 0) : Type 0 where
  pub sequence : ℕ
  pub start_byte : ℕ
  pub end_byte : ℕ
  pub score : Score

pub record SearchHitResult (Score : Type 0) : Type 0 where
  pub text : Text
  pub start_byte : ℕ
  pub end_byte : ℕ
  pub score : Score
  pub sequence : ℕ

-- `query_points` of the Qdrant client, with the floats that are its scores: collection, query and
-- limit.
pub record Querying (b : Backend) : Type 1 where
  pub Score : Type 0
  pub query_points : b.Collections → String → List b.Vector → ℕ → Text ⊎ List (ScoredPoint Score)

module _ (b : Backend) (q : Querying b) where
  abbrev pub to_hit : ScoredPoint q.Score → Hit q.Score
  to_hit p = record {
    sequence = p.payload.sequence;
    start_byte = p.payload.start_byte;
    end_byte = p.payload.end_byte;
    score = p.score;
  }

  abbrev pub hits_of : Text ⊎ List (ScoredPoint q.Score) → Result (List (Hit q.Score))
  hits_of (inl message) = err (Raised.external message)
  hits_of (inr points) = ok (map to_hit points)

  -- from the answer of `collection_exists`
  abbrev pub retrieve_known :
      b.Collections → String → List b.Vector → ℕ → Text ⊎ Bool → Result (List (Hit q.Score))
  retrieve_known s name query_vector top_k (inl message) = err (Raised.external message)
  retrieve_known s name query_vector top_k (inr true) =
      hits_of (q.query_points s name query_vector top_k)
  retrieve_known s name query_vector top_k (inr false) = ok []

  -- `search` of the retriever
  unfoldable pub retrieve : b.Collections → String → List b.Vector → ℕ → Result (List (Hit q.Score))
  retrieve s file_id query_vector top_k =
      retrieve_known s (collection_name file_id) query_vector top_k
        (b.collection_exists s (collection_name file_id))

  -- a hit with its text, unless the text is empty
  abbrev pub add_result :
      Hit q.Score
      → Result Text
      → Result (List (SearchHitResult q.Score))
      → Result (List (SearchHitResult q.Score))
  add_result hit (err e) rest = err e
  add_result hit (ok text) (err e) = err e
  add_result hit (ok []) (ok results) = ok results
  add_result hit (ok (x ∷ xs)) (ok results) = ok (
      record {
        text = x ∷ xs;
        start_byte = hit.start_byte;
        end_byte = hit.end_byte;
        score = hit.score;
        sequence = hit.sequence;
      }
      ∷ results)

  abbrev pub read_hit : String → Looks → Hit q.Score → Result Text
  read_hit file_id l hit =
      read_range l.look_1 l.look_2 l.look_3 l.look_4 file_id hit.start_byte hit.end_byte

  unfoldable pub resolve :
      (Hit q.Score → Looks) → String → List (Hit q.Score) → Result (List (SearchHitResult q.Score))
  resolve looks file_id [] = ok []
  resolve looks file_id (hit ∷ hits) =
      add_result hit (read_hit file_id (looks hit) hit) (resolve looks file_id hits)

  abbrev pub resolve_all :
      (Hit q.Score → Looks)
      → String
      → Result (List (Hit q.Score))
      → Result (List (SearchHitResult q.Score))
  resolve_all looks file_id (err e) = err e
  resolve_all looks file_id (ok hits) = resolve looks file_id hits

  abbrev pub search_with :
      (Hit q.Score → Looks)
      → b.Collections
      → String
      → ℕ
      → Text ⊎ List b.Vector
      → Result (List (SearchHitResult q.Score))
  search_with looks s file_id top_k (inl message) = err (Raised.external message)
  search_with looks s file_id top_k (inr query_vector) =
      resolve_all looks file_id (retrieve s file_id query_vector top_k)

  abbrev pub search_record :
      (Hit q.Score → Looks)
      → b.Collections
      → String
      → Text
      → ℕ
      → Result FileRecord
      → Result (List (SearchHitResult q.Score))
  search_record looks s file_id query top_k (err e) = err e
  search_record looks s file_id query top_k (ok r) =
      if r.chunks_indexed == 0
      then err (Raised.domain DomainError.nothing_indexed_yet)
      else search_with looks s file_id top_k (embed_query b query)

  unfoldable pub search :
      (Hit q.Score → Looks)
      → Database
      → b.Collections
      → String
      → String
      → Text
      → ℕ
      → Result (List (SearchHitResult q.Score))
  unfolding retrieve resolve get_owned
  search looks db s file_id owner_id query top_k =
      search_record looks s file_id query top_k (get_owned db file_id owner_id)
