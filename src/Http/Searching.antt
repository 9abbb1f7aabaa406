-- ===== src/Http/Searching.antt =====
-- app/api/v1/search.py and app/schemas/search.py: the route of a search. The query comes as its code
-- points.
use rag_semantic_search.Prelude.{
  ℕ, Bool, true, ◌&&◌, Option, none, some, List, String, leb, if◌then◌else◌, length,
}
use rag_semantic_search.Config.{Settings}
use rag_semantic_search.Utf8.{Text}
use rag_semantic_search.Database.{Database}
use rag_semantic_search.Storage.{Looks}
use rag_semantic_search.Index.{Backend}
use rag_semantic_search.Search.{Querying, Hit, SearchHitResult, search}
use rag_semantic_search.Http.{Response, reply, unprocessable, respond, get_user_id}

pub record SearchRequest : Type 0 where
  pub query : Text
  pub top_k : Option ℕ

pub record SearchResponse (Score : Type 0) : Type 0 where
  pub file_id : String
  pub query : Text
  pub total_hits : ℕ
  pub results : List (SearchHitResult Score)

abbrev pub top_k_of : Settings → Option ℕ → ℕ
top_k_of c none = c.default_top_k
top_k_of c (some k) = k

-- the constraints of the fields; a default is not validated
abbrev pub top_k_fits : Settings → Option ℕ → Bool
top_k_fits c none = true
top_k_fits c (some k) = leb 1 k && leb k c.max_top_k

abbrev pub is_valid : Settings → SearchRequest → Bool
is_valid c payload =
    leb 1 (length payload.query) && leb (length payload.query) 1000 && top_k_fits c payload.top_k

module _ (b : Backend) (q : Querying b) (c : Settings) (looks : Hit q.Score → Looks) where
  -- POST /files/{file_id}/search
  unfoldable pub search_file :
      String
      → SearchRequest
      → Option String
      → Database
      → b.Collections
      → Response (SearchResponse q.Score)
  unfolding search get_user_id
  search_file file_id payload x_user_id db s =
      if is_valid c payload
      then respond
          (search b q looks db s file_id (get_user_id x_user_id) payload.query
            (top_k_of c payload.top_k))
          (λ hits. reply 200 (record {
            file_id = file_id;
            query = payload.query;
            total_hits = length hits;
            results = hits;
          }))
      else unprocessable
