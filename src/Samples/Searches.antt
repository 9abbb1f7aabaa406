-- ===== src/Samples/Searches.antt =====
-- A search over a completed file of a few bytes, which is in the table of the queue's samples.
use rag_semantic_search.Prelude.{ℕ, inr, ◌≡◌, refl, some, none, List, [], ◌∷◌, map, arith}
use rag_semantic_search.Errors.{ok}
use rag_semantic_search.Files.{get}
use rag_semantic_search.Storage.{Disk, Looks}
use rag_semantic_search.Search.{Querying, ScoredPoint, Hit, to_hit, search}
use rag_semantic_search.Search.Hits.{with_text, search-with_text}
use rag_semantic_search.Samples.Queue.{db, file}
use rag_semantic_search.Samples.Batches.{listed}

abbrev point : ScoredPoint ℕ
point = record {
  payload = record { file_id = "f1"; sequence = 0; start_byte = 1; end_byte = 3 };
  score = 9;
}

-- An index that knows of one passage.
abbrev pub one_point : Querying listed
one_point = record { Score = ℕ; query_points = λ ps name vs top_k. inr (point ∷ []) }

-- "héx", with two bytes for its second letter
abbrev bytes : List ℕ
bytes = 104 ∷ 195 ∷ 169 ∷ 120 ∷ []

abbrev complete : Disk
complete = record { partial = λ id. none; final = λ id. some bytes }

abbrev pub looks : Hit ℕ → Looks
looks hit = record { look_1 = complete; look_2 = complete; look_3 = complete; look_4 = complete }

search-with_text_example :
    search listed one_point looks db [] "f1" "ann" (120 ∷ []) 5
    ≡ ok (map (with_text listed one_point "f1" bytes) (map (to_hit listed one_point) (point ∷ [])))
unfolding get
search-with_text_example =
    search-with_text listed one_point "f1" bytes looks db [] "ann" (120 ∷ []) 5 file (1 ∷ [])
      (point ∷ []) refl refl (omega arith) refl refl refl ((omega arith, omega arith), tt)
      (λ hit. record { at_1 = refl; at_2 = refl })
