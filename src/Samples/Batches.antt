-- ===== src/Samples/Batches.antt =====
-- A batch of a worker, on the tables of the queue's samples.
use rag_semantic_search.Prelude.{
  ℕ, zero, suc, inl, inr, true, none, some, List, [], ◌∷◌, ◌++◌, map, length, ap, sym,
}
use rag_semantic_search.Config.{defaults}
use rag_semantic_search.Utf8.{Text, decode_replace, decode_from}
use rag_semantic_search.Errors.{Raised, Result, ok, err}
use rag_semantic_search.Storage.{Disk, Looks, read_range}
use rag_semantic_search.Index.{Backend, Point}
use rag_semantic_search.JobQueue.{ChunkJob, claim_batch}
use rag_semantic_search.JobQueue.Counters.{IsCounted}
use rag_semantic_search.Worker.{process_one_batch, read_texts, empty}
use rag_semantic_search.Worker.Batches.{Orderly, process_one_batch-IsCounted}
use rag_semantic_search.Samples.Queue.{db, db-IsCounted}

-- An index that keeps the points in a list, with the length of a text as its vector.
abbrev pub listed : Backend
listed = record {
  Vector = ℕ;
  Collections = List (Point ℕ);
  uuid5 = λ id n. id;
  encode = λ texts. inr (map (λ t. length t) texts);
  collection_exists = λ ps name. inr true;
  create_collection = λ ps name config. (none, ps);
  delete_collection = λ ps name. (none, []);
  upsert = λ ps name qs. (none, ps ++ qs);
}

abbrev pub describe : Raised → Text
describe e = 69 ∷ []

-- No file is there: the passage is empty.
abbrev nothing : Disk
nothing = record { partial = λ id. none; final = λ id. none }

abbrev pub looks : ChunkJob → Looks
looks job = record { look_1 = nothing; look_2 = nothing; look_3 = nothing; look_4 = nothing }

bytes : ℕ → List ℕ
bytes zero = []
bytes (suc n) = 97 ∷ bytes n

-- A file of 1203 bytes that nothing moves: the last passage has three of them.
abbrev lines : Disk
lines = record { partial = λ id. none; final = λ id. some (bytes 1203) }

abbrev still : ChunkJob → Looks
still job = record { look_1 = lines; look_2 = lines; look_3 = lines; look_4 = lines }

-- An index that refuses every batch.
abbrev refusing : Backend
refusing = record listed { encode = λ texts. inl (69 ∷ []) }

abbrev empties : Result (List (ChunkJob × Text)) → List ChunkJob
empties (ok pairs) = empty pairs
empties (err e) = []

refusing-Orderly : Orderly refusing defaults still [] (claim_batch defaults none db 9).0
unfolding bytes claim_batch read_texts empty read_range decode_replace decode_from
refusing-Orderly pairs q = inl (ap empties (sym q))

process_one_batch-IsCounted_example :
    IsCounted (process_one_batch refusing describe defaults 9 still db []).1
process_one_batch-IsCounted_example =
    process_one_batch-IsCounted refusing describe defaults 9 still db [] db-IsCounted
      refusing-Orderly
