-- ===== src/Search/Hits.antt =====
-- app/services/search_service.py: what a search makes of the hits of the index.
use rag_semantic_search.Prelude.{
  ℕ, ◌-◌, ◌≤◌, ◌<◌, ◌≡◌, refl, ◌⊎◌, inl, inr, true, false, some, List, [], ◌∷◌, map, String, arith,
  length, drop, length-take, length-drop, str_eq, ◌==◌,
}
use rag_semantic_search.Utf8.{Text, Step, decode_from, decode_replace, decode_step}
use rag_semantic_search.Prelude.All.{All}
use rag_semantic_search.Database.{FileRecord, Database}
use rag_semantic_search.Errors.{ok}
use rag_semantic_search.Files.{get}
use rag_semantic_search.Files.Lookup.{get_owned-get}
use rag_semantic_search.Storage.{Looks, read_range, attempt, readable_path, slice}
use rag_semantic_search.Index.{Backend, collection_name, embed_texts}
use rag_semantic_search.Search.{
  Querying, ScoredPoint, Hit, SearchHitResult, to_hit, read_hit, resolve, retrieve, search,
}

step_cases :
    (s : Step) → ((code : ℕ) × (n : ℕ) × (s ≡ Step.char code n)) ⊎ ((n : ℕ) × (s ≡ Step.bad n))
step_cases (Step.char code n) = inl (code, n, refl)
step_cases (Step.bad n) = inr (n, refl)

-- Bytes decode to some text, unless there are none.
decode_replace-cons :
    (bytes : List ℕ) → 0 < length bytes → (x : ℕ) × (xs : Text) × (decode_replace bytes ≡ x ∷ xs)
unfolding decode_replace decode_from
decode_replace-cons [] h = absurd (omega arith)
decode_replace-cons (b ∷ bytes) h = elim (step_cases (decode_step b bytes)) [
  | inl (code, n, e) ↦ (
    code,
    decode_from (length bytes) (drop n (b ∷ bytes)),
    rw (decode_replace, decode_from, e) refl,
  )
  | inr (n, e) ↦ (
    0xFFFD,
    decode_from (length bytes) (drop n (b ∷ bytes)),
    rw (decode_replace, decode_from, e) refl,
  )
]

-- At every look the completed file is there with these bytes.
pub record Stands (id : String) (bytes : List ℕ) (l : Looks) : Type 0 where
  pub at_1 : l.look_1.final id ≡ some bytes
  pub at_2 : l.look_2.final id ≡ some bytes

module _ (b : Backend) (q : Querying b) (id : String) (bytes : List ℕ) where
  -- A hit with the text of its bytes.
  abbrev pub with_text : Hit q.Score → SearchHitResult q.Score
  with_text hit = record {
    text = decode_replace (slice bytes hit.start_byte hit.end_byte);
    start_byte = hit.start_byte;
    end_byte = hit.end_byte;
    score = hit.score;
    sequence = hit.sequence;
  }

  -- A range of the file that is not empty.
  abbrev pub Within : Hit q.Score → Type 0
  Within hit = (hit.start_byte < hit.end_byte) × (hit.end_byte ≤ length bytes)

  read_hit-final :
      (l : Looks) (hit : Hit q.Score)
      → Stands id bytes l
      → read_hit b q id l hit ≡ ok (decode_replace (slice bytes hit.start_byte hit.end_byte))
  unfolding read_range attempt readable_path
  read_hit-final l hit stands = ground (arith, stands.at_1, stands.at_2)

  length-slice :
      (hit : Hit q.Score) → Within hit → 0 < length (slice bytes hit.start_byte hit.end_byte)
  length-slice hit h = omega (
    arith,
    length-take (hit.end_byte - hit.start_byte) (drop hit.start_byte bytes),
    length-drop hit.start_byte bytes,
  )

  resolve-with_text :
      (looks : Hit q.Score → Looks) (hits : List (Hit q.Score))
      → ((hit : Hit q.Score) → Stands id bytes (looks hit))
      → All Within hits
      → resolve b q looks id hits ≡ ok (map with_text hits)
  unfolding resolve
  resolve-with_text looks [] stands h = refl
  resolve-with_text looks (hit ∷ hits) stands h =
      let (x, xs, e) = decode_replace-cons _ (length-slice hit h.0) in
      rw (read_hit-final (looks hit) hit (stands hit), resolve-with_text looks hits stands h.1, e)
        refl

  -- A search over a completed file returns every hit of the index, in its order, with the text of
  -- its
  -- bytes, and none is dropped: the caller owns the file, something is indexed, the query is
  -- embedded,
  -- and the hits have ranges of the file that are not empty.
  pub search-with_text :
      (looks : Hit q.Score → Looks) (db : Database) (s : b.Collections) (owner : String)
      (query : Text) (top_k : ℕ) (r : FileRecord) (vs : List b.Vector)
      (points : List (ScoredPoint q.Score))
      → get db id ≡ some r
      → str_eq r.owner_id owner ≡ true
      → 0 < r.chunks_indexed
      → embed_texts b (query ∷ []) ≡ inr vs
      → b.collection_exists s (collection_name id) ≡ inr true
      → q.query_points s (collection_name id) vs top_k ≡ inr points
      → All Within (map (to_hit b q) points)
      → ((hit : Hit q.Score) → Stands id bytes (looks hit))
      → search b q looks db s id owner query top_k ≡ ok (map with_text (map (to_hit b q) points))
  unfolding search retrieve
  search-with_text looks db s owner query top_k r vs points row owned indexed embedded there found
        within stands =
      let counted : (r.chunks_indexed == 0) ≡ false = ground arith in
      rw (get_owned-get db id owner r row owned, counted, embedded, there, found)
        (resolve-with_text looks (map (to_hit b q) points) stands within)
