-- ===== src/Http/Codes.antt =====
-- app/api/v1/upload.py: every answer to a chunk, and the slot that it took.
use rag_semantic_search.Prelude.{
  ℕ, zero, suc, ◌⊎◌, inl, inr, ◌≡◌, refl, Bool, true, false, Option, none, some, List, arith,
  String, not, ◌&&◌, ◌||◌, ◌==◌, Option-cases,
}
use rag_semantic_search.Prelude.Ints.{ℤ, pos, negsuc}
use rag_semantic_search.Config.{Settings}
use rag_semantic_search.Config.Sizing.{Floats, passage_size_for}
use rag_semantic_search.Utf8.{Text}
use rag_semantic_search.Database.{FileRecord}
use rag_semantic_search.Errors.{DomainError, Raised, Result, ok, err, Result-cases}
use rag_semantic_search.Files.{get_owned, get}
use rag_semantic_search.Chunker.{feed}
use rag_semantic_search.UploadSlots.{enter, exit}
use rag_semantic_search.UploadService.{append_chunk, buffer_of}
use rag_semantic_search.World.{World}
use rag_semantic_search.Http.{
  Response, reply, failure, unprocessable, unhandled, raised_response, error_response, respond,
  get_user_id,
}
use rag_semantic_search.Http.Uploads.{
  Server, ChunkUploadResponse, upload_chunk, with_slot, append_body, chunk_response,
}

-- The errors that a call of `append_chunk` can give: none of them is a full set of slots.
abbrev is_busy : Raised → Bool
is_busy (Raised.domain (DomainError.too_many_concurrent_uploads limit delay)) = true
is_busy _ = false

abbrev is_error : {A : Type 0} → Result A → Bool
is_error (ok a) = false
is_error (err e) = is_busy e

-- An answer that names a delay, and one that a route of a chunk may give.
abbrev pub is_later : {A : Type 0} → Response A → Bool
is_later (reply code a) = false
is_later (failure code detail none) = false
is_later (failure code detail (some delay)) = code == 503
is_later unprocessable = false
is_later unhandled = false

abbrev pub is_chunk_code : ℕ → Bool
is_chunk_code n = n == 400 || n == 404 || n == 409 || n == 413 || n == 415

abbrev pub is_chunk_answer : {A : Type 0} → Response A → Bool
is_chunk_answer (reply code a) = code == 200
is_chunk_answer (failure code detail none) = is_chunk_code code
is_chunk_answer (failure code detail (some delay)) = code == 503
is_chunk_answer unprocessable = true
is_chunk_answer unhandled = true

passage_size_for_not_busy :
    (f : Floats) (c : Settings) (total : ℕ) → is_error (passage_size_for f c total) ≡ false
unfolding passage_size_for
passage_size_for_not_busy f c total = ground arith

abbrev pub is_unprocessable : {A : Type 0} → Response A → Bool
is_unprocessable unprocessable = true
is_unprocessable (reply code a) = false
is_unprocessable (failure code detail delay) = false
is_unprocessable unhandled = false

-- An offset that the query may have.
abbrev pub is_offset : Option ℤ → Bool
is_offset none = false
is_offset (some (negsuc n)) = false
is_offset (some (pos n)) = true

module _ (f : Floats) (c : Settings) (id owner : String) (offset : ℕ) (body : List ℕ)
    (w : World) where
  get_owned-not_busy : is_error (get_owned w.db id owner) ≡ false
  unfolding get_owned
  get_owned-not_busy = elim (Option-cases (get w.db id)) [
    | inl gone ↦ ground arith
    | inr (r, there) ↦ ground arith
  ]

  append_chunk_not_busy : is_error (append_chunk f c id owner offset body w).0 ≡ false
  unfolding append_chunk
  append_chunk_not_busy = elim (Result-cases (get_owned w.db id owner)) [
    | inl (r, found) ↦ elim (Result-cases (passage_size_for f c r.total_size)) [
      | inl (sizes, given) ↦ elim (Option-cases (feed (buffer_of c r sizes) body)) [
        | inl diverges ↦ ground arith
        | inr (split, e) ↦ ground arith
      ]
      | inr (e, raised) ↦ ground (arith, passage_size_for_not_busy f c r.total_size)
    ]
    | inr (e, missing) ↦ ground (arith, get_owned-not_busy)
  ]

raised_answer :
    (A : Type 0) (e : Raised)
    → is_busy e ≡ false
    → (is_chunk_answer (raised_response {A = A} e) ≡ true)
      × (is_later (raised_response {A = A} e) ≡ false)
      × (is_unprocessable (raised_response {A = A} e) ≡ false)
unfolding raised_response error_response
raised_answer A e h = ground arith

module _ (f : Floats) (c : Settings) (id : String) (offset : ℕ) (body : Text ⊎ List ℕ) where
  append_body_not_busy :
      (owner : String) (w : World) → is_error (append_body f c id owner offset body w).0 ≡ false
  append_body_not_busy owner w =
      elim body as (λ b. is_error (append_body f c id owner offset b w).0 ≡ false) [
        | inl raised ↦ refl
        | inr bytes ↦ append_chunk_not_busy f c id owner offset bytes w
      ]

  chunk_answer :
      (result : Result (Option FileRecord))
      → is_error result ≡ false
      → (is_chunk_answer (respond result (chunk_response id)) ≡ true)
        × (is_later (respond result (chunk_response id)) ≡ false)
        × (is_unprocessable (respond result (chunk_response id)) ≡ false)
  chunk_answer (ok none) h = (refl, refl, refl)
  chunk_answer (ok (some r)) h = (refl, refl, refl)
  chunk_answer (err e) h = raised_answer ChunkUploadResponse e h

  chunk_at_answer :
      (x_user_id : Option String) (s : Server)
      → (is_chunk_answer (upload_chunk f c id x_user_id (some (pos offset)) body s).0 ≡ true)
        × (is_unprocessable (upload_chunk f c id x_user_id (some (pos offset)) body s).0 ≡ false)
        × (is_later (upload_chunk f c id x_user_id (some (pos offset)) body s).0 ≡ (s.free == 0))
        × ((upload_chunk f c id x_user_id (some (pos offset)) body s).1.free ≡ s.free)
  unfolding upload_chunk enter exit raised_response error_response
  chunk_at_answer x_user_id s =
      elim s.free
        as (λ n.
          let out =
            with_slot f c id (get_user_id x_user_id) offset body
              (record { world = s.world; free = n }) (enter c n) in
          (is_chunk_answer out.0 ≡ true)
          × (is_unprocessable out.0 ≡ false)
          × (is_later out.0 ≡ (n == 0))
          × (out.1.free ≡ n)) [
            | zero ↦ (ground arith, ground arith, ground arith, refl)
            | suc n ↦
                let (answers, at_once, handled) =
                  chunk_answer _ (append_body_not_busy (get_user_id x_user_id) s.world) in
                (answers, handled, ground (arith, at_once), omega arith)
          ]

module _ (f : Floats) (c : Settings) (id : String) (body : Text ⊎ List ℕ) where
  -- Every answer to a chunk has one of the codes 200, 400, 404, 409, 413, 415, 422 and 503, unless an
  -- exception leaves the handler that no error handler takes; it is the 422 exactly where the offset
  -- is missing, not an integer or below zero; it is the 503 with a delay exactly where the offset is
  -- none of these and no slot is free; and whatever it is, as many slots are free after it as before.
  pub upload_chunk_answer :
      (offset : Option ℤ) (x_user_id : Option String) (s : Server)
      → (is_chunk_answer (upload_chunk f c id x_user_id offset body s).0 ≡ true)
        × (is_unprocessable (upload_chunk f c id x_user_id offset body s).0
            ≡ not (is_offset offset))
        × (is_later (upload_chunk f c id x_user_id offset body s).0
            ≡ (is_offset offset && (s.free == 0)))
        × ((upload_chunk f c id x_user_id offset body s).1.free ≡ s.free)
  unfolding upload_chunk
  upload_chunk_answer none x_user_id s = (refl, refl, refl, refl)
  upload_chunk_answer (some (negsuc n)) x_user_id s = (refl, refl, refl, refl)
  upload_chunk_answer (some (pos n)) x_user_id s = chunk_at_answer f c id n body x_user_id s
