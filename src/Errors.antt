-- ===== src/Errors.antt =====
-- app/core/exceptions.py, and what else can leave a service call: an error of SQLite or of the file
-- system, a division by zero, a loop that does not end, and an exception of another library with its text.
use rag_semantic_search.Prelude.{ℕ, String, List, ◌≡◌, refl, ◌⊎◌, inl, inr}
use rag_semantic_search.Database.{UploadStatus}

pub data DomainError : Type 0 where
  file_not_found : String → DomainError
  upload_already_done : UploadStatus → DomainError
  offset_mismatch : ℕ → ℕ → DomainError
  chunk_too_large : ℕ → ℕ → DomainError
  file_too_large : ℕ → DomainError
  not_text_file : DomainError
  no_bytes_received_yet : DomainError
  too_many_concurrent_uploads : ℕ → ℕ → DomainError
  nothing_indexed_yet : DomainError

pub data Raised : Type 0 where
  domain : DomainError → Raised
  integrity_error : Raised
  os_error : Raised
  zero_division : Raised
  diverges : Raised
  external : List ℕ → Raised

pub data Result {ℓ} (A : Type ℓ) : Type ℓ where
  ok : A → Result A
  err : Raised → Result A

pub Result-cases {ℓ} :
    {A : Type ℓ} (r : Result A) → ((a : A) × (r ≡ ok a)) ⊎ ((e : Raised) × (r ≡ err e))
Result-cases (ok a) = inl (a, refl)
Result-cases (err e) = inr (e, refl)
