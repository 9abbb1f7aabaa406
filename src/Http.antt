-- ===== src/Http.antt =====
-- app/core/error_handlers.py with the texts of app/core/exceptions.py, and app/api/deps.py: what a
-- client gets. What FastAPI itself answers, to a request that its schema refuses and to an exception
-- that no handler takes, is not in the repository, and has a constructor each.
pub mod Uploads
pub mod Searching
pub mod Hidden
pub mod Resuming
pub mod Codes
pub mod Listing
pub mod Decimals
pub mod Routing
pub mod OpenApi
pub mod Operations
pub mod Documented
use Prim.Native.Char.{Char, code}
use Prim.Native.String.{◌++◌, slice}
use Prim.Native.String
use rag_semantic_search.Prelude.{
  ℕ, zero, suc, ◌+◌, ◌/◌, ◌%◌, Bool, true, false, ◌&&◌, ◌||◌, Option, none, some, List, String, leb,
  ltb, ◌==◌, if◌then◌else◌,
}
use rag_semantic_search.Database.{UploadStatus}
use rag_semantic_search.Errors.{DomainError, Raised, Result, ok, err}

-- An answer with its status code, and an error with its status code, its detail and the Retry-After
-- header where there is one.
pub data Response (A : Type 0) : Type 0 where
  reply : ℕ → A → Response A
  failure : ℕ → String → Option String → Response A
  unprocessable : Response A
  unhandled : Response A

abbrev digit : ℕ → String
digit n = slice "0123456789" n (n + 1)

-- str(n); the fuel is n, and each digit but the last takes one of it
decimal_from : ℕ → ℕ → String
decimal_from zero n = digit (n % 10)
decimal_from (suc fuel) n =
    let front = decimal_from fuel (n / 10) in if ltb n 10 then digit n else front ++ digit (n % 10)

unfoldable pub decimal : ℕ → String
unfolding decimal_from
decimal n = decimal_from n n

abbrev pub status_text : UploadStatus → String
status_text UploadStatus.pending = "pending"
status_text UploadStatus.uploading = "uploading"
status_text UploadStatus.finalizing = "finalizing"
status_text UploadStatus.interrupted = "interrupted"
status_text UploadStatus.completed = "completed"

-- str(exc)
unfoldable pub message : DomainError → String
unfolding decimal
message (DomainError.file_not_found file_id) = "unknown file_id: " ++ file_id
message (DomainError.upload_already_done status) = "upload already " ++ status_text status
message (DomainError.offset_mismatch expected got) =
    "offset mismatch: expected "
    ++ decimal expected
    ++ ", got "
    ++ decimal got
    ++ ". Resume from "
    ++ decimal expected
    ++ "."
message (DomainError.chunk_too_large size limit) =
    "chunk of " ++ decimal size ++ " bytes exceeds limit of " ++ decimal limit
message (DomainError.file_too_large limit) =
    "upload would exceed the maximum allowed size of " ++ decimal limit ++ " bytes"
message DomainError.not_text_file =
    "this looks like a binary file, not text -- this service only supports UTF-8 text files"
message DomainError.no_bytes_received_yet = "no bytes received yet"
message (DomainError.too_many_concurrent_uploads limit retry_after_seconds) =
    "server is handling " ++ decimal limit ++ " uploads already; retry shortly"
message DomainError.nothing_indexed_yet =
    "no passages indexed yet; poll /status until searchable is true"

-- the handler of each domain error
unfoldable pub error_response : {A : Type 0} → DomainError → Response A
error_response (DomainError.file_not_found file_id) =
    failure 404 (message (DomainError.file_not_found file_id)) none
error_response (DomainError.upload_already_done status) =
    failure 409 (message (DomainError.upload_already_done status)) none
error_response (DomainError.offset_mismatch expected got) =
    failure 409 (message (DomainError.offset_mismatch expected got)) none
error_response (DomainError.chunk_too_large size limit) =
    failure 413 (message (DomainError.chunk_too_large size limit)) none
error_response (DomainError.file_too_large limit) =
    failure 400 (message (DomainError.file_too_large limit)) none
error_response DomainError.not_text_file = failure 415 (message DomainError.not_text_file) none
error_response DomainError.no_bytes_received_yet =
    failure 409 (message DomainError.no_bytes_received_yet) none
error_response (DomainError.too_many_concurrent_uploads limit retry_after_seconds) =
    failure 503 (message (DomainError.too_many_concurrent_uploads limit retry_after_seconds))
      (some (decimal retry_after_seconds))
error_response DomainError.nothing_indexed_yet =
    failure 409 (message DomainError.nothing_indexed_yet) none

-- What a route answers where its handler raised.
unfoldable pub raised_response : {A : Type 0} → Raised → Response A
unfolding error_response
raised_response (Raised.domain e) = error_response e
raised_response Raised.integrity_error = unhandled
raised_response Raised.os_error = unhandled
raised_response Raised.zero_division = unhandled
raised_response Raised.diverges = unhandled
raised_response (Raised.external text) = unhandled

abbrev pub respond : {A B : Type 0} → Result A → (A → Response B) → Response B
respond (ok a) shape = shape a
respond (err e) shape = raised_response e

-- The characters that str.strip takes away, as far as a header may hold them.
abbrev is_space : Char → Bool
is_space c =
    (leb 9 (code c) && leb (code c) 13)
    || (leb 28 (code c) && leb (code c) 32)
    || (code c == 133)
    || (code c == 160)

unfoldable pub lstrip : String → String
lstrip String.[] = String.[]
lstrip (String.◌∷◌ c s) = let rest = lstrip s in if is_space c then rest else String.◌∷◌ c s

abbrev keep_unless_space : Char → String → String
keep_unless_space c String.[] = if is_space c then String.[] else String.◌∷◌ c String.[]
keep_unless_space c (String.◌∷◌ d s) = String.◌∷◌ c (String.◌∷◌ d s)

unfoldable pub rstrip : String → String
rstrip String.[] = String.[]
rstrip (String.◌∷◌ c s) = keep_unless_space c (rstrip s)

unfoldable pub strip : String → String
unfolding lstrip rstrip
strip s = lstrip (rstrip s)

abbrev pub anonymous_user_id : String
anonymous_user_id = "anonymous"

-- an empty text is false
abbrev pub or_anonymous : String → String
or_anonymous String.[] = anonymous_user_id
or_anonymous (String.◌∷◌ c s) = String.◌∷◌ c s

-- the header X-User-Id
unfoldable pub get_user_id : Option String → String
unfolding strip
get_user_id none = anonymous_user_id
get_user_id (some x_user_id) = or_anonymous (strip x_user_id)
