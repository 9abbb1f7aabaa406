-- ===== src/UploadSlots.antt =====
-- app/services/upload/concurrency.py: the slots for chunks that are being uploaded. The state is the
-- counter of the semaphore.
pub mod Limit
use rag_semantic_search.Prelude.{ℕ, zero, suc, ◌+◌}
use rag_semantic_search.Config.{Settings}
use rag_semantic_search.Errors.{DomainError, Raised, Result, ok, err}

abbrev pub retry_after_seconds : ℕ
retry_after_seconds = 2

-- threading.Semaphore(MAX_CONCURRENT_UPLOADS)
abbrev pub semaphore : Settings → ℕ
semaphore c = c.max_concurrent_uploads

-- `__enter__` of UploadSlot; `acquire(blocking=False)` takes one where the counter is not 0
unfoldable pub enter : Settings → ℕ → Result ℕ
enter c zero = err (
    Raised.domain
      (DomainError.too_many_concurrent_uploads c.max_concurrent_uploads retry_after_seconds))
enter c (suc free) = ok free

-- `__exit__` of UploadSlot
unfoldable pub exit : ℕ → ℕ
exit free = free + 1
