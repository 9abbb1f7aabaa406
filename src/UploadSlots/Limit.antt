-- ===== src/UploadSlots/Limit.antt =====
-- app/services/upload/concurrency.py: how many requests hold a slot, whatever the order in which they
-- come and go.
use rag_semantic_search.Prelude.{
  ℕ, zero, suc, ◌+◌, ◌≤◌, ◌≡◌, ◌-◌, ap, refl, true, false, ltb, if◌then◌else◌, arith,
}
use rag_semantic_search.Config.{Settings}
use rag_semantic_search.Errors.{DomainError, Raised, ok, err}
use rag_semantic_search.UploadSlots.{retry_after_seconds, semaphore, enter, exit}

-- The counter and the number of requests inside their `with` block, after some of them have come
-- and gone. A request that is refused does not enter its block, and so does not leave it.
pub data Reachable (c : Settings) : ℕ → ℕ → Type 0 where
  started : Reachable c (semaphore c) 0
  came :
      {free held free' : ℕ}
      → Reachable c free held
      → enter c free ≡ ok free'
      → Reachable c free' (suc held)
  refused :
      {free held : ℕ} {e : Raised}
      → Reachable c free held
      → enter c free ≡ err e
      → Reachable c free held
  went : {free held : ℕ} → Reachable c free (suc held) → Reachable c (exit free) held

enter-ok : (c : Settings) (free free' : ℕ) → enter c free ≡ ok free' → free ≡ suc free'
unfolding enter
enter-ok c zero free' h = absurd (ground arith)
enter-ok c (suc free) free' h = ground arith

slots_kept :
    (c : Settings) {free held : ℕ} → Reachable c free held → free + held ≡ c.max_concurrent_uploads
unfolding exit
slots_kept c started = omega arith
slots_kept c (came {free} {held} {free'} before h) =
    omega (arith, slots_kept c before, enter-ok c free free' h)
slots_kept c (refused before h) = slots_kept c before
slots_kept c (went {free} {held} before) = omega (arith, slots_kept c before)

-- However requests come and go, at most the configured number of them hold a slot; a request gets one
-- of those left exactly while fewer do, and is refused with that number and the delay otherwise.
pub enter-Reachable :
    (c : Settings) (free held : ℕ)
    → Reachable c free held
    → (held ≤ c.max_concurrent_uploads)
      × (enter c free ≡ (
          if ltb held c.max_concurrent_uploads
          then ok (c.max_concurrent_uploads - (held + 1))
          else err (
              Raised.domain (
                DomainError.too_many_concurrent_uploads c.max_concurrent_uploads
                  retry_after_seconds))))
unfolding enter
enter-Reachable c zero held r =
    let kept = slots_kept c r in
    let full : ltb held c.max_concurrent_uploads ≡ false = ground (arith, kept) in
    (omega arith, rw full refl)
enter-Reachable c (suc free) held r =
    let kept = slots_kept c r in
    let fewer : ltb held c.max_concurrent_uploads ≡ true = ground (arith, kept) in
    (omega arith, rw fewer (ap ok (omega arith)))
