-- ===== src/System/Passages.antt =====
-- app/tasks/job_queue.py: the lifecycle of a passage, as its module comment draws it, against every
-- transaction of the program.
use mathlib.Core.Option
use rag_semantic_search.Prelude.{
  ℕ, ◌+◌, ◌≤◌, ◌<◌, ◌≡◌, ap, ◌∙◌, true, false, Option, some, none, List, Bool,
}
use rag_semantic_search.Config.{Settings}
use rag_semantic_search.Database.{ChunkStatus, ChunkRow, is_processing}
use rag_semantic_search.Chunks.Counts.{row}

-- Where a passage stands: its status and its count of retries; `none` is a passage that is not in the
-- table.
abbrev pub Stage : Type 0
Stage = Option (ChunkStatus × ℕ)

-- What a step is to one passage: a request that queues passages, a claim, the end of a batch, with
-- whether the passage is in it, a start of the process, a deletion, or another step.
pub data Cause : Type 0 where
  by_request by_claim by_restart by_deletion by_other : Cause
  by_completion by_failure : Bool → Cause

-- The steps after which a passage cannot be where it was: the end of its batch, while it is in the
-- table, and a restart, while a worker has it.
abbrev pub forces : Cause → Stage → Bool
forces (by_completion true) (some s) = true
forces (by_failure true) (some s) = true
forces by_restart (some (status, n)) = is_processing status
forces _ _ = false

-- The lifecycle of a passage.
pub data Move (c : Settings) : Cause → Stage → Stage → Type 0 where
  stays : (k : Cause) (s : Stage) → forces k s ≡ false → Move c k s s
  queued : Move c by_request none (some (ChunkStatus.pending, 0))
  claimed :
      (n : ℕ) → Move c by_claim (some (ChunkStatus.pending, n)) (some (ChunkStatus.processing, n))
  indexed :
      (n : ℕ)
      → Move c
          (by_completion true)
          (some (ChunkStatus.processing, n))
          (some (ChunkStatus.indexed, n))
  released :
      (n : ℕ) → Move c by_restart (some (ChunkStatus.processing, n)) (some (ChunkStatus.pending, n))
  retried :
      (n : ℕ)
      → n + 1 < c.max_retries
      → Move c
          (by_failure true)
          (some (ChunkStatus.processing, n))
          (some (ChunkStatus.pending, n + 1))
  given_up :
      (n : ℕ)
      → c.max_retries ≤ n + 1
      → Move c
          (by_failure true)
          (some (ChunkStatus.processing, n))
          (some (ChunkStatus.failed, n + 1))
  deleted : (s : ChunkStatus × ℕ) → Move c by_deletion (some s) none

-- The passage i in a table.
abbrev pub stage_in : Option ChunkRow → Stage
stage_in = Option.map (λ r. (r.status, r.retry_count))

abbrev pub stage_of : ℕ → List ChunkRow → Stage
stage_of i cs = stage_in (row i cs)

abbrev pub Moves : Settings → Cause → ℕ → List ChunkRow → List ChunkRow → Type 0
Moves c k i cs ds = Move c k (stage_of i cs) (stage_of i ds)

pub stays_put :
    (c : Settings) (k : Cause) (i : ℕ) (cs ds : List ChunkRow)
    → forces k (stage_of i cs) ≡ false
    → row i ds ≡ row i cs
    → Moves c k i cs ds
stays_put c k i cs ds free e = rw e (stays k (stage_of i cs) free)

pub moves :
    (c : Settings) (k : Cause) (i : ℕ) (cs ds : List ChunkRow) {s t : Stage}
    → stage_of i cs ≡ s
    → stage_of i ds ≡ t
    → Move c k s t
    → Moves c k i cs ds
moves c k i cs ds e g m = rw (e, g) m

-- A row with its status.
pub stage :
    (i : ℕ) (cs : List ChunkRow) (r : ChunkRow) {s : ChunkStatus}
    → row i cs ≡ some r
    → r.status ≡ s
    → stage_of i cs ≡ some (s, r.retry_count)
stage i cs r e same = ap stage_in e ∙ ap (λ s. some (s, r.retry_count)) same
