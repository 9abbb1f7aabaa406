-- ===== src/System/Attempts.antt =====
-- app/tasks/job_queue.py with app/repositories/sql/chunk_repository.py: how often a passage is tried.
use rag_semantic_search.Prelude.{
  ℕ, ◌-◌, ◌≤◌, ◌≡◌, max, some, none, arith, String, Bool, true, false, if◌then◌else◌, ◌+◌, refl,
  sym, subst, ◌∙◌,
}
use rag_semantic_search.Config.{Settings}
use rag_semantic_search.Config.Sizing.{Floats}
use rag_semantic_search.Database.{ChunkStatus}
use rag_semantic_search.Chunks.Counts.{row}
use rag_semantic_search.World.{World, Exec}
use rag_semantic_search.System.{System, Reachable, start, after}
use rag_semantic_search.System.Passages.{
  Stage, Cause, by_request, by_claim, by_restart, by_deletion, by_other, by_completion, by_failure,
  forces, Move, stays, queued, claimed, indexed, released, retried, given_up, deleted, stage_of,
}
use rag_semantic_search.System.Refining.{cause, Reachable-Move}

-- The step is the failure of a batch that the passage is in.
abbrev pub is_failure : Cause → Bool
is_failure (by_failure b) = b
is_failure (by_completion b) = false
is_failure by_request = false
is_failure by_claim = false
is_failure by_restart = false
is_failure by_deletion = false
is_failure by_other = false

-- The failed attempts, after a step that leads to a stage: none for a passage that is not there.
abbrev pub tally : Cause → Stage → ℕ → ℕ
tally k none n = 0
tally k (some s) n = if is_failure k then n + 1 else n

-- The failed attempts of the passage i since it was queued, read off the steps and not off its row.
unfoldable pub failures :
    (f : Floats) (c : Settings) (drop : String → Exec (Unit {0})) (i : ℕ) {s : System}
    → Reachable f c drop s
    → ℕ
failures f c drop i (start disk now) = 0
failures f c drop i (after {s} {t} before step) =
    tally (cause f c drop i s t step) (stage_of i t.world.db.chunks) (failures f c drop i before)

-- A passage with n failed attempts: its row counts them, and they are less than MAX_RETRIES where it
-- is not given up, and MAX_RETRIES, or one where that is zero, where it is.
abbrev pub Tried : Settings → Stage → ℕ → Type 0
Tried c none n = n ≡ 0
Tried c (some (ChunkStatus.pending, m)) n = (m ≡ n) × (n ≤ c.max_retries - 1)
Tried c (some (ChunkStatus.processing, m)) n = (m ≡ n) × (n ≤ c.max_retries - 1)
Tried c (some (ChunkStatus.indexed, m)) n = (m ≡ n) × (n ≤ c.max_retries - 1)
Tried c (some (ChunkStatus.failed, m)) n = (m ≡ n) × (n ≡ max 1 c.max_retries)

forces-is_failure :
    (k : Cause) (s : ChunkStatus × ℕ) → forces k (some s) ≡ false → is_failure k ≡ false
forces-is_failure (by_failure true) s h = h ∙ refl
forces-is_failure (by_failure false) s h = refl
forces-is_failure (by_completion b) s h = refl
forces-is_failure by_request s h = refl
forces-is_failure by_claim s h = refl
forces-is_failure by_restart s h = refl
forces-is_failure by_deletion s h = refl
forces-is_failure by_other s h = refl

stays-Tried :
    (c : Settings) (k : Cause) (s : Stage) (n : ℕ)
    → forces k s ≡ false
    → Tried c s n
    → Tried c s (tally k s n)
stays-Tried c k none n free h = refl
stays-Tried c k (some s) n free h =
    subst (λ b. Tried c (some s) (if b then n + 1 else n)) (sym (forces-is_failure k s free)) h

Move-Tried :
    (c : Settings) (k : Cause) (s t : Stage) (n : ℕ)
    → Move c k s t
    → Tried c s n
    → Tried c t (tally k t n)
Move-Tried c _ _ _ n (stays k s free) h = stays-Tried c k s n free h
Move-Tried c _ _ _ n queued h = omega (arith, h)
Move-Tried c _ _ _ n (claimed m) h = h
Move-Tried c _ _ _ n (indexed m) h = h
Move-Tried c _ _ _ n (released m) h = h
Move-Tried c _ _ _ n (retried m more) h = omega (arith, more, h)
Move-Tried c _ _ _ n (given_up m over) h = omega (arith, over, h)
Move-Tried c _ _ _ n (deleted s) h = refl

-- In every state that requests, restarts and workers that end each job once lead to, where the deletion
-- of a collection leaves the tables alone, the count of retries of a passage is the number of batches
-- with it that have failed since it was queued; a passage that is not given up has failed less than
-- MAX_RETRIES times, or not at all where that is zero, and one that is given up has failed exactly
-- MAX_RETRIES times, or once where that is zero.
pub Reachable-Tried :
    (f : Floats) (c : Settings) (drop : String → Exec (Unit {0}))
    (outside : (id : String) (v : World) → (drop id v).1.db ≡ v.db) (i : ℕ) (s : System)
    (run : Reachable f c drop s)
    → Tried c (stage_of i s.world.db.chunks) (failures f c drop i run)
unfolding row failures
Reachable-Tried f c drop outside i _ (start disk now) = refl
Reachable-Tried f c drop outside i _ (after {s} {t} before step) =
    Move-Tried c (cause f c drop i s t step) (stage_of i s.world.db.chunks)
      (stage_of i t.world.db.chunks) (failures f c drop i before)
      (Reachable-Move f c drop outside i s t before step)
      (Reachable-Tried f c drop outside i s before)
