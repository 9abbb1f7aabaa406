-- ===== src/Worker/Attempts.antt =====
-- app/tasks/worker.py and app/tasks/job_queue.py: how many attempts are left for the passages that
-- wait, and what the transactions of a batch take of them.
use rag_semantic_search.Prelude.{
  ℕ, ◌+◌, ◌-◌, ◌≤◌, ◌≡◌, refl, sym, ◌∙◌, inl, inr, Bool, true, false, some, none, List, [], ◌∷◌,
  arith, ◌==◌, select, update_where, is_in, Option-cases, Bool-cases, if◌then◌else◌,
}
use rag_semantic_search.Prelude.All.{All, Distinct}
use rag_semantic_search.Config.{Settings}
use rag_semantic_search.Utf8.{Text}
use rag_semantic_search.Database.{Time, ChunkRow, is_pending}
use rag_semantic_search.Chunks.{update_each, set_pending_retry}
use rag_semantic_search.Chunks.Counts.{
  row, KeepsKey, Ascending, row-update_ne, row-below, update_where-Ascending,
}
use rag_semantic_search.JobQueue.{ChunkJob, chunk_ids, is_retryable}

-- A bound on the attempts that a passage has before it: one, and the retries that it may have yet.
abbrev pub attempts : Settings → ChunkRow → ℕ
attempts c r = if is_pending r.status then 1 + (c.max_retries - r.retry_count) else 0

abbrev pub attempts_left : Settings → List ChunkRow → ℕ
attempts_left c [] = 0
attempts_left c (r ∷ rs) = attempts c r + attempts_left c rs

-- The attempts that a job has before it once it is claimed, and that jobs have.
abbrev pub retries_left : Settings → List ChunkJob → ℕ
retries_left c [] = 0
retries_left c (j ∷ js) = (c.max_retries - j.retry_count) + retries_left c js

-- The row of a job, where there is one, has the job's count of retries.
abbrev pub Fresh : List ChunkRow → ChunkJob → Type 0
Fresh cs j = (r : ChunkRow) → row j.chunk_id cs ≡ some r → r.retry_count ≡ j.retry_count

module _ (c : Settings) where
  attempts_left-absent :
      (i : ℕ) (set : ChunkRow → ChunkRow) (cs : List ChunkRow)
      → row i cs ≡ none
      → attempts_left c (update_where (λ r. r.chunk_id == i) set cs) ≡ attempts_left c cs
  unfolding row update_where
  attempts_left-absent i set [] e = refl
  attempts_left-absent i set (r ∷ cs) e = ground (arith, attempts_left-absent i set cs)

  pub attempts_left-update :
      (i lo : ℕ) (set : ChunkRow → ChunkRow) (cs : List ChunkRow) (r : ChunkRow)
      → Ascending lo cs
      → row i cs ≡ some r
      → attempts_left c (update_where (λ d. d.chunk_id == i) set cs) + attempts c r
        ≡ attempts_left c cs + attempts c (set r)
  unfolding row update_where
  attempts_left-update i lo set [] r a e = absurd (ground arith)
  attempts_left-update i lo set (d ∷ cs) r a e = elim (Bool-cases (d.chunk_id == i)) [
    | inl hit ↦
        let same : d ≡ r = ground arith in
        let below : i ≤ d.chunk_id = ground arith in
        let rest = attempts_left-absent i set cs (row-below i d.chunk_id cs a.1 below) in
        rw (hit, sym same) (omega (arith, rest))
    | inr miss ↦
        let rest = attempts_left-update i d.chunk_id set cs r a.1 (ground arith) in
        rw miss (omega (arith, rest))
  ]

  -- An update after which no attempt is due takes attempts away, if anything.
  pub attempts_left-settle :
      (set : ChunkRow → ChunkRow) (lo : ℕ) (cs : List ChunkRow) (is : List ℕ)
      → KeepsKey set
      → ((r : ChunkRow) → is_pending (set r).status ≡ false)
      → Ascending lo cs
      → attempts_left c (update_each set cs is) ≤ attempts_left c cs
  unfolding update_each
  attempts_left-settle set lo cs [] k n a = omega arith
  attempts_left-settle set lo cs (i ∷ is) k n a =
      let ds = update_where (λ d. d.chunk_id == i) set cs in
      let rest = attempts_left-settle set lo ds is k n (update_where-Ascending _ lo set cs k a) in
      elim (Option-cases (row i cs)) [
        | inl absent ↦ omega (arith, rest, attempts_left-absent i set cs absent)
        | inr (r, found) ↦
            let none_due : attempts c (set r) ≡ 0 = ground (arith, n r) in
            omega (arith, rest, none_due, attempts_left-update i lo set cs r a found)
      ]

  Fresh-update_ne :
      (i : ℕ) (set : ChunkRow → ChunkRow) (cs : List ChunkRow) (js : List ChunkJob)
      → KeepsKey set
      → is_in i (chunk_ids js) ≡ false
      → All (Fresh cs) js
      → All (Fresh (update_where (λ d. d.chunk_id == i) set cs)) js
  unfolding is_in
  Fresh-update_ne i set cs [] k out h = tt
  Fresh-update_ne i set cs (j ∷ js) k out h = (
    λ r e. h.0 r (sym (row-update_ne i j.chunk_id set cs k (λ same. ground arith)) ∙ e),
    Fresh-update_ne i set cs js k (ground arith) h.1,
  )

  -- A retry gives back one attempt less than the claim took.
  pub attempts_left-retry :
      (error : Text) (now : Time) (lo : ℕ) (cs : List ChunkRow) (js : List ChunkJob)
      → Ascending lo cs
      → Distinct (λ (j : ChunkJob). j.chunk_id) js
      → All (Fresh cs) js
      → All (λ j. is_retryable c j ≡ true) js
      → attempts_left c (update_each (set_pending_retry error now) cs (chunk_ids js))
        ≤ attempts_left c cs + retries_left c js
  unfolding update_each
  attempts_left-retry error now lo cs [] a d h t = omega arith
  attempts_left-retry error now lo cs (j ∷ js) a d h t =
      let set = set_pending_retry error now in
      let i = j.chunk_id in
      let ds = update_where (λ r. r.chunk_id == i) set cs in
      let rest =
        attempts_left-retry error now lo ds js
          (update_where-Ascending _ lo set cs (λ r. (refl, refl)) a) d.1
          (Fresh-update_ne i set cs js (λ r. (refl, refl)) d.0 h.1) t.1 in
      elim (Option-cases (row i cs)) [
        | inl absent ↦ omega (arith, rest, attempts_left-absent i set cs absent)
        | inr (r, found) ↦
            let gain : attempts c (set r) ≤ c.max_retries - j.retry_count =
              ground (arith, h.0 r found, t.0) in
            omega (arith, rest, gain, attempts_left-update i lo set cs r a found)
      ]

  pub retries_left-select :
      (p : ChunkJob → Bool) (js : List ChunkJob) → retries_left c (select p js) ≤ retries_left c js
  unfolding select
  retries_left-select p [] = omega arith
  retries_left-select p (j ∷ js) = ground (arith, retries_left-select p js)
