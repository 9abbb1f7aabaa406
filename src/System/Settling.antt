-- ===== src/System/Settling.antt =====
-- app/tasks/job_queue.py: what the end of a batch does to one passage.
use rag_semantic_search.JobQueue.Updating.{fail_batch-chunks, complete_batch-chunks}
use rag_semantic_search.Prelude.{
  ℕ, ◌+◌, ◌≤◌, ◌<◌, ltb, leb, ◌≡◌, refl, sym, ap, subst, ◌∙◌, inl, inr, true, false, some, List, [],
  ◌∷◌, arith, take, select, String, ◌==◌, update_where, is_in, Bool, ◌||◌, Bool-cases,
}
use rag_semantic_search.Prelude.All.{All, All-map, All-select}
use rag_semantic_search.Config.{Settings}
use rag_semantic_search.Utf8.{Text}
use rag_semantic_search.Database.{Time, ChunkStatus, ChunkRow, Database}
use rag_semantic_search.Chunks.{update_each, set_indexed, set_failed, set_pending_retry}
use rag_semantic_search.Chunks.Lookup.{row-update_where_hit}
use rag_semantic_search.Chunks.Counts.{
  row, KeepsKey, HeldRows, HeldRows-update, HeldRows-update_each, Apart-out, row-update_ne,
}
use rag_semantic_search.JobQueue.{
  ChunkJob, chunk_ids, complete_batch, fail_batch, is_retryable, is_exhausted,
}
use rag_semantic_search.Worker.Attempts.{Fresh}
use rag_semantic_search.JobQueue.Failing.{HeldRows-select, Apart-select}
use rag_semantic_search.JobQueue.Selecting.{row-chunk_id}
use rag_semantic_search.System.Passages.{
  Stage, Cause, by_completion, by_failure, forces, Move, stays, indexed, retried, given_up,
  stage_in, stage_of, Moves, stays_put, moves, stage,
}

ltb→lt : (a b : ℕ) → ltb a b ≡ true → a < b
ltb→lt a b h = ground arith

leb→le : (a b : ℕ) → leb a b ≡ true → a ≤ b
leb→le a b h = ground arith

-- A row that is not in the list of ids, and one that is.
pub row-update_each_out :
    (i : ℕ) (set : ChunkRow → ChunkRow) (cs : List ChunkRow) (is : List ℕ)
    → KeepsKey set
    → is_in i is ≡ false
    → row i (update_each set cs is) ≡ row i cs
unfolding update_each is_in
row-update_each_out i set cs [] k out = refl
row-update_each_out i set cs (j ∷ is) k out =
    row-update_each_out i set (update_where (λ c. c.chunk_id == j) set cs) is k (ground arith)
    ∙ row-update_ne j i set cs k (λ same. ground arith)

module _ (id : String) (set : ChunkRow → ChunkRow) (keeps : KeepsKey set) where
  -- A row in the list is in `processing` before, and set after.
  row-update_each_in :
      (i : ℕ) (cs : List ChunkRow) (is : List ℕ)
      → is_in i is ≡ true
      → HeldRows id cs is
      → (r : ChunkRow) × (row i cs ≡ some r)
        × (r.status ≡ ChunkStatus.processing)
        × (row i (update_each set cs is) ≡ some (set r))
  unfolding update_each is_in
  row-update_each_in i cs [] t h = absurd (ground arith)
  row-update_each_in i cs (j ∷ is) t h = elim (Bool-cases (j == i)) [
    | inl hit ↦
        let same : j ≡ i = ground arith in
        let (c, e, mine, s) = h.0 in
        let e' : row i cs ≡ some c = subst (λ k. row k cs ≡ some c) same e in
        let out : is_in i is ≡ false = subst (λ k. is_in k is ≡ false) same h.1 in
        let hit' : (c.chunk_id == j) ≡ true = ground (arith, row-chunk_id j cs c e) in
        (
          c,
          e',
          s,
          row-update_each_out i set (update_where (λ d. d.chunk_id == j) set cs) is keeps out
              ∙ row-update_where_hit (λ d. d.chunk_id == j) set i cs c keeps e' hit',
        )
    | inr miss ↦
        let (r, found, held, after) =
          row-update_each_in i (update_where (λ c. c.chunk_id == j) set cs) is (ground arith)
            (HeldRows-update id j set cs is keeps h.1 h.2) in
        (r, sym (row-update_ne j i set cs keeps (λ same. ground arith)) ∙ found, held, after)
  ]

  update_each-Moves :
      (c : Settings) (ended : Bool → Cause)
      → ((x : Stage) → forces (ended false) x ≡ false)
      → (i : ℕ) (cs : List ChunkRow) (is : List ℕ)
      → ((r : ChunkRow)
          → is_in i is ≡ true
          → row i cs ≡ some r
          → Move c
              (ended true)
              (some (ChunkStatus.processing, r.retry_count))
              (some ((set r).status, (set r).retry_count)))
      → HeldRows id cs is
      → Moves c (ended (is_in i is)) i cs (update_each set cs is)
  update_each-Moves c ended free i cs is m h = elim (Bool-cases (is_in i is)) [
    | inl t ↦
        let (r, found, held, after) = row-update_each_in i cs is t h in
        subst (λ b. Moves c (ended b) i cs (update_each set cs is)) (sym t)
          (moves c (ended true) i cs (update_each set cs is) (stage i cs r found held)
            (ap stage_in after) (m r t found))
    | inr out ↦
        subst (λ b. Moves c (ended b) i cs (update_each set cs is)) (sym out)
          (stays_put c (ended false) i cs (update_each set cs is) (free (stage_of i cs))
            (row-update_each_out i set cs is keeps out))
  ]

pub complete_batch-Moves :
    (c : Settings) (i : ℕ) (id : String) (db : Database) (jobs : List ChunkJob) (now : Time)
    → HeldRows id db.chunks (chunk_ids jobs)
    → Moves c
        (by_completion (is_in i (chunk_ids jobs)))
        i
        db.chunks
        (complete_batch db jobs now).chunks
unfolding is_in
complete_batch-Moves c i id db [] now h =
    unfold complete_batch in stays (by_completion false) (stage_of i db.chunks) refl
complete_batch-Moves c i id db (j ∷ jobs) now h = rw (complete_batch-chunks db j jobs now) (
    update_each-Moves id (set_indexed now) (λ r. (refl, refl)) c by_completion (λ x. refl) i
      db.chunks (chunk_ids (j ∷ jobs)) (λ r t found. indexed r.retry_count) h)

-- What holds of each selected job holds of the row of one of them.
job_row :
    (i : ℕ) (P : ℕ → Type 0) (cs : List ChunkRow) (jobs : List ChunkJob)
    → All (λ j. Fresh cs j × P j.retry_count) jobs
    → (r : ChunkRow) → is_in i (chunk_ids jobs) ≡ true
    → row i cs ≡ some r
    → P r.retry_count
unfolding is_in
job_row i P cs [] h r t found = absurd (ground arith)
job_row i P cs (j ∷ jobs) h r t found = elim (Bool-cases (j.chunk_id == i)) [
  | inl hit ↦
      let own : j.chunk_id ≡ i = ground arith in
      subst P (sym (h.0.0 r (ap (λ k. row k cs) own ∙ found))) h.0.1
  | inr miss ↦ job_row i P cs jobs h.1 r (ground arith) found
]

or_true : (b : Bool) → (b || true) ≡ true
or_true b = ground arith

or_false : (b : Bool) → (b || false) ≡ b
or_false b = ground arith

-- A job of a failed batch is retried or given up.
is_in-parts :
    (c : Settings) (i : ℕ) (jobs : List ChunkJob)
    → is_in i (chunk_ids jobs) ≡ (
        is_in i (chunk_ids (select (is_retryable c) jobs))
        || is_in i (chunk_ids (select (is_exhausted c) jobs)))
unfolding is_in select
is_in-parts c i [] = refl
is_in-parts c i (j ∷ jobs) = ground (arith, is_in-parts c i jobs)

-- A job is retried or given up, not both.
pub fail_batch-Moves :
    (c : Settings) (i : ℕ) (id : String) (db : Database) (jobs : List ChunkJob) (error : Text)
    (now : Time)
    → All (Fresh db.chunks) jobs
    → HeldRows id db.chunks (chunk_ids jobs)
    → Moves c
        (by_failure (is_in i (chunk_ids jobs)))
        i
        db.chunks
        (fail_batch c db jobs error now).chunks
unfolding is_in
fail_batch-Moves c i id db [] error now fresh h =
    unfold fail_batch in stays (by_failure false) (stage_of i db.chunks) refl
fail_batch-Moves c i id db (j ∷ jobs) error now fresh h =
    let all = j ∷ jobs in
    let retryable = select (is_retryable c) all in
    let exhausted = select (is_exhausted c) all in
    let retry = chunk_ids retryable in
    let over = chunk_ids exhausted in
    let set_retry = set_pending_retry (take 500 error) now in
    let set_over = set_failed (take 500 error) now in
    let first = update_each set_retry db.chunks retry in
    let last = update_each set_over first over in
    let apart = Apart-select c id db.chunks all h in
    let may_retry =
      All-map retryable (λ k g. (g.0, ltb→lt (k.retry_count + 1) c.max_retries g.1))
        (All-select (Fresh db.chunks) (is_retryable c) all fresh) in
    let may_not =
      All-map exhausted (λ k g. (g.0, leb→le c.max_retries (k.retry_count + 1) g.1))
        (All-select (Fresh db.chunks) (is_exhausted c) all fresh) in
    let retried_first =
      update_each-Moves id set_retry (λ r. (refl, refl)) c by_failure (λ x. refl) i db.chunks retry
        (λ r t found.
          retried r.retry_count
            (job_row i (λ n. n + 1 < c.max_retries) db.chunks retryable may_retry r t found))
        (HeldRows-select (is_retryable c) id db.chunks all h) in
    rw (fail_batch-chunks c db j jobs error now) (elim (Bool-cases (is_in i over)) [
      | inl t ↦
          let out : is_in i retry ≡ false = Apart-out i retry over apart t in
          let same = row-update_each_out i set_retry db.chunks retry (λ r. (refl, refl)) out in
          let whole : is_in i over ≡ is_in i (chunk_ids all) =
            t
            ∙ sym
                (is_in-parts c i all ∙ ap (λ b. is_in i retry || b) t ∙ or_true (is_in i retry)) in
          subst (λ b. Moves c (by_failure b) i db.chunks last) whole
            (subst (λ s. Move c (by_failure (is_in i over)) (stage_in s) (stage_of i last)) same
              (update_each-Moves id set_over (λ r. (refl, refl)) c by_failure (λ x. refl) i first
                over
                (λ r t found. given_up r.retry_count (
                  job_row i (λ n. c.max_retries ≤ n + 1) db.chunks exhausted may_not r t
                    (sym same ∙ found)))
                (HeldRows-update_each id set_retry db.chunks retry over (λ r. (refl, refl)) apart
                  (HeldRows-select (is_exhausted c) id db.chunks all h))))
      | inr out ↦
          let same = row-update_each_out i set_over first over (λ r. (refl, refl)) out in
          let whole : is_in i retry ≡ is_in i (chunk_ids all) =
            sym
              (is_in-parts c i all ∙ ap (λ b. is_in i retry || b) out ∙ or_false (is_in i retry)) in
          subst (λ b. Moves c (by_failure b) i db.chunks last) whole
            (subst (λ s. Move c (by_failure (is_in i retry)) (stage_of i db.chunks) (stage_in s))
              (sym same) retried_first)
    ])
