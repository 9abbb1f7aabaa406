-- ===== src/Worker/Turns.antt =====
-- app/tasks/worker.py, `_process_one_batch`: the attempts that are left after a turn of a thread, in
-- which any of its transactions may raise.
use rag_semantic_search.Prelude.{
  ℕ, ◌+◌, ◌-◌, ◌≤◌, ◌<◌, ◌≡◌, refl, inl, inr, Bool, true, false, Option, some, none, List, [], ◌∷◌,
  arith, String, str_refl, Option-cases, Bool-cases, map, length, if◌then◌else◌,
}
use rag_semantic_search.Prelude.All.{All, All-map, Distinct}
use rag_semantic_search.Config.{Settings}
use rag_semantic_search.Utf8.{Text}
use rag_semantic_search.Chunker.{or_default}
use rag_semantic_search.Database.{Time, ChunkRow, Database, is_pending}
use rag_semantic_search.Errors.{Raised, Result, ok, err}
use rag_semantic_search.Files.{mark_processing_started, update_file}
use rag_semantic_search.Chunks.{oldest_pending_file, select_pending_for_file, mark_processing}
use rag_semantic_search.Chunks.Lookup.{row_id}
use rag_semantic_search.Chunks.Counts.{tally, Ascending}
use rag_semantic_search.Storage.{Looks}
use rag_semantic_search.Index.{Backend}
use rag_semantic_search.JobQueue.{ChunkJob, claim_batch, claim_rows, complete_batch, to_job}
use rag_semantic_search.JobQueue.Selecting.{select-Selected}
use rag_semantic_search.Worker.{read_texts, keep, empty, jobs_of}
use rag_semantic_search.Worker.Attempts.{attempts_left, retries_left}
use rag_semantic_search.Worker.Draining.{
  Waits, Due, Left, attempts_left-claim, complete_batch-Due, complete_batch-Left, fail_batch-Left,
}
use rag_semantic_search.Worker.Emptying.{first_pending-none, selected-some}
use rag_semantic_search.Worker.Progress.{Left-weaken, Due-claim}
use rag_semantic_search.Worker.Thread.{
  Outage, Thread, Attempt, returned, raised, try_fail, try_settle, try_kept, try_empty, try_texts,
  try_claimed, try_batch, after_attempt,
}

module _ (c : Settings) where
  -- No attempt is left when nothing waits, and a passage that waits has one.
  attempts_left-idle :
      (cs : List ChunkRow) → ((id : String) → tally is_pending id cs ≡ 0) → attempts_left c cs ≡ 0
  attempts_left-idle [] h = refl
  attempts_left-idle (r ∷ cs) h =
      let rest = attempts_left-idle cs (λ id. omega (arith, h id)) in
      ground (arith, h r.file_id, str_refl r.file_id, rest)

  pub tally-le-attempts_left :
      (id : String) (cs : List ChunkRow) → tally is_pending id cs ≤ attempts_left c cs
  tally-le-attempts_left id [] = omega arith
  tally-le-attempts_left id (r ∷ cs) = ground (arith, tally-le-attempts_left id cs)

-- What a claim leaves: nothing waits and nothing changed, or jobs whose attempts are taken.
data Takes (c : Settings) (db : Database) : List ChunkJob × Database → Type 0 where
  idle : attempts_left c db.chunks ≡ 0 → Takes c db ([], db)
  taken :
      (job : ChunkJob) (jobs : List ChunkJob) (db' : Database)
      → Due db'.chunks (job ∷ jobs)
      → attempts_left c db'.chunks + retries_left c (job ∷ jobs) < attempts_left c db.chunks
      → Takes c db (job ∷ jobs, db')

module _ (c : Settings) (positive : 0 < c.claim_batch_size) where
  claim_rows-Takes :
      (db : Database) (id : String) (rows : List ChunkRow) (now : Time)
      → Ascending 0 db.chunks
      → Distinct row_id rows
      → All (Waits db.chunks) rows
      → 0 < length rows
      → Takes c db (claim_rows db id rows now)
  unfolding mark_processing mark_processing_started update_file
  claim_rows-Takes db id [] now a d h l = absurd (omega arith)
  claim_rows-Takes db id (r ∷ rows) now a d h l =
      taken (to_job r) (map to_job rows) _ (Due-claim now db.chunks (r ∷ rows) a d h)
        (omega (arith, attempts_left-claim c now db.chunks (r ∷ rows) a d h))

  claim_batch-Takes :
      (db : Database) (now : Time) → Ascending 0 db.chunks → Takes c db (claim_batch c none db now)
  unfolding claim_batch
  claim_batch-Takes db now a = elim (Option-cases (oldest_pending_file db)) [
    | inl none_waits ↦
        rw (claim_batch, none_waits)
          (idle (
            attempts_left-idle c db.chunks
              (λ id. first_pending-none id db.chunks (unfold oldest_pending_file in none_waits))))
    | inr (id, e) ↦
        let n = or_default none c.claim_batch_size in
        let (selected, distinct) = select-Selected db id n a in
        rw (claim_batch, e)
          (claim_rows-Takes db id (select_pending_for_file db id n) now a distinct
            (All-map (select_pending_for_file db id n) (λ r h. (h.0, h.1)) selected)
            (selected-some db id n positive e))
  ]

-- One for a turn whose claim is taken.
abbrev pub one_available : Outage → ℕ
one_available o = if o.claims then 1 else 0

-- What an attempt leaves of the queue.
pub record Leaves (c : Settings) (n : ℕ) {b : Backend} (t : Thread b) (out : Attempt b)
    : Type 0 where
  pub queue : Left c n (after_attempt t out).db.chunks
  pub turns : (after_attempt t out).turns ≡ t.turns + 1
  pub waits : (after_attempt t out).waits ≤ t.waits + 1

Leaves-weaken :
    {c : Settings} {m n : ℕ}
    → m ≤ n
    → {b : Backend} (t : Thread b) (out : Attempt b) → Leaves c m t out
    → Leaves c n t out
Leaves-weaken l t out h = record { queue = Left-weaken l h.queue; turns = h.turns; waits = h.waits }

module _ (b : Backend) (describe : Raised → Text) (c : Settings) (positive : 0 < c.claim_batch_size)
    (now : Time) (looks : ChunkJob → Looks) where
  returned-Leaves :
      {n : ℕ} (t : Thread b) (processed : Bool) (db : Database) (s : b.Collections)
      → Left c n db.chunks
      → Leaves c n t (returned processed db s)
  returned-Leaves t true db s h = record { queue = h; turns = refl; waits = omega arith }
  returned-Leaves t false db s h = record { queue = h; turns = refl; waits = omega arith }

  raised-Leaves :
      {n : ℕ} (t : Thread b) (db : Database) (s : b.Collections)
      → Left c n db.chunks
      → Leaves c n t (raised db s)
  raised-Leaves t db s h = record { queue = h; turns = refl; waits = omega arith }

  module _ (o : Outage) (t : Thread b) (jobs : List ChunkJob) where
    fail-Leaves :
        (db : Database) (s : b.Collections) (message : Text)
        → Due db.chunks jobs
        → Leaves c
            (attempts_left c db.chunks + retries_left c jobs)
            t
            (try_fail b describe c now looks o db s jobs message)
    fail-Leaves db s message h = elim (Bool-cases o.fails) [
      | inl written ↦
          rw written (returned-Leaves t true _ s (fail_batch-Left c db jobs message now h))
      | inr lost ↦
          rw lost (raised-Leaves t db s (record { ascending = h.ascending; within = omega arith }))
    ]

    settle-Leaves :
        (db : Database) (kept : List (ChunkJob × Text)) (out : Option Text × b.Collections)
        → Due db.chunks jobs
        → Leaves c
            (attempts_left c db.chunks + retries_left c jobs)
            t
            (try_settle b describe c now looks o db jobs kept out)
    settle-Leaves db kept (some message, s) h = fail-Leaves db s message h
    settle-Leaves db kept (none, s) h = elim (Bool-cases o.completes) [
      | inl written ↦ rw written (
          returned-Leaves t true _ s
            (Left-weaken (omega arith) (complete_batch-Left c db (jobs_of kept) now h.ascending)))
      | inr lost ↦ rw lost (fail-Leaves db s (describe o.error) h)
    ]

    kept-Leaves :
        (db : Database) (s : b.Collections) (kept : List (ChunkJob × Text))
        → Due db.chunks jobs
        → Leaves c
            (attempts_left c db.chunks + retries_left c jobs)
            t
            (try_kept b describe c now looks o db s jobs kept)
    kept-Leaves db s [] h =
        returned-Leaves t true db s (record { ascending = h.ascending; within = omega arith })
    kept-Leaves db s ((job, text) ∷ kept) h = settle-Leaves db ((job, text) ∷ kept) _ h

    empty-Leaves :
        (db : Database) (s : b.Collections) (done : List ChunkJob) (kept : List (ChunkJob × Text))
        → Due db.chunks jobs
        → Leaves c
            (attempts_left c db.chunks + retries_left c jobs)
            t
            (try_empty b describe c now looks o db s jobs done kept)
    empty-Leaves db s [] kept h = kept-Leaves db s kept h
    empty-Leaves db s (job ∷ done) kept h = elim (Bool-cases o.completes_empty) [
      | inl written ↦
          let less = complete_batch-Left c db (job ∷ done) now h.ascending in
          rw written (
            Leaves-weaken (omega (arith, less.within)) t _ (
              kept-Leaves (complete_batch db (job ∷ done) now) s kept
                (complete_batch-Due c db (job ∷ done) jobs now h)))
      | inr lost ↦ rw lost (fail-Leaves db s (describe o.error) h)
    ]

    texts-Leaves :
        (db : Database) (s : b.Collections) (r : Result (List (ChunkJob × Text)))
        → Due db.chunks jobs
        → Leaves c
            (attempts_left c db.chunks + retries_left c jobs)
            t
            (try_texts b describe c now looks o db s jobs r)
    texts-Leaves db s (err e) h = fail-Leaves db s (describe e) h
    texts-Leaves db s (ok pairs) h = empty-Leaves db s (empty pairs) (keep pairs) h

  claimed-Leaves :
      (o : Outage) (t : Thread b) (s : b.Collections) (out : List ChunkJob × Database)
      → Ascending 0 t.db.chunks
      → Takes c t.db out
      → Leaves c (attempts_left c t.db.chunks - 1) t (try_claimed b describe c now looks o s out)
  claimed-Leaves o t s _ a (idle nothing) =
      returned-Leaves t false t.db s (record { ascending = a; within = omega (arith, nothing) })
  claimed-Leaves o t s _ a (taken job jobs db' due fewer) =
      Leaves-weaken (omega (arith, fewer)) t _
        (texts-Leaves o t (job ∷ jobs) db' s (read_texts looks (job ∷ jobs)) due)

  -- A turn takes an attempt away where its claim is taken, and adds none elsewhere.
  pub try_batch-Leaves :
      (t : Thread b) (o : Outage)
      → Ascending 0 t.db.chunks
      → Leaves c
          (attempts_left c t.db.chunks - one_available o)
          t
          (try_batch b describe c now looks o t.db t.collections)
  unfolding try_batch
  try_batch-Leaves t o a = elim (Bool-cases o.claims) [
    | inl claims ↦
        rw (try_batch, claims)
          (claimed-Leaves o t t.collections (claim_batch c none t.db now) a
            (claim_batch-Takes c positive t.db now a))
    | inr refused ↦
        rw (try_batch, refused)
          (raised-Leaves t t.db t.collections (record { ascending = a; within = omega arith }))
  ]
