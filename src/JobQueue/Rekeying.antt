-- ===== src/JobQueue/Rekeying.antt =====
-- app/tasks/job_queue.py: the writes that leave the ids, the files and the numbers of all rows as they
-- are.
use rag_semantic_search.Prelude.{
  Option, ℕ, ◌≤◌, ◌≡◌, refl, sym, ap, subst, ◌∙◌, inl, inr, Bool, true, some, none, List, [], ◌∷◌,
  arith, select, take, String, ◌==◌, update_where, Option-cases, Bool-cases,
}
use rag_semantic_search.Prelude.All.{All}
use rag_semantic_search.Config.{Settings}
use rag_semantic_search.Utf8.{Text}
use rag_semantic_search.Database.{Time, ChunkStatus, FileRecord, ChunkRow, Database, is_processing}
use rag_semantic_search.Files.{
  get, update_file, mark_processing_started, record_indexed, record_failed, set_processing_status,
}
use rag_semantic_search.Files.Lookup.{KeepsId, get-update_file}
use rag_semantic_search.Chunks.{
  update_each, set_indexed, set_pending_retry, set_failed, mark_indexed, mark_pending_retry,
  mark_failed, mark_processing, oldest_pending_file,
}
use rag_semantic_search.Chunks.Lookup.{row-update_where-none}
use rag_semantic_search.Chunks.Counts.{row, tally, tally-update_where_all}
use rag_semantic_search.JobQueue.{
  ChunkJob, chunk_ids, claim_batch, claim_rows, complete_batch, fail_batch, record_exhausted,
  refresh_processing_status, recover_stuck_jobs, is_retryable, is_exhausted,
}
use rag_semantic_search.JobQueue.Counters.{IsCounted, refresh_cases}
use rag_semantic_search.JobQueue.Filling.{Below}
use rag_semantic_search.JobQueue.Recovering.{
  chunks-recover_stuck_jobs, found_after, gone_after, last-recover_stuck_jobs, reverted-Resumable,
}
use rag_semantic_search.JobQueue.Soundness.{IsSound, get-update_file-none}

-- An update of a chunk row that keeps its id, its file and its number.
abbrev pub KeepsNumber : (ChunkRow → ChunkRow) → Type 0
KeepsNumber set =
    (c : ChunkRow)
    → ((set c).chunk_id ≡ c.chunk_id)
      × ((set c).file_id ≡ c.file_id)
      × ((set c).sequence ≡ c.sequence)

pub record Rekeyed (db db' : Database) : Type 0 where
  pub last : db'.last_chunk_id ≡ db.last_chunk_id
  pub ids :
      All (λ c. c.chunk_id ≤ db.last_chunk_id) db.chunks
      → All (λ c. c.chunk_id ≤ db.last_chunk_id) db'.chunks
  pub below : (j : String) (m : ℕ) → All (Below j m) db.chunks → All (Below j m) db'.chunks
  pub totals : (j : String) → tally (λ _. true) j db'.chunks ≡ tally (λ _. true) j db.chunks
  pub files :
      (j : String) (r' : FileRecord)
      → get db' j ≡ some r'
      → (r : FileRecord) × (get db j ≡ some r) × (r'.next_sequence ≡ r.next_sequence)
  pub gone : (j : String) → get db' j ≡ none → get db j ≡ none
  pub no_rows : (i : ℕ) → row i db.chunks ≡ none → row i db'.chunks ≡ none

pub Rekeyed-IsSound :
    {db db' : Database} → Rekeyed db db' → IsCounted db' → IsSound db → IsSound db'
Rekeyed-IsSound {db} {db'} k c h = record {
  counted = c;
  ids = subst (λ n. All (λ d. d.chunk_id ≤ n) db'.chunks) (sym k.last) (k.ids h.ids);
  numbered = λ j r' e.
      let (r, there, next) = k.files j r' e in
      subst (λ m. All (Below j m) db'.chunks) (sym next)
        (k.below j r.next_sequence (h.numbered j r there));
  owned = λ j e. k.totals j ∙ h.owned j (k.gone j e);
}

pub Rekeyed-refl : (db : Database) → Rekeyed db db
Rekeyed-refl db = record {
  last = refl;
  ids = λ h. h;
  below = λ j m h. h;
  totals = λ j. refl;
  files = λ j r' e. (r', e, refl);
  gone = λ j e. e;
  no_rows = λ i e. e;
}

pub Rekeyed-trans : {db db' db'' : Database} → Rekeyed db db' → Rekeyed db' db'' → Rekeyed db db''
Rekeyed-trans {db} {db'} {db''} f g = record {
  last = g.last ∙ f.last;
  ids = λ h.
      subst (λ n. All (λ d. d.chunk_id ≤ n) db''.chunks) f.last
        (g.ids (subst (λ n. All (λ d. d.chunk_id ≤ n) db'.chunks) (sym f.last) (f.ids h)));
  below = λ j m h. g.below j m (f.below j m h);
  totals = λ j. g.totals j ∙ f.totals j;
  files = λ j r'' e.
      let (r', there', next') = g.files j r'' e in
      let (r, there, next) = f.files j r' there' in (r, there, next' ∙ next);
  gone = λ j e. f.gone j (g.gone j e);
  no_rows = λ i e. g.no_rows i (f.no_rows i e);
}

pub update_file-Rekeyed :
    (db : Database) (id : String) (set : FileRecord → FileRecord)
    → KeepsId set
    → ((r : FileRecord) → (set r).next_sequence ≡ r.next_sequence)
    → Rekeyed db (update_file db id set)
update_file-Rekeyed db id set keeps next = record {
  last = unfold update_file in refl;
  ids = λ h. unfold update_file in h;
  below = λ j m h. unfold update_file in h;
  totals = λ j. unfold update_file in refl;
  files = λ j r' e.
      let (r, there, changed) = get-update_file db id j set r' keeps e in
      (r, there, ground (arith, next r));
  gone = λ j e. get-update_file-none db id j set keeps e;
  no_rows = λ i e. unfold update_file in e;
}

All-update_where {κ} :
    (P : ChunkRow → Type κ) (p : ChunkRow → Bool) (set : ChunkRow → ChunkRow) (cs : List ChunkRow)
    → ((c : ChunkRow) → P c → P (set c))
    → All P cs
    → All P (update_where p set cs)
unfolding update_where
All-update_where P p set [] k h = tt
All-update_where P p set (c ∷ cs) k h = elim (Bool-cases (p c)) [
  | inl hit ↦ rw hit (k c h.0, All-update_where P p set cs k h.1)
  | inr miss ↦ rw miss (h.0, All-update_where P p set cs k h.1)
]

update_where-Rekeyed :
    (db : Database) (p : ChunkRow → Bool) (set : ChunkRow → ChunkRow)
    → KeepsNumber set
    → Rekeyed db (record db { chunks = update_where p set db.chunks })
update_where-Rekeyed db p set k = record {
  last = refl;
  ids =
      All-update_where (λ c. c.chunk_id ≤ db.last_chunk_id) p set db.chunks
        (λ c h. omega (arith, (k c).0));
  below = λ j m. All-update_where (Below j m) p set db.chunks (λ c h. ground (arith, k c));
  totals = λ j. tally-update_where_all p set (λ c. ((k c).0, (k c).1)) j db.chunks;
  files = λ j r' e. (r', unfold get in e, refl);
  gone = λ j e. unfold get in e;
  no_rows = λ i e. row-update_where-none p set i db.chunks (λ c. ((k c).0, (k c).1)) e;
}

update_each-Rekeyed :
    (db : Database) (set : ChunkRow → ChunkRow) (is : List ℕ)
    → KeepsNumber set
    → Rekeyed db (record db { chunks = update_each set db.chunks is })
unfolding update_each
update_each-Rekeyed db set [] k = Rekeyed-refl db
update_each-Rekeyed db set (i ∷ is) k =
    Rekeyed-trans (update_where-Rekeyed db (λ c. c.chunk_id == i) set k) (
      update_each-Rekeyed (record db { chunks = update_where (λ c. c.chunk_id == i) set db.chunks })
        set is k)

refresh-Rekeyed :
    (db : Database) (id : String) (now : Time) → Rekeyed db (refresh_processing_status db id now)
refresh-Rekeyed db id now = elim (refresh_cases db id now) [
  | inl e ↦ rw e (Rekeyed-refl db)
  | inr (status, e) ↦
      rw e (unfold set_processing_status in update_file-Rekeyed db id _ (λ r. refl) (λ r. refl))
]

pub complete_batch-Rekeyed :
    (db : Database) (jobs : List ChunkJob) (now : Time) → Rekeyed db (complete_batch db jobs now)
unfolding complete_batch mark_indexed record_indexed
complete_batch-Rekeyed db [] now = Rekeyed-refl db
complete_batch-Rekeyed db (job ∷ jobs) now =
    Rekeyed-trans
      (update_each-Rekeyed db (set_indexed now) (chunk_ids (job ∷ jobs)) (λ c. (refl, refl, refl)))
      (Rekeyed-trans (update_file-Rekeyed _ job.file_id _ (λ r. refl) (λ r. refl))
        (refresh-Rekeyed _ job.file_id now))

give_up-Rekeyed :
    (db : Database) (id : String) (jobs : List ChunkJob) (error : Text) (now : Time)
    → Rekeyed db (record_exhausted db id jobs error now)
give_up-Rekeyed db id [] error now = Rekeyed-refl db
give_up-Rekeyed db id (j ∷ jobs) error now =
    unfold record_failed in update_file-Rekeyed db id _ (λ r. refl) (λ r. refl)

pub fail_batch-Rekeyed :
    (c : Settings) (db : Database) (jobs : List ChunkJob) (error : Text) (now : Time)
    → Rekeyed db (fail_batch c db jobs error now)
unfolding fail_batch mark_pending_retry mark_failed
fail_batch-Rekeyed c db [] error now = Rekeyed-refl db
fail_batch-Rekeyed c db (job ∷ jobs) error now =
    Rekeyed-trans
      (update_each-Rekeyed db (set_pending_retry (take 500 error) now)
        (chunk_ids (select (is_retryable c) (job ∷ jobs))) (λ c. (refl, refl, refl)))
      (Rekeyed-trans
        (update_each-Rekeyed _ (set_failed (take 500 error) now)
          (chunk_ids (select (is_exhausted c) (job ∷ jobs))) (λ c. (refl, refl, refl)))
        (Rekeyed-trans (give_up-Rekeyed _ job.file_id _ (take 500 error) now)
          (refresh-Rekeyed _ job.file_id now)))

claim_rows-Rekeyed :
    (db : Database) (id : String) (rows : List ChunkRow) (now : Time)
    → Rekeyed db (claim_rows db id rows now).1
unfolding mark_processing mark_processing_started
claim_rows-Rekeyed db id [] now = Rekeyed-refl db
claim_rows-Rekeyed db id (c ∷ rows) now =
    Rekeyed-trans (update_where-Rekeyed db _ _ (λ c. (refl, refl, refl)))
      (update_file-Rekeyed _ id _ (λ r. refl) (λ r. refl))

pub claim_batch-Rekeyed :
    (c : Settings) (limit : Option ℕ) (db : Database) (now : Time)
    → Rekeyed db (claim_batch c limit db now).1
unfolding claim_batch
claim_batch-Rekeyed c limit db now = elim (Option-cases (oldest_pending_file db)) [
  | inl idle ↦ rw (idle, claim_batch) (Rekeyed-refl db)
  | inr (id, e) ↦ rw (e, claim_batch) (claim_rows-Rekeyed db id _ now)
]

pub recover_stuck_jobs-Rekeyed :
    (db : Database) (now : Time) → Rekeyed db (recover_stuck_jobs db now).1
recover_stuck_jobs-Rekeyed db now =
    let cs = chunks-recover_stuck_jobs db now in
    let moved =
      update_where-Rekeyed db (λ c. is_processing c.status)
        (λ c. record c { status = ChunkStatus.pending; updated_at = now })
        (λ c. (refl, refl, refl)) in
    record {
      last = last-recover_stuck_jobs db now;
      ids = λ h. rw cs (moved.ids h);
      below = λ j m h. rw cs (moved.below j m h);
      totals = λ j. rw cs (moved.totals j);
      files = λ j r' e.
          let (r, there, same) = found_after db now j r' e in
          (r, there, ap (λ x. x.next_sequence) same ∙ (reverted-Resumable now r).same_sequence);
      gone = λ j e. gone_after db now j e;
      no_rows = λ i e. rw cs (moved.no_rows i e);
    }
