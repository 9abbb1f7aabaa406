-- ===== src/JobQueue/Counters.antt =====
-- app/tasks/job_queue.py: the counters of a file row against the rows of the queue.
use rag_semantic_search.Prelude.{
  ℕ, suc, ◌+◌, ◌*◌, ◌≡◌, refl, sym, ap, subst, ◌∙◌, ◌≢◌, ◌⊎◌, inl, inr, true, false, some, List, [],
  ◌∷◌, arith, leb, ◌&&◌, length, String, str_eq, eq_iff, Bool-cases, Option-cases,
}
use rag_semantic_search.Prelude.All.{All}
use rag_semantic_search.Database.{
  Time, ProcessingStatus, ChunkStatus, FileRecord, ChunkRow, Database, is_indexed, is_failed,
}
use rag_semantic_search.Files.{get, update_file, get_processing_progress, set_processing_status}
use rag_semantic_search.Files.Lookup.{KeepsId, get-update_file}
use rag_semantic_search.Chunks.{set_indexed, update_each}
use rag_semantic_search.Chunks.Counts.{
  tally, one_if, KeepsKey, Ascending, HeldRows, tally-update_each, tally-update_each_other,
  tally-update_each_all, update_each-Ascending,
}
use rag_semantic_search.JobQueue.{
  ChunkJob, chunk_ids, complete_batch, refresh_processing_status, is_completed, final_status,
}

-- The counters of the row are those of the table, and progress is a fraction.
pub record Counts (id : String) (r : FileRecord) (cs : List ChunkRow) : Type 0 where
  pub total : r.chunks_total ≡ tally (λ _. true) id cs
  pub indexed : r.chunks_indexed ≡ tally is_indexed id cs
  pub failed : r.chunks_failed ≡ tally is_failed id cs

pub record IsCounted (db : Database) : Type 0 where
  pub ascending : Ascending 0 db.chunks
  pub counted : (id : String) (r : FileRecord) → get db id ≡ some r → Counts id r db.chunks

-- The jobs that a worker holds: rows in `processing` of one file.
abbrev pub Held : Database → List ChunkJob → Type 0
Held db [] = Unit {0}
Held db (job ∷ jobs) = HeldRows job.file_id db.chunks (chunk_ids (job ∷ jobs))

-- Jobs that are all of the file `id`.
abbrev pub OneFile : String → List ChunkJob → Type 0
OneFile id = All (λ j. j.file_id ≡ id)

-- New chunk rows that leave every count as it was.
pub rechunk :
    (db : Database) (cs : List ChunkRow)
    → IsCounted db
    → Ascending 0 cs
    → ((j : String) (r : FileRecord) → Counts j r db.chunks → Counts j r cs)
    → IsCounted (record db { chunks = cs })
rechunk db cs h a same = record {
  ascending = a;
  counted = λ j r e. same j r (h.counted j r (unfold get in e));
}

recounted :
    (db : Database) (id : String) (set : FileRecord → FileRecord) (cs : List ChunkRow)
    → ((r : FileRecord) → Counts id r db.chunks → Counts id (set r) cs)
    → ((j : String) (r : FileRecord) → j ≢ id → Counts j r db.chunks → Counts j r cs)
    → (j : String) (r r' : FileRecord) → Counts j r db.chunks
    → ((j ≡ id) × (r' ≡ set r)) ⊎ ((j ≢ id) × (r' ≡ r))
    → Counts j r' cs
recounted db id set cs this others j r r' h (inl (same, e)) =
    rw (same, e) (this r (subst (λ i. Counts i r db.chunks) same h))
recounted db id set cs this others j r r' h (inr (ne, e)) = rw e (others j r ne h)

-- One row of `files` and the whole of `chunks` given anew.
pub recount :
    (db : Database) (id : String) (set : FileRecord → FileRecord) (cs : List ChunkRow)
    → KeepsId set
    → IsCounted db
    → Ascending 0 cs
    → ((r : FileRecord) → Counts id r db.chunks → Counts id (set r) cs)
    → ((j : String) (r : FileRecord) → j ≢ id → Counts j r db.chunks → Counts j r cs)
    → IsCounted (update_file (record db { chunks = cs }) id set)
unfolding update_file
recount db id set cs k h a this others = record {
  ascending = a;
  counted = λ j r' e.
      let (r, there, changed) = get-update_file (record db { chunks = cs }) id j set r' k e in
      recounted db id set cs this others j r r' (h.counted j r (unfold get in there)) changed;
}

set_processing_status-IsCounted :
    (db : Database) (id : String) (status : ProcessingStatus) (now : Time)
    → IsCounted db
    → IsCounted (set_processing_status db id status now)
unfolding set_processing_status
set_processing_status-IsCounted db id status now h =
    recount db id (λ r. record r { processing_status = status; updated_at = now }) db.chunks
      (λ r. refl) h h.ascending
      (λ r k. record { total = k.total; indexed = k.indexed; failed = k.failed }) (λ j r ne k. k)

pub refresh_cases :
    (db : Database) (id : String) (now : Time)
    → (refresh_processing_status db id now ≡ db)
      ⊎ ((status : ProcessingStatus) × (refresh_processing_status db id now
            ≡ set_processing_status db id status now))
unfolding refresh_processing_status
refresh_cases db id now = elim (Option-cases (get_processing_progress db id)) [
  | inl n ↦ inl (ground arith)
  | inr (p, e) ↦
      elim (Bool-cases
        (is_completed p.upload_status && leb p.chunks_total (p.chunks_indexed + p.chunks_failed))) [
          | inl t ↦ inr (final_status p.chunks_failed, ground arith)
          | inr t ↦ inl (ground arith)
        ]
]

pub refresh-IsCounted :
    (db : Database) (id : String) (now : Time)
    → IsCounted db
    → IsCounted (refresh_processing_status db id now)
refresh-IsCounted db id now h = elim (refresh_cases db id now) [
  | inl e ↦ rw e h
  | inr (status, e) ↦ rw e (set_processing_status-IsCounted db id status now h)
]

pub length-chunk_ids : (jobs : List ChunkJob) → length (chunk_ids jobs) ≡ length jobs
length-chunk_ids [] = refl
length-chunk_ids (j ∷ jobs) = ap suc (length-chunk_ids jobs)

-- Rows that leave `processing` for the status s, with the counter of s raised by their number.
module _ (status : ChunkStatus) (set_row : ChunkRow → ChunkRow) (keeps : KeepsKey set_row)
    (sets : (c : ChunkRow) → (set_row c).status ≡ status) where
  abbrev SetsCounters : ℕ → FileRecord → FileRecord → Type 0
  SetsCounters n r r' =
      (r'.chunks_total ≡ r.chunks_total)
      × (r'.chunks_indexed ≡ r.chunks_indexed + one_if (is_indexed status) * n)
      × (r'.chunks_failed ≡ r.chunks_failed + one_if (is_failed status) * n)

  -- The counters of the table after the rows moved.
  moved-Counts :
      (id : String) (r r' : FileRecord) (cs : List ChunkRow) (is : List ℕ)
      → Ascending 0 cs
      → HeldRows id cs is
      → SetsCounters (length is) r r'
      → Counts id r cs
      → Counts id r' (update_each set_row cs is)
  moved-Counts id r r' cs is a h (t, i, f) k = record {
    total = t ∙ k.total ∙ sym (tally-update_each_all status set_row keeps sets id cs is);
    indexed = omega (
      arith,
      i,
      k.indexed,
      tally-update_each status set_row keeps sets is_indexed id 0 cs is refl a h,
    );
    failed = omega (
      arith,
      f,
      k.failed,
      tally-update_each status set_row keeps sets is_failed id 0 cs is refl a h,
    );
  }

  others-Counts :
      (id j : String) (r : FileRecord) (cs : List ChunkRow) (is : List ℕ)
      → Ascending 0 cs
      → HeldRows id cs is
      → j ≢ id
      → Counts j r cs
      → Counts j r (update_each set_row cs is)
  others-Counts id j r cs is a h ne k = record {
    total = k.total ∙ sym (tally-update_each_all status set_row keeps sets j cs is);
    indexed =
        k.indexed
        ∙ sym (tally-update_each_other status set_row keeps sets is_indexed id j 0 cs is ne a h);
    failed =
        k.failed
        ∙ sym (tally-update_each_other status set_row keeps sets is_failed id j 0 cs is ne a h);
  }

  pub settle-IsCounted :
      (db : Database) (id : String) (set : FileRecord → FileRecord) (is : List ℕ)
      → KeepsId set
      → ((r : FileRecord) → SetsCounters (length is) r (set r))
      → IsCounted db
      → HeldRows id db.chunks is
      → IsCounted (update_file (record db { chunks = update_each set_row db.chunks is }) id set)
  settle-IsCounted db id set is k counters h held =
      recount db id set (update_each set_row db.chunks is) k h
        (update_each-Ascending status set_row keeps sets 0 db.chunks is h.ascending)
        (λ r c. moved-Counts id r (set r) db.chunks is h.ascending held (counters r) c)
        (λ j r ne c. others-Counts id j r db.chunks is h.ascending held ne c)

  pub moved-IsCounted :
      (db : Database) (id : String) (is : List ℕ)
      → is_indexed status ≡ false
      → is_failed status ≡ false
      → IsCounted db
      → HeldRows id db.chunks is
      → IsCounted (record db { chunks = update_each set_row db.chunks is })
  moved-IsCounted db id is ni nf h held =
      rechunk db (update_each set_row db.chunks is) h
        (update_each-Ascending status set_row keeps sets 0 db.chunks is h.ascending)
        (λ j r k. elim (Bool-cases (str_eq j id)) [
          | inl same ↦
              let e : j ≡ id = (eq_iff j id).0 same in
              rw e (
                moved-Counts id r r db.chunks is h.ascending held
                  (refl, rw ni (omega arith), rw nf (omega arith))
                  (subst (λ i. Counts i r db.chunks) e k))
          | inr other ↦
              others-Counts id j r db.chunks is h.ascending held (λ e. ground (arith, eq_iff j id))
                k
        ])

-- Completing a batch that a worker holds, on tables with right counters: the counter of indexed
-- passages is again the number of indexed rows.
pub complete_batch-IsCounted :
    (db : Database) (jobs : List ChunkJob) (now : Time)
    → IsCounted db
    → Held db jobs
    → IsCounted (complete_batch db jobs now)
unfolding complete_batch
complete_batch-IsCounted db [] now h held = h
complete_batch-IsCounted db (job ∷ jobs) now h held = refresh-IsCounted _ job.file_id now (
    settle-IsCounted ChunkStatus.indexed (set_indexed now) (λ c. (refl, refl)) (λ c. refl) db
      job.file_id _ (chunk_ids (job ∷ jobs)) (λ r. refl) (λ r. omega (arith, length-chunk_ids jobs))
      h held)
