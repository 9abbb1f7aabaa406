-- ===== src/System/Holding.antt =====
-- app/tasks/job_queue.py: the jobs that workers hold, while the tables change under them.
use rag_semantic_search.JobQueue.Updating.{job_id}
use rag_semantic_search.Prelude.{
  ℕ, ◌≤◌, ◌≡◌, ◌≢◌, refl, sym, ap, subst, ◌∙◌, inl, inr, true, some, none, List, [], ◌∷◌, arith,
  ◌==◌, String, eq_iff, is_in, Bool-cases,
}
use rag_semantic_search.Prelude.All.{All, Distinct}
use rag_semantic_search.Database.{FileRecord, ChunkRow, Database}
use rag_semantic_search.Files.{get}
use rag_semantic_search.Chunks.Counts.{row, tally, HeldRows}
use rag_semantic_search.JobQueue.{ChunkJob, chunk_ids}
use rag_semantic_search.JobQueue.Counters.{OneFile}
use rag_semantic_search.JobQueue.Selecting.{row-chunk_id}
use rag_semantic_search.JobQueue.Soundness.{IsSound}
use rag_semantic_search.JobQueue.Rekeying.{Rekeyed}

-- A job that a worker holds is a row in `processing` of its file, or both are deleted.
pub record InHand (db : Database) (j : ChunkJob) : Type 0 where
  pub known : j.chunk_id ≤ db.last_chunk_id
  pub there :
      (r : FileRecord) → get db j.file_id ≡ some r → HeldRows j.file_id db.chunks (j.chunk_id ∷ [])
  pub gone : get db j.file_id ≡ none → row j.chunk_id db.chunks ≡ none

All-row {κ} :
    (P : ChunkRow → Type κ) (i : ℕ) (cs : List ChunkRow) (c : ChunkRow)
    → All P cs
    → row i cs ≡ some c
    → P c
unfolding row
All-row P i [] c h e = absurd (ground arith)
All-row P i (d ∷ cs) c h e = elim (Bool-cases (d.chunk_id == i)) [
  | inl hit ↦ let same : d ≡ c = ground arith in subst P same h.0
  | inr miss ↦ All-row P i cs c h.1 (ground arith)
]

row-tally :
    (i : ℕ) (id : String) (cs : List ChunkRow) (c : ChunkRow)
    → row i cs ≡ some c
    → c.file_id ≡ id
    → tally (λ _. true) id cs ≢ 0
unfolding row
row-tally i id [] c e f none_left = ground arith
row-tally i id (d ∷ cs) c e f none_left = elim (Bool-cases (d.chunk_id == i)) [
  | inl hit ↦ ground (arith, eq_iff d.file_id id)
  | inr miss ↦ row-tally i id cs c (ground arith) f (omega arith)
]

-- Jobs of one file that are rows of the table in `processing`.
pub held-InHand :
    (id : String) (db : Database) (jobs : List ChunkJob)
    → IsSound db
    → OneFile id jobs
    → HeldRows id db.chunks (chunk_ids jobs)
    → All (InHand db) jobs
unfolding is_in
held-InHand id db [] h one held = tt
held-InHand id db (j ∷ jobs) h one held =
    let (c, e, f, s) = held.0 in
    (
      record {
        known =
            let bound =
              All-row (λ d. d.chunk_id ≤ db.last_chunk_id) j.chunk_id db.chunks c h.ids e in
            omega (arith, bound, row-chunk_id j.chunk_id db.chunks c e);
        there = λ r g. ((c, e, f ∙ sym one.0, s), refl, tt);
        gone = λ g.
            absurd
              (row-tally j.chunk_id id db.chunks c e f (h.owned id (sym (ap (get db) one.0) ∙ g)));
      },
      held-InHand id db jobs h one.1 held.2,
    )

pub Distinct-held :
    (id : String) (cs : List ChunkRow) (jobs : List ChunkJob)
    → HeldRows id cs (chunk_ids jobs)
    → Distinct job_id jobs
Distinct-held id cs [] h = tt
Distinct-held id cs (j ∷ jobs) h = (h.1, Distinct-held id cs jobs h.2)

-- While the file is there, jobs in hand are rows that a batch may end.
pub InHand-HeldRows :
    (id : String) (db : Database) (r : FileRecord) (jobs : List ChunkJob)
    → get db id ≡ some r
    → OneFile id jobs
    → All (InHand db) jobs
    → Distinct job_id jobs
    → HeldRows id db.chunks (chunk_ids jobs)
InHand-HeldRows id db r [] e one h d = tt
InHand-HeldRows id db r (j ∷ jobs) e one h d =
    let (c, found, f, s) = (h.0.there r (ap (get db) one.0 ∙ e)).0 in
    ((c, found, f ∙ one.0, s), d.0, InHand-HeldRows id db r jobs e one.1 h.1 d.1)

pub InHand-Rekeyed :
    {db db' : Database} (j : ChunkJob)
    → Rekeyed db db'
    → (HeldRows j.file_id db.chunks (j.chunk_id ∷ [])
        → HeldRows j.file_id db'.chunks (j.chunk_id ∷ []))
    → InHand db j
    → InHand db' j
InHand-Rekeyed j k kept h = record {
  known = omega (arith, h.known, k.last);
  there = λ r' e. let (r, there, same) = k.files j.file_id r' e in kept (h.there r there);
  gone = λ e. k.no_rows j.chunk_id (h.gone (k.gone j.file_id e));
}
