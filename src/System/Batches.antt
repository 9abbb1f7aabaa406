-- ===== src/System/Batches.antt =====
-- app/tasks/job_queue.py: the jobs in hand through the claim and the end of a batch.
use rag_semantic_search.System.Ending.{fail_batch-absent, complete_batch-absent}
use rag_semantic_search.JobQueue.Updating.{fail_batch-HeldRows, job_id, complete_batch-HeldRows}
use rag_semantic_search.Prelude.{
  ℕ, ◌≡◌, ◌≢◌, refl, ap, subst, ◌∙◌, inl, inr, Bool, false, not, Option, some, none, List, [], ◌∷◌,
  ◌++◌, arith, select, String, is_in, Option-cases,
}
use rag_semantic_search.Prelude.All.{
  All, All-map, All-select, All-zip, All-append, Distinct, Distinct-parts, Distinct-select,
  Distinct-append,
}
use rag_semantic_search.Config.{Settings}
use rag_semantic_search.Chunker.{or_default}
use rag_semantic_search.Database.{Time, ChunkRow, Database}
use rag_semantic_search.Files.{get}
use rag_semantic_search.Chunks.Counts.{row, HeldRows}
use rag_semantic_search.JobQueue.{ChunkJob, chunk_ids, claim_batch, complete_batch, fail_batch}
use rag_semantic_search.JobQueue.Counters.{IsCounted, OneFile, complete_batch-IsCounted}
use rag_semantic_search.JobQueue.Failing.{fail_batch-IsCounted}
use rag_semantic_search.JobQueue.Claiming.{Claimed, claim_batch-Claimed}
use rag_semantic_search.JobQueue.Soundness.{IsSound}
use rag_semantic_search.JobQueue.Rekeying.{
  Rekeyed, Rekeyed-IsSound, complete_batch-Rekeyed, fail_batch-Rekeyed, claim_batch-Rekeyed,
}
use rag_semantic_search.Worker.Batches.{HeldRows-Held, Held-HeldRows}
use rag_semantic_search.System.Holding.{
  InHand, held-InHand, Distinct-held, InHand-HeldRows, InHand-Rekeyed,
}

-- The tables are sound, each job that a worker holds is a row in `processing` or its file is deleted,
-- and no two workers hold the same row.
pub record Consistent (db : Database) (held : List ChunkJob) : Type 0 where
  pub sound : IsSound db
  pub in_hand : All (InHand db) held
  pub distinct : Distinct job_id held

not_held :
    (id : String) (i : ℕ) (cs : List ChunkRow) (is : List ℕ)
    → HeldRows id cs is
    → row i cs ≡ none
    → is_in i is ≡ false
unfolding is_in
not_held id i cs [] h e = refl
not_held id i cs (k ∷ is) h e =
    let (c, found, mine, s) = h.0 in
    let ne : k ≢ i = λ same. ground (arith, subst (λ m. row m cs ≡ some c) same found) in
    ground (arith, not_held id i cs is h.2 e)

-- What the end of a batch does to the tables.
pub record Ended (id : String) (jobs : List ChunkJob) (db db' : Database) : Type 0 where
  rekeyed : Rekeyed db db'
  settled : HeldRows id db.chunks (chunk_ids jobs) → IsCounted db'
  absent : get db id ≡ none → All (λ j. row j.chunk_id db.chunks ≡ none) jobs → db' ≡ db
  others :
      (file_id : String) (i : ℕ)
      → is_in i (chunk_ids jobs) ≡ false
      → HeldRows file_id db.chunks (i ∷ [])
      → HeldRows file_id db'.chunks (i ∷ [])

module _ (id : String) (mine : ChunkJob → Bool) (held : List ChunkJob) (db : Database)
    (one : OneFile id (select mine held)) (h : Consistent db held) where
  close_batch-IsSound : {db' : Database} → Ended id (select mine held) db db' → IsSound db'
  close_batch-IsSound e =
      let in_hand =
        All-map (select mine held) (λ j g. g.0) (All-select (InHand db) mine held h.in_hand) in
      elim (Option-cases (get db id)) [
        | inl gone ↦
            let rows =
              All-zip (select mine held) (λ j same g. g.gone (ap (get db) same ∙ gone)) one
                in_hand in
            rw (e.absent gone rows) h.sound
        | inr (r, there) ↦
            let rows =
              InHand-HeldRows id db r (select mine held) there one in_hand
                (Distinct-select job_id mine held h.distinct) in
            Rekeyed-IsSound e.rekeyed (e.settled rows) h.sound
      ]

  pub close_batch-Consistent :
      {db' : Database}
      → Ended id (select mine held) db db'
      → Consistent db' (select (λ j. not (mine j)) held)
  close_batch-Consistent {db'} e = record {
    sound = close_batch-IsSound e;
    in_hand =
        All-zip (select (λ j. not (mine j)) held)
          (λ j g out. InHand-Rekeyed j e.rekeyed (e.others j.file_id j.chunk_id out) g.0)
          (All-select (InHand db) (λ j. not (mine j)) held h.in_hand)
          (Distinct-parts job_id mine held h.distinct);
    distinct = Distinct-select job_id (λ j. not (mine j)) held h.distinct;
  }

pub complete_batch-Ended :
    (id : String) (db : Database) (jobs : List ChunkJob) (now : Time)
    → OneFile id jobs
    → IsSound db
    → Ended id jobs db (complete_batch db jobs now)
complete_batch-Ended id db jobs now one h = record {
  rekeyed = complete_batch-Rekeyed db jobs now;
  settled =
      λ held. complete_batch-IsCounted db jobs now h.counted (HeldRows-Held id db jobs one held);
  absent = complete_batch-absent id db jobs now one;
  others = λ other i out. complete_batch-HeldRows other db jobs (i ∷ []) now (out, tt);
}

pub fail_batch-Ended :
    (c : Settings) (id : String) (db : Database) (jobs : List ChunkJob) (error : List ℕ)
    (now : Time)
    → OneFile id jobs
    → IsSound db
    → Ended id jobs db (fail_batch c db jobs error now)
fail_batch-Ended c id db jobs error now one h = record {
  rekeyed = fail_batch-Rekeyed c db jobs error now;
  settled = λ held.
      fail_batch-IsCounted c db jobs error now h.counted (HeldRows-Held id db jobs one held);
  absent = fail_batch-absent c id db jobs error now one;
  others = λ other i. fail_batch-HeldRows c other db jobs error now i;
}

pub claim_batch-Consistent :
    (c : Settings) (limit : Option ℕ) (db : Database) (held : List ChunkJob) (now : Time)
    → Consistent db held
    → Consistent (claim_batch c limit db now).1 ((claim_batch c limit db now).0 ++ held)
claim_batch-Consistent c limit db held now h =
    let (jobs, db') = claim_batch c limit db now in
    let claimed : Claimed db (or_default limit c.claim_batch_size) (claim_batch c limit db now) =
      claim_batch-Claimed c limit db now h.sound.counted in
    let rekeyed : Rekeyed db (claim_batch c limit db now).1 = claim_batch-Rekeyed c limit db now in
    let sound : IsSound (claim_batch c limit db now).1 =
      Rekeyed-IsSound rekeyed claimed.counted h.sound in
    let (id, one) = claimed.one_file in
    let rows =
      Held-HeldRows id (claim_batch c limit db now).1 (claim_batch c limit db now).0 one
        claimed.held in
    record {
      sound = sound;
      in_hand =
          All-append _ (claim_batch c limit db now).0 held (held-InHand id _ _ sound one rows) (
            All-map held
              (λ j g.
                InHand-Rekeyed j rekeyed (λ r. (claimed.others j.file_id (j.chunk_id ∷ []) r).1) g)
              h.in_hand);
      distinct =
          Distinct-append job_id (claim_batch c limit db now).0 held (Distinct-held id _ _ rows)
            h.distinct
            (All-map held
              (λ j g. elim (Option-cases (get db j.file_id)) [
                | inl gone ↦
                    not_held id j.chunk_id _ _ rows (rekeyed.no_rows j.chunk_id (g.gone gone))
                | inr (r, there) ↦
                    (claimed.others j.file_id (j.chunk_id ∷ []) (g.there r there)).0.0
              ])
              h.in_hand);
    }
