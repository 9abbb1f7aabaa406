-- ===== src/Worker/Agreeing.antt =====
-- app/tasks/worker.py: a batch whose transactions are all taken is that of `process_one_batch`.
use rag_semantic_search.Prelude.{◌≡◌, refl, true, some, none, List, [], ◌∷◌, Option}
use rag_semantic_search.Config.{Settings}
use rag_semantic_search.Utf8.{Text}
use rag_semantic_search.Database.{Database, Time}
use rag_semantic_search.Errors.{Raised, Result, ok, err}
use rag_semantic_search.Storage.{Looks}
use rag_semantic_search.Index.{Backend}
use rag_semantic_search.JobQueue.{ChunkJob, claim_batch, complete_batch}
use rag_semantic_search.Worker.{
  read_texts, keep, empty, settle, ingest_kept, index_texts, process_claimed, process_one_batch,
}
use rag_semantic_search.Worker.Thread.{
  Outage, Attempt, returned, try_settle, try_kept, try_empty, try_texts, try_claimed, try_batch,
}

-- SQLite takes every transaction.
pub record IsAvailable (o : Outage) : Type 0 where
  pub claims : o.claims ≡ true
  pub completes_empty : o.completes_empty ≡ true
  pub completes : o.completes ≡ true
  pub fails : o.fails ≡ true

module _ (b : Backend) (describe : Raised → Text) (c : Settings) (now : Time)
    (looks : ChunkJob → Looks) (o : Outage) (taken : IsAvailable o) where
  abbrev ended : Database × b.Collections → Attempt b
  ended (db, s) = returned true db s

  try_settle-settle :
      (db : Database) (jobs : List ChunkJob) (kept : List (ChunkJob × Text))
      (out : Option Text × b.Collections)
      → try_settle b describe c now looks o db jobs kept out
        ≡ ended (settle b describe c now db jobs kept out)
  try_settle-settle db jobs kept (none, s) = rw taken.completes refl
  try_settle-settle db jobs kept (some message, s) = rw taken.fails refl

  try_kept-ingest_kept :
      (db : Database) (s : b.Collections) (jobs : List ChunkJob) (kept : List (ChunkJob × Text))
      → try_kept b describe c now looks o db s jobs kept
        ≡ ended (ingest_kept b describe c now db s jobs kept)
  try_kept-ingest_kept db s jobs [] = refl
  try_kept-ingest_kept db s jobs ((job, text) ∷ kept) =
      try_settle-settle db jobs ((job, text) ∷ kept) _

  try_empty-ingest_kept :
      (db : Database) (s : b.Collections) (jobs done : List ChunkJob)
      (kept : List (ChunkJob × Text))
      → try_empty b describe c now looks o db s jobs done kept
        ≡ ended (ingest_kept b describe c now (complete_batch db done now) s jobs kept)
  unfolding complete_batch
  try_empty-ingest_kept db s jobs [] kept = try_kept-ingest_kept db s jobs kept
  try_empty-ingest_kept db s jobs (job ∷ done) kept =
      rw taken.completes_empty
        (try_kept-ingest_kept (complete_batch db (job ∷ done) now) s jobs kept)

  try_texts-index_texts :
      (db : Database) (s : b.Collections) (jobs : List ChunkJob)
      (texts : Result (List (ChunkJob × Text)))
      → try_texts b describe c now looks o db s jobs texts
        ≡ ended (index_texts b describe c now db s jobs texts)
  try_texts-index_texts db s jobs (err e) = rw taken.fails refl
  try_texts-index_texts db s jobs (ok pairs) =
      try_empty-ingest_kept db s jobs (empty pairs) (keep pairs)

  try_claimed-process_claimed :
      (s : b.Collections) (out : List ChunkJob × Database)
      → try_claimed b describe c now looks o s out ≡ (
          let (processed, db', s') = process_claimed b describe c now looks s out in
          returned processed db' s')
  try_claimed-process_claimed s ([], db) = refl
  try_claimed-process_claimed s (job ∷ jobs, db) =
      try_texts-index_texts db s (job ∷ jobs) (read_texts looks (job ∷ jobs))

  -- Where SQLite takes every transaction, a turn is a batch of `process_one_batch`.
  pub try_batch-process_one_batch :
      (db : Database) (s : b.Collections)
      → try_batch b describe c now looks o db s ≡ (
          let (processed, db', s') = process_one_batch b describe c now looks db s in
          returned processed db' s')
  unfolding try_batch process_one_batch
  try_batch-process_one_batch db s =
      rw taken.claims (try_claimed-process_claimed s (claim_batch c none db now))
