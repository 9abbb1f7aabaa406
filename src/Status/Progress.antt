-- ===== src/Status/Progress.antt =====
-- app/api/v1/upload.py: the progress that a client sees is a share of the whole.
use rag_semantic_search.Prelude.{◌+◌, ◌≤◌, ◌<◌, ◌≡◌, some, true, List, [], ◌∷◌, arith, String, ltb}
use rag_semantic_search.Database.{
  FileRecord, ChunkRow, ChunkStatus, Database, is_indexed, is_failed,
}
use rag_semantic_search.Files.{get}
use rag_semantic_search.Chunks.Counts.{tally, one_if}
use rag_semantic_search.JobQueue.Counters.{IsCounted}
use rag_semantic_search.Status.{Quotient, to_status}

-- A number from 0 to 1.
abbrev pub IsShare : Quotient → Type 0
IsShare x = (0 < x.denominator) × (x.numerator ≤ x.denominator)

settled_one : (s : ChunkStatus) → one_if (is_indexed s) + one_if (is_failed s) ≤ 1
settled_one s = ground arith

settled_rows :
    (id : String) (cs : List ChunkRow)
    → tally is_indexed id cs + tally is_failed id cs ≤ tally (λ _. true) id cs
settled_rows id [] = omega arith
settled_rows id (c ∷ cs) = ground (arith, settled_one c.status, settled_rows id cs)

-- Where the counters are right, both kinds of progress are shares, whatever total size the client
-- stated, and the upload is searchable just where some row of it is indexed.
pub to_status-IsShare :
    (db : Database) (id : String) (r : FileRecord)
    → IsCounted db
    → get db id ≡ some r
    → IsShare (to_status r).upload_progress
      × IsShare (to_status r).processing_progress
      × ((to_status r).searchable ≡ ltb 0 (tally is_indexed id db.chunks))
unfolding to_status
to_status-IsShare db id r h row =
    let k = h.counted id r row in
    (
      ground arith,
      ground (arith, k.total, k.indexed, k.failed, settled_rows id db.chunks),
      ground (arith, k.indexed),
    )
