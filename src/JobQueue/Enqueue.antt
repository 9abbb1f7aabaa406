-- ===== src/JobQueue/Enqueue.antt =====
-- app/tasks/job_queue.py, `enqueue`: what it adds to the queue.
use rag_semantic_search.Prelude.{ℕ, ◌+◌, ◌≡◌, refl, ap, ◌∙◌, List, [], ◌∷◌, arith, length, String}
use rag_semantic_search.Chunker.{PassageRange}
use rag_semantic_search.Database.{Database, Time}
use rag_semantic_search.Files.{get, find_file}
use rag_semantic_search.Chunks.{Passage, insert_one, insert_pending}
use rag_semantic_search.JobQueue.{numbered, enqueue}

insert_one-files :
    (id : String) (now : Time) (db : Database) (p : Passage)
    → (insert_one id now db p).files ≡ db.files
unfolding insert_one
insert_one-files id now db p = ground arith

insert_pending-files :
    (db : Database) (id : String) (rows : List Passage) (now : Time)
    → (insert_pending db id rows now).files ≡ db.files
unfolding insert_pending
insert_pending-files db id [] now = refl
insert_pending-files db id (p ∷ rows) now =
    insert_pending-files (insert_one id now db p) id rows now ∙ insert_one-files id now db p

enqueue-files :
    (db : Database) (id : String) (ps : List PassageRange) (n : ℕ) (now : Time)
    → (enqueue db id ps n now).1.files ≡ db.files
unfolding enqueue
enqueue-files db id [] n now = refl
enqueue-files db id (p ∷ ps) n now = insert_pending-files db id (numbered n (p ∷ ps)) now

-- The `files` table is not touched.
pub get-enqueue :
    (db : Database) (id : String) (ps : List PassageRange) (n : ℕ) (now : Time) (j : String)
    → get (enqueue db id ps n now).1 j ≡ get db j
unfolding get
get-enqueue db id ps n now j = ap (find_file j) (enqueue-files db id ps n now)

-- The next free sequence counts the passages, also where there are none.
pub enqueue-next :
    (db : Database) (id : String) (ps : List PassageRange) (n : ℕ) (now : Time)
    → (enqueue db id ps n now).0 ≡ n + length ps
unfolding enqueue
enqueue-next db id [] n now = omega arith
enqueue-next db id (p ∷ ps) n now = refl
