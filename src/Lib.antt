-- ===== src/Lib.antt =====
-- Verification of a service that takes large text files in chunks, cuts them into passages while they
-- arrive, indexes the passages in the background, and answers semantic searches over them.
--
-- An upload goes through `UploadService` (app/services/upload_service.py): each chunk is checked,
-- appended to the upload's file on disk, cut into passages by the chunker (app/rag/ingestion/
-- chunker.py) and queued as rows of the table `chunks`, and the row of the table `files` is brought
-- up to date, all in one transaction. Workers (app/tasks/worker.py) claim batches of queued rows
-- through the job queue (app/tasks/job_queue.py), read their bytes and hand them to the index.
--
-- The files of the library:
--   Prelude: arithmetic, lists, rows of a table, the library names that the other files share.
--   Config, Config/Sizing: app/core/config.py, its settings and `passage_size_for`, which
--   raises where a divisor is zero. Python's floats are the parameter `Floats`, and `FloatLaws` says what the code relies on; Config/Sizing/Exact
--   meets it with whole numbers. Config/Environment reads the variables, Config/Loading reads back what
--   was written.
--   Utf8: the decoder that Python's `bytes.decode` is, with its first error and its replacements; it
--   is of the standard library. Validators:
--   app/services/upload/validators.py; Validators/Plain gives it text in ASCII.
--   Chunker: app/rag/ingestion/chunker.py. `LineBuffer` is the buffer with its place in the stream;
--   `drain` recurses on fuel, one unit for each pass of the `while` loop, and `none` stands for a
--   loop that has not ended. Chunker/Cut bounds one cut, Chunker/Coverage a drain with enough
--   fuel, Chunker/Session a whole upload.
--   Database, Files, Chunks: app/db/db.py and app/repositories/sql/*.py, a table as a list of rows in
--   the order of their keys, one function for each query. Database/Connections: the connection of each thread, with sqlite3 as the
--   parameter `Sqlite`; Database/Transactions compares its transaction with that of World.
--   Errors: app/core/exceptions.py.
--   JobQueue: app/tasks/job_queue.py. JobQueue/Counters states what the counters of a file mean and
--   keeps it through a completed batch, JobQueue/Failing through a failed one (JobQueue/Updating has
--   the rows after either), JobQueue/Selecting
--   and JobQueue/Claiming through a claim, JobQueue/Recovering through a start. JobQueue/Filling says
--   what `enqueue` adds, JobQueue/Soundness what holds of both tables between transactions,
--   JobQueue/Rekeying and JobQueue/Registering which writes keep it.
--   Storage: app/repositories/file_storage_repository.py, the partial and the final file of an upload.
--   World: what a service call reads and writes, and the transaction of app/db/db.py.
--   UploadService: app/services/upload_service.py. UploadService/Appending follows `append_chunk`,
--   UploadService/Completing the completion of an upload, UploadService/Retrying a request that is sent
--   again, UploadService/Isolation another caller, UploadService/Deleting the deletion,
--   UploadService/Lifecycle a whole upload, UploadService/Accounting the two tables on every branch,
--   UploadService/Restarting an upload through the death of the process and
--   UploadService/Recompleting its completion.
--   Index: app/repositories/vector_repository.py, app/rag/pipeline.py and app/rag/ingestion/embedder.py,
--   with the Qdrant client and the model as the parameter `Backend`. Index/Repeating ingests a batch
--   twice, with what Qdrant documents of an upsert as the record `Overwrites`. Index/Model has the steps of the
--   threads that load the model, Index/Once what holds of them.
--   Worker: app/tasks/worker.py, one batch of a worker and `drain_once`. Worker/Batches keeps the counters
--   through a batch; Worker/Attempts bounds the attempts of the passages that wait, Worker/Draining
--   follows them through the transactions, Worker/Progress through a batch and Worker/Emptying through
--   the loop. Worker/Thread: the loop of a thread, whose database takes or refuses each
--   transaction; Worker/Turns follows one turn and Worker/Running the loop to its end, and
--   Worker/Agreeing compares a turn without an outage with the batch of Worker.
--   WorkerPool: the pool of app/tasks/worker.py, and the lifespan and the health check of app/main.py;
--   WorkerPool/Lifespan follows a process from its start to its end.
--   System: the transactions of all clients and workers as steps, in any order. System/Holding,
--   System/Changing, System/Ending and System/Batches follow the jobs in hand, System/Soundness the
--   tables; System/Passages has the lifecycle of a passage with the kinds of steps, and
--   System/Settling, System/Moving and System/Refining hold every step against it. System/Retries
--   keeps the counts of retries of the jobs in hand, and System/Attempts counts the failures of a
--   passage over a run.
--   UploadSlots: app/services/upload/concurrency.py; UploadSlots/Limit lets requests come and go.
--   Search: app/services/search_service.py and app/rag/retrieval/retriever.py; Search/Hits follows the hits.
--   Status: `_to_status` of app/api/v1/upload.py; Status/Progress bounds the progress.
--   Http: app/core/error_handlers.py, the texts of app/core/exceptions.py and app/api/deps.py.
--   Http/Uploads: app/api/v1/upload.py with app/schemas/upload.py; Http/Searching: app/api/v1/search.py
--   with app/schemas/search.py. Http/Hidden compares answers, Http/Resuming follows a client that
--   resumes, Http/Codes looks at the status codes, Http/Listing at the listing.
--   Http/Decimals reads a printed number. Http/Routing: the routes of app/api/v1 and app/main.py;
--   Http/OpenApi: app/core/openapi.py, with FastAPI's generator as a parameter; Http/Operations
--   and Http/Documented compare the document with the routes.
--   Samples: concrete inputs.
--
-- Bounds and fuel: all numbers are natural; sizes that Python would subtract below zero are written
-- with `minus` into ℤ or with the test that guards them. A drain gets fuel for each byte of its buffer
-- and one more; since each pass drops a byte or more, that is enough for the sizes of `IsSized`.
--
-- The loop `drain_once` gets fuel for its turns; Worker/Attempts counts for each passage that waits one
-- attempt and the retries that it may have yet, and more fuel than that is enough.
--
-- A worker's thread gets fuel for one turn more than it makes before it is told to stop.
--
-- Not modelled: the construction of the FastAPI application and the registration of its handlers
-- (app/main.py), which are calls with constants; logging; the embedding model and the Qdrant client. The
-- writes of SQLite are atomic as app/db/db.py has them: `BEGIN IMMEDIATE` lets one transaction write at a
-- time, so a step of System is a whole transaction.
pub mod Prelude
pub mod Config
pub mod Utf8
pub mod Validators
pub mod Database
pub mod Errors
pub mod Files
pub mod Chunks
pub mod JobQueue
pub mod Storage
pub mod World
pub mod UploadSlots
pub mod UploadService
pub mod Index
pub mod Status
pub mod System
pub mod Http
pub mod Search
pub mod Worker
pub mod WorkerPool
pub mod Chunker
mod Samples
