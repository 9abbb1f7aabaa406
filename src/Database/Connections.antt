-- ===== src/Database/Connections.antt =====
-- app/db/db.py: one connection for each thread, the transaction and the schema. The module sqlite3 and
-- the file system are the parameter `Sqlite`; `schema` is the text of SCHEMA, whose tables are those of
-- Database.
use rag_semantic_search.Prelude.{ℕ, Option, some, none, List, [], ◌∷◌, String, ◌==◌, if◌then◌else◌}
use rag_semantic_search.Errors.{Raised, Result, ok, err}

pub record Sqlite : Type 1 where
  pub Connection : Type 0
  pub Store : Type 0
  pub mkdir : Store → Store
  pub connect : Store → Result Connection × Store
  pub set_row_factory : Connection → Store → Store
  pub execute : Connection → String → Store → Result (Unit {0}) × Store
  pub executescript : Connection → String → Store → Result (Unit {0}) × Store
  pub close : Connection → Store → Store

-- The store that all threads share, and `_local.conn` of each thread.
pub record Threads (q : Sqlite) : Type 0 where
  pub store : q.Store
  pub local : ℕ → Option q.Connection

module _ (q : Sqlite) where
  abbrev pub with_store : Threads q → q.Store → Threads q
  with_store t s = record t { store = s }

  abbrev pub set_local : Threads q → ℕ → Option q.Connection → Threads q
  set_local t thread conn = record t { local = λ i. if i == thread then conn else t.local i }

  abbrev pub execute_next :
      (q.Store → Result (Unit {0}) × q.Store)
      → Result (Unit {0}) × q.Store
      → Result (Unit {0}) × q.Store
  execute_next rest (err e, s) = (err e, s)
  execute_next rest (ok done, s) = rest s

  -- statements in turn, up to the first that raises
  unfoldable pub execute_all : q.Connection → List String → q.Store → Result (Unit {0}) × q.Store
  execute_all conn [] s = (ok tt, s)
  execute_all conn (sql ∷ rest) s = execute_next (execute_all conn rest) (q.execute conn sql s)

  abbrev pub pragmas : List String
  pragmas =
      "PRAGMA journal_mode=WAL" ∷ "PRAGMA synchronous=NORMAL" ∷ "PRAGMA foreign_keys=ON"
      ∷ "PRAGMA busy_timeout=30000" ∷ []

  -- a connection whose pragmas raise is not kept
  abbrev pub keep_connection :
      Threads q → ℕ → q.Connection → Result (Unit {0}) × q.Store → Result q.Connection × Threads q
  keep_connection t thread conn (err e, s) = (err e, with_store t s)
  keep_connection t thread conn (ok done, s) =
      (ok conn, set_local (with_store t s) thread (some conn))

  abbrev pub prepare :
      Threads q → ℕ → Result q.Connection × q.Store → Result q.Connection × Threads q
  prepare t thread (err e, s) = (err e, with_store t s)
  prepare t thread (ok conn, s) =
      keep_connection t thread conn (execute_all conn pragmas (q.set_row_factory conn s))

  abbrev pub cached_or_new : Threads q → ℕ → Option q.Connection → Result q.Connection × Threads q
  cached_or_new t thread (some conn) = (ok conn, t)
  cached_or_new t thread none = prepare t thread (q.connect (q.mkdir t.store))

  unfoldable pub get_connection : ℕ → Threads q → Result q.Connection × Threads q
  unfolding execute_all
  get_connection thread t = cached_or_new t thread (t.local thread)

  abbrev pub committed : {A : Type 0} → A → Result (Unit {0}) × q.Store → Result A × q.Store
  committed a (ok done, s) = (ok a, s)
  committed a (err e, s) = (err e, s)

  abbrev pub rolled_back : {A : Type 0} → Raised → Result (Unit {0}) × q.Store → Result A × q.Store
  rolled_back e (ok done, s) = (err e, s)
  rolled_back e (err e', s) = (err e', s)

  abbrev pub end_block : {A : Type 0} → q.Connection → Result A × q.Store → Result A × q.Store
  end_block conn (ok a, s) = committed a (q.execute conn "COMMIT" s)
  end_block conn (err e, s) = rolled_back e (q.execute conn "ROLLBACK" s)

  abbrev pub run_block :
      {A : Type 0}
      → q.Connection
      → (q.Connection → q.Store → Result A × q.Store)
      → Result (Unit {0}) × q.Store
      → Result A × q.Store
  run_block conn block (err e, s) = (err e, s)
  run_block conn block (ok done, s) = end_block conn (block conn s)

  abbrev pub on_connection :
      {A : Type 0}
      → (q.Connection → q.Store → Result A × q.Store)
      → Result q.Connection × Threads q
      → Result A × Threads q
  on_connection act (err e, t) = (err e, t)
  on_connection act (ok conn, t) = let (r, s) = act conn t.store in (r, with_store t s)

  -- `with db.transaction() as conn: block`
  unfoldable pub run_transaction :
      {A : Type 0}
      → ℕ
      → (q.Connection → q.Store → Result A × q.Store)
      → Threads q
      → Result A × Threads q
  unfolding get_connection
  run_transaction thread block t =
      on_connection (λ conn s. run_block conn block (q.execute conn "BEGIN IMMEDIATE" s))
        (get_connection thread t)

  unfoldable pub create_schema : String → ℕ → Threads q → Result (Unit {0}) × Threads q
  unfolding get_connection
  create_schema schema thread t =
      on_connection (λ conn s. q.executescript conn schema s) (get_connection thread t)

  abbrev pub close_cached : Threads q → ℕ → Option q.Connection → Threads q
  close_cached t thread none = t
  close_cached t thread (some conn) = set_local (with_store t (q.close conn t.store)) thread none

  unfoldable pub close_connection : ℕ → Threads q → Threads q
  close_connection thread t = close_cached t thread (t.local thread)
