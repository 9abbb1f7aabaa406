-- ===== src/Database/Transactions.antt =====
-- app/db/db.py: the transaction on SQLite is that of World, and each thread has one connection.
use rag_semantic_search.Prelude.{ℕ, ◌≡◌, ◌≢◌, refl, some, Bool, true}
use rag_semantic_search.Database.{Database}
use rag_semantic_search.Database.Connections.{Sqlite, Threads, get_connection, run_transaction}
use rag_semantic_search.Errors.{Raised, Result, ok, err}
use rag_semantic_search.World.{World, Exec}

-- What SQLite documents of a transaction that no other writer holds up. `active` is whether a
-- connection is inside a transaction: BEGIN is refused there, and COMMIT and ROLLBACK are refused
-- elsewhere. A BEGIN that is taken keeps the tables for a ROLLBACK; a COMMIT that is taken makes those
-- of the transaction stay; and inside a transaction a ROLLBACK is taken.
pub record Transactional (q : Sqlite) : Type 1 where
  pub tables : q.Store → Database
  pub saved : q.Connection → q.Store → Database
  pub active : q.Connection → q.Store → Bool
  pub begins :
      (conn : q.Connection) (s : q.Store)
      → (q.execute conn "BEGIN IMMEDIATE" s).0 ≡ ok tt
      → (tables (q.execute conn "BEGIN IMMEDIATE" s).1 ≡ tables s)
        × (saved conn (q.execute conn "BEGIN IMMEDIATE" s).1 ≡ tables s)
        × (active conn (q.execute conn "BEGIN IMMEDIATE" s).1 ≡ true)
  pub refuses :
      (conn : q.Connection) (s : q.Store) (e : Raised)
      → (q.execute conn "BEGIN IMMEDIATE" s).0 ≡ err e
      → tables (q.execute conn "BEGIN IMMEDIATE" s).1 ≡ tables s
  pub commits :
      (conn : q.Connection) (s : q.Store)
      → (q.execute conn "COMMIT" s).0 ≡ ok tt
      → tables (q.execute conn "COMMIT" s).1 ≡ tables s
  pub rolls_back :
      (conn : q.Connection) (s : q.Store)
      → active conn s ≡ true
      → ((q.execute conn "ROLLBACK" s).0 ≡ ok tt)
        × (tables (q.execute conn "ROLLBACK" s).1 ≡ saved conn s)

-- A block of statements that does to the tables what an action does, inside one transaction, which it
-- does not end.
pub record Does {q : Sqlite} (l : Transactional q) {A : Type 0} (now : World)
    (block : q.Connection → q.Store → Result A × q.Store) (m : Exec A) : Type 0 where
  pub result :
      (conn : q.Connection) (s : q.Store)
      → l.active conn s ≡ true
      → (block conn s).0 ≡ (m (record now { db = l.tables s })).0
  pub tables :
      (conn : q.Connection) (s : q.Store)
      → l.active conn s ≡ true
      → l.tables (block conn s).1 ≡ (m (record now { db = l.tables s })).1.db
  pub saved :
      (conn : q.Connection) (s : q.Store)
      → l.active conn s ≡ true
      → l.saved conn (block conn s).1 ≡ l.saved conn s
  pub active :
      (conn : q.Connection) (s : q.Store)
      → l.active conn s ≡ true
      → l.active conn (block conn s).1 ≡ true

-- The result and the tables are those of another run.
abbrev Agrees :
    {q : Sqlite} → Transactional q → {A : Type 0} → Result A × q.Store → Result A × World → Type 0
Agrees l out expected = (out.0 ≡ expected.0) × (l.tables out.1 ≡ expected.1.db)

-- A thread that has got a connection keeps it, and the other threads keep theirs.
record Gets {q : Sqlite} (t : Threads q) (thread : ℕ) (conn : q.Connection) (t' : Threads q)
    : Type 0 where
  pub cached : t'.local thread ≡ some conn
  pub others : (other : ℕ) → other ≢ thread → t'.local other ≡ t.local other

-- The COMMIT of a block that has a result is taken.
abbrev pub Commits : (q : Sqlite) {A : Type 0} → q.Connection → Result A × q.Store → Type 0
Commits q conn (ok a, s) = (q.execute conn "COMMIT" s).0 ≡ ok tt
Commits q conn (err e, s) = Unit {0}

module _ {q : Sqlite} (l : Transactional q) {A : Type 0} (w : World)
    (block : q.Connection → q.Store → Result A × q.Store) (m : Exec A)
    (does : Does l w block m) where
  -- A transaction whose BEGIN is refused raises that and leaves the tables as they were.
  pub run_transaction-refused :
      (thread : ℕ) (t t' : Threads q) (conn : q.Connection) (e : Raised)
      → get_connection q thread t ≡ (ok conn, t')
      → (q.execute conn "BEGIN IMMEDIATE" t'.store).0 ≡ err e
      → ((run_transaction q thread block t).0 ≡ err e)
        × (l.tables (run_transaction q thread block t).1.store ≡ l.tables t'.store)
  unfolding run_transaction
  run_transaction-refused thread t t' conn e got refused =
      rw (got, refused) (refl, l.refuses conn t'.store e refused)
