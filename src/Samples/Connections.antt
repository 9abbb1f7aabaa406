-- ===== src/Samples/Connections.antt =====
-- A store with the tables and those that a rollback goes back to, a thread that connects to it, and a
-- block that empties the tables and raises.
use rag_semantic_search.Prelude.{
  arith, Bool, true, false, ℕ, ◌≡◌, refl, none, some, String, str_eq, ◌==◌, if◌then◌else◌,
}
use rag_semantic_search.Database.{Database, init_db}
use rag_semantic_search.Database.Connections.{Sqlite, Threads}
use rag_semantic_search.Database.Transactions.{Transactional}
use rag_semantic_search.Errors.{Raised, Result, ok, err}
use rag_semantic_search.Storage.{empty_disk}
use rag_semantic_search.World.{World, Exec}
use rag_semantic_search.Samples.Queue.{db}

-- whether a transaction is open, the tables, and those that it goes back to
abbrev Tables : Type 0
Tables = Bool × Database × Database

abbrev begin_sql : Tables → Result (Unit {0}) × Tables
begin_sql (true, now, saved) = (err Raised.os_error, (true, now, saved))
begin_sql (false, now, saved) = (ok tt, (true, now, now))

abbrev commit_sql : Tables → Result (Unit {0}) × Tables
commit_sql (true, now, saved) = (ok tt, (false, now, saved))
commit_sql (false, now, saved) = (err Raised.os_error, (false, now, saved))

abbrev rollback_sql : Tables → Result (Unit {0}) × Tables
rollback_sql (true, now, saved) = (ok tt, (false, saved, saved))
rollback_sql (false, now, saved) = (err Raised.os_error, (false, now, saved))

abbrev run_sql : String → Tables → Result (Unit {0}) × Tables
run_sql sql s =
    if str_eq sql "BEGIN IMMEDIATE"
    then begin_sql s
    else if str_eq sql "ROLLBACK"
    then rollback_sql s
    else if str_eq sql "COMMIT"
    then commit_sql s
    else (ok tt, s)

abbrev sqlite : Sqlite
sqlite = record {
  Connection = ℕ;
  Store = Tables;
  mkdir = λ s. s;
  connect = λ s. (ok 7, s);
  set_row_factory = λ conn s. s;
  execute = λ conn sql s. run_sql sql s;
  executescript = λ conn sql s. (ok tt, s);
  close = λ conn s. s;
}

begins :
    (s : Tables)
    → (begin_sql s).0 ≡ ok tt
    → ((begin_sql s).1.1 ≡ s.1) × ((begin_sql s).1.2 ≡ s.1) × ((begin_sql s).1.0 ≡ true)
begins (true, now, saved) h = absurd (ground arith)
begins (false, now, saved) h = (refl, refl, refl)

refuses : (s : Tables) → (begin_sql s).1.1 ≡ s.1
refuses (true, now, saved) = refl
refuses (false, now, saved) = refl

commits : (s : Tables) → (commit_sql s).1.1 ≡ s.1
commits (true, now, saved) = refl
commits (false, now, saved) = refl

rolls_back : (s : Tables) → s.0 ≡ true → ((rollback_sql s).0 ≡ ok tt) × ((rollback_sql s).1.1 ≡ s.2)
rolls_back (true, now, saved) h = (refl, refl)
rolls_back (false, now, saved) h = absurd (ground arith)

abbrev transactional : Transactional sqlite
transactional = record {
  tables = λ s. s.1;
  saved = λ conn s. s.2;
  active = λ conn s. s.0;
  begins = λ conn s h. begins s h;
  refuses = λ conn s e h. refuses s;
  commits = λ conn s h. commits s;
  rolls_back = λ conn s h. rolls_back s h;
}

abbrev emptied : ℕ → Tables → Result ℕ × Tables
emptied conn (inside, now, saved) = (err Raised.os_error, (inside, init_db, saved))

abbrev emptying : Exec ℕ
emptying w = (err Raised.os_error, record w { db = init_db })

abbrev world : World
world = record { db = db; disk = empty_disk; now = 9 }

abbrev threads : Threads sqlite
threads = record { store = (false, db, init_db); local = λ i. none }

abbrev connected : Threads sqlite
connected = record threads { local = λ i. if i == 3 then some 7 else none }
