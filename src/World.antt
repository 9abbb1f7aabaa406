-- ===== src/World.antt =====
-- The state that a service call reads and writes, and calls as actions on it: what was written to
-- disk before a raise stays written, and a transaction of app/db/db.py that raises rolls the
-- database back.
use rag_semantic_search.Prelude.{Bool, true, false}
use rag_semantic_search.Database.{Database, Time}
use rag_semantic_search.Storage.{Disk}
use rag_semantic_search.Errors.{DomainError, Raised, Result, ok, err}

-- What a service call can read and write, and the time that it sees.
pub record World : Type 0 where
  pub db : Database
  pub disk : Disk
  pub now : Time

abbrev pub Exec : Type 0 → Type 0
Exec A = World → Result A × World

abbrev pub pure : {A : Type 0} → A → Exec A
pure a w = (ok a, w)

abbrev pub raise : {A : Type 0} → DomainError → Exec A
raise e w = (err (Raised.domain e), w)

abbrev pub lift : {A : Type 0} → Result A → Exec A
lift r w = (r, w)

abbrev pub gets : {A : Type 0} → (World → A) → Exec A
gets f w = (ok (f w), w)

abbrev pub set_db : Database → Exec (Unit {0})
set_db db w = (ok tt, record w { db = db })

abbrev pub set_disk : Disk → Exec (Unit {0})
set_disk disk w = (ok tt, record w { disk = disk })

-- `if test: raise e`
abbrev pub raise_if : Bool → DomainError → Exec (Unit {0})
raise_if true e = raise e
raise_if false e = pure tt

abbrev pub continue : {A B : Type 0} → Result A → (A → Exec B) → Exec B
continue (ok a) f w = f a w
continue (err e) f w = (err e, w)

infixl 10 ◌>>=◌ ◌>>◌
abbrev pub ◌>>=◌ : {A B : Type 0} → Exec A → (A → Exec B) → Exec B
◌>>=◌ m f w = let (r, w') = m w in continue r f w'

abbrev pub ◌>>◌ : {A B : Type 0} → Exec A → Exec B → Exec B
m >> n = m >>= λ _. n

-- BEGIN IMMEDIATE … COMMIT, or ROLLBACK and raise
abbrev pub commit_or_rollback : {A : Type 0} → Database → Result A × World → Result A × World
commit_or_rollback before (ok a, w) = (ok a, w)
commit_or_rollback before (err e, w) = (err e, record w { db = before })

abbrev pub transaction : {A : Type 0} → Exec A → Exec A
transaction m w = commit_or_rollback w.db (m w)
