-- ===== src/Files/Lookup.antt =====
-- app/repositories/sql/file_repository.py: what a lookup finds after each statement.
use mathlib.Core.Option
use rag_semantic_search.Prelude.{
  none, false, select, if◌then◌else◌, ◌++◌, str_refl, ◌≡◌, refl, sym, ap, subst, ◌∙◌, ◌≢◌, ◌⊎◌, inl,
  inr, true, some, List, [], ◌∷◌, arith, String, str_eq, eq_iff, update_where, Bool-cases,
  Option-cases,
}
use rag_semantic_search.Database.{FileRecord, Database}
use rag_semantic_search.Files.{find_file, get, update_file, get_owned}
use rag_semantic_search.Errors.{ok}

abbrev pub KeepsId : (FileRecord → FileRecord) → Type 0
KeepsId set = (r : FileRecord) → (set r).file_id ≡ r.file_id

find_file-update_self :
    (id : String) (set : FileRecord → FileRecord) (rs : List FileRecord)
    → KeepsId set
    → find_file id (update_where (λ r. str_eq r.file_id id) set rs)
      ≡ Option.map set (find_file id rs)
unfolding find_file update_where
find_file-update_self id set [] k = refl
find_file-update_self id set (r ∷ rs) k = ground (arith, k r, find_file-update_self id set rs k)

find_file-update_ne :
    (id j : String) (set : FileRecord → FileRecord) (rs : List FileRecord)
    → KeepsId set
    → j ≢ id
    → find_file j (update_where (λ r. str_eq r.file_id id) set rs) ≡ find_file j rs
unfolding find_file update_where
find_file-update_ne id j set [] k h = refl
find_file-update_ne id j set (r ∷ rs) k h =
    ground
      (arith, k r, eq_iff r.file_id id, eq_iff r.file_id j, find_file-update_ne id j set rs k h)

pub get-update_file_self :
    (db : Database) (id : String) (set : FileRecord → FileRecord)
    → KeepsId set
    → get (update_file db id set) id ≡ Option.map set (get db id)
unfolding get update_file
get-update_file_self db id set k = find_file-update_self id set db.files k

pub get-update_file_ne :
    (db : Database) (id j : String) (set : FileRecord → FileRecord)
    → KeepsId set
    → j ≢ id
    → get (update_file db id set) j ≡ get db j
unfolding get update_file
get-update_file_ne db id j set k h = find_file-update_ne id j set db.files k h

find_file-file_id :
    (id : String) (rs : List FileRecord) (r : FileRecord)
    → find_file id rs ≡ some r
    → r.file_id ≡ id
unfolding find_file
find_file-file_id id [] r e = ground arith
find_file-file_id id (x ∷ rs) r e = ground (arith, eq_iff x.file_id id, find_file-file_id id rs r)

pub file_id-get :
    (db : Database) (id : String) (r : FileRecord) → get db id ≡ some r → r.file_id ≡ id
unfolding get
file_id-get db id r e = find_file-file_id id db.files r e

pub get_owned-get :
    (db : Database) (id owner : String) (r : FileRecord)
    → get db id ≡ some r
    → str_eq r.owner_id owner ≡ true
    → get_owned db id owner ≡ ok r
unfolding get_owned
get_owned-get db id owner r e o = ground arith

-- A row found after an update was there before: changed if it is the one updated.
pub get-update_file :
    (db : Database) (id j : String) (set : FileRecord → FileRecord) (r' : FileRecord)
    → KeepsId set
    → get (update_file db id set) j ≡ some r'
    → (r : FileRecord) × (get db j ≡ some r) × (((j ≡ id) × (r' ≡ set r)) ⊎ ((j ≢ id) × (r' ≡ r)))
get-update_file db id j set r' k e = elim (Bool-cases (str_eq j id)) [
  | inl same ↦
      let eq : j ≡ id = (eq_iff j id).0 same in
      let e' : Option.map set (get db id) ≡ some r' =
        sym (get-update_file_self db id set k)
        ∙ subst (λ i. get (update_file db id set) i ≡ some r') eq e in
      elim (Option-cases (get db id)) [
        | inl gone ↦ absurd (ground arith)
        | inr (r, there) ↦ (r, ap (get db) eq ∙ there, inl (eq, ground arith))
      ]
  | inr other ↦
      let ne : j ≢ id = λ eq. ground (arith, eq_iff j id) in
      (r', sym (get-update_file_ne db id j set k ne) ∙ e, inr (ne, refl))
]

-- DELETE, and INSERT of a row that is new.
pub find_file-select_self :
    (id : String) (rs : List FileRecord)
    → find_file id (select (λ r. if str_eq r.file_id id then false else true) rs) ≡ none
unfolding find_file select
find_file-select_self id [] = refl
find_file-select_self id (r ∷ rs) = ground (arith, find_file-select_self id rs)

pub find_file-select_ne :
    (id j : String) (rs : List FileRecord)
    → j ≢ id
    → find_file j (select (λ r. if str_eq r.file_id id then false else true) rs) ≡ find_file j rs
unfolding find_file select
find_file-select_ne id j [] ne = refl
find_file-select_ne id j (r ∷ rs) ne =
    ground (arith, eq_iff r.file_id id, eq_iff r.file_id j, find_file-select_ne id j rs ne)

pub find_file-append :
    (id : String) (rs : List FileRecord) (r : FileRecord)
    → find_file id rs ≡ none
    → r.file_id ≡ id
    → find_file id (rs ++ (r ∷ [])) ≡ some r
unfolding find_file
find_file-append id [] r h e = rw (e, str_refl id) refl
find_file-append id (x ∷ rs) r h e = ground (arith, find_file-append id rs r)

pub find_file-append_ne :
    (id : String) (rs : List FileRecord) (r : FileRecord)
    → id ≢ r.file_id
    → find_file id (rs ++ r ∷ []) ≡ find_file id rs
unfolding find_file
find_file-append_ne id [] r ne = ground (arith, eq_iff r.file_id id)
find_file-append_ne id (x ∷ rs) r ne = ground (arith, find_file-append_ne id rs r ne)

pub find_file-append_none :
    (id : String) (rs : List FileRecord) (r : FileRecord)
    → find_file id (rs ++ r ∷ []) ≡ none
    → find_file id rs ≡ none
unfolding find_file
find_file-append_none id [] r h = refl
find_file-append_none id (x ∷ rs) r h = ground (arith, find_file-append_none id rs r)

pub get-get_owned :
    (db : Database) (id owner : String) (r : FileRecord)
    → get_owned db id owner ≡ ok r
    → get db id ≡ some r
unfolding get_owned
get-get_owned db id owner r e = elim (Option-cases (get db id)) [
  | inl gone ↦ absurd (ground arith)
  | inr (x, there) ↦ ground arith
]
