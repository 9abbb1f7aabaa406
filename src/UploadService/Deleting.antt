-- ===== src/UploadService/Deleting.antt =====
-- app/services/upload_service.py, `delete_upload`: what is gone, and what is left.
use rag_semantic_search.Prelude.{
  ◌≡◌, ◌≢◌, refl, Bool, true, some, none, arith, String, str_eq, eq_iff, str_refl,
}
use rag_semantic_search.Database.{FileRecord, ChunkStatus}
use rag_semantic_search.Files
use rag_semantic_search.Files.{find_file, get}
use rag_semantic_search.Files.Lookup.{get_owned-get}
use rag_semantic_search.Files.Lookup.{find_file-select_self, find_file-select_ne}
use rag_semantic_search.Chunks.Lookup.{tally-select_self, tally-select_ne}
use rag_semantic_search.Storage
use rag_semantic_search.Storage.{Disk}
use rag_semantic_search.Chunks.Counts.{tally}
use rag_semantic_search.World.{World, Exec}
use rag_semantic_search.UploadService.{delete_upload}

-- The upload `id` is gone, and no other has changed.
pub record Deleted (id : String) (w w' : World) : Type 0 where
  pub no_row : get w'.db id ≡ none
  pub no_passages : tally (λ _. true) id w'.db.chunks ≡ 0
  pub no_partial : w'.disk.partial id ≡ none
  pub no_final : w'.disk.final id ≡ none
  pub other_rows : (j : String) → j ≢ id → get w'.db j ≡ get w.db j
  pub other_passages :
      (q : ChunkStatus → Bool) (j : String)
      → j ≢ id
      → tally q j w'.db.chunks ≡ tally q j w.db.chunks
  pub other_files :
      (j : String)
      → j ≢ id
      → (w'.disk.partial j ≡ w.disk.partial j) × (w'.disk.final j ≡ w.disk.final j)

abbrev without : String → World → World
without id w = record w { db = Files.delete w.db id; disk = Storage.delete_all w.disk id }

without-Deleted : (id : String) (w : World) → Deleted id w (without id w)
unfolding Files.delete Storage.delete_all get
without-Deleted id w = record {
  no_row = find_file-select_self id w.db.files;
  no_passages = tally-select_self (λ _. true) id w.db.chunks;
  no_partial = rw (str_refl id) refl;
  no_final = rw (str_refl id) refl;
  other_rows = λ j ne. find_file-select_ne id j w.db.files ne;
  other_passages = λ q j ne. tally-select_ne q id j w.db.chunks ne;
  other_files = λ j ne. (ground (arith, eq_iff j id), ground (arith, eq_iff j id));
}

-- The owner's deletion removes the row, the passages and both files of the upload and no other's,
-- and
-- ends with dropping its collection, whatever that call does.
pub delete_upload-Deleted :
    (drop : String → Exec (Unit {0})) (id owner : String) (r : FileRecord) (w : World)
    → get w.db id ≡ some r
    → str_eq r.owner_id owner ≡ true
    → (w' : World) × (delete_upload drop id owner w ≡ drop id w') × Deleted id w w'
unfolding delete_upload
delete_upload-Deleted drop id owner r w row owned =
    (without id w, ground (arith, get_owned-get w.db id owner r row owned), without-Deleted id w)
