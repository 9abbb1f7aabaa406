-- ===== src/Http/Listing.antt =====
-- app/api/v1/upload.py, `list_files`: which uploads a client sees.
use rag_semantic_search.Prelude.{ℕ, ◌≤◌, ◌≡◌, List, length, String}
use rag_semantic_search.Prelude.All.{All}
use rag_semantic_search.Database.{Database}
use rag_semantic_search.Status.{FileStatus}
use rag_semantic_search.UploadService

-- Uploads of one owner, as many as asked for at most.
pub record Listed (owner : String) (limit : ℕ) (files : List FileStatus) : Type 0 where
  pub own : All (λ (f : FileStatus). f.owner_id ≡ owner) files
  pub within : length files ≤ limit
