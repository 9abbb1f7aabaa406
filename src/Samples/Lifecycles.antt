-- ===== src/Samples/Lifecycles.antt =====
-- A whole upload of two bodies.
use mathlib.Core.List.{flatten}
use rag_semantic_search.Prelude.{ℕ, ◌≡◌, refl, inl, inr, some, List, [], ◌∷◌, arith}
use rag_semantic_search.Config.{defaults}
use rag_semantic_search.Config.Sizing.Exact.{exact, exact-FloatLaws}
use rag_semantic_search.Validators.{looks_like_binary}
use rag_semantic_search.Database.{UploadStatus, FileRecord, init_db}
use rag_semantic_search.Errors.{ok}
use rag_semantic_search.Files.{get}
use rag_semantic_search.Storage.{empty_disk}
use rag_semantic_search.World.{World}
use rag_semantic_search.UploadService.{create_upload, complete_upload}
use rag_semantic_search.UploadService.Lifecycle.{
  send_all, AcceptsAll, IsFresh, complete_upload-send_all,
}
use rag_semantic_search.Samples.Chunks.{defaults-IsSane}

abbrev start : World
start = record { db = init_db; disk = empty_disk; now = 3 }

-- "hi⏎" and "yo"
abbrev bodies : List (List ℕ)
bodies = (104 ∷ 105 ∷ 10 ∷ []) ∷ (121 ∷ 111 ∷ []) ∷ []

start-IsFresh : IsFresh "f1" start
unfolding get
start-IsFresh = record { no_row = refl; no_partial = refl; no_final = refl }

bodies-AcceptsAll : AcceptsAll defaults [] bodies
unfolding looks_like_binary
bodies-AcceptsAll =
    ((omega arith, omega arith, inr refl), ((omega arith, omega arith, inl (λ e. cc)), tt))

complete_upload-send_all_example :
    (r : FileRecord) × ((complete_upload defaults "f1" "ann" (
        send_all exact defaults "f1" "ann" 0 bodies (create_upload "f1" "ann" "a.log" 9 start).1)).0
      ≡ ok (some r))
    × (r.upload_status ≡ UploadStatus.completed)
    × (r.total_size ≡ 5)
    × ((complete_upload defaults "f1" "ann" (
            send_all exact defaults "f1" "ann" 0 bodies
              (create_upload "f1" "ann" "a.log" 9 start).1)).1.disk.final
          "f1"
        ≡ some (104 ∷ 105 ∷ 10 ∷ 121 ∷ 111 ∷ []))
unfolding flatten
complete_upload-send_all_example =
    complete_upload-send_all exact defaults "f1" "ann" exact-FloatLaws defaults-IsSane "a.log" 9
      bodies start start-IsFresh bodies-AcceptsAll (λ e. cc)
