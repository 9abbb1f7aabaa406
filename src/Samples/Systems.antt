-- ===== src/Samples/Systems.antt =====
-- An upload that one client sends while a worker claims its passages.
use rag_semantic_search.Prelude.{ℕ, ◌≡◌, refl, none, some, List, [], ◌∷◌, ◌++◌}
use rag_semantic_search.Config.{defaults}
use rag_semantic_search.Config.Sizing.Exact.{exact}
use rag_semantic_search.Database.{ChunkStatus}
use rag_semantic_search.Files
use rag_semantic_search.Files.{get_owned, update_after_chunk, mark_finalizing}
use rag_semantic_search.Chunks.Counts.{row}
use rag_semantic_search.Chunker.{feed, flush, line_buffer}
use rag_semantic_search.Config.Sizing.{sizes_for, passage_size_for}
use rag_semantic_search.Validators.{looks_like_binary}
use rag_semantic_search.Storage.{empty_disk}
use rag_semantic_search.UploadService.{create_upload, append_chunk, begin_completion}
use rag_semantic_search.JobQueue.{claim_batch, enqueue}
use rag_semantic_search.System.{
  System, Reachable, initial, with_world, start, after, create, append, begin, claim,
}
use rag_semantic_search.System.Batches.{Consistent}
use rag_semantic_search.System.Soundness.{Reachable-Consistent}
use rag_semantic_search.System.Passages.{Move, stage_of}
use rag_semantic_search.System.Refining.{cause, Reachable-Move}
use rag_semantic_search.System.Attempts.{Tried, failures, Reachable-Tried}
use rag_semantic_search.Samples.Callers.{no_index}

abbrev fresh : System
fresh = initial empty_disk 1

abbrev registered : System
registered = with_world fresh (create_upload "f1" "ann" "server.log" 11 fresh.world).1

abbrev body : List ℕ
body = 97 ∷ 108 ∷ 112 ∷ 104 ∷ 97 ∷ 10 ∷ []

abbrev sent : System
sent = with_world registered (append_chunk exact defaults "f1" "ann" 0 body registered.world).1

registered-Reachable : Reachable exact defaults no_index registered
registered-Reachable = after (start empty_disk 1) (create "f1" "ann" "server.log" 11 tt)

-- the first transaction of the completion, which queues the passage
abbrev begun : System
begun = with_world sent (begin_completion defaults "f1" "ann" sent.world).1

begun-Reachable : Reachable exact defaults no_index begun
begun-Reachable = after (after registered-Reachable (append "f1" "ann" 0 body)) (begin "f1" "ann")

abbrev claimed : System
claimed = record {
  world = record begun.world { db = (claim_batch defaults none begun.world.db begun.world.now).1 };
  held = (claim_batch defaults none begun.world.db begun.world.now).0 ++ [];
}

claimed-Reachable : Reachable exact defaults no_index claimed
claimed-Reachable = after begun-Reachable (claim none)

Reachable-Consistent_example : Consistent claimed.world.db claimed.held
Reachable-Consistent_example =
    Reachable-Consistent exact defaults no_index (λ id w. refl) claimed claimed-Reachable

-- the passage that waits goes to the worker
before_claim : stage_of 1 begun.world.db.chunks ≡ some (ChunkStatus.pending, 0)
unfolding begin_completion append_chunk create_upload row get_owned Files.create looks_like_binary
    feed line_buffer passage_size_for sizes_for update_after_chunk enqueue flush mark_finalizing
before_claim = refl

Reachable-Move_example :
    Move defaults
      (cause exact defaults no_index 1 begun claimed (claim none))
      (stage_of 1 begun.world.db.chunks)
      (stage_of 1 claimed.world.db.chunks)
Reachable-Move_example =
    Reachable-Move exact defaults no_index (λ id w. refl) 1 begun claimed begun-Reachable
      (claim none)

Reachable-Tried_example :
    Tried defaults
      (stage_of 1 claimed.world.db.chunks)
      (failures exact defaults no_index 1 claimed-Reachable)
Reachable-Tried_example =
    Reachable-Tried exact defaults no_index (λ id w. refl) 1 claimed claimed-Reachable
