-- ===== src/Samples/Slots.antt =====
-- A request that comes while another holds a slot.
use rag_semantic_search.Prelude.{◌≡◌, ◌≤◌, refl}
use rag_semantic_search.Config.{defaults}
use rag_semantic_search.Errors.{ok}
use rag_semantic_search.UploadSlots.{enter}
use rag_semantic_search.UploadSlots.Limit.{Reachable, started, came, enter-Reachable}

one_in : Reachable defaults 49 1
unfolding enter
one_in = came started refl

enter-Reachable_example : (1 ≤ 50) × (enter defaults 49 ≡ ok 48)
enter-Reachable_example = enter-Reachable defaults 49 1 one_in
