-- ===== src/Samples/Models.antt =====
-- A thread that loads the model while another one waits for the lock.
use rag_semantic_search.Prelude.{◌≤◌, ◌≡◌, refl, false, not, ◌&&◌, some, ◌==◌}
use rag_semantic_search.Index.Model.{
  Loader, move, at_import, first_test, waiting, second_test, loading, leaving, Loading, start,
  after, calls, finds_none, acquires, finds_none_locked, loads,
}
use rag_semantic_search.Index.Once.{IsShared, is_locked, Loading-once}

abbrev both_waiting : Loader
both_waiting = move (move (move (move at_import 1 first_test) 2 first_test) 1 waiting) 2 waiting

both_waiting-Loading : Loading both_waiting
both_waiting-Loading =
    after (after (after (after start (calls 1 refl)) (calls 2 refl)) (finds_none 1 refl refl))
      (finds_none 2 refl refl)

abbrev locked : Loader
locked = move (move (record both_waiting { holder = some 1 }) 1 second_test) 1 loading

abbrev loaded : Loader
loaded = move (record locked { model = some 0; loads = 1 }) 1 leaving

loaded-Loading : Loading loaded
loaded-Loading =
    after
      (after (after both_waiting-Loading (acquires 1 refl refl)) (finds_none_locked 1 refl refl))
      (loads 1 refl)

Loading-once_example :
    (loaded.loads ≤ 1)
    × IsShared (loaded.place 1)
    × ((is_locked (loaded.place 1) && is_locked (loaded.place 2) && not (1 == 2)) ≡ false)
Loading-once_example = Loading-once loaded 1 2 loaded-Loading
