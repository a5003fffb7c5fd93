-- ===== src/Io/EventQueue/Tests.antt =====
-- Runs of `SubEventQueue`.
use sunet.Base.{find, put, erase, ◌≡◌, refl, List, [], ◌∷◌}
use sunet.Base.Int.{pos}
use sunet.Io.EventQueue.{buffers, get_evt_data, release, set_evt_data}
use sunet.Io.EventQueue.Refines.{
  QueueOp, set_op, release_op, run, replay, buffers-run, get_evt_data-release,
}

abbrev two_clients : List QueueOp
two_clients = set_op (pos 5) 64 ∷ set_op (pos 6) 96 ∷ set_op (pos 5) 128 ∷ release_op (pos 6) ∷ []

buffers-run_example :
    buffers (pos 5) (run two_clients []) ≡ replay (pos 5) two_clients (buffers (pos 5) [])
buffers-run_example = buffers-run (pos 5) two_clients []

get_evt_data-release_example :
    (get_evt_data (pos 5) [] ((pos 5, 64 ∷ 128 ∷ []) ∷ []) ≡ 64 ∷ 128 ∷ [])
    × ((release (pos 5) ((pos 5, 64 ∷ 128 ∷ []) ∷ [])).0 ≡ 64 ∷ 128 ∷ [])
    × (get_evt_data (pos 5) [] (release (pos 5) ((pos 5, 64 ∷ 128 ∷ []) ∷ [])).1 ≡ [])
unfolding buffers find
get_evt_data-release_example = get_evt_data-release (pos 5) [] ((pos 5, 64 ∷ 128 ∷ []) ∷ [])

-- The buffers that were set for 5, in order.
two_buffers : get_evt_data (pos 5) [] (run two_clients []) ≡ 64 ∷ 128 ∷ []
unfolding get_evt_data run set_evt_data release buffers find put erase
two_buffers = refl
