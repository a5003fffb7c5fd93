-- ===== src/Io/EventQueue.antt =====
-- io/event.h: `SubEventQueue`, the buffers that wait for a descriptor. A buffer is its address.
-- The mutexes are left out; `_get_evt_data` and `_release` take none.
pub mod Refines
mod Tests
use sunet.Base.{
  ℕ, ◌+◌, Bool, true, false, List, [], ◌∷◌, ◌++◌, Option, none, some, length, find, put, erase,
}
use sunet.Base.Int.{ℤ, int_order}

-- `_data_buf`.
abbrev pub EventQueue : Type 0
EventQueue = List (ℤ × List ℕ)

-- The entry of a descriptor that is in the map.
unfoldable pub buffers : ℤ → EventQueue → List ℕ
buffers fd q = elim (find fd q) [ none ↦ [] | some bufs ↦ bufs ]

unfoldable pub set_evt_data : ℤ → ℕ → EventQueue → EventQueue
set_evt_data fd buf_ptr q =
    let q' : EventQueue = elim (find fd q) [ none ↦ put fd [] q | some bufs ↦ q ] in
    put fd (buffers fd q' ++ buf_ptr ∷ []) q'

-- What `ret` is afterwards.
unfoldable pub get_evt_data : ℤ → List ℕ → EventQueue → List ℕ
get_evt_data fd ret q = elim (find fd q) [
  | none ↦ ret
  | some bufs ↦ elim (length bufs) [ ℕ.zero ↦ ret | ℕ.suc k ↦ bufs ]
]

-- `delete buf_vec[i]` for each `i`: the buffers that are freed, in order.
unfoldable pub delete_loop : List ℕ → List ℕ → List ℕ
delete_loop [] freed = freed
delete_loop (b ∷ bufs) freed = delete_loop bufs (freed ++ b ∷ [])

unfoldable pub release : ℤ → EventQueue → List ℕ × EventQueue
release fd q = elim (find fd q) [ none ↦ ([], q) | some bufs ↦ (delete_loop bufs [], erase fd q) ]
