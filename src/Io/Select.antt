-- ===== src/Io/Select.antt =====
-- io/select.cpp and io/select.h: `SubSelectEvent`. An `fd_set` is the test that `FD_ISSET` makes.
-- The system calls are an interface on a world, which holds `SubEventQueue` too.
pub mod Rounds
mod Tests
use sunet.Base.{
  ℕ, zero, suc, ◌+◌, Bool, true, false, ◌||◌, List, [], ◌∷◌, ◌++◌, Option, none, some, Bytes, take,
  drop, length, get_elem?, same, if◌then◌else◌,
}
use sunet.Base.Int.{ℤ, pos, negsuc, ltb_ℤ, int_order}
use sunet.Io.EventQueue.{EventQueue, get_evt_data}

abbrev pub FdSet : Type 0
FdSet = ℤ → Bool

abbrev pub fd_set : ℤ → FdSet → FdSet
fd_set fd s = λ j. if same j fd then true else s j

abbrev pub fd_clr : ℤ → FdSet → FdSet
fd_clr fd s = λ j. if same j fd then false else s j

-- `EVENT_TYPE`.
pub data EventType : Type 0 where
  evt_read evt_write : EventType

-- `send` returns -1 as `none`. `bytes_at a n` are the `n` bytes at the address `a`.
pub record SelectOs {ℓ} (W : Type ℓ) : Type ℓ where
  pub send : ℤ → Bytes → W → Option ℕ × W
  pub close : ℤ → W → W
  pub bytes_at : ℕ → ℕ → W → Bytes
  pub event_queue : W → EventQueue

pub record Select {ℓ} (W : Type ℓ) : Type ℓ where
  pub read_set : FdSet
  pub write_set : FdSet
  pub copy_read_set : FdSet
  pub copy_write_set : FdSet
  pub svr_fd : ℤ
  pub clt_sock_vec : List ℤ
  pub max_sock_fd : ℤ
  pub world : W

-- What `select` returns: -1, 0, or more, with the sets that it leaves.
pub data Selected : Type 0 where
  select_error select_time_out : Selected
  selected : FdSet → FdSet → Selected

unfoldable pub remove_at : ℕ → List ℤ → List ℤ
remove_at i fds = take i fds ++ drop (suc i) fds

module _ {ℓ} {W : Type ℓ} where
  unfoldable pub select_event_add : ℤ → EventType → Select W → Select W
  select_event_add evt_fd evt_read s = record s {
    read_set = fd_set evt_fd s.read_set;
    clt_sock_vec = s.clt_sock_vec ++ evt_fd ∷ [];
  }
  select_event_add evt_fd evt_write s = record s { write_set = fd_set evt_fd s.write_set }

  unfoldable pub select_event_init : ℤ → Select W → Select W
  select_event_init srv_fd s = select_event_add srv_fd evt_read (record s {
    read_set = λ j. false;
    write_set = λ j. false;
    svr_fd = srv_fd;
    max_sock_fd = srv_fd;
  })

module _ {ℓ} {W : Type ℓ} (os : SelectOs W) (accept_proc : ℤ → Select W → ℤ × Select W)
    (read_proc : ℤ → Select W → ℤ × Select W) where
  -- `close`, and the socket at `i` leaves the vector.
  unfoldable pub close_at : ℕ → ℤ → Select W → Select W
  close_at i fd s = record s {
    world = os.close fd s.world;
    clt_sock_vec = remove_at i s.clt_sock_vec;
  }

  -- A client that can be read. The read callback does not change the vector.
  unfoldable pub read_client : ℕ → ℤ → Select W → Select W
  read_client i fd s =
      let (recv_ret, s') = read_proc fd s in
      let s₁ : Select W = record s' { read_set = fd_clr fd s'.read_set } in
      elim (same recv_ret (pos 0)) [
        | true ↦ close_at i fd (record s₁ { write_set = fd_clr fd s₁.write_set })
        | false ↦ s₁
      ]

  -- The result of `send` is tested by `<= 0`, and `sizeof(write_buf)` is the size of a pointer.
  unfoldable pub write_client : ℕ → ℤ → Select W → Select W
  write_client i fd s = elim (get_evt_data fd [] (os.event_queue s.world)) [
    | [] ↦
        close_at i fd
          (record s { write_set = fd_clr fd s.write_set; read_set = fd_clr fd s.read_set })
    | write_buf ∷ others ↦
        let buf = os.bytes_at write_buf 8 s.world in
        let s' : Select W = record s { world = (os.send fd buf s.world).1 } in
        elim (os.send fd buf s.world).0 [
          | none ↦ close_at i fd (record s' { read_set = fd_clr fd s'.read_set })
          | some n ↦ elim n [
            | zero ↦ close_at i fd (record s' { read_set = fd_clr fd s'.read_set })
            | suc k ↦ select_event_add fd evt_read s'
          ]
        ]
  ]

  -- The body of the `for` loop, for the socket at `i`.
  unfoldable pub look_at : ℕ → ℤ → Select W → Select W
  look_at i fd s = elim (same (negsuc 0) fd || same fd s.svr_fd) [
    | true ↦ s
    | false ↦ elim (s.copy_read_set fd) [
      | true ↦ read_client i fd s
      | false ↦ elim (s.copy_write_set fd) [ true ↦ write_client i fd s | false ↦ s ]
    ]
  ]

  -- `for (int i = 0; i < _clt_sock_vec.size(); i++)`; `none` is a run out of fuel.
  unfoldable pub look_loop : ℕ → ℕ → Select W → Option (Select W)
  look_loop zero i s = none
  look_loop (suc fuel) i s = elim (get_elem? s.clt_sock_vec i) [
    | none ↦ some s
    | some fd ↦ look_loop fuel (suc i) (look_at i fd s)
  ]

  unfoldable pub accept_new : Select W → Select W
  accept_new s =
      let (new_fd, s') = accept_proc s.svr_fd s in
      elim (same (negsuc 0) new_fd) [
        | true ↦ s'
        | false ↦ record s' {
          max_sock_fd = if ltb_ℤ s'.max_sock_fd new_fd then new_fd else s'.max_sock_fd;
        }
      ]

  -- One round of `while (true)`.
  unfoldable pub select_round : ℕ → Selected → Select W → Option (Select W)
  select_round fuel select_error s =
      some (record s { copy_read_set = s.read_set; copy_write_set = s.write_set })
  select_round fuel select_time_out s =
      some (record s { copy_read_set = s.read_set; copy_write_set = s.write_set })
  select_round fuel (selected readable writable) s =
      let s₁ : Select W = record s { copy_read_set = readable; copy_write_set = writable } in
      look_loop fuel 0 (if readable s.svr_fd then accept_new s₁ else s₁)
