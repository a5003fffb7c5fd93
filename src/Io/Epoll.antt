-- ===== src/Io/Epoll.antt =====
-- io/epoll.cpp and io/epoll.h: `SubEpollEvent`, with the structs of io/event.h that it uses. The
-- system calls are an interface on a world `W` that holds the kernel and what the callbacks
-- change; a freed or foreign pointer that is read is `none`.
pub mod Laws
pub mod Cycle
pub mod Sound
pub mod Reach
pub mod Lost
pub mod Later
pub mod Small
mod Tests
use sunet.Base.{
  ℕ, zero, suc, ◌+◌, Bool, true, false, List, [], ◌∷◌, Option, none, some, Bytes, length, drop, ltb,
  find, put, erase, same, nat_order,
}
use sunet.Base.Int.{ℤ, pos, negsuc, to_int32, int_order}
use sunet.Io.{◌>>=◌, out_env}

-- `epoll_data_t`: the member that was written last, `ptr` as an address.
pub data EvtData : Type 0 where
  of_fd : ℤ → EvtData
  of_ptr : ℕ → EvtData

-- `data.fd`: of a pointer, its low 32 bits.
unfoldable pub data_fd : EvtData → ℤ
data_fd (of_fd n) = n
data_fd (of_ptr a) = to_int32 (pos a)

-- `data.ptr`.
unfoldable pub data_ptr : EvtData → Option ℕ
data_ptr (of_fd n) = none
data_ptr (of_ptr a) = some a

-- The bits `EPOLLIN`, `EPOLLOUT` and `EPOLLET`.
pub record Events : Type 0 where
  pub epollin : Bool
  pub epollout : Bool
  pub epollet : Bool

pub record EpollEvent : Type 0 where
  pub events : Events
  pub evt_data : EvtData

pub data CtlOp : Type 0 where
  ctl_add ctl_mod ctl_del : CtlOp

-- The system calls. `send` returns -1 as `none`; `errno` decides only what is logged.
pub record Os {ℓ} (W : Type ℓ) : Type ℓ where
  pub epoll_create : ℕ → W → ℤ × W
  pub epoll_ctl : ℤ → CtlOp → ℤ → EpollEvent → W → W
  pub send : ℤ → Bytes → W → Option ℕ × W
  pub close : ℤ → W → W

-- `SUB_EPOLL_OUT_ENV`.
pub record OutEnv : Type 0 where
  pub fd : ℤ
  pub buf : Bytes

unfoldable pub new_out_env : ℤ → Bytes → OutEnv
new_out_env fd http_body = record { fd = fd; buf = out_env http_body }

-- The members of the object, the environments on the heap by their addresses, and the world.
pub record Epoll {ℓ} (W : Type ℓ) : Type ℓ where
  pub svr_fd : ℤ
  pub epl_fd : ℤ
  pub max_evt_cnt : ℕ
  pub out_envs : List (ℕ × OutEnv)
  pub world : W

abbrev pub in_edge : Events
in_edge = record { epollin = true; epollout = false; epollet = true }

abbrev pub out_edge : Events
out_edge = record { epollin = false; epollout = true; epollet = true }

abbrev pub out_level : Events
out_level = record { epollin = false; epollout = true; epollet = false }

-- What happens from one call of `epoll_wait` to the end of its events: the next event is handled, or
-- another thread ends a `ReqTask::_run`, with its socket, the address of its environment and the
-- body of its response.
pub data Turn : Type 0 where
  next_event : EpollEvent → Turn
  worker_reply : ℤ → ℕ → Bytes → Turn

module _ {ℓ} {W : Type ℓ} (os : Os W) where
  unfoldable pub event_add : ℤ → Events → Epoll W → Epoll W
  event_add evt_fd evt_type p =
      let e : EpollEvent = record { events = evt_type; evt_data = of_fd evt_fd } in
      record p { world = os.epoll_ctl p.epl_fd ctl_add evt_fd e p.world }

  -- `_event_mod` with three arguments.
  unfoldable pub event_mod_buf : ℤ → Events → ℕ → Epoll W → Epoll W
  event_mod_buf evt_fd evt_type write_buf p =
      let e : EpollEvent = record { events = evt_type; evt_data = of_ptr write_buf } in
      record p { world = os.epoll_ctl p.epl_fd ctl_mod evt_fd e p.world }

  unfoldable pub event_mod : ℤ → Events → Epoll W → Epoll W
  event_mod evt_fd evt_type p =
      let e : EpollEvent = record { events = evt_type; evt_data = of_fd evt_fd } in
      record p { world = os.epoll_ctl p.epl_fd ctl_mod evt_fd e p.world }

  unfoldable pub event_del : ℤ → Events → Epoll W → Epoll W
  event_del evt_fd evt_type p =
      let e : EpollEvent = record { events = evt_type; evt_data = of_fd evt_fd } in
      record p { world = os.epoll_ctl p.epl_fd ctl_del evt_fd e p.world }

  unfoldable pub event_init : ℤ → Epoll W → Epoll W
  event_init srv_fd p =
      let (epl_fd, world) = os.epoll_create 10240 p.world in
      let p' : Epoll W = record p { max_evt_cnt = 10240; epl_fd = epl_fd; world = world } in
      elim (same epl_fd (negsuc 0)) [
        | true ↦ p'
        | false ↦ event_add srv_fd in_edge (record p' { svr_fd = srv_fd })
      ]

  -- The end of `ReqTask::_run`: the response is put at the address `a`, and the socket waits to be
  -- written.
  unfoldable pub reply : ℤ → ℕ → Bytes → Epoll W → Epoll W
  reply fd a http_body p =
      event_mod_buf fd out_level a
        (record p { out_envs = put a (new_out_env fd http_body) p.out_envs })

  -- `while (n > 0)`: `left` is what starts at `write_buf + left_buf_size - n`; `none` is a run out
  -- of fuel.
  unfoldable pub send_loop : ℕ → ℤ → Bytes → W → Option W
  send_loop zero fd left w = none
  send_loop (suc fuel) fd [] w = some w
  send_loop (suc fuel) fd (c ∷ left) w = elim (os.send fd (c ∷ left) w).0 [
    | none ↦ some (os.send fd (c ∷ left) w).1
    | some nwrite ↦ elim (ltb nwrite (length (c ∷ left))) [
      | true ↦ some (os.send fd (c ∷ left) w).1
      | false ↦ send_loop fuel fd (drop nwrite (c ∷ left)) (os.send fd (c ∷ left) w).1
    ]
  ]

  -- The branch of `EPOLLOUT`, with `handler_fd`.
  unfoldable pub write_back : ℤ → ℕ → Epoll W → Option (Epoll W)
  write_back handler_fd a p = elim (find a p.out_envs) [
    | none ↦ none
    | some env ↦ elim (length env.buf) [
      | zero ↦
          let p' = event_mod handler_fd in_edge p in
          some (record p' { out_envs = erase a p'.out_envs })
      | suc k ↦ do
        w ← send_loop (suc (length env.buf)) env.fd env.buf p.world
        let p' = event_mod env.fd in_edge (record p { world = w }) in
            some (record p' { out_envs = erase a p'.out_envs })
    ]
  ]

  -- The callbacks, and what `_event_read_callback_proc` returns: 1 is `READ_OK`.
  module _ (accept_proc : ℤ → Epoll W → ℤ × Epoll W) (read_proc : ℤ → Epoll W → ℤ × Epoll W) where
    unfoldable pub read_back : ℤ → Epoll W → Epoll W
    read_back handler_fd p =
        let (recv_ret, p') = read_proc handler_fd p in
        elim (same (pos 1) recv_ret) [
          | true ↦ p'
          | false ↦
              let p₂ = event_del handler_fd out_edge (event_del handler_fd in_edge p') in
              record p₂ { world = os.close handler_fd p₂.world }
        ]

    -- The body of the `for` loop.
    unfoldable pub handle : EpollEvent → Epoll W → Option (Epoll W)
    handle e p = elim (same (data_fd e.evt_data) p.svr_fd) [
      | true ↦ some (accept_proc p.svr_fd p).1
      | false ↦ elim e.events.epollin [
        | true ↦ some (read_back (data_fd e.evt_data) p)
        | false ↦ elim e.events.epollout [
          | true ↦ elim (data_ptr e.evt_data) [
            | none ↦ none
            | some a ↦ write_back (data_fd e.evt_data) a p
          ]
          | false ↦ some p
        ]
      ]
    ]

    -- The `for` loop, with the replies that workers make meanwhile.
    unfoldable pub handle_all : List Turn → Epoll W → Option (Epoll W)
    handle_all [] p = some p
    handle_all (next_event e ∷ ready) p = do p' ← handle e p; handle_all ready p'
    handle_all (worker_reply fd a http_body ∷ ready) p = handle_all ready (reply fd a http_body p)

    unfoldable pub event_loop : List (Option (List Turn)) → Epoll W → Option (Epoll W)
    event_loop [] p = some p
    event_loop (none ∷ rounds) p = event_loop rounds p
    event_loop (some ready ∷ rounds) p = do p' ← handle_all ready p; event_loop rounds p'
