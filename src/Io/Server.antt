-- ===== src/Io/Server.antt =====
-- io/server.cpp and io/server.h: `_on_accept` and `_run` of `SubServer`. What the calls of
-- `accept` return is a parameter.
pub mod Accept
pub mod Running
mod Tests
use sunet.Base.{ℕ, Bool, true, false, List, [], ◌∷◌, Option, none, some, Bytes, if◌then◌else◌}
use sunet.Base.Int.{ℤ, pos, negsuc, ltb_ℤ}
use sunet.Io.Epoll.{Os, Epoll, Turn, event_add, event_init, event_loop, in_edge}
use sunet.Task.{TaskMgr}
use sunet.Io.{RecvEnd}
use sunet.Io.ReqTask.{ReqTask, http_read}
use sunet.Io.Sock.{SubServer, SockOs, Start, started, exited, set_nonblocking, init_sock}
use sunet.Io.Select.{Select, select_event_add, evt_read}

-- `while ((new_sock = accept(...)) > 0)`, over what the calls return; `add` is the call of
-- `_event_add`. The result is `mx_sock`.
unfoldable pub accept_loop {ℓ} : {E : Type ℓ} → (ℤ → E → E) → List ℤ → ℤ → E → ℤ × E
accept_loop add [] mx_sock evt = (mx_sock, evt)
accept_loop add (new_sock ∷ more) mx_sock evt = elim (ltb_ℤ (pos 0) new_sock) [
  | true ↦
      accept_loop add more (if ltb_ℤ new_sock mx_sock then mx_sock else new_sock) (add new_sock evt)
  | false ↦ (mx_sock, evt)
]

-- The calls for a new socket, where `_event->_type` is `EPOLL`.
unfoldable pub add_client {ℓ} : {W : Type ℓ} → Os W → SockOs W → ℤ → Epoll W → Epoll W
add_client os sockets new_sock p =
    event_add os new_sock in_edge (record p { world = set_nonblocking sockets new_sock p.world })

unfoldable pub on_accept {ℓ} : {W : Type ℓ} → Os W → SockOs W → List ℤ → Epoll W → ℤ × Epoll W
on_accept os sockets accepted p =
    accept_loop (λ new_sock q. add_client os sockets new_sock q) accepted (negsuc 0) p

-- `_event->_type` is `SELECT`.
unfoldable pub on_accept_select {ℓ} : {W : Type ℓ} → SockOs W → List ℤ → Select W → ℤ × Select W
on_accept_select sockets accepted s =
    accept_loop
      (λ new_sock q.
        select_event_add new_sock evt_read
          (record q { world = set_nonblocking sockets new_sock q.world }))
      accepted (negsuc 0) s

-- `accepts` gives what the calls of `accept` return on a socket, and the world behind them.
module _ {ℓ} {W : Type ℓ} (os : Os W) (sockets : SockOs W) (accepts : ℤ → W → List ℤ × W) where
  unfoldable pub accept_callback : ℤ → Epoll W → ℤ × Epoll W
  accept_callback svr_fd p =
      let (accepted, w) = accepts svr_fd p.world in
      on_accept os sockets accepted (record p { world = w })

-- What the calls of `recv` on a socket give and how the last one ends, with the world behind them; what a
-- new allocation holds; and the task manager, which the world holds.
pub record Reads {ℓ} (W : Type ℓ) (Proc : Type 0) : Type ℓ where
  pub recvs : ℤ → W → (List Bytes × RecvEnd) × W
  pub fresh : ℕ → Bytes
  pub get_mgr : W → TaskMgr ReqTask Proc
  pub set_mgr : TaskMgr ReqTask Proc → W → W

module _ {ℓ} {W : Type ℓ} {Proc : Type 0} (reads : Reads W Proc) where
  -- `_on_http_read` on the epoll object; `none` is a write outside its buffer.
  unfoldable pub read_callback : ℤ → Epoll W → Option (ℤ × Epoll W)
  read_callback clt_fd p =
      let (got, w) = reads.recvs clt_fd p.world in
      elim (http_read reads.fresh clt_fd got.0 got.1 (reads.get_mgr w)) [
        | none ↦ none
        | some (ret, mgr) ↦ some (ret, record p { world = reads.set_mgr mgr w })
      ]

  -- The callback, where it does not write outside its buffer.
  unfoldable pub on_read : ℤ → Epoll W → ℤ × Epoll W
  on_read clt_fd p = elim (read_callback clt_fd p) [ none ↦ (pos 0, p) | some r ↦ r ]

module _ {ℓ} {W : Type ℓ} {Proc : Type 0} (os : Os W) (sockets : SockOs W)
    (accepts : ℤ → W → List ℤ × W) (reads : Reads W Proc) where
  -- `_run` behind `_init_sock`, over the rounds of `_event_loop`.
  unfoldable pub server_run : ℤ → List (Option (List Turn)) → Epoll W → Option (Epoll W)
  server_run svr_fd rounds p =
      event_loop os (λ fd q. accept_callback os sockets accepts fd q) (λ fd q. on_read reads fd q)
        rounds (event_init os svr_fd p)

  -- `_run`; `none` is a fault in the event loop.
  unfoldable pub run :
      ℤ → SubServer → List (Option (List Turn)) → Epoll W → Start (Option (Epoll W))
  run port server rounds p = elim (init_sock sockets port server p.world) [
    | exited status w ↦ exited status (some (record p { world = w }))
    | started ready w ↦ started ready (server_run ready.svr_fd rounds (record p { world = w }))
  ]
