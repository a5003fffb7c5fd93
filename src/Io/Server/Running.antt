-- ===== src/Io/Server/Running.antt =====
-- The server from `_init_sock` on, over the rounds of its event loop.
use sunet.Base.{
  ℕ, ◌≤◌, All, length, find, nat_order, ◌≡◌, refl, sym, ap, subst, ◌∙◌, List, [], ◌∷◌, Option, none,
  some, Bool-cases, inl, inr, if◌then◌else◌,
}
use sunet.Base.Int.{ℤ, pos, negsuc, ltb_ℤ}
use sunet.Io.{◌>>=◌}
use sunet.Io.Epoll.{
  Os, Epoll, Turn, next_event, worker_reply, event_init, event_loop, handle, handle_all, reply,
}
use sunet.Io.Epoll.Laws.{EpollLaws}
use sunet.Io.Epoll.Sound.{IsSound, event_add-IsSound, reply-IsSound}
use sunet.Io.Epoll.Reach.{Delivered, event_init-IsSound, handle-IsSound}
use sunet.Io.Sock.{SubServer, SockOs, started, init_sock}
use sunet.Io.Sock.Ready.{SockLaws, Ready, init_sock-Ready}
use sunet.Io.Server.{
  accept_loop, add_client, on_accept, accept_callback, Reads, read_callback, on_read, server_run,
  run,
}
use sunet.Task.{TaskMgr}
use sunet.Io.Receive.{on_http_read_ends}
use sunet.Io.ReqTask.{ReqTask, http_read}
use sunet.Io.Server.Accept.{FcntlLaws, unblocked, unblocked_interest}

-- recv(2) gives no more bytes than it is asked for, and neither it nor the task manager changes what an
-- epoll object watches; an allocation has the size that is asked for.
pub record ReadLaws {ℓ} {W : Type ℓ} {Proc : Type 0} (os : Os W) (laws : EpollLaws os)
    (reads : Reads W Proc) : Type ℓ where
  pub short : (fd : ℤ) (w : W) → All (λ c. length c ≤ 1024) (reads.recvs fd w).0.0
  pub sized : (n : ℕ) → length (reads.fresh n) ≡ n
  pub recvs_keep :
      (ep fd j : ℤ) (w : W) → laws.interest ep (reads.recvs fd w).1 j ≡ laws.interest ep w j
  pub set_keeps :
      (ep j : ℤ) (mgr : TaskMgr ReqTask Proc) (w : W)
      → laws.interest ep (reads.set_mgr mgr w) j ≡ laws.interest ep w j

module _ {ℓ} {W : Type ℓ} (os : Os W) (laws : EpollLaws os) (sockets : SockOs W)
    (fcntl : FcntlLaws os laws sockets) (accepts : ℤ → W → List ℤ × W)
    (accepts_keep : (ep fd j : ℤ) (w : W)
      → laws.interest ep (accepts fd w).1 j ≡ laws.interest ep w j) where
  accept_loop-IsSound :
      (fds : List ℤ) (mx : ℤ) (p : Epoll W)
      → IsSound os laws p
      → IsSound os laws (accept_loop (λ fd q. add_client os sockets fd q) fds mx p).1
  unfolding accept_loop add_client
  accept_loop-IsSound [] mx p s = s
  accept_loop-IsSound (fd ∷ fds) mx p s = elim (Bool-cases (ltb_ℤ (pos 0) fd)) [
    | inr e ↦ rw (accept_loop, e) s
    | inl e ↦
        rw (accept_loop, e)
          (accept_loop-IsSound fds (if ltb_ℤ fd mx then mx else fd) (add_client os sockets fd p) (
            event_add-IsSound os laws fd (unblocked os laws sockets fcntl fd p)
              (λ j x h. s j x (sym (unblocked_interest os laws sockets fcntl fd p j) ∙ h))))
  ]

  -- The callback of `accept`.
  abbrev pub accepting : ℤ → Epoll W → ℤ × Epoll W
  accepting fd p = accept_callback os sockets accepts fd p

  accepting-IsSound :
      (fd : ℤ) (p : Epoll W) → IsSound os laws p → IsSound os laws (accepting fd p).1
  unfolding accept_callback on_accept
  accepting-IsSound fd p s =
      accept_loop-IsSound (accepts fd p.world).0 (negsuc 0)
        (record p { world = (accepts fd p.world).1 })
        (λ j x h. s j x (sym (accepts_keep p.epl_fd fd j p.world) ∙ h))

  module _ {Proc : Type 0} (reads : Reads W Proc) (read_laws : ReadLaws os laws reads) where
    -- The callback of a socket that is readable.
    abbrev pub reading : ℤ → Epoll W → ℤ × Epoll W
    reading fd p = on_read reads fd p

    http_read_ends :
        (fd : ℤ) (w : W)
        → (r : ℤ × TaskMgr ReqTask Proc) × (http_read reads.fresh fd
              (reads.recvs fd w).0.0
              (reads.recvs fd w).0.1
              (reads.get_mgr (reads.recvs fd w).1)
            ≡ some r)
    unfolding http_read
    http_read_ends fd w =
        let (r, e) =
          on_http_read_ends reads.fresh read_laws.sized (reads.recvs fd w).0.0
            (reads.recvs fd w).0.1 (read_laws.short fd w) in
        rw (http_read, e) (_, refl)

    read_callback_ends :
        (fd : ℤ) (p : Epoll W)
        → (read_callback reads fd p ≡ some (reading fd p))
          × (IsSound os laws p → IsSound os laws (reading fd p).1)
    unfolding read_callback on_read
    read_callback_ends fd p =
        let ((ret, mgr), e) = http_read_ends fd p.world in
        let w = (reads.recvs fd p.world).1 in
        let p' : Epoll W = record p { world = reads.set_mgr mgr w } in
        let q : read_callback reads fd p ≡ some (ret, p') = rw (read_callback, e) refl in
        let o : reading fd p ≡ (ret, p') = rw (on_read, q) refl in
        (
          q ∙ ap some (sym o),
          λ s.
              subst (λ (r : ℤ × Epoll W). IsSound os laws r.1) (sym o)
                (λ j x h. s j x (
                  sym (
                    read_laws.set_keeps p.epl_fd j mgr w
                    ∙ read_laws.recvs_keep p.epl_fd fd j p.world)
                  ∙ h)),
        )

    reading-IsSound : (fd : ℤ) (p : Epoll W) → IsSound os laws p → IsSound os laws (reading fd p).1
    reading-IsSound fd p = (read_callback_ends fd p).1

    -- Each event is one that `epoll_wait` may deliver in the state in which it is handled, and
    -- a worker's environment is put at an address that is free.
    abbrev pub AllDelivered : List Turn → Epoll W → Type 0
    AllDelivered [] p = Unit
    AllDelivered (next_event e ∷ ready) p =
        Delivered os laws p e
        × elim (handle os accepting reading e p) [ none ↦ Unit | some p' ↦ AllDelivered ready p' ]
    AllDelivered (worker_reply fd a body ∷ ready) p =
        (find a p.out_envs ≡ none) × AllDelivered ready (reply os fd a body p)

    abbrev pub RoundsDelivered : List (Option (List Turn)) → Epoll W → Type 0
    RoundsDelivered [] p = Unit
    RoundsDelivered (none ∷ rounds) p = RoundsDelivered rounds p
    RoundsDelivered (some ready ∷ rounds) p =
        AllDelivered ready p × elim (handle_all os accepting reading ready p) [
          | none ↦ Unit
          | some p' ↦ RoundsDelivered rounds p'
        ]

    abbrev Goes : Option (Epoll W) → Type ℓ
    Goes o = (p' : Epoll W) × (o ≡ some p') × IsSound os laws p'

    handle_all-IsSound :
        (ready : List Turn) (p : Epoll W)
        → IsSound os laws p
        → AllDelivered ready p
        → Goes (handle_all os accepting reading ready p)
    unfolding handle_all
    handle_all-IsSound [] p s d = (p, refl, s)
    handle_all-IsSound (next_event e ∷ ready) p s (d, more) =
        let (p₁, h, s₁) =
          handle-IsSound os laws accepting reading accepting-IsSound reading-IsSound e p s d in
        rw (handle_all, h, ◌>>=◌) (handle_all-IsSound ready p₁ s₁ (rw h at more))
    handle_all-IsSound (worker_reply fd a body ∷ ready) p s (unused, more) =
        handle_all-IsSound ready (reply os fd a body p) (reply-IsSound os laws fd a body p unused s)
          more

    event_loop-IsSound :
        (rounds : List (Option (List Turn))) (p : Epoll W)
        → IsSound os laws p
        → RoundsDelivered rounds p
        → Goes (event_loop os accepting reading rounds p)
    unfolding event_loop
    event_loop-IsSound [] p s d = (p, refl, s)
    event_loop-IsSound (none ∷ rounds) p s d = event_loop-IsSound rounds p s d
    event_loop-IsSound (some ready ∷ rounds) p s (d, more) =
        let (p₁, h, s₁) = handle_all-IsSound ready p s d in
        rw (event_loop, h, ◌>>=◌) (event_loop-IsSound rounds p₁ s₁ (rw h at more))

    -- `_init_sock` has returned with the server's socket, no call of `recv` gives more than the 1024 bytes
    -- that it is asked for, and `accept`, `fcntl`, `recv` and the task queue change nothing that is
    -- watched. Then `_run` ends no round of its event loop with a fault, whatever replies workers make
    -- between its events at addresses that are free, if each event is one that `epoll_wait` may
    -- deliver in the state in which it is handled: the loop behind any rounds leaves an epoll object
    -- with the invariant `IsSound`; no call of `_on_http_read` writes outside its buffer; and when
    -- the loop began the socket was bound to the port, listened and did not block, and SIGPIPE was
    -- ignored.
    pub run-Ready :
        (sock_laws : SockLaws sockets) (port : ℤ) (old server : SubServer) (w : W)
        (rounds : List (Option (List Turn))) (p : Epoll W)
        → init_sock sockets port old p.world ≡ started server w
        → RoundsDelivered rounds (event_init os server.svr_fd (record p { world = w }))
        → (p' : Epoll W) × (run os sockets accepts reads port old rounds p
            ≡ started server (some p'))
          × IsSound os laws p'
          × ((fd : ℤ) (q : Epoll W) → read_callback reads fd q ≡ some (on_read reads fd q))
          × Ready sockets sock_laws port old server w
    unfolding run server_run
    run-Ready sock_laws port old server w rounds p h d =
        let (p', ran, sound) =
          event_loop-IsSound rounds (event_init os server.svr_fd (record p { world = w }))
            (event_init-IsSound os laws accepting reading accepting-IsSound reading-IsSound
              server.svr_fd (record p { world = w }))
            d in
        (
          p',
          rw (run, h, ran) refl,
          sound,
          λ fd q. (read_callback_ends fd q).0,
          init_sock-Ready sockets sock_laws port old server p.world w h,
        )
