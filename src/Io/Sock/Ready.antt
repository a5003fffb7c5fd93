-- ===== src/Io/Sock/Ready.antt =====
-- The server's socket behind `_init_sock`, by what socket(2), bind(2), listen(2), socket(7), fcntl(2)
-- and sigaction(2) state.
use sunet.Base.{
  ℕ, ◌+◌, ◌/◌, ◌%◌, ◌≡◌, ◌≢◌, refl, ap, ◌∙◌, subst, Bool, true, false, Option, none, some, ◌==◌,
  same, same→eq, Bool-cases, inl, inr, arith,
}
use sunet.Base.Int.{ℤ, pos, negsuc, int_order}
use sunet.Io.Sock.{
  SockAddr, SubServer, SockOs, SockOption, Start, started, checked, or_nonblock, set_nonblocking,
  svr_addr_of, init_sock, so_rcvbuf, so_reuseaddr,
}

-- A socket: the address it is bound to, with whether addresses could be reused then, the backlog it
-- listens with, whether addresses can be reused, and the flags of its file.
pub record Socket : Type 0 where
  pub bound : Option (SockAddr × Bool)
  pub backlog : Option ℕ
  pub reuse : Bool
  pub flags : ℕ

abbrev pub new_socket : Socket
new_socket = record { bound = none; backlog = none; reuse = false; flags = 2 }

abbrev pub Works {ℓ} : {W : Type ℓ} → ℤ × W → Type 0
Works r = r.0 ≢ negsuc 0

-- What the calls do when they do not fail.
pub record SockLaws {ℓ} {W : Type ℓ} (os : SockOs W) : Type ℓ where
  pub sock : ℤ → W → Option Socket
  pub sigpipe_ignored : W → Bool
  pub socket_new :
      (w : W) → Works (os.socket w) → sock (os.socket w).0 (os.socket w).1 ≡ some new_socket
  pub bind_new :
      (fd : ℤ) (a : SockAddr) (w : W) (s : Socket)
      → sock fd w ≡ some s
      → Works (os.bind fd a w)
      → sock fd (os.bind fd a w).1 ≡ some (record s { bound = some (a, s.reuse) })
  pub listen_on :
      (fd : ℤ) (n : ℕ) (w : W) (s : Socket)
      → sock fd w ≡ some s
      → Works (os.listen fd n w)
      → sock fd (os.listen fd n w).1 ≡ some (record s { backlog = some n })
  pub set_buffer :
      (fd n : ℤ) (w : W) (s : Socket)
      → sock fd w ≡ some s
      → Works (os.setsockopt fd so_rcvbuf n w)
      → sock fd (os.setsockopt fd so_rcvbuf n w).1 ≡ some s
  pub set_reuse :
      (fd : ℤ) (w : W) (s : Socket)
      → sock fd w ≡ some s
      → Works (os.setsockopt fd so_reuseaddr (pos 1) w)
      → sock fd (os.setsockopt fd so_reuseaddr (pos 1) w).1 ≡ some (record s { reuse = true })
  pub get_flags :
      (fd : ℤ) (w : W) (s : Socket)
      → sock fd w ≡ some s
      → ((os.fcntl_getfl fd w).0 ≡ pos s.flags) × (sock fd (os.fcntl_getfl fd w).1 ≡ some s)
  pub set_flags :
      (fd : ℤ) (n : ℕ) (w : W) (s : Socket)
      → sock fd w ≡ some s
      → or_nonblock (pos s.flags) ≡ pos n
      → sock fd (os.fcntl_setfl fd (pos n) w).1 ≡ some (record s { flags = n })
  pub empty_keeps : (fd : ℤ) (w : W) → sock fd (os.sigemptyset w).1 ≡ sock fd w
  pub ignore_keeps : (fd : ℤ) (w : W) → sock fd (os.ignore_sigpipe w).1 ≡ sock fd w
  pub ignored :
      (w : W) → Works (os.ignore_sigpipe w) → sigpipe_ignored (os.ignore_sigpipe w).1 ≡ true

-- The bit `O_NONBLOCK`.
abbrev pub nonblocking : ℕ → Bool
nonblocking flags = (flags / 2048) % 2 == 1

or_nonblock_sets : (n : ℕ) → (m : ℕ) × (or_nonblock (pos n) ≡ pos m) × (nonblocking m ≡ true)
unfolding or_nonblock
or_nonblock_sets n = elim (Bool-cases ((n / 2048) % 2 == 1)) [
  | inl e ↦ (n, rw (or_nonblock, e) refl, e)
  | inr e ↦ (n + 2048, rw (or_nonblock, e) refl, ground (arith, e))
]

checked-started {ℓ} :
    {W : Type ℓ} (r : ℤ × W) (next : ℤ → W → Start W) (server : SubServer) (w : W)
    → checked r next ≡ started server w
    → Works r × (next r.0 r.1 ≡ started server w)
unfolding checked
checked-started (ret, w₁) next server w h = elim (Bool-cases (same ret (negsuc 0))) [
  | inl e ↦ cc (rw (checked, e) at h)
  | inr e ↦ (λ q. cc (ap (λ (z : ℤ). same z (negsuc 0)) q, e), rw (checked, e) at h)
]

checked-Works {ℓ} :
    {W : Type ℓ} (r : ℤ × W) (next : ℤ → W → Start W) → Works r → checked r next ≡ next r.0 r.1
unfolding checked
checked-Works (ret, w₁) next h = elim (Bool-cases (same ret (negsuc 0))) [
  | inl e ↦ absurd (h (same→eq ret (negsuc 0) e))
  | inr e ↦ rw (checked, e) refl
]

started_inj {ℓ} :
    {W : Type ℓ} {server server' : SubServer} {w w' : W}
    → started server w ≡ started server' w'
    → (server ≡ server') × (w ≡ w')
started_inj h = (cc h, cc h)

module _ {ℓ} {W : Type ℓ} (os : SockOs W) (laws : SockLaws os) where
  -- The server's socket is bound to the port, without the reuse of addresses, listens, does not
  -- block, and a broken connection sends no signal.
  pub record Ready (port : ℤ) (old : SubServer) (server : SubServer) (w : W) : Type 0 where
    pub flags : ℕ
    pub address : server.svr_addr ≡ record {
      sin_family = 2;
      sin_port = os.htons port;
      s_addr = os.htons (pos 0);
      sin_zero = old.svr_addr.sin_zero;
    }
    pub socket :
        laws.sock server.svr_fd w
        ≡ some (record {
          bound = some (server.svr_addr, false);
          backlog = some 1024;
          reuse = true;
          flags = flags;
        })
    pub unblocked : nonblocking flags ≡ true
    pub no_signal : laws.sigpipe_ignored w ≡ true

  set_nonblocking_lem :
      (fd : ℤ) (w : W) (s : Socket)
      → laws.sock fd w ≡ some s
      → (n : ℕ) × (laws.sock fd (set_nonblocking os fd w) ≡ some (record s { flags = n }))
        × (nonblocking n ≡ true)
  unfolding set_nonblocking
  set_nonblocking_lem fd w s h =
      let (opts, kept) = laws.get_flags fd w s h in
      let (n, q, set) = or_nonblock_sets s.flags in
      (n, rw (set_nonblocking, opts, q) (laws.set_flags fd n (os.fcntl_getfl fd w).1 s kept q), set)

  -- Whatever the calls return: if `_init_sock` returns, the server is ready.
  pub init_sock-Ready :
      (port : ℤ) (old server : SubServer) (w w' : W)
      → init_sock os port old w ≡ started server w'
      → Ready port old server w'
  unfolding init_sock svr_addr_of
  init_sock-Ready port old server w w' h =
      let addr = svr_addr_of os port old.svr_addr in
      let (ok₁, h₁) = checked-started (os.socket w) _ server w' h in
      let fd = (os.socket w).0 in
      let w₁ = (os.socket w).1 in
      let (ok₂, h₂) = checked-started (os.bind fd addr w₁) _ server w' h₁ in
      let w₂ = (os.bind fd addr w₁).1 in
      let (ok₃, h₃) = checked-started (os.listen fd 1024 w₂) _ server w' h₂ in
      let w₃ = (os.listen fd 1024 w₂).1 in
      let (ok₄, h₄) = checked-started (os.setsockopt fd so_rcvbuf (pos 131072) w₃) _ server w' h₃ in
      let w₄ = (os.setsockopt fd so_rcvbuf (pos 131072) w₃).1 in
      let (ok₅, h₅) = checked-started (os.setsockopt fd so_reuseaddr (pos 1) w₄) _ server w' h₄ in
      let w₅ = (os.setsockopt fd so_reuseaddr (pos 1) w₄).1 in
      let (ok₆, h₆) = checked-started (os.sigemptyset (set_nonblocking os fd w₅)) _ server w' h₅ in
      let w₆ = (os.sigemptyset (set_nonblocking os fd w₅)).1 in
      let (ok₇, h₇) = checked-started (os.ignore_sigpipe w₆) _ server w' h₆ in
      let s₁ = laws.socket_new w ok₁ in
      let s₂ = laws.bind_new fd addr w₁ new_socket s₁ ok₂ in
      let s₃ = laws.listen_on fd 1024 w₂ _ s₂ ok₃ in
      let s₄ = laws.set_buffer fd (pos 131072) w₃ _ s₃ ok₄ in
      let s₅ = laws.set_reuse fd w₄ _ s₄ ok₅ in
      let (n, s₆, unblocked) = set_nonblocking_lem fd w₅ _ s₅ in
      let (same_server, same_world) = started_inj h₇ in
      subst (λ v. Ready port old server v) same_world
        (subst (λ v. Ready port old v (os.ignore_sigpipe w₆).1) same_server
          (record {
            flags = n;
            address = refl;
            socket = laws.ignore_keeps fd w₆ ∙ laws.empty_keeps fd (set_nonblocking os fd w₅) ∙ s₆;
            unblocked = unblocked;
            no_signal = laws.ignored w₆ ok₇;
          }))

  -- A kernel none of whose calls fails.
  pub record Willing : Type ℓ where
    pub socket_works : (v : W) → Works (os.socket v)
    pub bind_works : (fd : ℤ) (a : SockAddr) (v : W) → Works (os.bind fd a v)
    pub listen_works : (fd : ℤ) (n : ℕ) (v : W) → Works (os.listen fd n v)
    pub option_works : (fd : ℤ) (o : SockOption) (n : ℤ) (v : W) → Works (os.setsockopt fd o n v)
    pub empty_works : (v : W) → Works (os.sigemptyset v)
    pub ignore_works : (v : W) → Works (os.ignore_sigpipe v)

  -- Where no call fails, `_init_sock` returns, and then the server's socket is bound to the address with the
  -- port, listens with a backlog of 1024, does not block, and SIGPIPE is ignored. The reuse of
  -- addresses is set, but the address was bound without it.
  pub init_sock-Ready_lem :
      (port : ℤ) (old : SubServer) (w : W)
      → Willing
      → (server : SubServer) × (w' : W) × (init_sock os port old w ≡ started server w')
        × Ready port old server w'
  unfolding init_sock
  init_sock-Ready_lem port old w willing =
      let addr = svr_addr_of os port old.svr_addr in
      let fd = (os.socket w).0 in
      let w₁ = (os.socket w).1 in
      let w₂ = (os.bind fd addr w₁).1 in
      let w₃ = (os.listen fd 1024 w₂).1 in
      let w₄ = (os.setsockopt fd so_rcvbuf (pos 131072) w₃).1 in
      let w₅ = (os.setsockopt fd so_reuseaddr (pos 1) w₄).1 in
      let w₆ = (os.sigemptyset (set_nonblocking os fd w₅)).1 in
      let server : SubServer = record { svr_addr = addr; svr_fd = fd } in
      let run : init_sock os port old w ≡ started server (os.ignore_sigpipe w₆).1 =
        checked-Works (os.socket w) _ (willing.socket_works w)
        ∙ checked-Works (os.bind fd addr w₁) _ (willing.bind_works fd addr w₁)
        ∙ checked-Works (os.listen fd 1024 w₂) _ (willing.listen_works fd 1024 w₂)
        ∙ checked-Works (os.setsockopt fd so_rcvbuf (pos 131072) w₃) _
            (willing.option_works fd so_rcvbuf (pos 131072) w₃)
        ∙ checked-Works (os.setsockopt fd so_reuseaddr (pos 1) w₄) _
            (willing.option_works fd so_reuseaddr (pos 1) w₄)
        ∙ checked-Works (os.sigemptyset (set_nonblocking os fd w₅)) _
            (willing.empty_works (set_nonblocking os fd w₅))
        ∙ checked-Works (os.ignore_sigpipe w₆) _ (willing.ignore_works w₆) in
      (
        server,
        (os.ignore_sigpipe w₆).1,
        run,
        init_sock-Ready port old server w (os.ignore_sigpipe w₆).1 run,
      )
