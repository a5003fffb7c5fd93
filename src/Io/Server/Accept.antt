-- ===== src/Io/Server/Accept.antt =====
-- What `_on_accept` does to the sockets that are watched.
use sunet.Base.{
  ◌≡◌, ◌≢◌, refl, sym, ap, ◌∙◌, true, false, List, [], ◌∷◌, none, some, All, same-cases, inl, inr,
  subst, ◌⊎◌, All-weaken, if◌then◌else◌, ◌++◌,
}
use sunet.Base.Int.{ℤ, pos, negsuc, ltb_ℤ, int_order}
use sunet.Io.Epoll.{Os, Epoll, EpollEvent, event_add, in_edge, of_fd, ctl_add}
use sunet.Io.Epoll.Laws.{EpollLaws}
use sunet.Io.Epoll.Sound.{IsSound, event_add-IsSound}
use sunet.Io.Sock.{SockOs, set_nonblocking}
use sunet.Io.Server.{accept_loop, add_client, on_accept}

-- Results of `accept` that are sockets.
abbrev pub AreSockets : List ℤ → Type 0
AreSockets fds = All (λ fd. ltb_ℤ (pos 0) fd ≡ true) fds

-- The sockets and then the result that ends the loop.
pub accept_loop_lem {ℓ} :
    {E : Type ℓ} (add : ℤ → E → E) (fds : List ℤ) (last : ℤ) (more : List ℤ) (mx : ℤ) (evt : E)
    → AreSockets fds
    → ltb_ℤ (pos 0) last ≡ false
    → accept_loop add (fds ++ last ∷ more) mx evt ≡ accept_loop add fds mx evt
unfolding accept_loop
accept_loop_lem add [] last more mx evt ok e = rw (accept_loop, e) refl
accept_loop_lem add (fd ∷ fds) last more mx evt ok e =
    rw (accept_loop, ok.0) (accept_loop_lem add fds last more _ (add fd evt) ok.1 e)

-- fcntl(2) changes nothing that an epoll object watches.
pub record FcntlLaws {ℓ} {W : Type ℓ} (os : Os W) (laws : EpollLaws os) (sockets : SockOs W)
    : Type ℓ where
  pub getfl_keeps :
      (ep fd j : ℤ) (w : W) → laws.interest ep (sockets.fcntl_getfl fd w).1 j ≡ laws.interest ep w j
  pub setfl_keeps :
      (ep fd n j : ℤ) (w : W)
      → laws.interest ep (sockets.fcntl_setfl fd n w).1 j ≡ laws.interest ep w j

module _ {ℓ} {W : Type ℓ} (os : Os W) (laws : EpollLaws os) (sockets : SockOs W)
    (fcntl : FcntlLaws os laws sockets) where
  abbrev pub reads : ℤ → EpollEvent
  reads fd = record { events = in_edge; evt_data = of_fd fd }

  -- A socket that was not watched is watched for reading.
  abbrev pub Joins : Epoll W → Epoll W → ℤ → Type 0
  Joins before after fd =
      laws.interest before.epl_fd before.world fd ≡ none
      → laws.interest after.epl_fd after.world fd ≡ some (reads fd)

  -- What is watched of `j` behind the calls of `_event_add`.
  pub record Watched (before after : Epoll W) (fds : List ℤ) : Type 0 where
    pub same_object : after.epl_fd ≡ before.epl_fd
    pub sound : IsSound os laws before → IsSound os laws after
    pub kept :
        (j : ℤ) (x : EpollEvent)
        → laws.interest before.epl_fd before.world j ≡ some x
        → laws.interest after.epl_fd after.world j ≡ some x
    pub others :
        (j : ℤ)
        → All (λ fd. j ≢ fd) fds
        → laws.interest after.epl_fd after.world j ≡ laws.interest before.epl_fd before.world j
    pub added : All (Joins before after) fds

  add_kept :
      (fd : ℤ) (p : Epoll W) (j : ℤ) (x : EpollEvent)
      → laws.interest p.epl_fd p.world j ≡ some x
      → laws.interest p.epl_fd (event_add os fd in_edge p).world j ≡ some x
  unfolding event_add
  add_kept fd p j x h = elim (same-cases j fd) [
    | inl q ↦
        let h' : laws.interest p.epl_fd p.world fd ≡ some x =
          ap (λ i. laws.interest p.epl_fd p.world i) (sym q) ∙ h in
        ap (λ i. laws.interest p.epl_fd (os.epoll_ctl p.epl_fd ctl_add fd (reads fd) p.world) i) q
        ∙ laws.add_old p.epl_fd fd (reads fd) x p.world h'
    | inr ne ↦ laws.ctl_other p.epl_fd fd j ctl_add (reads fd) p.world ne ∙ h
  ]

  add_new :
      (fd : ℤ) (p : Epoll W) (j : ℤ)
      → laws.interest p.epl_fd p.world j ≡ none
      → laws.adds p.epl_fd fd p.world ≡ true
      → (laws.interest p.epl_fd (event_add os fd in_edge p).world j ≡ none)
        ⊎ (laws.interest p.epl_fd (event_add os fd in_edge p).world j ≡ some (reads j))
  unfolding event_add
  add_new fd p j h room = elim (same-cases j fd) [
    | inl q ↦ inr (
        subst
          (λ i.
            laws.interest p.epl_fd (os.epoll_ctl p.epl_fd ctl_add fd (reads fd) p.world) i
            ≡ some (reads i))
          (sym q)
          (laws.add_new p.epl_fd fd (reads fd) p.world
            (ap (λ i. laws.interest p.epl_fd p.world i) (sym q) ∙ h) room))
    | inr ne ↦ inl (laws.ctl_other p.epl_fd fd j ctl_add (reads fd) p.world ne ∙ h)
  ]

  add_self :
      (fd : ℤ) (p : Epoll W)
      → laws.interest p.epl_fd p.world fd ≡ none
      → laws.adds p.epl_fd fd p.world ≡ true
      → laws.interest p.epl_fd (event_add os fd in_edge p).world fd ≡ some (reads fd)
  unfolding event_add
  add_self fd p h room = laws.add_new p.epl_fd fd (reads fd) p.world h room

  -- The object with a socket that does not block.
  abbrev pub unblocked : ℤ → Epoll W → Epoll W
  unblocked fd p = record p { world = set_nonblocking sockets fd p.world }

  pub unblocked_interest :
      (fd : ℤ) (p : Epoll W) (j : ℤ)
      → laws.interest p.epl_fd (unblocked fd p).world j ≡ laws.interest p.epl_fd p.world j
  unfolding set_nonblocking
  unblocked_interest fd p j =
      fcntl.setfl_keeps p.epl_fd fd _ j (sockets.fcntl_getfl fd p.world).1
      ∙ fcntl.getfl_keeps p.epl_fd fd j p.world

  accept_loop-Watched :
      (fds : List ℤ) (mx : ℤ) (p : Epoll W)
      → AreSockets fds
      → ((fd : ℤ) (w : W) → laws.adds p.epl_fd fd w ≡ true)
      → Watched p (accept_loop (λ fd q. add_client os sockets fd q) fds mx p).1 fds
  unfolding accept_loop add_client event_add
  accept_loop-Watched [] mx p ok room = record {
    same_object = refl;
    sound = λ s. s;
    kept = λ j x h. h;
    others = λ j h. refl;
    added = tt;
  }
  accept_loop-Watched (fd ∷ fds) mx p ok room =
      let p₀ = unblocked fd p in
      let p₁ = add_client os sockets fd p in
      let mx₁ = if ltb_ℤ fd mx then mx else fd in
      let last = (accept_loop (λ i q. add_client os sockets i q) fds mx₁ p₁).1 in
      let rest = accept_loop-Watched fds mx₁ p₁ ok.1 room in
      rw (accept_loop, ok.0)
        (record {
          same_object = rest.same_object;
          sound = λ s. rest.sound (
              event_add-IsSound os laws fd p₀
                (λ j x h. s j x (sym (unblocked_interest fd p j) ∙ h)));
          kept = λ j x h. rest.kept j x (add_kept fd p₀ j x (unblocked_interest fd p j ∙ h));
          others = λ j h.
              rest.others j h.1
              ∙ laws.ctl_other p.epl_fd fd j ctl_add (reads fd) p₀.world h.0
              ∙ unblocked_interest fd p j;
          added = (
            λ h.
                rest.kept fd (reads fd)
                  (add_self fd p₀ (unblocked_interest fd p fd ∙ h) (room fd p₀.world)),
            All-weaken (Joins p₁ last) (Joins p last)
                (λ j f h.
                  elim (add_new fd p₀ j (unblocked_interest fd p j ∙ h) (room fd p₀.world)) [
                    | inl n ↦ f n
                    | inr y ↦ rest.kept j (reads j) y
                  ])
                fds rest.added,
          );
        })

  -- `_on_accept` where `accept` returns the sockets `fds` and then a result that is no socket, and the
  -- kernel has room for more watches: what was watched stays watched as it was, each new socket that was
  -- not watched is watched for EPOLLIN with its own number, every descriptor that is not new is watched or
  -- not as before, and the invariant of the epoll object is kept. The calls of `fcntl` change
  -- nothing that the object watches.
  pub on_accept-Watched :
      (fds : List ℤ) (last : ℤ) (more : List ℤ) (p : Epoll W)
      → AreSockets fds
      → ltb_ℤ (pos 0) last ≡ false
      → ((fd : ℤ) (w : W) → laws.adds p.epl_fd fd w ≡ true)
      → Watched p (on_accept os sockets (fds ++ last ∷ more) p).1 fds
  unfolding on_accept
  on_accept-Watched fds last more p ok e room =
      rw (accept_loop_lem (λ fd q. add_client os sockets fd q) fds last more (negsuc 0) p ok e)
        (accept_loop-Watched fds (negsuc 0) p ok room)
