-- ===== src/Io/Epoll/Reach.antt =====
-- Every state that the event loop and the tasks reach, in any order of their steps.
use sunet.Base.{
  ℕ, ◌≡◌, refl, sym, ◌∙◌, subst, false, ◌∷◌, none, some, Bytes, find, same, nat_order, Bool-cases,
  inl, inr, erase,
}
use sunet.Base.Int.{ℤ, pos, negsuc, int_order}
use sunet.Io.Epoll.{Os, Epoll, EpollEvent, data_fd, data_ptr, event_init, read_back, handle, reply}
use sunet.Io.Epoll.Laws.{EpollLaws, sent_world}
use sunet.Io.Epoll.Cycle.{write_back_found}
use sunet.Io.Epoll.Sound.{
  reading, writing, IsSound, event_add-IsSound, closed-IsSound, reply-IsSound, sent-IsSound,
}

some_inj {ℓ} : {A : Type ℓ} {a b : A} → some a ≡ some b → a ≡ b
some_inj p = cc p

module _ {ℓ} {W : Type ℓ} (os : Os W) (laws : EpollLaws os) where
  -- What `epoll_wait` may deliver: of a socket that is watched, its data, and no EPOLLIN or EPOLLOUT
  -- that is not watched for.
  pub record Delivered (p : Epoll W) (ev : EpollEvent) : Type 0 where
    pub fd : ℤ
    pub watched : EpollEvent
    pub is_watched : laws.interest p.epl_fd p.world fd ≡ some watched
    pub same_data : ev.evt_data ≡ watched.evt_data
    pub no_in : watched.events.epollin ≡ false → ev.events.epollin ≡ false
    pub no_out : watched.events.epollout ≡ false → ev.events.epollout ≡ false

  module _ (accept_proc : ℤ → Epoll W → ℤ × Epoll W) (read_proc : ℤ → Epoll W → ℤ × Epoll W) where
    -- The object is set up; a worker replies, at an address that is free; an event that is
    -- delivered is handled.
    pub data Reach : Epoll W → Type ℓ where
      started : (srv_fd : ℤ) (p : Epoll W) → Reach (event_init os srv_fd p)
      replied :
          (fd : ℤ) (a : ℕ) (body : Bytes) (p : Epoll W)
          → Reach p
          → find a p.out_envs ≡ none
          → Reach (reply os fd a body p)
      handled :
          (ev : EpollEvent) (p p' : Epoll W)
          → Reach p
          → Delivered p ev
          → handle os accept_proc read_proc ev p ≡ some p'
          → Reach p'

    module _
        (accept-IsSound : (fd : ℤ) (p : Epoll W)
          → IsSound os laws p
          → IsSound os laws (accept_proc fd p).1)
        (read-IsSound : (fd : ℤ) (p : Epoll W)
          → IsSound os laws p
          → IsSound os laws (read_proc fd p).1) where
      pub event_init-IsSound : (srv_fd : ℤ) (p : Epoll W) → IsSound os laws (event_init os srv_fd p)
      unfolding event_init
      event_init-IsSound srv_fd p =
          let (ep, w) = os.epoll_create 10240 p.world in
          let p₁ : Epoll W = record p { max_evt_cnt = 10240; epl_fd = ep; world = w } in
          let empty : (j : ℤ) → laws.interest ep w j ≡ none =
            λ j. laws.create_empty 10240 p.world j in
          elim (Bool-cases (same ep (negsuc 0))) [
            | inl e ↦ rw (event_init, e) (λ j x k. cc (empty j, k))
            | inr e ↦
                rw (event_init, e)
                  (event_add-IsSound os laws srv_fd (record p₁ { svr_fd = srv_fd })
                    (λ j x k. cc (empty j, k)))
          ]

      read_back-IsSound :
          (fd : ℤ) (p : Epoll W)
          → IsSound os laws p
          → IsSound os laws (read_back os accept_proc read_proc fd p)
      unfolding read_back
      read_back-IsSound fd p s = elim (Bool-cases (same (pos 1) (read_proc fd p).0)) [
        | inl e ↦ rw (read_back, e) (read-IsSound fd p s)
        | inr e ↦
            rw (read_back, e) (closed-IsSound os laws fd (read_proc fd p).1 (read-IsSound fd p s))
      ]

      -- An event that is delivered in a sound state is handled, and the state is sound.
      pub handle-IsSound :
          (ev : EpollEvent) (p : Epoll W)
          → IsSound os laws p
          → Delivered p ev
          → (p' : Epoll W) × (handle os accept_proc read_proc ev p ≡ some p') × IsSound os laws p'
      unfolding handle data_ptr
      handle-IsSound ev p s d = elim (Bool-cases (same (data_fd ev.evt_data) p.svr_fd)) [
        | inl e ↦ rw (e, handle) ((accept_proc p.svr_fd p).1, refl, accept-IsSound p.svr_fd p s)
        | inr e ↦ elim (Bool-cases ev.events.epollin) [
          | inl i ↦
              rw (e, i, handle)
                (
                  read_back os accept_proc read_proc (data_fd ev.evt_data) p,
                  refl,
                  read_back-IsSound (data_fd ev.evt_data) p s,
                )
          | inr i ↦ elim (Bool-cases ev.events.epollout) [
            | inr o ↦ rw (e, i, o, handle) (p, refl, s)
            | inl o ↦ elim (s d.fd d.watched d.is_watched) [
              | reading q n ↦ cc (d.no_out n, o)
              | writing a c left q n f ↦
                  rw (e, i, o, d.same_data ∙ q, data_ptr, handle)
                    (
                      record p {
                        world = sent_world os p.epl_fd (c ∷ left) d.fd p.world;
                        out_envs = erase a p.out_envs;
                      },
                      write_back_found os laws accept_proc read_proc (data_fd ev.evt_data) a d.fd c
                          left p f,
                      sent-IsSound os laws a c left d.fd p f s,
                    )
            ]
          ]
        ]
      ]

      Reach-IsSound : (p : Epoll W) → Reach p → IsSound os laws p
      Reach-IsSound _ (started srv_fd p) = event_init-IsSound srv_fd p
      Reach-IsSound _ (replied fd a body p r n) =
          reply-IsSound os laws fd a body p n (Reach-IsSound p r)
      Reach-IsSound _ (handled ev p p' r d h) =
          let (q, e, s) = handle-IsSound ev p (Reach-IsSound p r) d in
          subst (λ x. IsSound os laws x) (some_inj (sym e ∙ h)) s

      -- In every state that is reached by events and replies in any order, from the start of the epoll
      -- object on and with callbacks that keep the invariant `IsSound`, an event that `epoll_wait`
      -- delivers is handled without the use of a freed environment or of a descriptor as a
      -- pointer, and every socket that is watched then is watched with its own number for reading
      -- or with an environment of its own, not empty, for writing.
      pub Reach-handle :
          (p : Epoll W) (ev : EpollEvent)
          → Reach p
          → Delivered p ev
          → (p' : Epoll W) × (handle os accept_proc read_proc ev p ≡ some p') × IsSound os laws p'
      Reach-handle p ev r d = handle-IsSound ev p (Reach-IsSound p r) d
