-- ===== src/Io/Epoll/Sound.antt =====
-- The invariant of the epoll object, over every order of events and replies.
use sunet.Base.{
  ℕ, ◌≡◌, ◌≢◌, sym, ap, ◌∙◌, false, List, ◌∷◌, none, some, Bytes, find, put, erase, nat_order,
  find-put_self, find-put_ne, find-erase_ne, same-cases, subst, Option-cases, Bool-cases, inl, inr,
}
use sunet.Base.Int.{ℤ, int_order}
use sunet.Io.{out_env}
use sunet.Io.Epoll.{
  Os, Epoll, EpollEvent, Events, OutEnv, of_fd, of_ptr, in_edge, out_level, out_edge, event_mod_buf,
  event_del, event_add, new_out_env, reply, ctl_mod, ctl_add, ctl_del, CtlOp,
}
use sunet.Io.Epoll.Laws.{EpollLaws, sent_world}

-- What may be watched of the socket `fd`: reading, with its own number, or writing, with an
-- environment of its own that has something to send.
pub data Watch (envs : List (ℕ × OutEnv)) (fd : ℤ) (e : EpollEvent) : Type 0 where
  reading : e.evt_data ≡ of_fd fd → e.events.epollout ≡ false → Watch envs fd e
  writing :
      (a c : ℕ) (left : Bytes)
      → e.evt_data ≡ of_ptr a
      → e.events.epollin ≡ false
      → find a envs ≡ some (record { fd = fd; buf = c ∷ left })
      → Watch envs fd e

Watch-put :
    (a : ℕ) (env : OutEnv) (envs : List (ℕ × OutEnv)) (fd : ℤ) (e : EpollEvent)
    → find a envs ≡ none
    → Watch envs fd e
    → Watch (put a env envs) fd e
Watch-put a env envs fd e n (reading d o) = reading d o
Watch-put a env envs fd e n (writing b c left d i f) =
    writing b c left d i
      (find-put_ne b a env envs (λ q. cc (ap (λ (k : ℕ). find k envs) q, n, f)) ∙ f)

Watch-erase :
    (a c : ℕ) (left : Bytes) (envs : List (ℕ × OutEnv)) (fd other : ℤ) (e : EpollEvent)
    → find a envs ≡ some (record { fd = other; buf = c ∷ left })
    → fd ≢ other
    → Watch envs fd e
    → Watch (erase a envs) fd e
Watch-erase a c left envs fd other e n ne (reading d o) = reading d o
Watch-erase a c left envs fd other e n ne (writing b k more d i f) =
    writing b k more d i
      (find-erase_ne b a envs (λ q. ne (cc (ap (λ (k : ℕ). find k envs) q, n, f))) ∙ f)

module _ {ℓ} {W : Type ℓ} (os : Os W) (laws : EpollLaws os) where
  -- Every socket that is watched is watched in one of these ways.
  abbrev pub IsSound : Epoll W → Type 0
  IsSound p =
      (fd : ℤ) (e : EpollEvent) → laws.interest p.epl_fd p.world fd ≡ some e → Watch p.out_envs fd e

  -- What is watched of one socket, and of the others.
  IsSound-split :
      (p : Epoll W) (fd : ℤ)
      → ((e : EpollEvent) → laws.interest p.epl_fd p.world fd ≡ some e → Watch p.out_envs fd e)
      → ((j : ℤ) (e : EpollEvent)
          → j ≢ fd
          → laws.interest p.epl_fd p.world j ≡ some e
          → Watch p.out_envs j e)
      → IsSound p
  IsSound-split p fd own rest j e k = elim (same-cases j fd) [
    | inl q ↦
        subst (λ i. Watch p.out_envs i e) (sym q)
          (own e (subst (λ i. laws.interest p.epl_fd p.world i ≡ some e) q k))
    | inr ne ↦ rest j e ne k
  ]

  -- A call of `epoll_ctl` on a socket, if what it watches of it then is well.
  IsSound-ctl :
      (p : Epoll W) (fd : ℤ) (op : CtlOp) (x : EpollEvent)
      → IsSound p
      → ((e : EpollEvent)
          → laws.interest p.epl_fd (os.epoll_ctl p.epl_fd op fd x p.world) fd ≡ some e
          → Watch p.out_envs fd e)
      → IsSound (record p { world = os.epoll_ctl p.epl_fd op fd x p.world })
  IsSound-ctl p fd op x s own =
      IsSound-split (record p { world = os.epoll_ctl p.epl_fd op fd x p.world }) fd own
        (λ j e ne k. s j e (sym (laws.ctl_other p.epl_fd fd j op x p.world ne) ∙ k))

  -- `_event_add` for reading.
  pub event_add-IsSound : (fd : ℤ) (p : Epoll W) → IsSound p → IsSound (event_add os fd in_edge p)
  unfolding event_add
  event_add-IsSound fd p s =
      let x : EpollEvent = record { events = in_edge; evt_data = of_fd fd } in
      IsSound-ctl p fd ctl_add x s (λ e k. elim (Option-cases (laws.interest p.epl_fd p.world fd)) [
        | inl n ↦ elim (Bool-cases (laws.adds p.epl_fd fd p.world)) [
          | inl t ↦
              let q = laws.add_new p.epl_fd fd x p.world n t in reading (cc (q, k)) (cc (q, k))
          | inr t ↦ cc (laws.add_refused p.epl_fd fd x p.world n t, k)
        ]
        | inr (y, o) ↦ s fd e (o ∙ sym (laws.add_old p.epl_fd fd x y p.world o) ∙ k)
      ])

  pub event_del-IsSound :
      (fd : ℤ) (t : Events) (p : Epoll W) → IsSound p → IsSound (event_del os fd t p)
  unfolding event_del
  event_del-IsSound fd t p s =
      let x : EpollEvent = record { events = t; evt_data = of_fd fd } in
      IsSound-ctl p fd ctl_del x s (λ e k. cc (laws.del_self p.epl_fd fd x p.world, k))

  close-IsSound :
      (fd : ℤ) (p : Epoll W) → IsSound p → IsSound (record p { world = os.close fd p.world })
  close-IsSound fd p s =
      IsSound-split (record p { world = os.close fd p.world }) fd
        (λ e k. cc (laws.close_self p.epl_fd fd p.world, k))
        (λ j e ne k. s j e (sym (laws.close_other p.epl_fd fd j p.world ne) ∙ k))

  -- The two calls of `_event_del` and `close`.
  pub closed-IsSound :
      (fd : ℤ) (p : Epoll W)
      → IsSound p
      → IsSound (record (event_del os fd out_edge (event_del os fd in_edge p)) {
        world = os.close fd (event_del os fd out_edge (event_del os fd in_edge p)).world;
      })
  closed-IsSound fd p s =
      close-IsSound fd (event_del os fd out_edge (event_del os fd in_edge p)) (
        event_del-IsSound fd out_edge (event_del os fd in_edge p)
          (event_del-IsSound fd in_edge p s))

  pub reply-IsSound :
      (fd : ℤ) (a : ℕ) (body : Bytes) (p : Epoll W)
      → find a p.out_envs ≡ none
      → IsSound p
      → IsSound (reply os fd a body p)
  unfolding reply event_mod_buf new_out_env out_env
  reply-IsSound fd a body p n s =
      let x : EpollEvent = record { events = out_level; evt_data = of_ptr a } in
      IsSound-split (reply os fd a body p) fd
        (λ e k. elim (Option-cases (laws.interest p.epl_fd p.world fd)) [
          | inl h ↦ cc (laws.mod_new p.epl_fd fd x p.world h, k)
          | inr (y, o) ↦
              let q = laws.mod_old p.epl_fd fd x y p.world o in
              writing a b'H' _ (cc (q, k)) (cc (q, k))
                (find-put_self a (new_out_env fd body) p.out_envs)
        ])
        (λ j e ne k.
          Watch-put a (new_out_env fd body) p.out_envs j e n
            (s j e (sym (laws.ctl_other p.epl_fd fd j ctl_mod x p.world ne) ∙ k)))

  -- The world of a response that is sent, its environment freed.
  pub sent-IsSound :
      (a c : ℕ) (left : Bytes) (fd : ℤ) (p : Epoll W)
      → find a p.out_envs ≡ some (record { fd = fd; buf = c ∷ left })
      → IsSound p
      → IsSound (record p {
        world = sent_world os p.epl_fd (c ∷ left) fd p.world;
        out_envs = erase a p.out_envs;
      })
  sent-IsSound a c left fd p f s =
      let x : EpollEvent = record { events = in_edge; evt_data = of_fd fd } in
      let w = (os.send fd (c ∷ left) p.world).1 in
      let keeps : (j : ℤ) → laws.interest p.epl_fd w j ≡ laws.interest p.epl_fd p.world j =
        λ j. laws.send_keeps p.epl_fd fd j (c ∷ left) p.world in
      IsSound-split
        (record p {
          world = sent_world os p.epl_fd (c ∷ left) fd p.world;
          out_envs = erase a p.out_envs;
        })
        fd
        (λ e k. elim (Option-cases (laws.interest p.epl_fd w fd)) [
          | inl h ↦ cc (laws.mod_new p.epl_fd fd x w h, k)
          | inr (y, o) ↦ let q = laws.mod_old p.epl_fd fd x y w o in reading (cc (q, k)) (cc (q, k))
        ])
        (λ j e ne k.
          Watch-erase a c left p.out_envs j fd e f ne
            (s j e (sym (laws.ctl_other p.epl_fd fd j ctl_mod x w ne ∙ keeps j) ∙ k)))
