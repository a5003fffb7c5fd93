-- ===== src/Io/Epoll/Lost.antt =====
-- An environment of io/epoll.cpp that no socket is watched for, and the steps that keep it so.
use sunet.Base.{
  ℕ, ◌≡◌, ◌≢◌, sym, ap, ◌∙◌, ◌∷◌, none, some, Bytes, find, erase, nat_order, find-put_ne,
  find-erase_ne, same-cases, Option-cases, inl, inr, ◌⊎◌,
}
use sunet.Base.Int.{ℤ, int_order}
use sunet.Io.Epoll.{
  Os, Epoll, EpollEvent, of_fd, of_ptr, in_edge, out_level, event_mod_buf, new_out_env, reply,
  ctl_mod,
}
use sunet.Io.Epoll.Laws.{EpollLaws, sent_world}
use sunet.Io.Epoll.Sound.{IsSound, reply-IsSound, sent-IsSound}

pub some_inj {ℓ} : {A : Type ℓ} {a b : A} → some a ≡ some b → a ≡ b
some_inj p = cc p

pub fd_ne_ptr : (n : ℤ) (a : ℕ) → of_fd n ≢ of_ptr a
fd_ne_ptr n a q = cc q

module _ {ℓ} {W : Type ℓ} (os : Os W) (laws : EpollLaws os) where
  -- A callback that keeps the invariant, frees no environment and watches with descriptors only.
  pub record Calm (proc : ℤ → Epoll W → ℤ × Epoll W) : Type ℓ where
    pub keeps : (fd : ℤ) (p : Epoll W) → IsSound os laws p → IsSound os laws (proc fd p).1
    pub envs : (fd : ℤ) (p : Epoll W) → (proc fd p).1.out_envs ≡ p.out_envs
    pub watches :
        (fd : ℤ) (p : Epoll W) (j : ℤ) (x : EpollEvent)
        → laws.interest (proc fd p).1.epl_fd (proc fd p).1.world j ≡ some x
        → (x.evt_data ≡ of_fd j) ⊎ (laws.interest p.epl_fd p.world j ≡ some x)

  -- The environment at `a` is allocated, and its socket is not watched for it.
  pub record Lost (a : ℕ) (fd : ℤ) (c : ℕ) (left : Bytes) (p : Epoll W) : Type ℓ where
    pub sound : IsSound os laws p
    pub held : find a p.out_envs ≡ some (record { fd = fd; buf = c ∷ left })
    pub unwatched :
        (x : EpollEvent) → laws.interest p.epl_fd p.world fd ≡ some x → x.evt_data ≢ of_ptr a

  pub Lost-same :
      (a : ℕ) (fd : ℤ) (c : ℕ) (left : Bytes) (p q : Epoll W)
      → Lost a fd c left p
      → IsSound os laws q
      → q.out_envs ≡ p.out_envs
      → ((x : EpollEvent)
          → laws.interest q.epl_fd q.world fd ≡ some x
          → (x.evt_data ≡ of_fd fd) ⊎ (laws.interest p.epl_fd p.world fd ≡ some x))
      → Lost a fd c left q
  Lost-same a fd c left p q l s e old = record {
    sound = s;
    held = ap (λ envs. find a envs) e ∙ l.held;
    unwatched =
        λ x h d. elim (old x h) [ inl n ↦ fd_ne_ptr fd a (sym n ∙ d) | inr o ↦ l.unwatched x o d ];
  }

  -- A worker replies, at an address that is free.
  pub reply-Lost :
      (a : ℕ) (fd : ℤ) (c : ℕ) (left : Bytes) (other : ℤ) (b : ℕ) (body : Bytes) (p : Epoll W)
      → find b p.out_envs ≡ none
      → Lost a fd c left p
      → Lost a fd c left (reply os other b body p)
  unfolding reply event_mod_buf
  reply-Lost a fd c left other b body p unused l =
      let e : EpollEvent = record { events = out_level; evt_data = of_ptr b } in
      let ne : a ≢ b = λ q. cc (ap (λ (k : ℕ). find k p.out_envs) q, l.held, unused) in
      record {
        sound = reply-IsSound os laws other b body p unused l.sound;
        held = find-put_ne a b (new_out_env other body) p.out_envs ne ∙ l.held;
        unwatched = λ x h d. elim (same-cases fd other) [
          | inr n ↦ l.unwatched x (sym (laws.ctl_other p.epl_fd other fd ctl_mod e p.world n) ∙ h) d
          | inl q ↦
              let w = os.epoll_ctl p.epl_fd ctl_mod other e p.world in
              let h' : laws.interest p.epl_fd w other ≡ some x =
                ap (λ i. laws.interest p.epl_fd w i) (sym q) ∙ h in
              elim (Option-cases (laws.interest p.epl_fd p.world other)) [
                | inl n ↦ cc (laws.mod_new p.epl_fd other e p.world n, h')
                | inr (y, o) ↦
                    ne (cc (some_inj (sym (laws.mod_old p.epl_fd other e y p.world o) ∙ h'), d))
              ]
        ];
      }

  -- A response is sent, of another environment.
  pub sent-Lost :
      (a : ℕ) (fd : ℤ) (c : ℕ) (left : Bytes) (b : ℕ) (other : ℤ) (k : ℕ) (more : Bytes)
      (p : Epoll W)
      → find b p.out_envs ≡ some (record { fd = other; buf = k ∷ more })
      → a ≢ b
      → Lost a fd c left p
      → Lost a fd c left (record p {
        world = sent_world os p.epl_fd (k ∷ more) other p.world;
        out_envs = erase b p.out_envs;
      })
  sent-Lost a fd c left b other k more p f ne l =
      let e : EpollEvent = record { events = in_edge; evt_data = of_fd other } in
      let w = (os.send other (k ∷ more) p.world).1 in
      record {
        sound = sent-IsSound os laws b k more other p f l.sound;
        held = find-erase_ne a b p.out_envs ne ∙ l.held;
        unwatched = λ x h d. elim (same-cases fd other) [
          | inr n ↦
              l.unwatched x
                (sym (
                    laws.ctl_other p.epl_fd other fd ctl_mod e w n
                    ∙ laws.send_keeps p.epl_fd other fd (k ∷ more) p.world)
                  ∙ h)
                d
          | inl q ↦
              let w₁ = os.epoll_ctl p.epl_fd ctl_mod other e w in
              let h' : laws.interest p.epl_fd w₁ other ≡ some x =
                ap (λ i. laws.interest p.epl_fd w₁ i) (sym q) ∙ h in
              elim (Option-cases (laws.interest p.epl_fd w other)) [
                | inl n ↦ cc (laws.mod_new p.epl_fd other e w n, h')
                | inr (y, o) ↦
                    fd_ne_ptr other a
                      (cc (some_inj (sym (laws.mod_old p.epl_fd other e y w o) ∙ h'), d))
              ]
        ];
      }
