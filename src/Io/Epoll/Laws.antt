-- ===== src/Io/Epoll/Laws.antt =====
-- What the epoll code relies on of the kernel, from epoll_ctl(2), send(2) and close(2), and how
-- the calls of io/epoll.cpp read in its terms.
use sunet.Base.{
  ℕ, zero, suc, ◌≤◌, ◌≡◌, ◌≢◌, refl, List, [], ◌∷◌, ◌++◌, Bool, true, false, Option, none, some,
  Bytes, length, take, drop, ltb, arith, ◌∙◌, Bool-cases, Option-cases, inl, inr,
}
use sunet.Base.Int.{ℤ}
use sunet.Io.Epoll.{Os, EpollEvent, CtlOp, ctl_add, ctl_mod, ctl_del, of_fd, send_loop, in_edge}

-- The bytes that a call of `send` has taken, by its result.
abbrev pub accepted : Option ℕ → ℕ
accepted none = 0
accepted (some n) = n

-- `interest epl_fd w fd` is what the epoll object `epl_fd` watches of `fd`, `taken fd w` the bytes
-- that the kernel has taken for `fd` so far, and `adds epl_fd fd w` whether it can watch one more
-- descriptor, which fails for want of memory (ENOMEM), of watches (ENOSPC), or for a file that
-- cannot be watched (EPERM).
pub record EpollLaws {ℓ} {W : Type ℓ} (os : Os W) : Type ℓ where
  pub interest : ℤ → W → ℤ → Option EpollEvent
  pub taken : ℤ → W → Bytes
  pub adds : ℤ → ℤ → W → Bool
  pub create_empty :
      (size : ℕ) (w : W) (fd : ℤ)
      → interest (os.epoll_create size w).0 (os.epoll_create size w).1 fd ≡ none
  pub add_new :
      (ep fd : ℤ) (e : EpollEvent) (w : W)
      → interest ep w fd ≡ none
      → adds ep fd w ≡ true
      → interest ep (os.epoll_ctl ep ctl_add fd e w) fd ≡ some e
  pub add_refused :
      (ep fd : ℤ) (e : EpollEvent) (w : W)
      → interest ep w fd ≡ none
      → adds ep fd w ≡ false
      → interest ep (os.epoll_ctl ep ctl_add fd e w) fd ≡ none
  -- EEXIST.
  pub add_old :
      (ep fd : ℤ) (e x : EpollEvent) (w : W)
      → interest ep w fd ≡ some x
      → interest ep (os.epoll_ctl ep ctl_add fd e w) fd ≡ some x
  pub mod_old :
      (ep fd : ℤ) (e x : EpollEvent) (w : W)
      → interest ep w fd ≡ some x
      → interest ep (os.epoll_ctl ep ctl_mod fd e w) fd ≡ some e
  -- ENOENT.
  pub mod_new :
      (ep fd : ℤ) (e : EpollEvent) (w : W)
      → interest ep w fd ≡ none
      → interest ep (os.epoll_ctl ep ctl_mod fd e w) fd ≡ none
  pub del_self :
      (ep fd : ℤ) (e : EpollEvent) (w : W) → interest ep (os.epoll_ctl ep ctl_del fd e w) fd ≡ none
  pub ctl_other :
      (ep fd j : ℤ) (op : CtlOp) (e : EpollEvent) (w : W)
      → j ≢ fd
      → interest ep (os.epoll_ctl ep op fd e w) j ≡ interest ep w j
  pub send_keeps :
      (ep fd j : ℤ) (buf : Bytes) (w : W) → interest ep (os.send fd buf w).1 j ≡ interest ep w j
  pub send_takes :
      (fd : ℤ) (buf : Bytes) (w : W)
      → taken fd (os.send fd buf w).1 ≡ taken fd w ++ take (accepted (os.send fd buf w).0) buf
  pub ctl_takes :
      (ep fd j : ℤ) (op : CtlOp) (e : EpollEvent) (w : W)
      → taken j (os.epoll_ctl ep op fd e w) ≡ taken j w
  pub close_self : (ep fd : ℤ) (w : W) → interest ep (os.close fd w) fd ≡ none
  pub close_other : (ep fd j : ℤ) (w : W) → j ≢ fd → interest ep (os.close fd w) j ≡ interest ep w j

module _ {ℓ} {W : Type ℓ} (os : Os W) where
  -- The world behind a response that is sent: one `send`, and the socket is put back.
  abbrev pub sent_world : ℤ → Bytes → ℤ → W → W
  sent_world ep buf fd w =
      os.epoll_ctl ep ctl_mod fd (record { events = in_edge; evt_data = of_fd fd })
        (os.send fd buf w).1

pub drop_all {ℓ} : {A : Type ℓ} (n : ℕ) (xs : List A) → length xs ≤ n → drop n xs ≡ []
drop_all zero [] h = refl
drop_all zero (x ∷ xs) h = ground (arith, h)
drop_all (suc n) [] h = refl
drop_all (suc n) (x ∷ xs) h = drop_all n xs (omega (arith, h))

module _ {ℓ} {W : Type ℓ} (os : Os W) (laws : EpollLaws os) where
  -- Of a buffer that is not empty and with fuel for two rounds, the loop `while (n > 0)` ends and has called `send`
  -- once, with the whole buffer, whatever `send` returned: what a partial send left is not sent.
  pub send_loop_lem :
      (fuel : ℕ) (fd : ℤ) (c : ℕ) (left : Bytes) (w : W)
      → send_loop os (suc (suc fuel)) fd (c ∷ left) w ≡ some (os.send fd (c ∷ left) w).1
  unfolding send_loop
  send_loop_lem fuel fd c left w = elim (Option-cases (os.send fd (c ∷ left) w).0) [
    | inl e ↦ rw (e, send_loop) refl
    | inr (n, e) ↦ elim (Bool-cases (ltb n (length (c ∷ left)))) [
      | inl t ↦ rw (e, t, send_loop) refl
      | inr t ↦
          let q : drop n (c ∷ left) ≡ [] = drop_all n (c ∷ left) (ground (arith, t)) in
          rw (e, t, q, send_loop) refl
    ]
  ]

  -- What the kernel has taken behind the response.
  pub taken-sent_world :
      (ep : ℤ) (buf : Bytes) (fd : ℤ) (w : W)
      → laws.taken fd (sent_world os ep buf fd w)
        ≡ laws.taken fd w ++ take (accepted (os.send fd buf w).0) buf
  taken-sent_world ep buf fd w =
      laws.ctl_takes ep fd fd ctl_mod _ (os.send fd buf w).1 ∙ laws.send_takes fd buf w
