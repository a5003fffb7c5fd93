-- ===== src/Io/Select/Rounds.antt =====
-- When the loop over the client sockets ends, and when it does not.
use sunet.Base.{
  ℕ, zero, suc, ◌+◌, ◌≤◌, ◌≡◌, ◌≢◌, refl, ap, ◌∙◌, Bool, true, false, ◌||◌, List, [], ◌∷◌, none,
  some, length, get_elem?, same, Bool-cases, Option-cases, inl, inr, arith,
}
use sunet.Base.Int.{ℤ, pos, negsuc, int_order}
use sunet.Io.EventQueue.{get_evt_data}
use sunet.Io.Select.{SelectOs, Select, close_at, read_client, look_at, look_loop, remove_at}

module _ {ℓ} {W : Type ℓ} (os : SelectOs W) (accept_proc : ℤ → Select W → ℤ × Select W)
    (read_proc : ℤ → Select W → ℤ × Select W) where
  -- A client that can be written and not read, for which a buffer waits, and that takes some bytes of
  -- every `send`.
  abbrev pub IsWritable : Select W → ℤ → Type ℓ
  IsWritable s fd =
      (negsuc 0 ≢ fd)
      × (fd ≢ s.svr_fd)
      × (s.copy_read_set fd ≡ false)
      × (s.copy_write_set fd ≡ true)
      × ((w : W)
          → (b : ℕ) × (bufs : List ℕ) × (k : ℕ) × (get_evt_data fd [] (os.event_queue w) ≡ b ∷ bufs)
            × ((os.send fd (os.bytes_at b 8 w) w).0 ≡ some (suc k)))

  -- No client can be written, and the read callback leaves the vector and the sets that `select` gave.
  abbrev pub Quiet : Select W → Type ℓ
  Quiet s =
      ((fd : ℤ) → s.copy_write_set fd ≡ false)
      × ((fd : ℤ) (s' : Select W)
          → ((read_proc fd s').1.clt_sock_vec ≡ s'.clt_sock_vec)
            × ((read_proc fd s').1.copy_write_set ≡ s'.copy_write_set))

  length-remove_at : (i : ℕ) (fds : List ℤ) → length (remove_at i fds) ≤ length fds
  unfolding remove_at
  length-remove_at zero [] = omega arith
  length-remove_at zero (fd ∷ fds) = omega arith
  length-remove_at (suc i) [] = omega arith
  length-remove_at (suc i) (fd ∷ fds) = omega (arith, length-remove_at i fds)

  look_at_shrinks :
      (i : ℕ) (fd : ℤ) (s : Select W)
      → Quiet s
      → let s' = look_at os accept_proc read_proc i fd s in
        (length s'.clt_sock_vec ≤ length s.clt_sock_vec) × Quiet s'
  unfolding look_at read_client close_at
  look_at_shrinks i fd s (idle, keeps) =
      let s₁ = (read_proc fd s).1 in
      let quiet : (j : ℤ) → s₁.copy_write_set j ≡ false =
        λ j. ap (λ (x : ℤ → Bool). x j) (keeps fd s).1 ∙ idle j in
      let whole : length s₁.clt_sock_vec ≡ length s.clt_sock_vec = ap length (keeps fd s).0 in
      elim (Bool-cases (same (negsuc 0) fd || same fd s.svr_fd)) [
        | inl t ↦ rw (look_at, t) (omega arith, (idle, keeps))
        | inr t ↦ elim (Bool-cases (s.copy_read_set fd)) [
          | inr r ↦ rw (look_at, t, r, idle fd) (omega arith, (idle, keeps))
          | inl r ↦ elim (Bool-cases (same (read_proc fd s).0 (pos 0))) [
            | inl z ↦
                rw (look_at, t, r, read_client, z, close_at)
                  (omega (arith, whole, length-remove_at i s₁.clt_sock_vec), (quiet, keeps))
            | inr z ↦ rw (look_at, t, r, read_client, z) (omega (arith, whole), (quiet, keeps))
          ]
        ]
      ]

  get_elem?_past : (fds : List ℤ) (i : ℕ) → length fds ≤ i → get_elem? fds i ≡ none
  get_elem?_past [] i h = refl
  get_elem?_past (fd ∷ fds) zero h = ground (arith, h)
  get_elem?_past (fd ∷ fds) (suc i) h = get_elem?_past fds i (omega (arith, h))

  look_loop_ends_from :
      (fuel i : ℕ) (s : Select W)
      → Quiet s
      → length s.clt_sock_vec ≤ i + fuel
      → (s' : Select W) × (look_loop os accept_proc read_proc (suc fuel) i s ≡ some s')
        × (length s'.clt_sock_vec ≤ length s.clt_sock_vec)
  unfolding look_loop
  look_loop_ends_from zero i s quiet h =
      rw (look_loop, get_elem?_past s.clt_sock_vec i (omega (arith, h))) (s, refl, omega arith)
  look_loop_ends_from (suc fuel) i s quiet h = elim (Option-cases (get_elem? s.clt_sock_vec i)) [
    | inl n ↦ rw (look_loop, n) (s, refl, omega arith)
    | inr (fd, e) ↦
        let (shrinks, quiet') = look_at_shrinks i fd s quiet in
        let (s', ended, less) =
          look_loop_ends_from fuel (suc i) (look_at os accept_proc read_proc i fd s) quiet'
            (omega (arith, h, shrinks)) in
        rw (look_loop, e) (s', ended, omega (arith, less, shrinks))
  ]

  -- When no descriptor is in the write set that `select` gave, and the read callback leaves that set and the vector
  -- of sockets as they are, the `for` loop ends within one round more than there are
  -- sockets, and adds no socket to the vector.
  pub look_loop_ends :
      (s : Select W)
      → Quiet s
      → (s' : Select W) × (look_loop os accept_proc read_proc (suc (length s.clt_sock_vec)) 0 s
          ≡ some s')
        × (length s'.clt_sock_vec ≤ length s.clt_sock_vec)
  look_loop_ends s quiet = look_loop_ends_from (length s.clt_sock_vec) 0 s quiet (omega arith)
