-- ===== src/Task/Wakeup.antt =====
-- No wake-up of a waiting worker is lost.
use sunet.Base.{
  ℕ, zero, suc, ◌+◌, ◌≤◌, ◌<◌, ◌≡◌, ◌≢◌, refl, List, [], ◌∷◌, arith, length, length-append, ap, inl,
  inr, ◌⊎◌,
}
use sunet.Task.Interleaving.{
  State, Pc, Step, Reach, init, at, outside, add_enter, add_locked, add_pushed, add_signal,
  get_enter, get_test, get_wait, get_woken, get_popped, running, call_add, call_get, add_lock, push,
  add_unlock, signal, signal_none, get_lock, wait, spurious, relock, pop, get_unlock, finish, start,
  next,
}

module _ {ℓ} {Task : Type ℓ} where
  -- A thread that will give a signal, that is woken, or that is about to look at the queue.
  unfoldable pub awake : Pc Task → ℕ
  awake add_pushed = 1
  awake add_signal = 1
  awake get_woken = 1
  awake get_test = 1
  awake _ = 0

  -- How many of the first `n` threads are awake.
  unfoldable pub count_awake : ℕ → (ℕ → Pc Task) → ℕ
  count_awake zero pc = 0
  count_awake (suc n) pc = awake (pc n) + count_awake n pc

  count_above :
      (n i : ℕ) (pc : ℕ → Pc Task) (p : Pc Task)
      → n ≤ i
      → count_awake n (at pc i p) ≡ count_awake n pc
  unfolding count_awake
  count_above zero i pc p h = refl
  count_above (suc n) i pc p h = ground (arith, count_above n i pc p)

  count-at :
      (n i : ℕ) (pc : ℕ → Pc Task) (p : Pc Task)
      → i < n
      → count_awake n (at pc i p) + awake (pc i) ≡ count_awake n pc + awake p
  unfolding count_awake
  count-at zero i pc p h = absurd (omega arith)
  count-at (suc n) i pc p h = ground (arith, count-at n i pc p, count_above n i pc p)

  pub record Awake (n : ℕ) (s : State Task) : Type ℓ where
    pub within : (i : ℕ) → s.pc i ≢ outside → i < n
    pub enough : (j : ℕ) → s.pc j ≡ get_wait → length s.queue ≤ count_awake n s.pc

  Step-within :
      {n : ℕ} {s t : State Task}
      → Step n s t
      → ((i : ℕ) → s.pc i ≢ outside → i < n)
      → (i : ℕ) → t.pc i ≢ outside
      → i < n
  Step-within (push i task p) w k h = ground (arith, w i, w k)
  Step-within (pop i task rest p q) w k h = ground (arith, w i, w k)
  Step-within (call_add i task b p) w k h = ground (arith, w k)
  Step-within (call_get i b p) w k h = ground (arith, w k)
  Step-within (add_lock i task p q) w k h = ground (arith, w i, w k)
  Step-within (add_unlock i p) w k h = ground (arith, w i, w k)
  Step-within (signal i j p q) w k h = ground (arith, w i, w j, w k)
  Step-within (signal_none i p q) w k h = ground (arith, w i, w k)
  Step-within (get_lock i p q) w k h = ground (arith, w i, w k)
  Step-within (wait i p q) w k h = ground (arith, w i, w k)
  Step-within (spurious i p) w k h = ground (arith, w i, w k)
  Step-within (relock i p q) w k h = ground (arith, w i, w k)
  Step-within (get_unlock i task p) w k h = ground (arith, w i, w k)
  Step-within (finish i task p) w k h = ground (arith, w i, w k)

  Step-enough :
      {n : ℕ} {s t : State Task}
      → Step n s t
      → ((i : ℕ) → s.pc i ≢ outside → i < n)
      → ((j : ℕ) → s.pc j ≡ get_wait → length s.queue ≤ count_awake n s.pc)
      → (j : ℕ) → t.pc j ≡ get_wait
      → length t.queue ≤ count_awake n t.pc
  unfolding awake
  Step-enough {n} {s} (push i task p) w e k h =
      ground (arith, w i, e k, count-at n i s.pc add_pushed, length-append s.queue (task ∷ []))
  Step-enough {n} {s} (pop i task rest p q) w e k h =
      ground (arith, w i, e k, count-at n i s.pc (get_popped task), ap length q)
  Step-enough {n} {s} (call_add i task b p) w e k h =
      ground (arith, e k, count-at n i s.pc (add_enter task))
  Step-enough {n} {s} (call_get i b p) w e k h = ground (arith, e k, count-at n i s.pc get_enter)
  Step-enough {n} {s} (add_lock i task p q) w e k h =
      ground (arith, w i, e k, count-at n i s.pc (add_locked task))
  Step-enough {n} {s} (add_unlock i p) w e k h =
      ground (arith, w i, e k, count-at n i s.pc add_signal)
  Step-enough {n} {s} (signal i j p q) w e k h = ground (
    arith,
    w i,
    w j,
    e k,
    e j,
    count-at n i s.pc outside,
    count-at n j (at s.pc i outside) get_woken,
  )
  Step-enough {n} {s} (signal_none i p q) w e k h = ground (arith, w i, q k)
  Step-enough {n} {s} (get_lock i p q) w e k h =
      ground (arith, w i, e k, count-at n i s.pc get_test)
  Step-enough {n} {s} (wait i p q) w e k h = rw q (omega arith)
  Step-enough {n} {s} (spurious i p) w e k h =
      ground (arith, w i, e k, e i, count-at n i s.pc get_woken)
  Step-enough {n} {s} (relock i p q) w e k h = ground (arith, w i, e k, count-at n i s.pc get_test)
  Step-enough {n} {s} (get_unlock i task p) w e k h =
      ground (arith, w i, e k, count-at n i s.pc (running task))
  Step-enough {n} {s} (finish i task p) w e k h =
      ground (arith, w i, e k, count-at n i s.pc outside)

  Reach-Awake : {n : ℕ} {s : State Task} → Reach n s → Awake n s
  Reach-Awake start = record {
    within = λ i h. absurd (h (unfold init in refl));
    enough = λ j h. unfold init in omega arith;
  }
  Reach-Awake (next r st) =
      let v = Reach-Awake r in
      record { within = Step-within st v.within; enough = Step-enough st v.within v.enough }

  awake_cases : (p : Pc Task) → (awake p ≡ 0) ⊎ (awake p ≡ 1)
  unfolding awake
  awake_cases add_pushed = inr refl
  awake_cases add_signal = inr refl
  awake_cases get_woken = inr refl
  awake_cases get_test = inr refl
  awake_cases _ = inl refl

  length-pos : (q : List Task) → q ≢ [] → 0 < length q
  length-pos [] h = absurd (h refl)
  length-pos (task ∷ q) h = omega arith

  some_awake :
      (n : ℕ) (pc : ℕ → Pc Task) → 0 < count_awake n pc → (i : ℕ) × (i < n) × (awake (pc i) ≡ 1)
  unfolding count_awake
  some_awake zero pc h = absurd (omega arith)
  some_awake (suc n) pc h = elim (awake_cases (pc n)) [
    | inl e ↦ let (i, lt, a) = some_awake n pc (omega arith) in (i, omega arith, a)
    | inr e ↦ (n, omega arith, e)
  ]

  -- No signal is lost: while a worker waits and a task is in the queue, some thread has yet to give
  -- its signal, or is woken, or is about to look at the queue.
  pub no_lost_wakeup :
      {n : ℕ} {s : State Task} (j : ℕ)
      → Reach n s
      → s.pc j ≡ get_wait
      → s.queue ≢ []
      → (i : ℕ) × (i < n) × (awake (s.pc i) ≡ 1)
  no_lost_wakeup {n} {s} j r h q =
      some_awake n s.pc (omega (arith, (Reach-Awake r).enough j h, length-pos s.queue q))
