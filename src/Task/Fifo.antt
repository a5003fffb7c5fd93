-- ===== src/Task/Fifo.antt =====
-- Invariants of the task queue under every interleaving.
use sunet.Base.{ℕ, ◌≡◌, refl, Bool, true, false, [], ◌∷◌, ◌++◌, some, arith, append_assoc, sym}
use sunet.Task.Interleaving.{
  State, Pc, Step, Reach, init, add_locked, add_pushed, get_test, get_popped, call_add, call_get,
  add_lock, push, add_unlock, signal, signal_none, get_lock, wait, spurious, relock, pop,
  get_unlock, finish, start, next,
}

module _ {ℓ} {Task : Type ℓ} where
  -- Between the lock and the unlock.
  unfoldable pub is_critical : Pc Task → Bool
  is_critical (add_locked task) = true
  is_critical add_pushed = true
  is_critical get_test = true
  is_critical (get_popped task) = true
  is_critical _ = false

  -- A thread in a critical section holds the mutex, and the queue is what was pushed and not popped.
  pub record Inv (s : State Task) : Type ℓ where
    pub exclusive : (i : ℕ) → is_critical (s.pc i) ≡ true → s.holder ≡ some i
    pub fifo : s.pushed ≡ s.popped ++ s.queue

  Step-fifo :
      {n : ℕ} {s t : State Task}
      → Step n s t
      → s.pushed ≡ s.popped ++ s.queue
      → t.pushed ≡ t.popped ++ t.queue
  Step-fifo {s} (push i task p) h = rw h (append_assoc s.popped s.queue (task ∷ []))
  Step-fifo {s} (pop i task rest p q) h = rw (append_assoc, ← q) h
  Step-fifo (call_add i task b p) h = h
  Step-fifo (call_get i b p) h = h
  Step-fifo (add_lock i task p q) h = h
  Step-fifo (add_unlock i p) h = h
  Step-fifo (signal i j p q) h = h
  Step-fifo (signal_none i p q) h = h
  Step-fifo (get_lock i p q) h = h
  Step-fifo (wait i p q) h = h
  Step-fifo (spurious i p) h = h
  Step-fifo (relock i p q) h = h
  Step-fifo (get_unlock i task p) h = h
  Step-fifo (finish i task p) h = h

  Step-exclusive :
      {n : ℕ} {s t : State Task}
      → Step n s t
      → ((i : ℕ) → is_critical (s.pc i) ≡ true → s.holder ≡ some i)
      → (i : ℕ) → is_critical (t.pc i) ≡ true
      → t.holder ≡ some i
  unfolding is_critical
  Step-exclusive (push i task p) h k = ground (arith, h i, h k)
  Step-exclusive (pop i task rest p q) h k = ground (arith, h i, h k)
  Step-exclusive (call_add i task b p) h k = ground (arith, h i, h k)
  Step-exclusive (call_get i b p) h k = ground (arith, h i, h k)
  Step-exclusive (add_lock i task p q) h k = ground (arith, h i, h k)
  Step-exclusive (add_unlock i p) h k = ground (arith, h i, h k)
  Step-exclusive (signal i j p q) h k = ground (arith, h i, h k)
  Step-exclusive (signal_none i p q) h k = ground (arith, h i, h k)
  Step-exclusive (get_lock i p q) h k = ground (arith, h i, h k)
  Step-exclusive (wait i p q) h k = ground (arith, h i, h k)
  Step-exclusive (spurious i p) h k = ground (arith, h i, h k)
  Step-exclusive (relock i p q) h k = ground (arith, h i, h k)
  Step-exclusive (get_unlock i task p) h k = ground (arith, h i, h k)
  Step-exclusive (finish i task p) h k = ground (arith, h i, h k)

  Reach-Inv : {n : ℕ} {s : State Task} → Reach n s → Inv s
  Reach-Inv start = record {
    exclusive = λ i h. unfold is_critical init in cc;
    fifo = unfold init in refl;
  }
  Reach-Inv (next r st) =
      let v = Reach-Inv r in
      record { exclusive = Step-exclusive st v.exclusive; fifo = Step-fifo st v.fifo }

  -- At any time at most one thread is between a lock and its unlock.
  pub mutual_exclusion :
      {n : ℕ} {s : State Task} (i j : ℕ)
      → Reach n s
      → is_critical (s.pc i) ≡ true
      → is_critical (s.pc j) ≡ true
      → i ≡ j
  mutual_exclusion i j r hi hj =
      let v = Reach-Inv r in ground (arith, v.exclusive i hi, v.exclusive j hj)

  -- Whatever the interleaving, the popped tasks and then the waiting ones are the pushed tasks in
  -- the order of the pushes: no task is lost, taken twice or overtaken.
  pub popped-queue-pushed : {n : ℕ} {s : State Task} → Reach n s → s.popped ++ s.queue ≡ s.pushed
  popped-queue-pushed r = sym (Reach-Inv r).fifo
