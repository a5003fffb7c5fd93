-- ===== src/Task/Tests.antt =====
-- Runs of task/task_mgr.cpp, and an interleaving of two threads.
use sunet.Base.{ℕ, ◌≡◌, refl, true, [], ◌∷◌, ◌++◌, none, some, ◌<◌, arith, bytes_order}
use sunet.Task.{TaskMgr}
use sunet.Task.Interleaving.{
  State, Reach, init, at, outside, get_enter, get_test, get_wait, add_enter, add_locked, add_pushed,
  start, next, call_get, get_lock, wait, call_add, add_lock, push,
}
use sunet.Task.Fifo.{is_critical, mutual_exclusion, popped-queue-pushed}
use sunet.Task.Wakeup.{awake, no_lost_wakeup}

-- Thread 1 waits at the empty queue, and thread 0 then pushes the task 7.
abbrev asked : State ℕ
asked = record {
  queue = [];
  holder = none;
  pc = at (λ _. outside) 1 get_enter;
  pushed = [];
  popped = [];
}

abbrev looked : State ℕ
looked = record asked { holder = some 1; pc = at asked.pc 1 get_test }

abbrev waiting : State ℕ
waiting = record looked { holder = none; pc = at looked.pc 1 get_wait }

abbrev given : State ℕ
given = record waiting { pc = at waiting.pc 0 (add_enter 7) }

abbrev locked : State ℕ
locked = record given { holder = some 0; pc = at given.pc 0 (add_locked 7) }

abbrev filled : State ℕ
filled = record locked { queue = 7 ∷ []; pc = at locked.pc 0 add_pushed; pushed = 7 ∷ [] }

filled-Reach : Reach 2 filled
unfolding init
filled-Reach =
    next {s = locked}
      (next {s = given}
        (next {s = waiting}
          (next {s = looked}
            (next {s = asked} (next {s = init} start (call_get 1 (omega arith) refl))
              (get_lock 1 refl refl))
            (wait 1 refl refl))
          (call_add 0 7 (omega arith) refl))
        (add_lock 0 7 refl refl))
      (push 0 7 refl)

filled_critical : is_critical (filled.pc 0) ≡ true
unfolding is_critical
filled_critical = refl

popped-queue-pushed_example : filled.popped ++ filled.queue ≡ filled.pushed
popped-queue-pushed_example = popped-queue-pushed {n = 2} {s = filled} filled-Reach

mutual_exclusion_example : ◌≡◌ {A = ℕ} 0 0
mutual_exclusion_example =
    mutual_exclusion {n = 2} {s = filled} 0 0 filled-Reach filled_critical filled_critical

no_lost_wakeup_example : (i : ℕ) × (i < 2) × (awake (filled.pc i) ≡ 1)
no_lost_wakeup_example = no_lost_wakeup {n = 2} {s = filled} 1 filled-Reach refl (λ p. cc p)

-- A queue with one waiting task.
abbrev one_task : TaskMgr ℕ ℕ
one_task = record { task_queue = 4 ∷ []; call_back_procs = [] }
