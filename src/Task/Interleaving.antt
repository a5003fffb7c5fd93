-- ===== src/Task/Interleaving.antt =====
-- `_add_task` and `_get_task` with any number of threads: the mutex, the condition, and every
-- interleaving of `n` threads. A thread is a number, and a step is what it does between two calls of pthread.
use sunet.Base.{ℕ, ◌<◌, ◌≡◌, ◌≢◌, List, [], ◌∷◌, ◌++◌, Option, none, some, ◌==◌, if◌then◌else◌}

-- Where a thread stands.
pub data Pc {ℓ} (Task : Type ℓ) : Type ℓ where
  -- outside both functions
  outside : Pc Task
  -- in `_add_task`: before the lock, behind it, behind the push, before the signal
  add_enter add_locked : Task → Pc Task
  add_pushed add_signal : Pc Task
  -- in `_get_task`: before the lock, at the test of the loop, in the wait, woken and before the
  -- lock that ends the wait, with a task and the lock
  get_enter get_test get_wait get_woken : Pc Task
  get_popped : Task → Pc Task
  -- the worker runs the task that it got
  running : Task → Pc Task

pub record State {ℓ} (Task : Type ℓ) : Type ℓ where
  pub queue : List Task
  -- which thread holds `_add_mutex`
  pub holder : Option ℕ
  pub pc : ℕ → Pc Task
  -- what was pushed and what was popped, in order: a record of the run, which no thread reads
  pub pushed : List Task
  pub popped : List Task

abbrev pub at {ℓ} : {Task : Type ℓ} → (ℕ → Pc Task) → ℕ → Pc Task → ℕ → Pc Task
at pc i p j = if i == j then p else pc j

module _ {ℓ} {Task : Type ℓ} where
  unfoldable pub init : State Task
  init = record { queue = []; holder = none; pc = λ _. outside; pushed = []; popped = [] }

  pub data Step (n : ℕ) (s : State Task) : State Task → Type ℓ where
    -- a call of `_add_task` with a task that is not null, and of `_get_task`
    call_add :
        (i : ℕ) (task : Task)
        → i < n
        → s.pc i ≡ outside
        → Step n s (record s { pc = at s.pc i (add_enter task) })
    call_get : (i : ℕ) → i < n → s.pc i ≡ outside → Step n s (record s { pc = at s.pc i get_enter })
    -- `_add_task`
    add_lock :
        (i : ℕ) (task : Task)
        → s.pc i ≡ add_enter task
        → s.holder ≡ none
        → Step n s (record s { holder = some i; pc = at s.pc i (add_locked task) })
    push :
        (i : ℕ) (task : Task)
        → s.pc i ≡ add_locked task
        → Step n s (record s {
          queue = s.queue ++ task ∷ [];
          pc = at s.pc i add_pushed;
          pushed = s.pushed ++ task ∷ [];
        })
    add_unlock :
        (i : ℕ)
        → s.pc i ≡ add_pushed
        → Step n s (record s { holder = none; pc = at s.pc i add_signal })
    -- the signal wakes a waiting thread, or nobody waits
    signal :
        (i j : ℕ)
        → s.pc i ≡ add_signal
        → s.pc j ≡ get_wait
        → Step n s (record s { pc = at (at s.pc i outside) j get_woken })
    signal_none :
        (i : ℕ)
        → s.pc i ≡ add_signal
        → ((j : ℕ) → s.pc j ≢ get_wait)
        → Step n s (record s { pc = at s.pc i outside })
    -- `_get_task`
    get_lock :
        (i : ℕ)
        → s.pc i ≡ get_enter
        → s.holder ≡ none
        → Step n s (record s { holder = some i; pc = at s.pc i get_test })
    wait :
        (i : ℕ)
        → s.pc i ≡ get_test
        → s.queue ≡ []
        → Step n s (record s { holder = none; pc = at s.pc i get_wait })
    -- a wait may end with no signal
    spurious : (i : ℕ) → s.pc i ≡ get_wait → Step n s (record s { pc = at s.pc i get_woken })
    relock :
        (i : ℕ)
        → s.pc i ≡ get_woken
        → s.holder ≡ none
        → Step n s (record s { holder = some i; pc = at s.pc i get_test })
    pop :
        (i : ℕ) (task : Task) (rest : List Task)
        → s.pc i ≡ get_test
        → s.queue ≡ task ∷ rest
        → Step n s (record s {
          queue = rest;
          pc = at s.pc i (get_popped task);
          popped = s.popped ++ task ∷ [];
        })
    get_unlock :
        (i : ℕ) (task : Task)
        → s.pc i ≡ get_popped task
        → Step n s (record s { holder = none; pc = at s.pc i (running task) })
    -- `_run`, `_call_back` and `delete` of the task are over
    finish :
        (i : ℕ) (task : Task)
        → s.pc i ≡ running task
        → Step n s (record s { pc = at s.pc i outside })

  pub data Reach (n : ℕ) : State Task → Type ℓ where
    start : Reach n init
    next : {s t : State Task} → Reach n s → Step n s t → Reach n t
