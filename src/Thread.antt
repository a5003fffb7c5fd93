-- ===== src/Thread.antt =====
-- thread/thread.h, thread/thread.cpp, thread/thread_pool.h and thread/thread_pool.cpp:
-- `SubThreadHandler`, `SubThread` and `SubThreadPool`. What `pthread_create` and `pthread_join`
-- do is outside the model: a thread records that it was created.
pub mod Pool
mod Tests
use sunet.Base.{
  ℕ, zero, suc, ◌+◌, Bool, true, false, not, ◌||◌, List, [], ◌∷◌, ◌++◌, Option, none, some, length,
  set, get_elem?, ltb, leb, ◌==◌, if◌then◌else◌,
}
use sunet.Base.Int.{ℤ, pos, negsuc, ltb_ℤ, pos_part}

pub data ThreadStat : Type 0 where
  thread_new thread_run thread_exit : ThreadStat

pub record ThreadHandler : Type 0 where
  pub stoped : Bool

unfoldable pub new_handler : ThreadHandler
new_handler = record { stoped = false }

unfoldable pub handler_stop : ThreadHandler → ThreadHandler
handler_stop h = record { stoped = true }

unfoldable pub handler_is_stop : ThreadHandler → Bool
handler_is_stop h = h.stoped

-- `none` is the null handler of the default constructor.
pub record Thread : Type 0 where
  pub stat : ThreadStat
  pub created : Bool
  pub handler : Option ThreadHandler

unfoldable pub new_thread : Option ThreadHandler → Thread
new_thread handler = record { stat = thread_new; created = false; handler = handler }

unfoldable pub get_stat : Thread → ThreadStat
get_stat t = t.stat

unfoldable pub thread_stop : Thread → Thread
thread_stop t = elim t.handler [ none ↦ t | some h ↦ record t { handler = some (handler_stop h) } ]

unfoldable pub thread_is_stop : Thread → Bool
thread_is_stop t = elim t.handler [ none ↦ false | some h ↦ handler_is_stop h ]

-- `_start` returns what `pthread_create` returns, and changes no status.
unfoldable pub thread_start : Thread → Thread
thread_start t = record t { created = true }

pub record ThreadPool : Type 0 where
  pub threads : List Thread
  pub threads_cnt : ℤ
  pub stoped : Bool

unfoldable pub new_pool : ThreadPool
new_pool = record { threads = []; threads_cnt = pos 0; stoped = false }

-- `_init`, with the thread count of the configuration.
unfoldable pub pool_init : ℤ → ThreadPool → ThreadPool
pool_init cnt p = record p { threads_cnt = cnt }

unfoldable pub set_thread_cnt : ℤ → ThreadPool → ThreadPool
set_thread_cnt cnt p = if not (length p.threads == 0) then p else record p { threads_cnt = cnt }

-- `for (int i = 0; i < _threads_cnt; i++)`: the rounds that are left.
unfoldable pub start_loop : ℕ → List Thread → List Thread
start_loop zero threads = threads
start_loop (suc rounds) threads =
    start_loop rounds (threads ++ thread_start (new_thread (some new_handler)) ∷ [])

-- The result is 1 or 0.
unfoldable pub pool_start : ThreadPool → ℕ × ThreadPool
pool_start p =
    if not (length p.threads == 0) || ltb_ℤ p.threads_cnt (pos 1)
    then (0, p)
    else (1, record p { threads = start_loop (pos_part p.threads_cnt) p.threads })

-- `_threads[i]->_stop()` for the `i` from the given one on; `none` is an index outside the vector.
unfoldable pub stop_loop : ℕ → ℕ → List Thread → Option (List Thread)
stop_loop zero i threads = some threads
stop_loop (suc rounds) i threads = elim (get_elem? threads i) [
  | none ↦ none
  | some t ↦ stop_loop rounds (i + 1) (set threads i (thread_stop t))
]

unfoldable pub pool_stop : ThreadPool → Option ThreadPool
pool_stop p = elim (stop_loop (pos_part p.threads_cnt) 0 p.threads) [
  | none ↦ none
  | some threads ↦ some (record p { threads = threads })
]

-- What a worker does with its tasks, in order.
pub data Act {ℓ} (Task : Type ℓ) : Type ℓ where
  run call_back delete : Task → Act Task

-- `_thread_proc_handler`: for each round the flag that is read, and the task that `_get_task` gives.
unfoldable pub thread_proc_handler {ℓ} :
    {Task : Type ℓ} → List (Bool × Option Task) → List (Act Task)
thread_proc_handler [] = []
thread_proc_handler ((stoped, none) ∷ rounds) =
    let rest = thread_proc_handler rounds in if not stoped then rest else []
thread_proc_handler ((stoped, some task) ∷ rounds) =
    let rest = thread_proc_handler rounds in
    if not stoped then run task ∷ call_back task ∷ delete task ∷ rest else []

-- `_run`: what the handler does; without a handler nothing.
unfoldable pub thread_run_handler {ℓ} :
    {Task : Type ℓ} → Thread → List (Bool × Option Task) → List (Act Task)
thread_run_handler t rounds = elim t.handler [ none ↦ [] | some h ↦ thread_proc_handler rounds ]

-- `thread_proc`, on a pointer that may be null.
unfoldable pub thread_proc {ℓ} :
    {Task : Type ℓ} → Option Thread → List (Bool × Option Task) → List (Act Task)
thread_proc none rounds = []
thread_proc (some t) rounds = thread_run_handler t rounds
