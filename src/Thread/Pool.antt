-- ===== src/Thread/Pool.antt =====
-- Starting and stopping the pool.
use sunet.Base.{
  ℕ, zero, suc, ◌+◌, ◌≡◌, ◌≢◌, refl, ap, ◌∙◌, true, false, List, [], ◌∷◌, ◌++◌, none, some, length,
  set, get_elem?, ◌==◌, arith, replicate, append_assoc, append-nil, length-append,
}
use sunet.Base.Int.{ℤ, pos, ltb_ℤ, pos_part}
use sunet.Thread.{
  Thread, ThreadPool, thread_new, new_thread, new_handler, thread_start, thread_stop, handler_stop,
  start_loop, pool_start, pool_init, stop_loop, pool_stop, set_thread_cnt,
}

-- A worker that was created, and one whose handler was told to stop too.
abbrev pub started : Thread
started = record { stat = thread_new; created = true; handler = some (record { stoped = false }) }

abbrev pub stopped : Thread
stopped = record { stat = thread_new; created = true; handler = some (record { stoped = true }) }

start_loop_lem :
    (n : ℕ) (threads : List Thread) → start_loop n threads ≡ threads ++ replicate n started
unfolding start_loop thread_start new_thread new_handler
start_loop_lem zero threads = rw append-nil
start_loop_lem (suc n) threads = rw (start_loop_lem n, append_assoc)

set-append :
    (k : ℕ) (front back : List Thread) (t u : Thread)
    → k ≡ length front
    → (get_elem? (front ++ t ∷ back) k ≡ some t) × (set (front ++ t ∷ back) k u ≡ front ++ u ∷ back)
set-append k [] back t u h = rw h (refl, refl)
set-append zero (x ∷ front) back t u h = absurd (omega arith)
set-append (suc k) (x ∷ front) back t u h =
    let (a, b) = set-append k front back t u (omega arith) in (a, ap (◌∷◌ x) b)

stop_loop_lem :
    (n k : ℕ) (front : List Thread)
    → k ≡ length front
    → stop_loop n k (front ++ replicate n started) ≡ some (front ++ replicate n stopped)
unfolding stop_loop thread_stop handler_stop
stop_loop_lem zero k front h = refl
stop_loop_lem (suc n) k front h =
    let (there, put) = set-append k front (replicate n started) started stopped h in
    rw (there, stop_loop, put, ← append_assoc front (stopped ∷ []) (replicate n started))
      (stop_loop_lem n (k + 1) (front ++ stopped ∷ [])
          (omega (arith, length-append front (stopped ∷ [])))
        ∙ ap some (append_assoc front (stopped ∷ []) (replicate n stopped)))

pool_start_lem :
    (n : ℕ) (p : ThreadPool)
    → p.threads ≡ []
    → p.threads_cnt ≡ pos (suc n)
    → pool_start p ≡ (1, record p { threads = replicate (suc n) started })
unfolding pool_start
pool_start_lem n p h k = ground (arith, start_loop_lem (suc n) p.threads, ap length h)

pool_stop-started :
    (n : ℕ) (p : ThreadPool)
    → p.threads_cnt ≡ pos (suc n)
    → pool_stop (record p { threads = replicate (suc n) started })
      ≡ some (record p { threads = replicate (suc n) stopped })
unfolding pool_stop
pool_stop-started n p k = ground (arith, ap pos_part k, stop_loop_lem (suc n) 0 [] refl)

-- A pool with no threads of which at least one is wanted starts and has exactly the wanted number of
-- workers, each created and with a handler whose flag is not set; stopping the pool sets the flag of
-- every handler and changes nothing else.
pub pool_stop-pool_start :
    (n : ℕ) (p : ThreadPool)
    → p.threads ≡ []
    → p.threads_cnt ≡ pos (suc n)
    → (pool_start p ≡ (1, record p { threads = replicate (suc n) started }))
      × (pool_stop (pool_start p).1 ≡ some (record p { threads = replicate (suc n) stopped }))
pool_stop-pool_start n p h k =
    let e = pool_start_lem n p h k in
    (e, ap (λ (r : ℕ × ThreadPool). pool_stop r.1) e ∙ pool_stop-started n p k)

some_threads : (l : List Thread) → l ≢ [] → (length l == 0) ≡ false
some_threads [] h = absurd (h refl)
some_threads (t ∷ l) h = ground arith

-- A start with threads running, and a start with no thread wanted, fail and change nothing;
-- while threads run their number cannot be set.
pub pool_start_refused :
    (p q : ThreadPool) (cnt : ℤ)
    → p.threads ≢ []
    → ltb_ℤ q.threads_cnt (pos 1) ≡ true
    → (pool_start p ≡ (0, p)) × (pool_start q ≡ (0, q)) × (set_thread_cnt cnt p ≡ p)
unfolding pool_start set_thread_cnt
pool_start_refused p q cnt h k = (
  ground (arith, some_threads p.threads h),
  ground arith,
  ground (arith, some_threads p.threads h),
)

-- A pool without threads that was initialised with a positive number and not started is stopped
-- out of bounds.
pub pool_stop_before_start :
    (n : ℕ) (p : ThreadPool) → p.threads ≡ [] → pool_stop (pool_init (pos (suc n)) p) ≡ none
unfolding pool_stop pool_init stop_loop
pool_stop_before_start n p h = ground (arith, h)
