-- ===== src/Thread/Tests.antt =====
-- Runs of thread/thread_pool.cpp.
use sunet.Base.{◌≡◌, refl, [], ◌∷◌, none, some, replicate, false}
use sunet.Base.Int.{pos}
use sunet.Thread.{ThreadPool, pool_start, pool_stop, pool_init}
use sunet.Thread.Pool.{started, stopped, pool_stop-pool_start, pool_stop_before_start}

abbrev idle_pool : ThreadPool
idle_pool = record { threads = []; threads_cnt = pos 3; stoped = false }

abbrev empty_pool : ThreadPool
empty_pool = record { threads = []; threads_cnt = pos 0; stoped = false }

pool_stop-pool_start_example :
    (pool_start idle_pool ≡ (1, record idle_pool { threads = replicate 3 started }))
    × (pool_stop (pool_start idle_pool).1
        ≡ some (record idle_pool { threads = replicate 3 stopped }))
pool_stop-pool_start_example = pool_stop-pool_start 2 idle_pool refl refl

abbrev running_pool : ThreadPool
running_pool = record { threads = started ∷ []; threads_cnt = pos 1; stoped = false }

pool_stop_before_start_example : pool_stop (pool_init (pos 1) empty_pool) ≡ none
pool_stop_before_start_example = pool_stop_before_start 0 empty_pool refl
