-- ===== src/Io/Epoll/Tests.antt =====
-- Runs of io/epoll.cpp on a small kernel.
use sunet.Base.{erase, bytes_order, ◌≡◌, ◌≢◌, refl, ◌++◌, take, none, some, codes, find, nat_order}
use sunet.Base.Int.{ℤ, pos, int_order}
use sunet.Io.{out_env}
use sunet.Io.Epoll.{Epoll, EpollEvent, of_ptr, out_level, handle, reply, event_init, event_add}
use sunet.Io.Epoll.Laws.{sent_world, accepted}
use sunet.Io.Epoll.Cycle.{handle-reply}
use sunet.Io.Epoll.Reach.{started, Reach-handle}
use sunet.Io.Epoll.Sound.{IsSound}
use sunet.Io.Epoll.Small.{
  Kernel, small_os, small_laws, do_nothing, read_event, with_client, fresh_object, address_ne,
}

handle-reply_example :
    let p₁ = reply small_os (pos 5) 4096 (codes "ok") with_client in
    let e : EpollEvent = record { events = out_level; evt_data = of_ptr 4096 } in
    (p₁.world.watches (pos 5) ≡ some e)
    × ((p₂ : Epoll Kernel) × (handle small_os do_nothing do_nothing e p₁ ≡ some p₂)
        × (p₂.world ≡ sent_world small_os (pos 3) (out_env (codes "ok")) (pos 5) p₁.world)
        × (small_laws.taken (pos 5) p₂.world
            ≡ small_laws.taken (pos 5) with_client.world
              ++ take
                  (accepted (small_os.send (pos 5) (out_env (codes "ok")) p₁.world).0)
                  (out_env (codes "ok")))
        × (p₂.world.watches (pos 5) ≡ some (read_event (pos 5)))
        × (find 4096 p₂.out_envs ≡ none)
        × ((j : ℤ) → j ≢ pos 5 → p₂.world.watches j ≡ with_client.world.watches j))
handle-reply_example =
    handle-reply small_os small_laws do_nothing do_nothing (pos 5) 4096 (codes "ok")
      (read_event (pos 5)) with_client refl address_ne

abbrev writable : EpollEvent
writable = record { events = out_level; evt_data = of_ptr 8192 }

abbrev two_replies : Epoll Kernel
two_replies =
    reply small_os (pos 5) 8192 (codes "no") (reply small_os (pos 5) 4096 (codes "ok") with_client)

-- The second response is sent.
abbrev second_sent : Epoll Kernel
second_sent = record two_replies {
  world = sent_world small_os (pos 3) (out_env (codes "no")) (pos 5) two_replies.world;
  out_envs = erase 8192 two_replies.out_envs;
}

Reach-handle_example :
    (p' : Epoll Kernel) × (handle small_os do_nothing do_nothing
        (read_event (pos 4))
        (event_init small_os (pos 4) fresh_object)
      ≡ some p')
    × IsSound small_os small_laws p'
unfolding event_init event_add
Reach-handle_example =
    Reach-handle small_os small_laws do_nothing do_nothing (λ fd p s. s) (λ fd p s. s)
      (event_init small_os (pos 4) fresh_object) (read_event (pos 4)) (started (pos 4) fresh_object)
      (record {
        fd = pos 4;
        watched = read_event (pos 4);
        is_watched = refl;
        same_data = refl;
        no_in = λ q. q;
        no_out = λ q. q;
      })
