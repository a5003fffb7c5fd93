-- ===== src/Io/Epoll/Cycle.antt =====
-- From the reply of a task to the socket that is read again.
use sunet.Base.{
  ℕ, ◌≡◌, ◌≢◌, refl, ap, ◌∙◌, true, false, ◌∷◌, ◌++◌, take, none, some, Bytes, length, find, erase,
  nat_order, find-put_self, find-erase_self, same_ne,
}
use sunet.Base.Int.{ℤ, int_order}
use sunet.Io.{out_env}
use sunet.Io.Epoll.{
  Os, Epoll, EpollEvent, of_fd, of_ptr, data_fd, data_ptr, in_edge, out_level, event_mod,
  event_mod_buf, new_out_env, write_back, handle, reply, ctl_mod,
}
use sunet.Io.Epoll.Laws.{EpollLaws, send_loop_lem, sent_world, accepted, taken-sent_world}

module _ {ℓ} {W : Type ℓ} (os : Os W) (laws : EpollLaws os)
    (accept_proc : ℤ → Epoll W → ℤ × Epoll W) (read_proc : ℤ → Epoll W → ℤ × Epoll W) where
  -- The branch of EPOLLOUT with an environment whose text is not empty.
  pub write_back_found :
      (h : ℤ) (a : ℕ) (fd : ℤ) (c : ℕ) (left : Bytes) (p : Epoll W)
      → find a p.out_envs ≡ some (record { fd = fd; buf = c ∷ left })
      → write_back os h a p
        ≡ some (record p {
          world = sent_world os p.epl_fd (c ∷ left) fd p.world;
          out_envs = erase a p.out_envs;
        })
  unfolding write_back event_mod
  write_back_found h a fd c left p e =
      rw (e, send_loop_lem os laws (length left) fd c left p.world, write_back, event_mod) refl

  -- A writable event is handled by its environment, if its `data.fd` is not the server's.
  pub handle_writable :
      (e : EpollEvent) (a : ℕ) (fd : ℤ) (c : ℕ) (left : Bytes) (p : Epoll W)
      → data_fd e.evt_data ≢ p.svr_fd
      → e.evt_data ≡ of_ptr a
      → e.events.epollin ≡ false
      → e.events.epollout ≡ true
      → find a p.out_envs ≡ some (record { fd = fd; buf = c ∷ left })
      → handle os accept_proc read_proc e p
        ≡ some (record p {
          world = sent_world os p.epl_fd (c ∷ left) fd p.world;
          out_envs = erase a p.out_envs;
        })
  unfolding handle data_ptr
  handle_writable e a fd c left p ne d i o f =
      rw (handle, same_ne (data_fd e.evt_data) p.svr_fd ne, i, o, d, data_ptr)
        (write_back_found (data_fd e.evt_data) a fd c left p f)

  -- A task replies on a socket that is watched, at an address `a` whose low 32 bits are not the number of
  -- the server's socket, and the socket becomes writable: the event that is delivered passes the
  -- whole response to one call of `send`, and the kernel has then taken for the socket, behind what it had before the
  -- reply, as many bytes of the response as `send` returned, none if it failed. However many these are, the
  -- socket is watched for EPOLLIN again, the environment is freed with what was not taken, and every other
  -- socket is watched as before the reply.
  pub handle-reply :
      (fd : ℤ) (a : ℕ) (body : Bytes) (x : EpollEvent) (p : Epoll W)
      → laws.interest p.epl_fd p.world fd ≡ some x
      → data_fd (of_ptr a) ≢ p.svr_fd
      → let p₁ = reply os fd a body p in
        let e : EpollEvent = record { events = out_level; evt_data = of_ptr a } in
        (laws.interest p₁.epl_fd p₁.world fd ≡ some e)
        × ((p₂ : Epoll W) × (handle os accept_proc read_proc e p₁ ≡ some p₂)
            × (p₂.world ≡ sent_world os p.epl_fd (out_env body) fd p₁.world)
            × (laws.taken fd p₂.world
                ≡ laws.taken fd p.world
                  ++ take (accepted (os.send fd (out_env body) p₁.world).0) (out_env body))
            × (laws.interest p₂.epl_fd p₂.world fd
                ≡ some (record { events = in_edge; evt_data = of_fd fd }))
            × (find a p₂.out_envs ≡ none)
            × ((j : ℤ)
                → j ≢ fd
                → laws.interest p₂.epl_fd p₂.world j ≡ laws.interest p.epl_fd p.world j))
  unfolding reply event_mod_buf new_out_env out_env
  handle-reply fd a body x p watched ne =
      let p₁ = reply os fd a body p in
      let e : EpollEvent = record { events = out_level; evt_data = of_ptr a } in
      let armed : laws.interest p₁.epl_fd p₁.world fd ≡ some e =
        laws.mod_old p.epl_fd fd e x p.world watched in
      let sent = laws.send_keeps p.epl_fd fd in
      (
        armed,
        (
          record p₁ {
            world = sent_world os p.epl_fd (out_env body) fd p₁.world;
            out_envs = erase a p₁.out_envs;
          },
          handle_writable e a fd b'H' _ p₁ ne refl refl refl
              (find-put_self a (new_out_env fd body) p.out_envs),
          refl,
          taken-sent_world os laws p.epl_fd (out_env body) fd p₁.world
              ∙ ap
                  (λ (t : Bytes).
                    t ++ take (accepted (os.send fd (out_env body) p₁.world).0) (out_env body))
                  (laws.ctl_takes p.epl_fd fd fd ctl_mod e p.world),
          laws.mod_old p.epl_fd fd (record { events = in_edge; evt_data = of_fd fd }) e
              (os.send fd (out_env body) p₁.world).1 (sent fd (out_env body) p₁.world ∙ armed),
          find-erase_self a p₁.out_envs,
          λ j h.
              laws.ctl_other p.epl_fd fd j ctl_mod
                (record { events = in_edge; evt_data = of_fd fd })
                (os.send fd (out_env body) p₁.world).1 h
              ∙ laws.send_keeps p.epl_fd fd j (out_env body) p₁.world
              ∙ laws.ctl_other p.epl_fd fd j ctl_mod e p.world h,
        ),
      )
