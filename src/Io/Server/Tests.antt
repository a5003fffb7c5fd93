-- ===== src/Io/Server/Tests.antt =====
-- Runs of `_on_accept` and `_run`.
use sunet.Base.{
  find, put, ℕ, zero, suc, ◌≡◌, refl, ap, Bytes, codes, length, replicate, arith, true, false, List,
  [], ◌∷◌, ◌++◌, Option, none, some,
}
use sunet.Base.Int.{ℤ, pos, negsuc, to_int32}
use sunet.Base.Number.{print_int}
use sunet.Util.{num_to_str}
use sunet.Io.Epoll.{
  Epoll, EpollEvent, Turn, next_event, worker_reply, out_level, of_ptr, event_add, event_init,
  event_loop, handle, handle_all, data_fd, data_ptr, read_back, reply, event_mod_buf, new_out_env,
  write_back, send_loop, event_mod,
}
use sunet.Io.Epoll.Small.{Kernel, read_event, with_client, fresh_object}
use sunet.Io.Epoll.Sound.{IsSound}
use sunet.Io.Sock.{
  SubServer, checked, or_nonblock, set_nonblocking, svr_addr_of, init_sock, started,
}
use sunet.Io.Sock.Ready.{Ready}
use sunet.Io.Sock.Small.{
  Machine, machine_os, machine_laws, machine_sockets, machine_sock_laws, fresh_machine,
  unset_server,
}
use sunet.Io.Server.{
  accept_loop, add_client, on_accept, accept_callback, Reads, read_callback, on_read, server_run,
  run,
}
use sunet.Task.{add_task}
use sunet.Io.{
  out_env, recv_error, on_http_read, new_recv_data, recv_loop, recv_step, write_at, read_end,
}
use sunet.Io.ReqTask.{http_read, set_task_data, new_req_task}
use sunet.Io.Server.Running.{ReadLaws, RoundsDelivered, run-Ready}
use sunet.Io.Server.Accept.{FcntlLaws, Watched, on_accept-Watched}

abbrev two_sockets : List ℤ
two_sockets = pos 6 ∷ pos 7 ∷ []

abbrev machine_fcntl : FcntlLaws machine_os machine_laws machine_sockets
machine_fcntl = record { getfl_keeps = λ ep fd j m. refl; setfl_keeps = λ ep fd n j m. refl }

abbrev machine_at : Kernel → Machine
machine_at k = record fresh_machine { kernel = k }

abbrev served : Epoll Kernel → Epoll Machine
served p = record {
  svr_fd = p.svr_fd;
  epl_fd = p.epl_fd;
  max_evt_cnt = p.max_evt_cnt;
  out_envs = p.out_envs;
  world = machine_at p.world;
}

on_accept-Watched_example :
    Watched machine_os machine_laws machine_sockets machine_fcntl
      (served with_client)
      (on_accept machine_os machine_sockets (two_sockets ++ negsuc 0 ∷ []) (served with_client)).1
      two_sockets
on_accept-Watched_example =
    on_accept-Watched machine_os machine_laws machine_sockets machine_fcntl two_sockets (negsuc 0)
      [] (served with_client) (refl, (refl, tt)) refl (λ fd w. refl)

-- The result is the greatest socket.
greatest :
    (on_accept machine_os machine_sockets (pos 7 ∷ pos 6 ∷ negsuc 0 ∷ []) (served with_client)).0
    ≡ pos 7
unfolding on_accept accept_loop
greatest = refl

abbrev accepts : ℤ → Machine → List ℤ × Machine
accepts svr_fd m = (pos 6 ∷ negsuc 0 ∷ [], m)

abbrev zeros : ℕ → Bytes
zeros n = replicate n 0

length-zeros : (n : ℕ) → length (zeros n) ≡ n
length-zeros zero = refl
length-zeros (suc n) = ap suc (length-zeros n)

-- Every client sends the same bytes.
abbrev some_reads : Reads Machine ℕ
some_reads = record {
  recvs = λ fd m. ((codes "GET" ∷ [], recv_error), m);
  fresh = zeros;
  get_mgr = λ m. m.mgr;
  set_mgr = λ mgr m. record m { mgr = mgr };
}

abbrev some_read_laws : ReadLaws machine_os machine_laws some_reads
some_read_laws = record {
  short = λ fd m. (omega arith, tt);
  sized = length-zeros;
  recvs_keep = λ ep fd j m. refl;
  set_keeps = λ ep j mgr m. refl;
}

-- A run over a round that fails, one with an event of the server's socket, and one in which the new client
-- is read, a worker replies to it, and the reply is sent: the client is watched again.
unfoldable watched_of : Option (Epoll Machine) → Option (Option ℤ)
watched_of none = none
watched_of (some p) =
    some
      (elim (p.world.kernel.watches (pos 6)) [ none ↦ none | some e ↦ some (data_fd e.evt_data) ])

abbrev writable : EpollEvent
writable = record { events = out_level; evt_data = of_ptr 4096 }

abbrev three_rounds : List (Option (List Turn))
three_rounds =
    none
    ∷ some (next_event (read_event (pos 4)) ∷ [])
    ∷ some (
        next_event (read_event (pos 6))
        ∷ worker_reply (pos 6) 4096 (codes "ok")
        ∷ next_event writable
        ∷ [])
    ∷ []

served_client :
    watched_of (
      server_run machine_os machine_sockets accepts some_reads
        (pos 4)
        three_rounds
        (served fresh_object))
    ≡ some (some (pos 6))
unfolding watched_of server_run event_loop event_init event_add handle_all handle accept_callback
    on_accept accept_loop add_client set_nonblocking data_fd data_ptr read_back on_read
    read_callback http_read on_http_read new_recv_data recv_loop recv_step write_at read_end
    add_task set_task_data new_req_task reply event_mod_buf new_out_env write_back send_loop
    event_mod find put to_int32 out_env num_to_str print_int
served_client = refl

abbrev ready_server : SubServer
ready_server = record {
  svr_addr = record { sin_family = 2; sin_port = 8080; s_addr = 0; sin_zero = [] };
  svr_fd = pos 4;
}

abbrev ready_machine : Machine
ready_machine = record fresh_machine {
  socket = record {
    bound = some (ready_server.svr_addr, false);
    backlog = some 1024;
    reuse = true;
    flags = 2050;
  };
  no_sigpipe = true;
}

socket_ready :
    init_sock machine_sockets (pos 8080) unset_server (served fresh_object).world
    ≡ started ready_server ready_machine
unfolding init_sock checked set_nonblocking or_nonblock svr_addr_of
socket_ready = refl

rounds_delivered :
    RoundsDelivered machine_os machine_laws machine_sockets machine_fcntl accepts
      (λ ep fd j m. refl)
      some_reads
      some_read_laws
      three_rounds
      (event_init machine_os (pos 4) (record (served fresh_object) { world = ready_machine }))
unfolding event_init event_add handle_all handle accept_callback on_accept accept_loop add_client
    set_nonblocking data_fd data_ptr read_back on_read read_callback http_read on_http_read
    new_recv_data recv_loop recv_step write_at read_end add_task set_task_data new_req_task reply
    event_mod_buf new_out_env write_back send_loop event_mod find put to_int32 out_env num_to_str
    print_int
rounds_delivered = (
  (
    record {
      fd = pos 4;
      watched = read_event (pos 4);
      is_watched = refl;
      same_data = refl;
      no_in = λ q. q;
      no_out = λ q. q;
    },
    tt,
  ),
  (
    (
      record {
        fd = pos 6;
        watched = read_event (pos 6);
        is_watched = refl;
        same_data = refl;
        no_in = λ q. q;
        no_out = λ q. q;
      },
      (
        refl,
        (
          record {
            fd = pos 6;
            watched = writable;
            is_watched = refl;
            same_data = refl;
            no_in = λ q. q;
            no_out = λ q. q;
          },
          tt,
        ),
      ),
    ),
    tt,
  ),
)

run-Ready_example :
    (p' : Epoll Machine) × (run machine_os machine_sockets accepts some_reads
        (pos 8080)
        unset_server
        three_rounds
        (served fresh_object)
      ≡ started ready_server (some p'))
    × IsSound machine_os machine_laws p'
    × ((fd : ℤ) (q : Epoll Machine)
        → read_callback some_reads fd q ≡ some (on_read some_reads fd q))
    × Ready machine_sockets machine_sock_laws (pos 8080) unset_server ready_server ready_machine
run-Ready_example =
    run-Ready machine_os machine_laws machine_sockets machine_fcntl accepts (λ ep fd j m. refl)
      some_reads some_read_laws machine_sock_laws (pos 8080) unset_server ready_server ready_machine
      three_rounds (served fresh_object) socket_ready rounds_delivered
