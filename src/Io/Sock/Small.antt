-- ===== src/Io/Sock/Small.antt =====
-- A small kernel with one socket of its own beside the epoll object, and a task queue, for the tests.
use sunet.Base.{ℕ, ◌≡◌, ◌≢◌, refl, ap, Bool, true, false, [], none, some}
use sunet.Base.Int.{ℤ, pos, negsuc}
use sunet.Task.{TaskMgr}
use sunet.Io.ReqTask.{ReqTask}
use sunet.Io.Epoll.{Os}
use sunet.Io.Epoll.Laws.{EpollLaws}
use sunet.Io.Epoll.Small.{Kernel, small_os, small_laws}
use sunet.Io.Sock.{SubServer, SockOs, SockOption, so_rcvbuf, so_reuseaddr}
use sunet.Io.Sock.Ready.{Socket, new_socket, SockLaws, Willing}

pub record Machine : Type 0 where
  pub kernel : Kernel
  pub socket : Socket
  pub no_sigpipe : Bool
  pub mgr : TaskMgr ReqTask ℕ

abbrev pub machine_os : Os Machine
machine_os = record {
  epoll_create =
      λ n m. let r = small_os.epoll_create n m.kernel in (r.0, record m { kernel = r.1 });
  epoll_ctl = λ ep op fd e m. record m { kernel = small_os.epoll_ctl ep op fd e m.kernel };
  send = λ fd buf m. let r = small_os.send fd buf m.kernel in (r.0, record m { kernel = r.1 });
  close = λ fd m. record m { kernel = small_os.close fd m.kernel };
}

abbrev pub machine_laws : EpollLaws machine_os
machine_laws = record {
  interest = λ ep m fd. small_laws.interest ep m.kernel fd;
  create_empty = λ n m fd. small_laws.create_empty n m.kernel fd;
  taken = λ fd m. small_laws.taken fd m.kernel;
  adds = λ ep fd m. small_laws.adds ep fd m.kernel;
  add_new = λ ep fd e m h t. small_laws.add_new ep fd e m.kernel h t;
  add_refused = λ ep fd e m h t. small_laws.add_refused ep fd e m.kernel h t;
  send_takes = λ fd buf m. small_laws.send_takes fd buf m.kernel;
  ctl_takes = λ ep fd j op e m. small_laws.ctl_takes ep fd j op e m.kernel;
  add_old = λ ep fd e x m h. small_laws.add_old ep fd e x m.kernel h;
  mod_old = λ ep fd e x m h. small_laws.mod_old ep fd e x m.kernel h;
  mod_new = λ ep fd e m h. small_laws.mod_new ep fd e m.kernel h;
  del_self = λ ep fd e m. small_laws.del_self ep fd e m.kernel;
  ctl_other = λ ep fd j op e m ne. small_laws.ctl_other ep fd j op e m.kernel ne;
  send_keeps = λ ep fd j buf m. small_laws.send_keeps ep fd j buf m.kernel;
  close_self = λ ep fd m. small_laws.close_self ep fd m.kernel;
  close_other = λ ep fd j m ne. small_laws.close_other ep fd j m.kernel ne;
}

abbrev set_option : SockOption → Socket → Socket
set_option so_rcvbuf s = s
set_option so_reuseaddr s = record s { reuse = true }

abbrev flags_of : ℤ → ℕ
flags_of (pos n) = n
flags_of (negsuc n) = 0

-- The port is stored as it is.
abbrev pub machine_sockets : SockOs Machine
machine_sockets = record {
  htons = λ n. flags_of n;
  socket = λ m. (pos 4, record m { socket = new_socket });
  bind =
      λ fd a m. (pos 0, record m { socket = record m.socket { bound = some (a, m.socket.reuse) } });
  listen = λ fd n m. (pos 0, record m { socket = record m.socket { backlog = some n } });
  setsockopt = λ fd o n m. (pos 0, record m { socket = set_option o m.socket });
  fcntl_getfl = λ fd m. (pos m.socket.flags, m);
  fcntl_setfl = λ fd n m. (pos 0, record m { socket = record m.socket { flags = flags_of n } });
  sigemptyset = λ m. (pos 0, m);
  ignore_sigpipe = λ m. (pos 0, record m { no_sigpipe = true });
}

pub socket_inj : {s t : Socket} → some s ≡ some t → s ≡ t
socket_inj p = cc p

abbrev pub machine_sock_laws : SockLaws machine_sockets
machine_sock_laws = record {
  sock = λ fd m. some m.socket;
  sigpipe_ignored = λ m. m.no_sigpipe;
  socket_new = λ m h. refl;
  bind_new = λ fd a m s e h.
      ap (λ (t : Socket). some (record t { bound = some (a, t.reuse) })) (socket_inj e);
  listen_on =
      λ fd n m s e h. ap (λ (t : Socket). some (record t { backlog = some n })) (socket_inj e);
  set_buffer = λ fd n m s e h. e;
  set_reuse = λ fd m s e h. ap (λ (t : Socket). some (record t { reuse = true })) (socket_inj e);
  get_flags = λ fd m s e. (ap (λ (t : Socket). pos t.flags) (socket_inj e), e);
  set_flags = λ fd n m s e h. ap (λ (t : Socket). some (record t { flags = n })) (socket_inj e);
  empty_keeps = λ fd m. refl;
  ignore_keeps = λ fd m. refl;
  ignored = λ m h. refl;
}

pub nonnegative : (n k : ℕ) → pos n ≢ negsuc k
nonnegative n k q = cc q

abbrev pub machine_willing : Willing machine_sockets machine_sock_laws
machine_willing = record {
  socket_works = λ m. nonnegative 4 0;
  bind_works = λ fd a m. nonnegative 0 0;
  listen_works = λ fd n m. nonnegative 0 0;
  option_works = λ fd o n m. nonnegative 0 0;
  empty_works = λ m. nonnegative 0 0;
  ignore_works = λ m. nonnegative 0 0;
}

abbrev pub fresh_machine : Machine
fresh_machine = record {
  kernel = record { watches = λ j. none; sent = [] };
  socket = new_socket;
  no_sigpipe = false;
  mgr = record { task_queue = []; call_back_procs = [] };
}

abbrev pub unset_server : SubServer
unset_server = record {
  svr_addr = record { sin_family = 0; sin_port = 0; s_addr = 0; sin_zero = [] };
  svr_fd = pos 0;
}
