-- ===== src/Io/Sock/Tests.antt =====
-- Starts of the server's socket.
use sunet.Base.{◌≡◌, refl, ℕ}
use sunet.Base.Int.{pos, negsuc}
use sunet.Io.Sock.{SubServer, SockOs, Start, started, exited, checked, or_nonblock, init_sock}
use sunet.Io.Sock.Ready.{Ready, init_sock-Ready_lem}
use sunet.Io.Sock.Small.{
  Machine, machine_sockets, machine_sock_laws, machine_willing, fresh_machine, unset_server,
}

init_sock-Ready_lem_example :
    (server : SubServer) × (m : Machine) × (init_sock machine_sockets
        (pos 8080)
        unset_server
        fresh_machine
      ≡ started server m)
    × Ready machine_sockets machine_sock_laws (pos 8080) unset_server server m
init_sock-Ready_lem_example =
    init_sock-Ready_lem machine_sockets machine_sock_laws (pos 8080) unset_server fresh_machine
      machine_willing

-- A port that is taken: the program exits, and does not listen.
abbrev port_taken : SockOs Machine
port_taken = record machine_sockets { bind = λ fd a m. (negsuc 0, m) }

unfoldable status_of : Start Machine → ℕ
status_of (started server m) = 0
status_of (exited n m) = n

exits : status_of (init_sock port_taken (pos 8080) unset_server fresh_machine) ≡ 1
unfolding init_sock checked status_of
exits = refl

-- `fcntl` failed: -1 stays -1.
flags_unknown : or_nonblock (negsuc 0) ≡ negsuc 0
unfolding or_nonblock
flags_unknown = refl
