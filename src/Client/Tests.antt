-- ===== src/Client/Tests.antt =====
-- Runs of client/client.cpp.
use sunet.Base.{
  ℕ, suc, ◌≡◌, refl, [], ◌∷◌, none, some, Bytes, codes, length, replicate, take, Option, ◌⊎◌,
}
use sunet.Base.Int.{pos, negsuc, to_int32}
use sunet.Base.Number.{atoi, signed, skip_space, scan_digits}
use sunet.Http.{Fault, fault, c_str}
use sunet.Io.{out_env}
use sunet.Thread.{new_thread, new_handler, thread_start}
use sunet.Client.{
  ClientOs, Client, no_socket, no_connection, reply_right, reply_wrong, init_svr_param, client_send,
  received_buf, connect_svr, client_rounds, client_threads, client_main,
}
use sunet.Client.Verdict.{connect_svr-out_env}

-- A server that gives one reply; the world counts the sockets that were closed.
abbrev replying : Option Bytes → ClientOs ℕ
replying reply = record {
  htons = λ n. 0;
  inet_addr = λ ip. 0;
  socket = λ w. (pos 3, w);
  connect = λ fd a w. (pos 0, w);
  send = λ fd buf w. (some (length buf), w);
  recv = λ fd w. (reply, w);
  close = λ fd w. suc w;
}

abbrev connected_client : Client
connected_client = record {
  srv_addr = record { sin_family = 2; sin_port = 0; s_addr = 0; sin_zero = [] };
  clt_sock_fd = pos 3;
}

abbrev zeros : Bytes
zeros = replicate 1024 0

connect_svr-out_env_example :
    ((e : Fault) × (c_str (received_buf zeros (some (take 40 (out_env (codes "{}"))))) ≡ fault e)
      × (connect_svr
            (replying (some (take 40 (out_env (codes "{}")))))
            (codes "GET")
            zeros
            connected_client
            0
          ≡ none))
    ⊎ ((w : ℕ) × (connect_svr
            (replying (some (take 40 (out_env (codes "{}")))))
            (codes "GET")
            zeros
            connected_client
            0
          ≡ some (reply_wrong, w)))
connect_svr-out_env_example =
    connect_svr-out_env (replying (some (take 40 (out_env (codes "{}"))))) (codes "GET") zeros
      (codes "{}") 38 connected_client 0 (λ q. cc q) refl (λ v. refl)

-- The reply that the client waits for, in two rounds.
two_rounds :
    client_rounds (replying (some (codes "Hello from svr!"))) 2 (pos 80) (codes "GET") zeros 0
    ≡ some (reply_right ∷ reply_right ∷ [], 2)
unfolding client_rounds init_svr_param connect_svr client_send received_buf c_str
two_rounds = refl

-- A socket that cannot be connected is not closed.
refused :
    connect_svr
      (record (replying none) { connect = λ fd a w. (negsuc 0, w) })
      (codes "GET")
      zeros
      connected_client
      0
    ≡ some (no_connection, 0)
unfolding connect_svr
refused = refl

unopened :
    connect_svr
      (replying none)
      (codes "GET")
      zeros
      (record connected_client { clt_sock_fd = negsuc 0 })
      0
    ≡ some (no_socket, 0)
unfolding connect_svr
unopened = refl

usage : client_main (codes "client" ∷ codes "2" ∷ []) ≡ none
unfolding client_main
usage = refl

two_threads :
    client_main (codes "client" ∷ codes "2" ∷ codes "80" ∷ [])
    ≡ some (
      pos 80,
      thread_start (new_thread (some new_handler))
          ∷ thread_start (new_thread (some new_handler))
          ∷ [],
    )
unfolding client_main client_threads atoi signed skip_space scan_digits to_int32
two_threads = refl
