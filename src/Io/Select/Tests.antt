-- ===== src/Io/Select/Tests.antt =====
-- Runs of io/select.cpp.
use sunet.Base.{◌≡◌, refl, true, false, [], ◌∷◌, some, length, ◌≤◌, same}
use sunet.Base.Int.{ℤ, pos, int_order}
use sunet.Io.EventQueue.{EventQueue}
use sunet.Io.Select.{SelectOs, Select, look_loop, look_at, read_client, close_at, remove_at}
use sunet.Io.Select.Rounds.{look_loop_ends}

-- `send` takes three bytes, and one buffer waits for the client 5.
abbrev three_bytes : SelectOs EventQueue
three_bytes = record {
  send = λ fd buf w. (some 3, w);
  close = λ fd w. w;
  bytes_at = λ a n w. [];
  event_queue = λ w. w;
}

abbrev read_proc : ℤ → Select EventQueue → ℤ × Select EventQueue
read_proc fd s = (pos 0, s)

abbrev two_sockets : Select EventQueue
two_sockets = record {
  read_set = λ j. true;
  write_set = λ j. false;
  copy_read_set = λ j. false;
  copy_write_set = λ j. same j (pos 5);
  svr_fd = pos 4;
  clt_sock_vec = pos 4 ∷ pos 5 ∷ [];
  max_sock_fd = pos 5;
  world = (pos 5, 64 ∷ []) ∷ [];
}

-- As `three_bytes`, but the buffer stays for the client.
abbrev always_waits : SelectOs EventQueue
always_waits = record three_bytes { event_queue = λ w. (pos 5, 64 ∷ []) ∷ [] }

abbrev readable : Select EventQueue
readable = record two_sockets { copy_read_set = λ j. same j (pos 5); copy_write_set = λ j. false }

look_loop_ends_example :
    (s' : Select EventQueue) × (look_loop three_bytes read_proc read_proc 3 0 readable ≡ some s')
    × (length s'.clt_sock_vec ≤ 2)
look_loop_ends_example =
    look_loop_ends three_bytes read_proc read_proc readable (λ fd. refl, λ fd s. (refl, refl))

-- Two clients have closed: the second is not looked at, since the first leaves the vector at the
-- index of the round.
abbrev both_closed : Select EventQueue
both_closed = record two_sockets {
  copy_read_set = λ j. true;
  copy_write_set = λ j. false;
  clt_sock_vec = pos 4 ∷ pos 5 ∷ pos 6 ∷ [];
}

second_is_skipped :
    look_loop three_bytes read_proc read_proc 9 0 both_closed
    ≡ some (read_client three_bytes read_proc read_proc 1 (pos 5) both_closed)
unfolding look_loop look_at read_client close_at remove_at
second_is_skipped = refl
