-- ===== src/Io/Epoll/Small.antt =====
-- A small kernel with one epoll object, for the tests.
use sunet.Base.{
  ◌≡◌, ◌≢◌, refl, ap, ◌∙◌, if◌then◌else◌, List, [], ◌∷◌, ◌++◌, Option, none, some, Bytes, length,
  same, same_refl, same_ne, arith, true, false, take, append-nil, append_assoc,
}
use sunet.Base.Int.{ℤ, pos, pos_part, to_int32, int_order}
use sunet.Util.Fields.{take_all}
use sunet.Io.Epoll.{
  Os, Epoll, EpollEvent, CtlOp, ctl_add, ctl_mod, ctl_del, of_fd, in_edge, data_fd, of_ptr,
}
use sunet.Io.Epoll.Laws.{EpollLaws}

-- One epoll object, and the bytes that were sent.
pub record Kernel : Type 0 where
  pub watches : ℤ → Option EpollEvent
  pub sent : List (ℤ × Bytes)

abbrev pub nothing : ℤ → Option EpollEvent
nothing j = none

abbrev pub watch : ℤ → Option EpollEvent → Kernel → Kernel
watch fd x k = record k { watches = λ j. if same j fd then x else k.watches j }

abbrev pub ctl : CtlOp → ℤ → EpollEvent → Kernel → Kernel
ctl ctl_add fd e k = watch fd (elim (k.watches fd) [ none ↦ some e | some x ↦ some x ]) k
ctl ctl_mod fd e k = watch fd (elim (k.watches fd) [ none ↦ none | some x ↦ some e ]) k
ctl ctl_del fd e k = watch fd none k

abbrev pub small_os : Os Kernel
small_os = record {
  epoll_create = λ n k. (pos 3, record k { watches = nothing });
  epoll_ctl = λ ep op fd e k. ctl op fd e k;
  send = λ fd buf k. (some (length buf), record k { sent = k.sent ++ (fd, buf) ∷ [] });
  close = λ fd k. watch fd none k;
}

pub watch_self : (fd : ℤ) (x : Option EpollEvent) (k : Kernel) → (watch fd x k).watches fd ≡ x
watch_self fd x k = rw (same_refl fd) refl

pub watch_other :
    (fd j : ℤ) (x : Option EpollEvent) (k : Kernel)
    → j ≢ fd
    → (watch fd x k).watches j ≡ k.watches j
watch_other fd j x k ne = rw (same_ne j fd ne) refl

pub ctl_other_watch :
    (op : CtlOp) (fd j : ℤ) (e : EpollEvent) (k : Kernel)
    → j ≢ fd
    → (ctl op fd e k).watches j ≡ k.watches j
ctl_other_watch ctl_add fd j e k ne = watch_other fd j _ k ne
ctl_other_watch ctl_mod fd j e k ne = watch_other fd j _ k ne
ctl_other_watch ctl_del fd j e k ne = watch_other fd j none k ne

-- The bytes that were sent on a socket.
abbrev pub sent_to : ℤ → List (ℤ × Bytes) → Bytes
sent_to j [] = []
sent_to j ((fd, buf) ∷ sent) = (if same j fd then buf else []) ++ sent_to j sent

pub true_ne_false : true ≢ false
true_ne_false q = cc q

pub sent_to-append :
    (j : ℤ) (buf : Bytes) (sent : List (ℤ × Bytes))
    → sent_to j (sent ++ (j, buf) ∷ []) ≡ sent_to j sent ++ take (length buf) buf
sent_to-append j buf [] = rw (same_refl j, append-nil, take_all buf) refl
sent_to-append j buf ((fd, b) ∷ sent) =
    rw
      (
        sent_to-append j buf sent,
        append_assoc (if same j fd then b else []) (sent_to j sent) (take (length buf) buf),
      )
      refl

pub ctl_sent : (op : CtlOp) (fd : ℤ) (e : EpollEvent) (k : Kernel) → (ctl op fd e k).sent ≡ k.sent
ctl_sent ctl_add fd e k = refl
ctl_sent ctl_mod fd e k = refl
ctl_sent ctl_del fd e k = refl

abbrev pub small_laws : EpollLaws small_os
small_laws = record {
  interest = λ ep k fd. k.watches fd;
  taken = λ fd k. sent_to fd k.sent;
  adds = λ ep fd k. true;
  create_empty = λ n k fd. refl;
  add_refused = λ ep fd e k h t. absurd (true_ne_false t);
  send_takes = λ fd buf k. sent_to-append fd buf k.sent;
  ctl_takes = λ ep fd j op e k. ap (λ (l : List (ℤ × Bytes)). sent_to j l) (ctl_sent op fd e k);
  add_new = λ ep fd e k h t.
      watch_self fd _ k
      ∙ ap (λ (x : Option EpollEvent). elim x [ none ↦ some e | some y ↦ some y ]) h;
  add_old = λ ep fd e x k h.
      watch_self fd _ k
      ∙ ap (λ (x : Option EpollEvent). elim x [ none ↦ some e | some y ↦ some y ]) h;
  mod_old = λ ep fd e x k h.
      watch_self fd _ k
      ∙ ap (λ (x : Option EpollEvent). elim x [ none ↦ none | some y ↦ some e ]) h;
  mod_new = λ ep fd e k h.
      watch_self fd _ k
      ∙ ap (λ (x : Option EpollEvent). elim x [ none ↦ none | some y ↦ some e ]) h;
  del_self = λ ep fd e k. watch_self fd none k;
  ctl_other = λ ep fd j op e k ne. ctl_other_watch op fd j e k ne;
  send_keeps = λ ep fd j buf k. refl;
  close_self = λ ep fd k. watch_self fd none k;
  close_other = λ ep fd j k ne. watch_other fd j none k ne;
}

abbrev pub do_nothing : ℤ → Epoll Kernel → ℤ × Epoll Kernel
do_nothing fd p = (pos 1, p)

abbrev pub read_event : ℤ → EpollEvent
read_event fd = record { events = in_edge; evt_data = of_fd fd }

-- The server's socket is 4; the client 5 is watched.
abbrev pub with_client : Epoll Kernel
with_client = record {
  svr_fd = pos 4;
  epl_fd = pos 3;
  max_evt_cnt = 10240;
  out_envs = [];
  world = record {
    watches = λ j. if same j (pos 5) then some (read_event (pos 5)) else none;
    sent = [];
  };
}

pub address_ne : data_fd (of_ptr 4096) ≢ pos 4
unfolding data_fd to_int32
address_ne q = let r : 4096 ≡ 4 = ap (λ z. pos_part z) q in omega (arith, r)

abbrev pub fresh_object : Epoll Kernel
fresh_object = record {
  svr_fd = pos 0;
  epl_fd = pos 0;
  max_evt_cnt = 0;
  out_envs = [];
  world = record { watches = nothing; sent = [] };
}
