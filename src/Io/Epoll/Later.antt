-- ===== src/Io/Epoll/Later.antt =====
-- A response that io/epoll.cpp never sends: a second reply on its socket comes before it is sent.
use sunet.Base.{ℕ, ◌≡◌, none, some, Bytes, find, nat_order}
use sunet.Base.Int.{ℤ, int_order}
use sunet.Io.Epoll.{Os, Epoll, EpollEvent, handle, reply}
use sunet.Io.Epoll.Laws.{EpollLaws}
use sunet.Io.Epoll.Reach.{Delivered}
use sunet.Io.Epoll.Lost.{Calm, Lost}

module _ {ℓ} {W : Type ℓ} (os : Os W) (laws : EpollLaws os) where
  module _ (accept_proc : ℤ → Epoll W → ℤ × Epoll W) (read_proc : ℤ → Epoll W → ℤ × Epoll W)
      (accept_calm : Calm os laws accept_proc) (read_calm : Calm os laws read_proc) where
    -- The states that replies and delivered events reach from a given one, in any order.
    pub data Later (p : Epoll W) : Epoll W → Type ℓ where
      now : Later p p
      then_replied :
          (fd : ℤ) (a : ℕ) (body : Bytes) (q : Epoll W)
          → Later p q
          → find a q.out_envs ≡ none
          → Later p (reply os fd a body q)
      then_handled :
          (ev : EpollEvent) (q q' : Epoll W)
          → Later p q
          → Delivered os laws q ev
          → handle os accept_proc read_proc ev q ≡ some q'
          → Later p q'
