-- ===== src/Io/Sock.antt =====
-- io/server.cpp: `_init_sock` and `_set_nonblocking` of `SubServer`. The system calls and `htons`
-- are an interface on a world `W` that holds the kernel; `FATAL_LOG` writes no line.
pub mod Ready
pub mod Small
mod Tests
use sunet.Base.{
  ℕ, ◌+◌, ◌-◌, ◌*◌, ◌/◌, ◌%◌, Bool, true, false, Bytes, ◌==◌, if◌then◌else◌, same, take, drop,
}
use sunet.Base.Int.{ℤ, pos, negsuc, int_order}

-- `struct sockaddr_in`, its numbers as they are stored.
pub record SockAddr : Type 0 where
  pub sin_family : ℕ
  pub sin_port : ℕ
  pub s_addr : ℕ
  pub sin_zero : Bytes

-- The members of `SubServer` that are used.
pub record SubServer : Type 0 where
  pub svr_addr : SockAddr
  pub svr_fd : ℤ

-- The options of `SOL_SOCKET` that are set.
pub data SockOption : Type 0 where
  so_rcvbuf so_reuseaddr : SockOption

-- The calls, with what they return.
pub record SockOs {ℓ} (W : Type ℓ) : Type ℓ where
  pub htons : ℤ → ℕ
  pub socket : W → ℤ × W
  pub bind : ℤ → SockAddr → W → ℤ × W
  pub listen : ℤ → ℕ → W → ℤ × W
  pub setsockopt : ℤ → SockOption → ℤ → W → ℤ × W
  pub fcntl_getfl : ℤ → W → ℤ × W
  pub fcntl_setfl : ℤ → ℤ → W → ℤ × W
  pub sigemptyset : W → ℤ × W
  -- `sigaction(SIGPIPE, &sa, 0)` with the handler `SIG_IGN`.
  pub ignore_sigpipe : W → ℤ × W

-- How `_init_sock` ends: it returns, or the program exits with a status.
pub data Start {ℓ} (W : Type ℓ) : Type ℓ where
  started : SubServer → W → Start W
  exited : ℕ → W → Start W

-- A call whose result is looked at: -1 ends the program.
unfoldable pub checked {ℓ} : {W : Type ℓ} → ℤ × W → (ℤ → W → Start W) → Start W
checked (ret, w) next = elim (same ret (negsuc 0)) [ true ↦ exited 1 w | false ↦ next ret w ]

-- `opts | O_NONBLOCK`, the bit 2048, in two's complement.
unfoldable pub or_nonblock : ℤ → ℤ
or_nonblock (pos n) = if (n / 2048) % 2 == 1 then pos n else pos (n + 2048)
or_nonblock (negsuc n) = if (n / 2048) % 2 == 1 then negsuc (n - 2048) else negsuc n

module _ {ℓ} {W : Type ℓ} (os : SockOs W) where
  unfoldable pub set_nonblocking : ℤ → W → W
  set_nonblocking sock_fd w =
      let (opts, w₁) = os.fcntl_getfl sock_fd w in (os.fcntl_setfl sock_fd (or_nonblock opts) w₁).1

  -- `memset` clears the 8 bytes of a pointer, the members that are set anyway, and not `sin_zero`.
  unfoldable pub svr_addr_of : ℤ → SockAddr → SockAddr
  svr_addr_of port old = record {
    sin_family = 2;
    sin_port = os.htons port;
    s_addr = os.htons (pos 0);
    sin_zero = old.sin_zero;
  }

  unfoldable pub init_sock : ℤ → SubServer → W → Start W
  init_sock port server w =
      let addr = svr_addr_of port server.svr_addr in
      checked (os.socket w) (λ fd w₁. checked (os.bind fd addr w₁) (λ r₂ w₂.
        checked (os.listen fd 1024 w₂) (λ r₃ w₃.
          checked (os.setsockopt fd so_rcvbuf (pos (128 * 1024)) w₃) (λ r₄ w₄.
            checked (os.setsockopt fd so_reuseaddr (pos 1) w₄) (λ r₅ w₅.
              checked (os.sigemptyset (set_nonblocking fd w₅)) (λ r₆ w₆.
                checked (os.ignore_sigpipe w₆)
                  (λ r₇ w₇. started (record { svr_addr = addr; svr_fd = fd }) w₇)))))))
