-- ===== src/Client.antt =====
-- client/client.cpp: the client that puts load on the server. The system calls are an interface on a
-- world `W`; the text of the request, a constant, is an argument, and what is printed is left out
-- but for the verdict on the reply.
pub mod Verdict
mod Tests
use sunet.Base.{
  ℕ, zero, suc, ◌+◌, ◌-◌, Bool, true, false, List, [], ◌∷◌, ◌++◌, Option, none, some, Bytes, codes,
  length, drop, ltb, same, bytes_order, if◌then◌else◌,
}
use sunet.Base.Int.{ℤ, pos, negsuc, ltb_ℤ, int_order, pos_part}
use sunet.Base.Number.{atoi}
use sunet.Http.{Result, ok, fault, c_str}
use sunet.Io.Sock.{SockAddr}
use sunet.Thread.{Thread, new_thread, new_handler, thread_start}

-- `recv` gives the bytes that it wrote, at most 1024, and none for -1; so does `send`, with their
-- number.
pub record ClientOs {ℓ} (W : Type ℓ) : Type ℓ where
  pub htons : ℤ → ℕ
  pub inet_addr : Bytes → ℕ
  pub socket : W → ℤ × W
  pub connect : ℤ → SockAddr → W → ℤ × W
  pub send : ℤ → Bytes → W → Option ℕ × W
  pub recv : ℤ → W → Option Bytes × W
  pub close : ℤ → W → W

pub record Client : Type 0 where
  pub srv_addr : SockAddr
  pub clt_sock_fd : ℤ

-- The two early returns, and what is printed of the reply.
pub data Outcome : Type 0 where
  no_socket no_connection reply_right reply_wrong : Outcome

infixl 5 ◌>>=◌
abbrev ◌>>=◌ {ℓ κ} : {A : Type ℓ} {B : Type κ} → Option A → (A → Option B) → Option B
none >>= f = none
some a >>= f = f a

-- `char buf[1024]` behind `recv`, where it held `fresh`.
unfoldable pub received_buf : Bytes → Option Bytes → Bytes
received_buf fresh none = fresh
received_buf fresh (some bytes) = bytes ++ drop (length bytes) fresh

module _ {ℓ} {W : Type ℓ} (os : ClientOs W) where
  unfoldable pub init_svr_param : Bytes → ℤ → W → Client × W
  init_svr_param ip port w =
      let (fd, w₁) = os.socket w in
      (
        record {
          srv_addr = record {
            sin_family = 2;
            sin_port = os.htons port;
            s_addr = os.inet_addr ip;
            sin_zero = 0 ∷ 0 ∷ 0 ∷ 0 ∷ 0 ∷ 0 ∷ 0 ∷ 0 ∷ [];
          };
          clt_sock_fd = fd;
        },
        w₁,
      )

  -- `while (n > 0)`: what is left of the text; `none` is a run out of fuel.
  unfoldable pub client_send : ℕ → ℤ → Bytes → W → Option W
  client_send zero fd left w = none
  client_send (suc fuel) fd [] w = some w
  client_send (suc fuel) fd (c ∷ left) w = elim (os.send fd (c ∷ left) w).0 [
    | none ↦ some (os.send fd (c ∷ left) w).1
    | some nwrite ↦ elim (ltb nwrite (length (c ∷ left))) [
      | true ↦ some (os.send fd (c ∷ left) w).1
      | false ↦ client_send fuel fd (drop nwrite (c ∷ left)) (os.send fd (c ∷ left) w).1
    ]
  ]

  -- The output and the comparison read the buffer up to a zero; `none` is a read behind it.
  unfoldable pub connect_svr : Bytes → Bytes → Client → W → Option (Outcome × W)
  connect_svr http_str fresh client w = elim (same (negsuc 0) client.clt_sock_fd) [
    | true ↦ some (no_socket, w)
    | false ↦
        let fd = client.clt_sock_fd in
        let (connected, w₁) = os.connect fd client.srv_addr w in
        elim (ltb_ℤ connected (pos 0)) [
          | true ↦ some (no_connection, w₁)
          | false ↦ do
            w₂ ← client_send (suc (suc (length http_str))) fd http_str w₁
            let (got, w₃) = os.recv fd w₂ in
                elim (c_str (received_buf fresh got)) [
                  | fault e ↦ none
                  | ok reply ↦ some (
                    if same reply (codes "Hello from svr!") then reply_right else reply_wrong,
                    os.close fd w₃,
                  )
                ]
        ]
  ]

  -- `_thread_proc_handler`, for the rounds that are left, 1000 at first.
  unfoldable pub client_rounds : ℕ → ℤ → Bytes → Bytes → W → Option (List Outcome × W)
  client_rounds zero port http_str fresh w = some ([], w)
  client_rounds (suc rounds) port http_str fresh w =
      let (client, w₁) = init_svr_param (codes "127.0.0.1") port w in
      do
        (outcome, w₂) ← connect_svr http_str fresh client w₁
        (outcomes, w₃) ← client_rounds rounds port http_str fresh w₂
        some (outcome ∷ outcomes, w₃)

-- `for (int i = 0; i < thread_num; i++)`: the rounds that are left.
unfoldable pub client_threads : ℕ → List Thread → List Thread
client_threads zero threads = threads
client_threads (suc rounds) threads =
    client_threads rounds (threads ++ thread_start (new_thread (some new_handler)) ∷ [])

-- `main`: the port and the threads that are started and joined; `none` is the exit with the usage.
unfoldable pub client_main : List Bytes → Option (ℤ × List Thread)
client_main (program ∷ count ∷ port ∷ more) =
    some (atoi port, client_threads (pos_part (atoi count)) [])
client_main argv = none
