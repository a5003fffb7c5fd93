-- ===== src/Io.antt =====
-- io/event.h, io/server.cpp and task/req_task.cpp: the receive buffer, `_on_http_read`, the text
-- of a response, and `ReqTask::_run`. A sequence of calls of `recv` is the bytes that each one
-- gave, at most 1024, and how the last one ended. The sizes are taken not to reach 2 ^ 31.
pub mod Receive
pub mod Response
pub mod Epoll
pub mod EventQueue
pub mod Select
pub mod Sock
pub mod Server
pub mod ReqTask
mod Tests
use sunet.Base.{
  ℕ, ◌+◌, ◌*◌, Bool, true, false, List, [], ◌∷◌, ◌++◌, Option, none, some, Bytes, codes, length,
  take, drop, leb, ltb, ◌==◌, if◌then◌else◌,
}
use sunet.Base.Int.{ℤ, pos}
use sunet.Util.{num_to_str}
use sunet.Http.{Request, Result, ok, fault, new_request}
use sunet.Http.Headers.{parse}
use sunet.Config.{Status}
use sunet.Plugin.{Strategy, UriMap, run_uri}

-- `RECV_DATA`: `buf` is the whole allocation.
pub record RecvData : Type 0 where
  pub buf : Bytes
  pub buf_len : ℕ
  pub buf_cap : ℕ

-- A write of `bytes` at an index; `none` is a write outside the allocation.
unfoldable pub write_at : ℕ → Bytes → Bytes → Option Bytes
write_at i bytes buf =
    if leb (i + length bytes) (length buf)
    then some (take i buf ++ (bytes ++ drop (i + length bytes) buf))
    else none

-- How the loop of `recv` ended: with -1, or with 0, when the client has closed the socket.
pub data RecvEnd : Type 0 where
  recv_error recv_closed : RecvEnd

-- `READ_FAIL`, or `READ_OK` with the bytes of the task that is added, if one is.
pub data ReadResult : Type 0 where
  read_fail : ReadResult
  read_ok : Option RecvData → ReadResult

infixl 5 ◌>>=◌
abbrev ◌>>=◌ {ℓ κ} : {A : Type ℓ} {B : Type κ} → Option A → (A → Option B) → Option B
none >>= f = none
some a >>= f = f a

-- What a new allocation holds.
module _ (fresh : ℕ → Bytes) where
  -- `memset(buf, '\0', sizeof(buf))` clears the 8 bytes of a pointer.
  unfoldable pub new_recv_data : Option RecvData
  new_recv_data = do
    buf ← write_at 0 (0 ∷ 0 ∷ 0 ∷ 0 ∷ 0 ∷ 0 ∷ 0 ∷ 0 ∷ []) (fresh 4096)
    some (record { buf = buf; buf_len = 0; buf_cap = 4096 })

  unfoldable pub resize : RecvData → Option RecvData
  resize d = do
    new_buf ← write_at 0 (take d.buf_len d.buf) (fresh (d.buf_cap * 2))
    some (record d { buf = new_buf; buf_cap = d.buf_cap * 2 })

  -- One round of the loop with bytes.
  unfoldable pub recv_step : Bytes → RecvData → Option RecvData
  recv_step bytes d = do
    received ← write_at d.buf_len bytes d.buf
    buf ← write_at (d.buf_len + length bytes) (0 ∷ []) received
    let d' : RecvData = record d { buf = buf; buf_len = d.buf_len + length bytes } in
        elim (leb d.buf_cap (d.buf_len + length bytes + 1024)) [
          | true ↦ resize d'
          | false ↦ some d'
        ]

  unfoldable pub recv_loop : List Bytes → RecvData → Option RecvData
  recv_loop [] d = some d
  recv_loop (bytes ∷ more) d = do d' ← recv_step bytes d; recv_loop more d'

  -- What follows the loop.
  unfoldable pub read_end : RecvEnd → RecvData → Option ReadResult
  read_end recv_closed d = some read_fail
  read_end recv_error d = elim (ltb 0 d.buf_len) [
    | true ↦ do
      buf ← write_at d.buf_len (0 ∷ []) d.buf
      some (read_ok (some (record d { buf = buf })))
    | false ↦ some (read_ok none)
  ]

  unfoldable pub on_http_read : List Bytes → RecvEnd → Option ReadResult
  on_http_read received last = do d ← new_recv_data; d' ← recv_loop received d; read_end last d'

-- `epoll_out_env`: the bytes that are sent.
unfoldable pub out_env : Bytes → Bytes
out_env http_body =
    codes "HTTP/1.1 200 OK\r\nContent-Length: "
    ++ (num_to_str (pos (length http_body))
        ++ (codes "\r\n"
            ++ (codes "Access-Control-Allow-Origin: *" ++ (codes "\r\n\r\n" ++ http_body))))

-- `ReqTask::_run` behind its two tests: the request is parsed, the strategies of its uri are run,
-- and the reply is what is sent.
module _ {ℓ} {Json : Type ℓ} (process : Strategy → Request → ℤ → Json → Status × Json)
    (empty : Json) (to_styled_string : Json → Bytes) where
  unfoldable pub run_request : UriMap → Bytes → Result Bytes
  run_request uris buf = elim (parse buf new_request) [
    | fault e ↦ fault e
    | ok request ↦
        ok (out_env (to_styled_string (run_uri process request.url request uris empty).1))
  ]
