-- ===== src/Io/Tests.antt =====
-- Runs of io/event.h, io/server.cpp and task/req_task.cpp.
use sunet.Base.{
  ℕ, zero, suc, ◌+◌, ◌≡◌, refl, List, [], ◌∷◌, ◌++◌, some, Bytes, codes, length, drop, replicate,
  All, put_all, bytes_order, arith, ap,
}
use sunet.Base.Int.{ℤ, pos}
use sunet.Base.Number.{atoi}
use sunet.Util.{num_to_str}
use sunet.Util.Words.{concat}
use sunet.Http.{Request, new_request, ok}
use sunet.Http.Desc.{is_upper}
use sunet.Http.Headers.{parse_headers}
use sunet.Http.HeaderLines.{header_lines}
use sunet.Http.RequestLine.{IsUpper}
use sunet.Config.{Status, sub_ok}
use sunet.Plugin.{Strategy}
use sunet.Io.{RecvData, on_http_read, recv_error, recv_closed, read_ok, read_fail, out_env}
use sunet.Io.Receive.{on_http_read_lem}
use sunet.Io.Response.{reply_headers, status_line, parse_headers-out_env}

-- Every allocation holds zeros.
abbrev zeros : ℕ → Bytes
zeros n = replicate n 0

length-zeros : (n : ℕ) → length (zeros n) ≡ n
length-zeros zero = refl
length-zeros (suc n) = ap suc (length-zeros n)

abbrev chunks : List Bytes
chunks = codes "GE" ∷ codes "T" ∷ []

on_http_read_example :
    ((d : RecvData) × (mem : Bytes) × (on_http_read zeros chunks recv_error
        ≡ some (read_ok (some d)))
      × (d.buf ≡ concat chunks ++ 0 ∷ mem)
      × (d.buf_len ≡ length (concat chunks)))
    × (on_http_read zeros chunks recv_closed ≡ some read_fail)
unfolding concat
on_http_read_example = on_http_read_lem zeros length-zeros chunks (ground arith) (λ e. cc e)

parse_headers-out_env_example :
    (parse_headers (drop (length status_line) (out_env (codes "ok") ++ 0 ∷ [])) new_request
      ≡ ok (
        length (header_lines (reply_headers (codes "ok"))) + 2,
        record new_request { headers = put_all (reply_headers (codes "ok")) new_request.headers },
      ))
    × (atoi (num_to_str (pos (length (codes "ok")))) ≡ pos (length (codes "ok")))
parse_headers-out_env_example =
    parse_headers-out_env (codes "ok") [] new_request (omega arith, (omega arith, tt)) (omega arith)

-- A strategy that replies with the url.
abbrev echo : Strategy → Request → ℤ → Bytes → Status × Bytes
echo s req level root = (sub_ok, req.url)

abbrev same_text : Bytes → Bytes
same_text s = s

get-IsUpper : All IsUpper (codes "GET")
unfolding is_upper
get-IsUpper = (refl, (refl, (refl, tt)))
