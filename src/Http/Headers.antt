-- ===== src/Http/Headers.antt =====
-- http/http_parse.cpp: `_parse_headers` and `_parse`.
use sunet.Base.{
  ℕ, zero, suc, ◌+◌, ◌-◌, Bool, true, false, [], ◌∷◌, ◌==◌, Bytes, length, put, drop, bytes_order,
}
use sunet.Http.{Result, ok, fault, overrun, ◌>>=◌, Request, assign}
use sunet.Http.Desc.{Line, parse_fail, parsed, parse_desc}

-- `p`, as what the buffer holds from there on, with the locals `i` and `parse_len`.
pub record Place : Type 0 where
  pub rest : Bytes
  pub at : ℕ
  pub parse_len : ℕ

-- `while (*p != stop) { p++; i++; parse_len++; }`
unfoldable pub scan_to : ℕ → Bytes → ℕ → ℕ → Result Place
scan_to stop [] i len = fault overrun
scan_to stop (c ∷ rest) i len = elim (c == stop) [
  | true ↦ ok (record { rest = c ∷ rest; at = i; parse_len = len })
  | false ↦ scan_to stop rest (i + 1) (len + 1)
]

-- `while (*p == ' ') { p++; i++; }`
unfoldable pub skip_spaces : Bytes → ℕ → ℕ → Result Place
skip_spaces [] i len = fault overrun
skip_spaces (c ∷ rest) i len = elim (c == b' ') [
  | true ↦ skip_spaces rest (i + 1) len
  | false ↦ ok (record { rest = c ∷ rest; at = i; parse_len = len })
]

-- `*p == '\r' && *(p + 1) == '\n'`: the second byte is read if the first fits.
unfoldable pub at_blank_line : Bytes → Result Bool
at_blank_line [] = fault overrun
at_blank_line (c ∷ rest) = elim (c == b'\r') [
  | false ↦ ok false
  | true ↦ elim rest [ [] ↦ fault overrun | d ∷ more ↦ ok (d == b'\n') ]
]

-- One round behind the test: a header is read from `p` on, and two bytes end it. The tests of
-- `':'` and `'\r'` behind the inner loops hold whenever those loops end.
unfoldable pub read_header : Bytes → Bytes → ℕ → Request → Result (Place × Request)
read_header buf rest i request = do
  colon ← scan_to b':' rest i 0
  key ← assign buf (colon.at - colon.parse_len) colon.parse_len
  start ← skip_spaces (drop 1 colon.rest) (colon.at + 1) 0
  stop ← scan_to b'\r' start.rest start.at start.parse_len
  value ← assign buf (stop.at - stop.parse_len) stop.parse_len
  ok (
    record { rest = drop 2 stop.rest; at = stop.at + 2; parse_len = 0 },
    record request { headers = put key value request.headers },
  )

unfoldable pub header_loop : ℕ → Bytes → Bytes → ℕ → Request → Result (ℕ × Request)
header_loop zero buf rest i request = fault overrun
header_loop (suc fuel) buf rest i request = do
  blank ← at_blank_line rest
  elim blank [
    | true ↦ ok (i + 2, request)
    | false ↦ do
      (place, request') ← read_header buf rest i request
      header_loop fuel buf place.rest place.at request'
  ]

-- Every round passes a colon and a carriage return, so the bytes of the buffer are rounds enough.
unfoldable pub parse_headers : Bytes → Request → Result (ℕ × Request)
parse_headers buf request = header_loop (suc (length buf)) buf buf 0 request

unfoldable pub after_desc : Bytes → Line → Result Request
after_desc buf (parse_fail request) = ok request
after_desc buf (parsed len request) = do
  (total, request') ← parse_headers (drop len buf) request
  ok request'

unfoldable pub parse : Bytes → Request → Result Request
parse buf request = do line ← parse_desc buf request; after_desc buf line
