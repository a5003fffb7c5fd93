-- ===== src/Http/Desc.antt =====
-- http/http_parse.cpp: `_parse_desc`, which reads the request line.
use sunet.Base.{
  ℕ, ◌+◌, Bool, true, false, not, ◌&&◌, List, [], ◌∷◌, leb, ◌==◌, if◌then◌else◌, Bytes, codes,
  length, put, bytes_order,
}
use sunet.Util.{split}
use sunet.Http.{Result, ok, fault, overrun, ◌>>=◌, Request, assign}
use sunet.Http.Codec.{decode}

pub data Part : Type 0 where
  in_method in_url in_version : Part

-- `_parse_desc` has changed the request when it returns `HTTP_PARSE_FAIL`.
pub data Line : Type 0 where
  parse_fail : Request → Line
  parsed : ℕ → Request → Line

-- The locals `i`, `req_part` and `parse_len` of the loop, and the request.
pub record Cursor : Type 0 where
  pub at : ℕ
  pub part : Part
  pub parse_len : ℕ
  pub request : Request

-- How the loop ends: by a `return` in it, or at the carriage return.
pub data Scan : Type 0 where
  returned : Request → Scan
  ended : Cursor → Scan

-- One round of the loop over `params`.
unfoldable pub set_param : Bytes → Request → Result Request
set_param param request = elim (split param (codes "=")) [
  | [] ↦ ok request
  | key ∷ [] ↦ ok request
  | key ∷ value ∷ [] ↦ do
    decode_val ← decode value
    ok (record request { params = put key decode_val request.params })
  | key ∷ value ∷ other ∷ more ↦ ok request
]

unfoldable pub set_params : List Bytes → Request → Result Request
set_params [] request = ok request
set_params (param ∷ params) request = do
  request' ← set_param param request
  set_params params request'

-- The pieces of `url_info` around `?`: the url, and the parameters of the second piece.
unfoldable pub set_url : List Bytes → Request → Result Request
set_url [] request = ok request
set_url (url ∷ []) request = ok (record request { url = url })
set_url (url ∷ query ∷ rest) request =
    set_params (split query (codes "&")) (record request { url = url })

-- `*p < 'A' || *p > 'Z'`; a signed `char` of 128 or more is below `'A'`.
unfoldable pub is_upper : ℕ → Bool
is_upper c = leb b'A' c && leb c b'Z'

-- The body of the loop at a space.
unfoldable pub at_space : Bytes → Cursor → Part → Result Scan
at_space buf cur in_method = do
  method ← assign buf 0 cur.parse_len
  ok (
      ended (record cur {
        at = cur.at + 1;
        part = in_url;
        parse_len = 0;
        request = record cur.request { method = method };
      }))
at_space buf cur in_url = do
  url_info ← assign buf (length cur.request.method + 1) cur.parse_len
  elim (split url_info (codes "?")) [
    | [] ↦ ok (returned cur.request)
    | url ∷ rest ↦ do
      request ← set_url (url ∷ rest) cur.request
      ok (
          ended
            (record cur { at = cur.at + 1; part = in_version; parse_len = 0; request = request }))
  ]
at_space buf cur in_version = ok (ended (record cur { at = cur.at + 1 }))

-- The body of the loop at another byte.
unfoldable pub at_byte : ℕ → Cursor → Part → Scan
at_byte c cur in_method =
    if is_upper c
    then ended (record cur { at = cur.at + 1; parse_len = cur.parse_len + 1 })
    else returned cur.request
at_byte c cur part = ended (record cur { at = cur.at + 1; parse_len = cur.parse_len + 1 })

unfoldable pub desc_step : Bytes → ℕ → Cursor → Result Scan
desc_step buf c cur =
    if not (c == b' ') then ok (at_byte c cur cur.part) else at_space buf cur cur.part

-- `while (*p != '\r')`; the second argument is what the buffer holds from `p` on.
unfoldable pub desc_loop : Bytes → Bytes → Cursor → Result Scan
desc_loop buf [] cur = fault overrun
desc_loop buf (c ∷ rest) cur = elim (c == b'\r') [
  | true ↦ ok (ended cur)
  | false ↦ do
    next ← desc_step buf c cur
    elim next [ returned r ↦ ok (returned r) | ended cur' ↦ desc_loop buf rest cur' ]
]

-- The version behind the loop.
unfoldable pub set_version : Bytes → ℕ → ℕ → Request → Result Line
set_version buf at len request =
    if len == 0 then ok (parsed (at + 2) (record request { version = codes "HTTP/1.1" })) else (do
      version ← assign buf (length request.method + length request.url + 2) len
      ok (parsed (at + 2) (record request { version = version })))

-- What follows the loop.
unfoldable pub desc_end : Bytes → Cursor → Part → Result Line
desc_end buf cur in_url =
    if not (cur.parse_len == 0)
    then (do
      url ← assign buf (length cur.request.method + 1) cur.parse_len
      set_version buf cur.at 0 (record cur.request { url = url }))
    else ok (parse_fail cur.request)
desc_end buf cur part = set_version buf cur.at cur.parse_len cur.request

unfoldable pub after_scan : Bytes → Scan → Result Line
after_scan buf (returned r) = ok (parse_fail r)
after_scan buf (ended cur) = desc_end buf cur cur.part

unfoldable pub parse_desc : Bytes → Request → Result Line
parse_desc buf request = do
  scan ← desc_loop buf buf (record { at = 0; part = in_method; parse_len = 0; request = request })
  after_scan buf scan
