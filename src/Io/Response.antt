-- ===== src/Io/Response.antt =====
-- A response as an HTTP client reads it, and a request from its bytes to its response.
use sunet.Base.{
  ◌+◌, ◌<◌, ◌^◌, ◌≡◌, ◌≢◌, refl, List, [], ◌∷◌, ◌++◌, Bytes, codes, length, drop, Lacks, All,
  append_assoc, put_all, bytes_order, arith, inl,
}
use sunet.Base.Int.{ℤ, pos}
use sunet.Base.Number.{print_int, print_int-ne, atoi, atoi-print_int}
use sunet.Util.{num_to_str}
use sunet.Http.{Request, ok, new_request}
use sunet.Http.Headers.{parse_headers}
use sunet.Http.HeaderLines.{IsHeader, IsHeaderValue, header_lines, blank}
use sunet.Http.HeaderLoop.{parse_headers-header_lines}
use sunet.Http.RequestLine.{line_text, IsLineByte, IsUpper}
use sunet.Http.Version.{IsUrlByte}
use sunet.Http.Whole.{parse-line_text}
use sunet.Config.{Status}
use sunet.Plugin.{Strategy, UriMap, run_uri}
use sunet.Io.{out_env, run_request}

-- The headers of a response to which a body is given.
abbrev pub reply_headers : Bytes → List (Bytes × Bytes)
reply_headers body =
    (codes "Content-Length", num_to_str (pos (length body)))
    ∷ (codes "Access-Control-Allow-Origin", codes "*")
    ∷ []

abbrev pub status_line : Bytes
status_line = codes "HTTP/1.1 200 OK\r\n"

out_env-header_lines :
    (body : Bytes) → out_env body ≡ status_line ++ (header_lines (reply_headers body) ++ blank body)
unfolding out_env header_lines
out_env-header_lines body = rw (append_assoc (num_to_str (pos (length body)))) refl

as_value : (v : Bytes) → Lacks b' ' v → Lacks b'\r' v → Lacks 0 v → IsHeaderValue v
as_value [] h k l = (tt, tt)
as_value (c ∷ v) h k l = (h.0, ((k.0, l.0), (as_value v h.1 k.1 l.1).1))

number_value : (z : ℤ) → IsHeaderValue (num_to_str z)
unfolding num_to_str
number_value z =
    as_value (print_int z) (print_int-ne b' ' z (inl (omega arith)) (omega arith))
      (print_int-ne b'\r' z (inl (omega arith)) (omega arith))
      (print_int-ne 0 z (inl (omega arith)) (omega arith))

reply_headers-IsHeader : (body : Bytes) → All IsHeader (reply_headers body)
reply_headers-IsHeader body = ((ground arith, number_value (pos (length body))), (ground arith, tt))

-- Of a body without zeros and of fewer than 2 ^ 31 bytes: behind the status line of the response
-- stand its two headers, as `_parse_headers` reads them, and
-- then the body; the first header is read by `atoi` as the number of bytes of the body.
pub parse_headers-out_env :
    (body mem : Bytes) (r : Request)
    → Lacks 0 body
    → length body < 2 ^ 31
    → (parse_headers (drop (length status_line) (out_env body ++ 0 ∷ mem)) r
        ≡ ok (
          length (header_lines (reply_headers body)) + 2,
          record r { headers = put_all (reply_headers body) r.headers },
        ))
      × (atoi (num_to_str (pos (length body))) ≡ pos (length body))
unfolding num_to_str
parse_headers-out_env body mem r h k = (
  rw (out_env-header_lines body)
      (parse_headers-header_lines (reply_headers body) body mem r h (reply_headers-IsHeader body)),
  atoi-print_int (pos (length body)) k,
)

module _ {ℓ} {Json : Type ℓ} (process : Strategy → Request → ℤ → Json → Status × Json)
    (empty : Json) (to_styled_string : Json → Bytes) where
  -- A request without a query, well-formed as for `parse-line_text`, is answered with the reply of the strategies of its
  -- url, which are given its method, url, version and headers.
  pub run_request-line_text :
      (m u v t mem : Bytes) (hs : List (Bytes × Bytes)) (uris : UriMap)
      → All IsUpper m
      → All IsUrlByte u
      → All IsLineByte v
      → Lacks 0 t
      → v ≢ []
      → All IsHeader hs
      → u ≢ []
      → run_request process empty to_styled_string uris
          (line_text m u v (b'\n' ∷ (header_lines hs ++ blank t)) ++ 0 ∷ mem)
        ≡ ok (
            out_env (
              to_styled_string
                (run_uri process u
                  (record new_request {
                    method = m;
                    url = u;
                    version = v;
                    headers = put_all hs new_request.headers;
                  })
                  uris
                  empty).1))
  unfolding run_request
  run_request-line_text m u v t mem hs uris hm hu hv ht full hh some_url =
      rw (run_request, parse-line_text m u v t mem hs hm hu hv ht full hh new_request some_url) refl
