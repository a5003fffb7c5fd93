-- ===== src/Http/Whole.antt =====
-- `_parse` on a whole request.
use sunet.Base.{
  put_all, bytes_order, ◌+◌, ◌≡◌, ◌≢◌, List, [], ◌∷◌, ◌++◌, Bytes, length, take, drop, Lacks, All,
  arith, append_assoc, length-append, drop-append,
}
use sunet.Http.{ok, Request}
use sunet.Http.Desc.{parsed}
use sunet.Http.Headers.{parse, after_desc}
use sunet.Http.HeaderLines.{IsHeader, header_lines, blank, lines_end-Lacks}
use sunet.Http.HeaderLoop.{parse_headers-header_lines}
use sunet.Http.RequestLine.{line_text, IsLineByte, IsUpper}
use sunet.Http.Query.{IsParam, write_query}
use sunet.Http.Version.{IsUrlByte, parse_desc-line_text, parse_desc-query}

-- What stands behind the request line and its two bytes.
pub drop_line :
    (m u v rest mem : Bytes)
    → drop (length m + length u + length v + 4) (line_text m u v (b'\n' ∷ rest) ++ 0 ∷ mem)
      ≡ rest ++ 0 ∷ mem
drop_line m u v rest mem =
    let front = line_text m u v (b'\n' ∷ []) in
    let spell : line_text m u v (b'\n' ∷ rest) ≡ front ++ rest =
      rw (append_assoc m, append_assoc u, append_assoc v) in
    let size : length m + length u + length v + 4 ≡ length front = omega (
      arith,
      length-append m (b' ' ∷ (u ++ b' ' ∷ (v ++ b'\r' ∷ b'\n' ∷ []))),
      length-append u (b' ' ∷ (v ++ b'\r' ∷ b'\n' ∷ [])),
      length-append v (b'\r' ∷ b'\n' ∷ []),
    ) in
    rw (size, spell, append_assoc front) (drop-append front (rest ++ 0 ∷ mem))

module _ (m u v t mem : Bytes) (hs : List (Bytes × Bytes)) (hm : All IsUpper m)
    (hu : All IsUrlByte u) (hv : All IsLineByte v) (ht : Lacks 0 t) (full : v ≢ [])
    (hh : All IsHeader hs) where
  -- The request line, the headers and the blank line, with the body `t` behind them.
  abbrev after_line : Bytes
  after_line = b'\n' ∷ (header_lines hs ++ blank t)

  after_headers :
      (w : Bytes) (r : Request)
      → after_desc
          (line_text m w v (b'\n' ∷ (header_lines hs ++ blank t)) ++ 0 ∷ mem)
          (parsed (length m + length w + length v + 4) r)
        ≡ ok (record r { headers = put_all hs r.headers })
  unfolding after_desc
  after_headers w r = rw (
    drop_line m w v (header_lines hs ++ blank t) mem,
    parse_headers-header_lines hs t mem r ht hh,
  )

  -- A request without a query is read whole: method, url, version and headers. The method is of
  -- capitals; the url is not empty and holds no space, carriage return, zero, `?` or tab; the
  -- version is not empty and holds no space, carriage return or zero; the headers are well-formed
  -- and the body holds no zero.
  pub parse-line_text :
      (r : Request)
      → u ≢ []
      → parse (line_text m u v (b'\n' ∷ (header_lines hs ++ blank t)) ++ 0 ∷ mem) r
        ≡ ok (record r { method = m; url = u; version = v; headers = put_all hs r.headers })
  unfolding parse
  parse-line_text r some_url =
      rw
        (parse_desc-line_text m u v after_line mem hm hu hv
          (omega arith, lines_end-Lacks hs t hh ht) full r some_url)
        (after_headers u (record r { method = m; url = u; version = v }))

  -- The same with a written query behind the url, which may be empty: every parameter is stored with its value decoded; only the version is not
  -- that of the line, but the first bytes behind the `?`.
  pub parse-query :
      (r : Request) (ps : List (Bytes × Bytes))
      → All IsParam ps
      → parse
          (line_text m (u ++ b'?' ∷ write_query ps) v (b'\n' ∷ (header_lines hs ++ blank t))
            ++ 0 ∷ mem)
          r
        ≡ ok (record r {
          method = m;
          url = u;
          version =
              take
                (length v)
                (write_query ps ++ b' ' ∷ (v ++ b'\r' ∷ b'\n' ∷ (header_lines hs ++ blank t)));
          params = put_all ps r.params;
          headers = put_all hs r.headers;
        })
  unfolding parse
  parse-query r ps h =
      rw
        (parse_desc-query m u v after_line mem hm hu hv (omega arith, lines_end-Lacks hs t hh ht)
          full r ps h)
        (after_headers (u ++ b'?' ∷ write_query ps) _)
