-- ===== src/Http/Version.antt =====
-- `_parse_desc` on a request line without and with a query.
use sunet.Base.{
  put_all, ℕ, ◌+◌, ◌≡◌, ◌≢◌, refl, List, [], ◌∷◌, ◌++◌, Bytes, codes, length, take, drop, Lacks,
  All, All-append, All-weaken, arith, ap, ◌∙◌, bytes_order, append_assoc, length-append,
  take-append,
}
use sunet.Util.{split}
use sunet.Util.Join.{split_single, split_pair}
use sunet.Http.{ok, Request}
use sunet.Http.Desc.{parsed, set_url, parse_desc}
use sunet.Http.RequestLine.{line_text, IsLineByte, IsUpper, parse_desc_at, drop_two}
use sunet.Http.Query.{
  IsParam, write_query, write_query-All, write_query-Lacks_tab, set_params-write_query, last-ne,
}

-- A url without a query: no `?`, and no tab.
abbrev pub IsUrlByte : ℕ → Type 0
IsUrlByte c = (c ≢ b' ') × (c ≢ b'\r') × (c ≢ 0) × (c ≢ b'?') × (c ≢ b'\t')

url_line : (c : ℕ) → IsUrlByte c → IsLineByte c
url_line c h = (h.0, h.1, h.2)

module _ (m u v t mem : Bytes) (hm : All IsUpper m) (hu : All IsUrlByte u) (hv : All IsLineByte v)
    (ht : Lacks 0 t) (full : v ≢ []) where
  no_query : Lacks b'?' u
  no_query = All-weaken _ _ (λ c h. h.3) u hu

  text_size :
      (w : Bytes) → length (line_text m w v t) ≡ length m + length w + length v + length t + 3
  text_size w = omega (
    arith,
    length-append m (b' ' ∷ (w ++ b' ' ∷ (v ++ b'\r' ∷ t))),
    length-append w (b' ' ∷ (v ++ b'\r' ∷ t)),
    length-append v (b'\r' ∷ t),
  )

  query_line :
      (ps : List (Bytes × Bytes)) → All IsParam ps → All IsLineByte (u ++ b'?' ∷ write_query ps)
  query_line ps h = All-append _ u _ (All-weaken _ _ url_line u hu) (
    omega arith,
    write_query-All IsLineByte (λ c k. (k.4, k.5, k.6)) (omega arith) (omega arith) ps h,
  )

  set_url_query :
      (ps : List (Bytes × Bytes))
      → All IsParam ps
      → (r : Request)
      → set_url (u ∷ write_query ps ∷ []) (record r { method = m })
        ≡ ok (record r { method = m; url = u; params = put_all ps r.params })
  unfolding set_url
  set_url_query ps h r = set_params-write_query ps (record r { method = m; url = u }) h

  -- The line `method url version` is read into its three parts, and the length is that of the line
  -- and its two last bytes. The method is of capitals; the url is not empty and holds no space,
  -- carriage return, zero, `?` or tab; the version is not empty and holds no space, carriage
  -- return or zero; what follows the carriage return holds no zero.
  pub parse_desc-line_text :
      (r : Request)
      → u ≢ []
      → parse_desc (line_text m u v t ++ 0 ∷ mem) r
        ≡ ok (
            parsed
              (length m + length u + length v + 4)
              (record r { method = m; url = u; version = v }))
  parse_desc-line_text r some_url =
      let at = length m + length u + 2 in
      let single : split u (codes "?") ≡ u ∷ [] =
        split_single b'?' u some_url no_query
          (last-ne b'\t' u (omega arith) (All-weaken _ _ (λ c h. h.4) u hu)) in
      parse_desc_at m u v t mem hm (All-weaken _ _ url_line u hu) hv ht r
        (record r { method = m; url = u }) at u [] full single (unfold set_url in refl) refl
        (omega (arith, text_size u))
      ∙ ap
          (λ (s : Bytes). ok (
            parsed (length m + length u + length v + 4)
              (record r { method = m; url = u; version = s })))
          (ap (take (length v)) (drop_two m u (v ++ b'\r' ∷ t) b' ' b' ' at refl)
            ∙ take-append v (b'\r' ∷ t))

  -- The same line with a written query behind the url, which may be empty: the url and the parameters are stored, but the version is cut from the query on:
  -- it is what stands behind `method url?`, and not the version of the line.
  pub parse_desc-query :
      (r : Request) (ps : List (Bytes × Bytes))
      → All IsParam ps
      → parse_desc (line_text m (u ++ b'?' ∷ write_query ps) v t ++ 0 ∷ mem) r
        ≡ ok (
            parsed (length m + length (u ++ b'?' ∷ write_query ps) + length v + 4) (record r {
              method = m;
              url = u;
              version = take (length v) (write_query ps ++ b' ' ∷ (v ++ b'\r' ∷ t));
              params = put_all ps r.params;
            }))
  parse_desc-query r ps h =
      let q = write_query ps in
      let at = length m + length u + 2 in
      let pair : split (u ++ b'?' ∷ q) (codes "?") ≡ u ∷ q ∷ [] =
        split_pair b'?' u q no_query
          (write_query-All _ (λ c k. k.3) (omega arith) (omega arith) ps h)
          (last-ne b'\t' _ (omega arith) (
            All-append _ u _ (All-weaken _ _ (λ c h. h.4) u hu)
              (omega arith, write_query-Lacks_tab ps h))) in
      parse_desc_at m (u ++ b'?' ∷ q) v t mem hm (query_line ps h) hv ht r
        (record r { method = m; url = u; params = put_all ps r.params }) at u (q ∷ []) full pair
        (set_url_query ps h r) refl
        (omega (arith, text_size (u ++ b'?' ∷ q), length-append u (b'?' ∷ q)))
      ∙ ap
          (λ (s : Bytes). ok (
            parsed (length m + length (u ++ b'?' ∷ q) + length v + 4) (record r {
              method = m;
              url = u;
              version = take (length v) s;
              params = put_all ps r.params;
            })))
          (ap (λ (s : Bytes). drop at (m ++ b' ' ∷ s))
              (append_assoc u (b'?' ∷ q) (b' ' ∷ (v ++ b'\r' ∷ t)))
            ∙ drop_two m u (q ++ b' ' ∷ (v ++ b'\r' ∷ t)) b' ' b'?' at refl)
