-- ===== src/Http/Partial.antt =====
-- `_parse` on a request of which only a part has arrived.
use sunet.Base.{
  put_all, ℕ, suc, ◌+◌, ◌-◌, ◌≡◌, ◌≢◌, refl, false, List, [], ◌∷◌, ◌++◌, Bytes, length, Lacks, All,
  All-append, All-weaken, arith, ap, ◌∙◌, sym, append_assoc, append-nil, length-append, bytes_order,
}
use sunet.Http.{Request, ok, fault, overrun}
use sunet.Http.CString.{assign_part}
use sunet.Http.Desc.{in_method, in_url, ended, desc_loop, at_space, parse_desc}
use sunet.Http.Scan.{cursor, loop_word, loop_space}
use sunet.Http.Headers.{
  scan_to, at_blank_line, read_header, header_loop, parse_headers, after_desc, parse,
}
use sunet.Http.HeaderLines.{IsHeader, IsHeaderKey, header_lines, lines-Lacks, lines_count}
use sunet.Http.HeaderLoop.{header_loop_lines}
use sunet.Http.RequestLine.{line_text, IsLineByte, IsUpper, upper_nonzero}
use sunet.Http.Version.{IsUrlByte, parse_desc-line_text}
use sunet.Http.Whole.{drop_line}

-- Bytes of the memory behind the text that do not end a part of the line.
abbrev pub IsUrlMemory : ℕ → Type 0
IsUrlMemory c = (c ≢ b' ') × (c ≢ b'\r')

url_overrun :
    (buf w : Bytes) (i len : ℕ) (r : Request)
    → All IsUrlMemory w
    → desc_loop buf w (cursor i in_url len r) ≡ fault overrun
unfolding desc_loop
url_overrun buf w i len r h =
    ap (λ (s : Bytes). desc_loop buf s (cursor i in_url len r)) (sym (append-nil w))
    ∙ loop_word buf w [] i in_url len r h

-- A request that is cut in its url, where no space and no carriage return stands in the memory behind it:
-- `_parse` reads behind the allocation.
pub parse_cut_url :
    (m u mem : Bytes) (r : Request)
    → All IsUpper m
    → All IsLineByte u
    → All IsUrlMemory mem
    → parse ((m ++ b' ' ∷ u) ++ 0 ∷ mem) r ≡ fault overrun
unfolding parse parse_desc at_space
parse_cut_url m u mem r hm hu hmem =
    let buffer = (m ++ b' ' ∷ u) ++ 0 ∷ mem in
    let text : Lacks 0 ([] ++ (m ++ b' ' ∷ u)) =
      All-append _ m _ (All-weaken _ _ upper_nonzero m hm)
        (omega arith, All-weaken _ _ (λ c h. h.2) u hu) in
    let behind : All IsUrlMemory (u ++ 0 ∷ mem) =
      All-append _ u _ (All-weaken _ _ (λ c h. (h.0, h.1)) u hu)
        ((omega arith, omega arith), hmem) in
    let start : at_space buffer (cursor (0 + length m) in_method (0 + length m) r) in_method
        ≡ ok (ended (cursor (0 + length m + 1) in_url 0 (record r { method = m }))) =
      rw (at_space, assign_part [] m (b' ' ∷ u) mem 0 (0 + length m) text refl (omega arith))
        refl in
    let run : desc_loop buffer buffer (cursor 0 in_method 0 r) ≡ fault overrun =
      ap (λ (s : Bytes). desc_loop buffer s (cursor 0 in_method 0 r))
        (append_assoc m (b' ' ∷ u) (0 ∷ mem))
      ∙ loop_word buffer m (b' ' ∷ (u ++ 0 ∷ mem)) 0 in_method 0 r hm
      ∙ loop_space buffer (u ++ 0 ∷ mem) (0 + length m) in_method (0 + length m) r _ start
      ∙ url_overrun buffer (u ++ 0 ∷ mem) (0 + length m + 1) 0 (record r { method = m }) behind in
    rw (parse, parse_desc, run) refl

scan_to_overrun :
    (stop : ℕ) (s : Bytes) (i len : ℕ) → Lacks stop s → scan_to stop s i len ≡ fault overrun
unfolding scan_to
scan_to_overrun stop [] i len h = refl
scan_to_overrun stop (c ∷ s) i len h = ground (arith, scan_to_overrun stop s (i + 1) (len + 1) h.1)

unended : (k mem : Bytes) → IsHeaderKey k → at_blank_line (k ++ 0 ∷ mem) ≡ ok false
unfolding at_blank_line
unended [] mem h = refl
unended (c ∷ k) mem h = ground arith

header_loop_overrun :
    (fuel : ℕ) (buf k mem : Bytes) (i : ℕ) (r : Request)
    → IsHeaderKey k
    → Lacks b':' mem
    → header_loop (suc fuel) buf (k ++ 0 ∷ mem) i r ≡ fault overrun
unfolding header_loop read_header
header_loop_overrun fuel buf k mem i r h hmem =
    let none_left : Lacks b':' (k ++ 0 ∷ mem) =
      All-append _ k _ (All-weaken _ _ (λ c g. g.0) k h) (omega arith, hmem) in
    rw
      (header_loop, unended k mem h, read_header, scan_to_overrun b':' (k ++ 0 ∷ mem) i 0 none_left)
      refl

parse_headers_overrun :
    (hs : List (Bytes × Bytes)) (k mem : Bytes) (r : Request)
    → All IsHeader hs
    → IsHeaderKey k
    → Lacks b':' mem
    → parse_headers ((header_lines hs ++ k) ++ 0 ∷ mem) r ≡ fault overrun
unfolding parse_headers
parse_headers_overrun hs k mem r hh hk hmem =
    let text = header_lines hs ++ k in
    let left = length (text ++ 0 ∷ mem) - length hs in
    let enough : suc (length (text ++ 0 ∷ mem)) ≡ length hs + suc left =
      omega
        (arith, lines_count hs, length-append text (0 ∷ mem), length-append (header_lines hs) k) in
    ap (λ (n : ℕ). header_loop n (text ++ 0 ∷ mem) (text ++ 0 ∷ mem) 0 r) enough
    ∙ header_loop_lines (text ++ 0 ∷ mem) k mem hs (suc left) [] r
        (All-weaken _ _ (λ c g. g.2) k hk) tt hh refl
    ∙ header_loop_overrun left (text ++ 0 ∷ mem) k mem (0 + length (header_lines hs))
        (record r { headers = put_all hs r.headers }) hk hmem

-- A request that is cut before its blank line, behind whole headers or in the key `k` of the next one, where no
-- colon stands in the memory behind it: `_parse` reads behind the allocation. The request line and the
-- headers are well-formed, without a query.
pub parse_cut_headers :
    (m u v k mem : Bytes) (hs : List (Bytes × Bytes)) (r : Request)
    → All IsUpper m
    → All IsUrlByte u
    → All IsLineByte v
    → v ≢ []
    → u ≢ []
    → All IsHeader hs
    → IsHeaderKey k
    → Lacks b':' mem
    → parse (line_text m u v (b'\n' ∷ (header_lines hs ++ k)) ++ 0 ∷ mem) r ≡ fault overrun
unfolding parse after_desc
parse_cut_headers m u v k mem hs r hm hu hv full some_url hh hk hmem =
    rw
      (
        parse,
        parse_desc-line_text m u v (b'\n' ∷ (header_lines hs ++ k)) mem hm hu hv
            (omega arith, lines-Lacks hs k hh (All-weaken _ _ (λ c g. g.2) k hk)) full r some_url,
        after_desc,
        drop_line m u v (header_lines hs ++ k) mem,
        parse_headers_overrun hs k mem (record r { method = m; url = u; version = v }) hh hk hmem,
      )
      refl
