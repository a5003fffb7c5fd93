-- ===== src/Http/HeaderLoop.antt =====
-- What `_parse_headers` makes of well-formed header lines.
use sunet.Base.{
  put_all, ℕ, suc, ◌+◌, ◌-◌, ◌≡◌, refl, List, [], ◌∷◌, ◌++◌, Bytes, length, Lacks, All, All-append,
  arith, ap, ◌∙◌, put, bytes_order, sym, append_assoc, length-append,
}
use sunet.Http.{ok, Request, Params, assign}
use sunet.Http.CString.{assign_part}
use sunet.Http.Headers.{header_loop, parse_headers, at_blank_line}
use sunet.Http.HeaderLines.{
  IsHeader, header_lines, blank, lines_cons, one_line, header_lines_cons, length-one_line,
  one_line-Lacks, lines-Lacks, line_append, header_step, done_count, put_all_cons, lines_count,
}

module _ (buf before k v after mem : Bytes)
    (e : buf ≡ (before ++ (k ++ b':' ∷ b' ' ∷ (v ++ after))) ++ 0 ∷ mem)
    (hz : Lacks 0 (before ++ (k ++ b':' ∷ b' ' ∷ (v ++ after)))) where
  assign_key : assign buf (length before) (length k) ≡ ok k
  assign_key = rw e (assign_part before k (b':' ∷ b' ' ∷ (v ++ after)) mem _ _ hz refl refl)

  assign_value : assign buf (length before + length k + 2) (length v) ≡ ok v
  assign_value =
      let front = before ++ (k ++ b':' ∷ b' ' ∷ []) in
      let spell : before ++ (k ++ b':' ∷ b' ' ∷ (v ++ after)) ≡ front ++ (v ++ after) =
        ap (λ (s : Bytes). before ++ s) (sym (append_assoc k (b':' ∷ b' ' ∷ []) (v ++ after)))
        ∙ sym (append_assoc before (k ++ b':' ∷ b' ' ∷ []) (v ++ after)) in
      rw (e, spell)
        (assign_part front v after mem (length before + length k + 2) (length v) (rw spell at hz)
          (omega (
            arith,
            length-append before (k ++ b':' ∷ b' ' ∷ []),
            length-append k (b':' ∷ b' ' ∷ []),
          ))
          refl)

-- The rounds of the loop over the lines of `hs`, from a place where the text before it is `before`.
pub header_loop_lines :
    (buf rest mem : Bytes) (hs : List (Bytes × Bytes)) (fuel : ℕ) (before : Bytes) (r : Request)
    → Lacks 0 rest
    → Lacks 0 before
    → All IsHeader hs
    → buf ≡ (before ++ (header_lines hs ++ rest)) ++ 0 ∷ mem
    → header_loop (length hs + fuel) buf ((header_lines hs ++ rest) ++ 0 ∷ mem) (length before) r
      ≡ header_loop fuel buf
          (rest ++ 0 ∷ mem)
          (length before + length (header_lines hs))
          (record r { headers = put_all hs r.headers })
header_loop_lines buf rest mem [] fuel before r ht hb h e =
    unfold header_lines put_all in
    ap (λ (n : ℕ). header_loop n buf (rest ++ 0 ∷ mem) (length before) r) (omega arith)
    ∙ ap (λ (n : ℕ). header_loop fuel buf (rest ++ 0 ∷ mem) n r) (omega arith)
header_loop_lines buf rest mem (x ∷ hs) fuel before r ht hb h e =
    let k = x.0 in
    let v = x.1 in
    let after = b'\r' ∷ b'\n' ∷ (header_lines hs ++ rest) in
    let spell : header_lines (x ∷ hs) ++ rest ≡ k ++ b':' ∷ b' ' ∷ (v ++ after) =
      lines_cons x hs rest in
    let e' : buf ≡ (before ++ (k ++ b':' ∷ b' ' ∷ (v ++ after))) ++ 0 ∷ mem = rw spell at e in
    let z : Lacks 0 (before ++ (k ++ b':' ∷ b' ' ∷ (v ++ after))) =
      rw spell at (All-append _ before _ hb (lines-Lacks (x ∷ hs) rest h ht)) in
    let whole : before ++ (header_lines (x ∷ hs) ++ rest)
        ≡ (before ++ one_line x) ++ (header_lines hs ++ rest) =
      rw (header_lines_cons x hs, append_assoc (one_line x), append_assoc before) in
    let count : length (before ++ one_line x) + length (header_lines hs)
        ≡ length before + length (header_lines (x ∷ hs)) =
      omega (arith, done_count before x hs) in
    ap (λ (n : ℕ). header_loop n buf ((header_lines (x ∷ hs) ++ rest) ++ 0 ∷ mem) (length before) r)
      (omega arith)
    ∙ ap (λ (s : Bytes). header_loop (suc (length hs + fuel)) buf (s ++ 0 ∷ mem) (length before) r)
        spell
    ∙ ap (λ (s : Bytes). header_loop (suc (length hs + fuel)) buf s (length before) r)
        (line_append k v after (0 ∷ mem))
    ∙ header_step (length hs + fuel) buf k v _ (length before) r h.0
        (assign_key buf before k v after mem e' z) (assign_value buf before k v after mem e' z)
    ∙ ap
        (λ (n : ℕ).
          header_loop (length hs + fuel) buf ((header_lines hs ++ rest) ++ 0 ∷ mem) n
            (record r { headers = put k v r.headers }))
        (omega (arith, length-append before (one_line x), length-one_line x))
    ∙ header_loop_lines buf rest mem hs fuel (before ++ one_line x)
        (record r { headers = put k v r.headers }) ht
        (All-append _ before _ hb (one_line-Lacks x h.0)) h.1 (rw whole at e)
    ∙ ap
        (λ (n : ℕ).
          header_loop fuel buf (rest ++ 0 ∷ mem) n
            (record r { headers = put_all hs (put k v r.headers) }))
        count
    ∙ ap
        (λ (m : Params).
          header_loop fuel buf (rest ++ 0 ∷ mem) (length before + length (header_lines (x ∷ hs)))
            (record r { headers = m }))
        (put_all_cons x hs r.headers)

header_loop-blank :
    (fuel : ℕ) (buf t : Bytes) (i : ℕ) (r : Request)
    → header_loop (suc fuel) buf (blank t) i r ≡ ok (i + 2, r)
unfolding header_loop at_blank_line
header_loop-blank fuel buf t i r = refl

-- Of well-formed header lines and a text without zeros behind the blank line, every header is
-- stored under its key, in order, up to the blank line; the count is of the bytes
-- up to it.
pub parse_headers-header_lines :
    (hs : List (Bytes × Bytes)) (t mem : Bytes) (r : Request)
    → Lacks 0 t
    → All IsHeader hs
    → parse_headers ((header_lines hs ++ blank t) ++ 0 ∷ mem) r
      ≡ ok (length (header_lines hs) + 2, record r { headers = put_all hs r.headers })
unfolding parse_headers
parse_headers-header_lines hs t mem r ht h =
    let text = header_lines hs ++ blank t in
    let enough : suc (length (text ++ 0 ∷ mem))
        ≡ length hs + suc (length (text ++ 0 ∷ mem) - length hs) =
      omega (
        arith,
        lines_count hs,
        length-append text (0 ∷ mem),
        length-append (header_lines hs) (blank t),
      ) in
    ap (λ (n : ℕ). header_loop n (text ++ 0 ∷ mem) (text ++ 0 ∷ mem) 0 r) enough
    ∙ header_loop_lines (text ++ 0 ∷ mem) (blank t) mem hs
        (suc (length (text ++ 0 ∷ mem) - length hs)) [] r (omega arith, (omega arith, ht)) tt h refl
    ∙ header_loop-blank _ (text ++ 0 ∷ mem) (t ++ 0 ∷ mem) (0 + length (header_lines hs))
        (record r { headers = put_all hs r.headers })
    ∙ ap (λ (n : ℕ). ok (n, record r { headers = put_all hs r.headers })) (omega arith)
