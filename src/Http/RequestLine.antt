-- ===== src/Http/RequestLine.antt =====
-- What `_parse_desc` makes of a well-formed request line.
use sunet.Base.{
  ℕ, ◌+◌, ◌≤◌, ◌≡◌, ◌≢◌, refl, true, false, List, [], ◌∷◌, ◌++◌, ◌==◌, Bytes, codes, length, take,
  drop, Lacks, All, All-append, All-weaken, arith, ap, ◌∙◌, bytes_order, sym, append_assoc,
  length-append, drop-append,
}
use sunet.Util.{split}
use sunet.Http.{ok, Request, assign}
use sunet.Http.CString.{assign_part, assign_text}
use sunet.Http.Desc.{
  in_method, in_url, in_version, ended, parsed, desc_loop, at_space, is_upper, set_url, set_version,
  desc_end, after_scan, parse_desc,
}
use sunet.Http.Scan.{cursor, loop_word, loop_space, loop_end}

-- `method url version`, the carriage return and what follows it, the zero, and the memory behind.
abbrev pub line_text : Bytes → Bytes → Bytes → Bytes → Bytes
line_text m u v t = m ++ b' ' ∷ (u ++ b' ' ∷ (v ++ b'\r' ∷ t))

-- A byte of the url or the version: no space, no carriage return, no zero.
abbrev pub IsLineByte : ℕ → Type 0
IsLineByte c = (c ≢ b' ') × (c ≢ b'\r') × (c ≢ 0)

abbrev pub IsUpper : ℕ → Type 0
IsUpper c = is_upper c ≡ true

pub upper_nonzero : (c : ℕ) → IsUpper c → c ≢ 0
unfolding is_upper
upper_nonzero c h = ground arith

as_word : (c : ℕ) → IsLineByte c → (c ≢ b' ') × (c ≢ b'\r')
as_word c h = (h.0, h.1)

length-pos : (v : Bytes) → v ≢ [] → (length v == 0) ≡ false
length-pos [] h = absurd (h refl)
length-pos (c ∷ v) h = ground arith

module _ (m u v t mem : Bytes) (hm : All IsUpper m) (hu : All IsLineByte u) (hv : All IsLineByte v)
    (ht : Lacks 0 t) where
  abbrev buffer : Bytes
  buffer = line_text m u v t ++ 0 ∷ mem

  text-Lacks : Lacks 0 (line_text m u v t)
  text-Lacks = All-append _ m _ (All-weaken _ _ upper_nonzero m hm) (
    omega arith,
    All-append _ u _ (All-weaken _ _ (λ c h. h.2) u hu)
        (omega arith, All-append _ v _ (All-weaken _ _ (λ c h. h.2) v hv) (omega arith, ht)),
  )

  at_method :
      (r : Request) (i n : ℕ)
      → n ≡ length m
      → at_space buffer (cursor i in_method n r) in_method
        ≡ ok (ended (cursor (i + 1) in_url 0 (record r { method = m })))
  unfolding at_space
  at_method r i n h =
      rw (assign_part [] m (b' ' ∷ (u ++ b' ' ∷ (v ++ b'\r' ∷ t))) mem 0 n text-Lacks refl h)

  url_text : (m ++ b' ' ∷ []) ++ (u ++ b' ' ∷ (v ++ b'\r' ∷ t)) ≡ line_text m u v t
  url_text = append_assoc m (b' ' ∷ []) _

  url_part : (n : ℕ) → n ≡ length u → assign buffer (length m + 1) n ≡ ok u
  url_part n h =
      ap (λ (s : Bytes). assign (s ++ 0 ∷ mem) (length m + 1) n) (sym url_text)
      ∙ assign_part (m ++ b' ' ∷ []) u (b' ' ∷ (v ++ b'\r' ∷ t)) mem (length m + 1) n
          (rw url_text text-Lacks) (omega (arith, length-append m (b' ' ∷ []))) h

  at_url :
      (r r' : Request) (i n : ℕ) (url : Bytes) (rest : List Bytes)
      → n ≡ length u
      → r.method ≡ m
      → split u (codes "?") ≡ url ∷ rest
      → set_url (url ∷ rest) r ≡ ok r'
      → at_space buffer (cursor i in_url n r) in_url ≡ ok (ended (cursor (i + 1) in_version 0 r'))
  unfolding at_space
  at_url r r' i n url rest h e cut set =
      ground (
        arith,
        url_part n h,
        ap (λ (x : ℕ). assign buffer x n) (ap (λ (y : Bytes). length y + 1) e),
      )

  -- The loop from the start to the carriage return, for the rest of any memory.
  loop_line :
      (r r' : Request) (url : Bytes) (rest : List Bytes)
      → split u (codes "?") ≡ url ∷ rest
      → set_url (url ∷ rest) (record r { method = m }) ≡ ok r'
      → desc_loop buffer buffer (cursor 0 in_method 0 r)
        ≡ ok (
            ended
              (cursor (0 + length m + 1 + length u + 1 + length v) in_version (0 + length v) r'))
  loop_line r r' url rest cut set =
      ap (λ (s : Bytes). desc_loop buffer s (cursor 0 in_method 0 r)) (append_assoc m _ _)
      ∙ loop_word buffer m _ 0 in_method 0 r hm
      ∙ loop_space buffer _ _ in_method _ r _
          (at_method r (0 + length m) (0 + length m) (omega arith))
      ∙ ap
          (λ (s : Bytes).
            desc_loop buffer s (cursor (0 + length m + 1) in_url 0 (record r { method = m })))
          (append_assoc u _ _)
      ∙ loop_word buffer u _ (0 + length m + 1) in_url 0 _ (All-weaken _ _ as_word u hu)
      ∙ loop_space buffer _ _ in_url _ _ _ (
          at_url (record r { method = m }) r' (0 + length m + 1 + length u) (0 + length u) url rest
            (omega arith) refl cut set)
      ∙ ap
          (λ (s : Bytes).
            desc_loop buffer s (cursor (0 + length m + 1 + length u + 1) in_version 0 r'))
          (append_assoc v _ _)
      ∙ loop_word buffer v _ (0 + length m + 1 + length u + 1) in_version 0 r'
          (All-weaken _ _ as_word v hv)
      ∙ loop_end buffer _ _

  -- The whole line; the version is cut from the buffer behind `method` and `url`.
  parse_desc_line :
      (r r' : Request) (url : Bytes) (rest : List Bytes)
      → split u (codes "?") ≡ url ∷ rest
      → set_url (url ∷ rest) (record r { method = m }) ≡ ok r'
      → parse_desc buffer r ≡ set_version buffer (length m + length u + length v + 2) (length v) r'
  unfolding parse_desc after_scan desc_end
  parse_desc_line r r' url rest cut set = rw (loop_line r r' url rest cut set) (
      ap (λ (n : ℕ). set_version buffer n (0 + length v) r') (omega arith)
      ∙ ap (λ (n : ℕ). set_version buffer (length m + length u + length v + 2) n r') (omega arith))

  -- The version when `at` bytes stand before it, by the length of the stored method and url.
  version_at :
      (r : Request) (n at : ℕ)
      → v ≢ []
      → at ≡ length r.method + length r.url + 2
      → at ≤ length (line_text m u v t)
      → set_version buffer n (length v) r
        ≡ ok (parsed (n + 2) (record r { version = take (length v) (drop at (line_text m u v t)) }))
  unfolding set_version
  version_at r n at full e fits =
      let size : (length v == 0) ≡ false = length-pos v full in
      rw (size, ← e, assign_text (line_text m u v t) mem at (length v) text-Lacks fits)

  -- The line up to its end, with the version that is cut from the text.
  pub parse_desc_at :
      (r r' : Request) (at : ℕ) (url : Bytes) (rest : List Bytes)
      → v ≢ []
      → split u (codes "?") ≡ url ∷ rest
      → set_url (url ∷ rest) (record r { method = m }) ≡ ok r'
      → at ≡ length r'.method + length r'.url + 2
      → at ≤ length (line_text m u v t)
      → parse_desc (line_text m u v t ++ 0 ∷ mem) r
        ≡ ok (
            parsed
              (length m + length u + length v + 4)
              (record r' { version = take (length v) (drop at (line_text m u v t)) }))
  parse_desc_at r r' at url rest full cut set e fits =
      parse_desc_line r r' url rest cut set
      ∙ version_at r' _ at full e fits
      ∙ ap
          (λ (n : ℕ).
            ok (parsed n (record r' { version = take (length v) (drop at (line_text m u v t)) })))
          (omega arith)

-- What stands behind the second separator.
pub drop_two :
    (m u rest : Bytes) (a b n : ℕ)
    → n ≡ length m + length u + 2
    → drop n (m ++ a ∷ (u ++ b ∷ rest)) ≡ rest
drop_two m u rest a b n h =
    let front = m ++ a ∷ (u ++ b ∷ []) in
    let spell : m ++ a ∷ (u ++ b ∷ rest) ≡ front ++ rest =
      ap (λ (s : Bytes). m ++ a ∷ s) (sym (append_assoc u (b ∷ []) rest))
      ∙ sym (append_assoc m (a ∷ (u ++ b ∷ [])) rest) in
    let size : n ≡ length front =
      omega (arith, length-append m (a ∷ (u ++ b ∷ [])), length-append u (b ∷ [])) in
    rw (size, spell) (drop-append front rest)
