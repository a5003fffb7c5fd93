-- ===== src/Http/HeaderLines.antt =====
-- Well-formed header lines, and one round of `_parse_headers` on them.
use sunet.Base.{
  put_all, ℕ, suc, ◌+◌, ◌≤◌, ◌≡◌, ◌≢◌, refl, false, List, [], ◌∷◌, ◌++◌, Bytes, length, Lacks, All,
  All-append, All-weaken, arith, put, bytes_order, append_assoc, length-append,
}
use sunet.Http.{ok, Request, Params, assign}
use sunet.Http.Headers.{scan_to, skip_spaces, at_blank_line, read_header, header_loop}

-- A key holds no colon, no carriage return and no zero.
abbrev pub IsHeaderKey : Bytes → Type 0
IsHeaderKey = All (λ c. (c ≢ b':') × (c ≢ b'\r') × (c ≢ 0))

-- A value begins with no space, and holds no carriage return and no zero.
abbrev pub Unspaced : Bytes → Type 0
Unspaced [] = Unit
Unspaced (c ∷ v) = c ≢ b' '

abbrev pub IsHeaderValue : Bytes → Type 0
IsHeaderValue v = Unspaced v × All (λ c. (c ≢ b'\r') × (c ≢ 0)) v

abbrev pub IsHeader : Bytes × Bytes → Type 0
IsHeader h = IsHeaderKey h.0 × IsHeaderValue h.1

-- The lines `key: value`, each behind the other.
unfoldable pub header_lines : List (Bytes × Bytes) → Bytes
header_lines [] = []
header_lines (h ∷ hs) = h.0 ++ b':' ∷ b' ' ∷ (h.1 ++ b'\r' ∷ b'\n' ∷ header_lines hs)

scan_to_word :
    (stop : ℕ) (w rest : Bytes) (i len : ℕ)
    → Lacks stop w
    → scan_to stop (w ++ stop ∷ rest) i len
      ≡ ok (record { rest = stop ∷ rest; at = i + length w; parse_len = len + length w })
unfolding scan_to
scan_to_word stop [] rest i len h = ground arith
scan_to_word stop (c ∷ w) rest i len h =
    ground (arith, scan_to_word stop w rest (i + 1) (len + 1) h.1)

-- One space is skipped before a value.
skip_one :
    (v rest : Bytes) (i len : ℕ)
    → Unspaced v
    → skip_spaces (b' ' ∷ (v ++ b'\r' ∷ rest)) i len
      ≡ ok (record { rest = v ++ b'\r' ∷ rest; at = i + 1; parse_len = len })
unfolding skip_spaces
skip_one [] rest i len h = refl
skip_one (c ∷ v) rest i len h = ground arith

read_header_lem :
    (buf k v rest : Bytes) (i : ℕ) (r : Request)
    → IsHeader (k, v)
    → assign buf i (length k) ≡ ok k
    → assign buf (i + length k + 2) (length v) ≡ ok v
    → read_header buf (k ++ b':' ∷ b' ' ∷ (v ++ b'\r' ∷ b'\n' ∷ rest)) i r
      ≡ ok (
        record { rest = rest; at = i + length k + length v + 4; parse_len = 0 },
        record r { headers = put k v r.headers },
      )
unfolding read_header
read_header_lem buf k v rest i r h hk hv = ground (
  arith,
  scan_to_word b':' k (b' ' ∷ (v ++ b'\r' ∷ b'\n' ∷ rest)) i 0 (All-weaken _ _ (λ c h. h.0) k h.0),
  skip_one v (b'\n' ∷ rest) (i + length k + 1) 0 h.1.0,
  scan_to_word b'\r' v (b'\n' ∷ rest) (i + length k + 2) 0 (All-weaken _ _ (λ c h. h.0) v h.1.1),
  hk,
  hv,
)

not_blank : (k rest : Bytes) → IsHeaderKey k → at_blank_line (k ++ b':' ∷ rest) ≡ ok false
unfolding at_blank_line
not_blank [] rest h = refl
not_blank (c ∷ k) rest h = ground arith

abbrev pub blank : Bytes → Bytes
blank t = b'\r' ∷ b'\n' ∷ t

pub lines_cons :
    (x : Bytes × Bytes) (hs : List (Bytes × Bytes)) (rest : Bytes)
    → header_lines (x ∷ hs) ++ rest
      ≡ x.0 ++ b':' ∷ b' ' ∷ (x.1 ++ b'\r' ∷ b'\n' ∷ (header_lines hs ++ rest))
unfolding header_lines
lines_cons x hs rest = rw (append_assoc x.0, append_assoc x.1)

-- One line, and the lines behind it.
unfoldable pub one_line : Bytes × Bytes → Bytes
one_line x = x.0 ++ b':' ∷ b' ' ∷ (x.1 ++ b'\r' ∷ b'\n' ∷ [])

pub header_lines_cons :
    (x : Bytes × Bytes) (hs : List (Bytes × Bytes))
    → header_lines (x ∷ hs) ≡ one_line x ++ header_lines hs
unfolding header_lines one_line
header_lines_cons x hs = rw (append_assoc x.0, append_assoc x.1)

pub length-one_line : (x : Bytes × Bytes) → length (one_line x) ≡ length x.0 + length x.1 + 4
unfolding one_line
length-one_line x = omega (
  arith,
  length-append x.0 (b':' ∷ b' ' ∷ (x.1 ++ b'\r' ∷ b'\n' ∷ [])),
  length-append x.1 (b'\r' ∷ b'\n' ∷ []),
)

pub one_line-Lacks : (x : Bytes × Bytes) → IsHeader x → Lacks 0 (one_line x)
unfolding one_line
one_line-Lacks x h = All-append _ x.0 _ (All-weaken _ _ (λ c k. k.2) x.0 h.0) (
  omega arith,
  (omega arith, All-append _ x.1 _ (All-weaken _ _ (λ c k. k.1) x.1 h.1.1) (omega arith)),
)

header_lines-Lacks : (hs : List (Bytes × Bytes)) → All IsHeader hs → Lacks 0 (header_lines hs)
header_lines-Lacks [] h = unfold header_lines in tt
header_lines-Lacks (x ∷ hs) h =
    rw (header_lines_cons x hs)
      (All-append _ (one_line x) _ (one_line-Lacks x h.0) (header_lines-Lacks hs h.1))

pub lines-Lacks :
    (hs : List (Bytes × Bytes)) (rest : Bytes)
    → All IsHeader hs
    → Lacks 0 rest
    → Lacks 0 (header_lines hs ++ rest)
lines-Lacks hs rest h ht = All-append _ (header_lines hs) _ (header_lines-Lacks hs h) ht

pub lines_end-Lacks :
    (hs : List (Bytes × Bytes)) (t : Bytes)
    → All IsHeader hs
    → Lacks 0 t
    → Lacks 0 (header_lines hs ++ blank t)
lines_end-Lacks hs t h ht = lines-Lacks hs (blank t) h (omega arith, (omega arith, ht))

pub line_append :
    (k v y z : Bytes) → (k ++ b':' ∷ b' ' ∷ (v ++ y)) ++ z ≡ k ++ b':' ∷ b' ' ∷ (v ++ (y ++ z))
line_append k v y z = rw (append_assoc k, append_assoc v)

length-line :
    (k v y : Bytes) → length (k ++ b':' ∷ b' ' ∷ (v ++ y)) ≡ length k + length v + length y + 2
length-line k v y = omega (arith, length-append k (b':' ∷ b' ' ∷ (v ++ y)), length-append v y)

pub header_step :
    (fuel : ℕ) (buf k v rest : Bytes) (i : ℕ) (r : Request)
    → IsHeader (k, v)
    → assign buf i (length k) ≡ ok k
    → assign buf (i + length k + 2) (length v) ≡ ok v
    → header_loop (suc fuel) buf (k ++ b':' ∷ b' ' ∷ (v ++ b'\r' ∷ b'\n' ∷ rest)) i r
      ≡ header_loop fuel buf rest
          (i + length k + length v + 4)
          (record r { headers = put k v r.headers })
unfolding header_loop
header_step fuel buf k v rest i r h hk hv =
    rw (not_blank k _ h.0, read_header_lem buf k v rest i r h hk hv)

pub done_count :
    (before : Bytes) (x : Bytes × Bytes) (hs : List (Bytes × Bytes))
    → length (before ++ one_line x) + length (header_lines hs) + 2
      ≡ length before + length (header_lines (x ∷ hs)) + 2
done_count before x hs =
    rw (header_lines_cons x hs) (
      omega
        (arith, length-append before (one_line x), length-append (one_line x) (header_lines hs)))

pub put_all_cons :
    (x : Bytes × Bytes) (hs : List (Bytes × Bytes)) (m : Params)
    → put_all hs (put x.0 x.1 m) ≡ put_all (x ∷ hs) m
unfolding put_all
put_all_cons x hs m = refl

pub lines_count : (hs : List (Bytes × Bytes)) → length hs ≤ length (header_lines hs)
lines_count [] = omega arith
lines_count (x ∷ hs) =
    rw (header_lines_cons x hs) (
      omega
        (arith, lines_count hs, length-append (one_line x) (header_lines hs), length-one_line x))
