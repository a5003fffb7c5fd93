-- ===== src/Http/Codec.antt =====
-- http/http_parse.cpp: `dec2hexChar`, `hexChar2dec`, `encode` and `decode`.
use sunet.Base.{
  ℕ, ◌+◌, ◌-◌, ◌*◌, ◌/◌, ◌%◌, ◌<◌, ◌≡◌, refl, Bool, true, false, not, ◌&&◌, ◌||◌, [], ◌∷◌, ◌++◌,
  leb, ◌==◌, if◌then◌else◌, Bytes, AreBytes, arith, append_assoc, append-nil, All, All-append,
  Bool-cases, inl, inr,
}
use sunet.Base.Int.{ℤ, pos, negsuc, pos_part, ◌+ℤ◌, ◌*ℤ◌, ltb_ℤ}
use sunet.Util.{schar}
use sunet.Http.{Result, ok, fault, overrun}

-- `char(n)` of an `int`: the byte that it is modulo 256.
unfoldable pub to_char : ℤ → ℕ
to_char (pos n) = n % 256
to_char (negsuc n) = 255 - n % 256

unfoldable pub dec2hex_char : ℕ → ℕ
dec2hex_char n =
    if leb 0 n && leb n 9 then b'0' + n else if leb 10 n && leb n 15 then b'A' + n - 10 else 0

unfoldable pub hex_char2dec : ℕ → ℤ
hex_char2dec c =
    if leb b'0' c && leb c b'9'
    then pos (c - b'0')
    else if leb b'a' c && leb c b'f'
    then pos (c - b'a' + 10)
    else if leb b'A' c && leb c b'F'
    then pos (c - b'A' + 10)
    else negsuc 0

unfoldable pub is_plain : ℕ → Bool
is_plain c =
    (leb b'0' c && leb c b'9')
    || (leb b'a' c && leb c b'z')
    || (leb b'A' c && leb c b'Z')
    || c == b'/'
    || c == b'.'

-- `int j = (short int)c; if (j < 0) j += 256;`
unfoldable pub unsigned_value : ℕ → ℕ
unsigned_value c = pos_part (if ltb_ℤ (schar c) (pos 0) then schar c +ℤ pos 256 else schar c)

-- What one round of `encode` appends.
unfoldable pub encode_byte : ℕ → Bytes
encode_byte c =
    let j = unsigned_value c in
    let i1 = j / 16 in
    let i0 = j - i1 * 16 in
    if is_plain c then c ∷ [] else b'%' ∷ dec2hex_char i1 ∷ dec2hex_char i0 ∷ []

unfoldable pub encode_loop : Bytes → Bytes → Bytes
encode_loop [] result = result
encode_loop (c ∷ url) result = encode_loop url (result ++ encode_byte c)

unfoldable pub encode : Bytes → Bytes
encode url = encode_loop url []

unfoldable pub hex_pair : ℕ → ℕ → ℕ
hex_pair c1 c0 = to_char (hex_char2dec c1 *ℤ pos 16 +ℤ hex_char2dec c0)

-- `URL[size]` is the terminating zero, and a read behind it is outside the text.
unfoldable pub decode_loop : Bytes → Bytes → Result Bytes
decode_loop [] result = ok result
decode_loop (c ∷ []) result = if not (c == b'%') then ok (result ++ c ∷ []) else fault overrun
decode_loop (c ∷ c1 ∷ []) result = elim (not (c == b'%')) [
  | true ↦ decode_loop (c1 ∷ []) (result ++ c ∷ [])
  | false ↦ ok (result ++ hex_pair c1 0 ∷ [])
]
decode_loop (c ∷ c1 ∷ c0 ∷ url) result = elim (not (c == b'%')) [
  | true ↦ decode_loop (c1 ∷ c0 ∷ url) (result ++ c ∷ [])
  | false ↦ decode_loop url (result ++ hex_pair c1 c0 ∷ [])
]

unfoldable pub decode : Bytes → Result Bytes
decode url = decode_loop url []

encode_loop-append : (s out : Bytes) → encode_loop s out ≡ out ++ encode_loop s []
unfolding encode_loop
encode_loop-append [] out = rw append-nil
encode_loop-append (c ∷ s) out = rw (
  encode_loop-append s (out ++ encode_byte c),
  encode_loop-append s (encode_byte c),
  append_assoc,
)

unsigned_value-byte : (c : ℕ) → c < 256 → unsigned_value c ≡ c
unfolding unsigned_value ◌+ℤ◌
unsigned_value-byte c h = ground arith

hex_digits : (n : ℕ) → n < 16 → hex_char2dec (dec2hex_char n) ≡ pos n
unfolding hex_char2dec dec2hex_char
hex_digits n h = ground arith

hex_pair-byte :
    (c : ℕ) → c < 256 → hex_pair (dec2hex_char (c / 16)) (dec2hex_char (c - c / 16 * 16)) ≡ c
unfolding hex_pair to_char ◌+ℤ◌ ◌*ℤ◌
hex_pair-byte c h =
    rw (hex_digits (c / 16) (omega arith), hex_digits (c - c / 16 * 16) (omega arith))
      (ground arith)

plain-ne-percent : (c : ℕ) → is_plain c ≡ true → not (c == b'%') ≡ true
unfolding is_plain
plain-ne-percent c h = ground arith

decode_plain :
    (c : ℕ) (url out : Bytes)
    → not (c == b'%') ≡ true
    → decode_loop (c ∷ url) out ≡ decode_loop url (out ++ c ∷ [])
unfolding decode_loop
decode_plain c [] out h = ground arith
decode_plain c (c1 ∷ []) out h = ground arith
decode_plain c (c1 ∷ c0 ∷ url) out h = ground arith

decode_escape :
    (c1 c0 : ℕ) (url out : Bytes)
    → decode_loop (b'%' ∷ c1 ∷ c0 ∷ url) out ≡ decode_loop url (out ++ hex_pair c1 c0 ∷ [])
unfolding decode_loop
decode_escape c1 c0 url out = refl

decode_byte :
    (c : ℕ) (rest out : Bytes)
    → c < 256
    → decode_loop (encode_byte c ++ rest) out ≡ decode_loop rest (out ++ c ∷ [])
unfolding encode_byte
decode_byte c rest out h = elim (Bool-cases (is_plain c)) [
  | inl e ↦ rw e (decode_plain c rest out (plain-ne-percent c e))
  | inr e ↦
      rw (e, unsigned_value-byte c h)
        (rw (
          decode_escape (dec2hex_char (c / 16)) (dec2hex_char (c - c / 16 * 16)) rest out,
          hex_pair-byte c h,
        ))
]

encode_loop_cons : (c : ℕ) (s : Bytes) → encode_loop (c ∷ s) [] ≡ encode_byte c ++ encode_loop s []
unfolding encode_loop
encode_loop_cons c s = encode_loop-append s (encode_byte c)

decode_loop-encode :
    (s out : Bytes) → AreBytes s → decode_loop (encode_loop s []) out ≡ ok (out ++ s)
decode_loop-encode [] out h = unfold encode_loop decode_loop in rw append-nil
decode_loop-encode (c ∷ s) out h = rw (
  encode_loop_cons c s,
  decode_byte c (encode_loop s []) out h.0,
  decode_loop-encode s (out ++ c ∷ []) h.1,
  append_assoc,
)

-- Every text of bytes is decoded to itself after it was encoded, and no read leaves the text.
pub decode-encode : (s : Bytes) → AreBytes s → decode (encode s) ≡ ok s
unfolding decode encode
decode-encode s h = decode_loop-encode s [] h

-- A byte that `encode` may write.
abbrev pub IsSafe : ℕ → Type 0
IsSafe c = (is_plain c || c == b'%') ≡ true

dec2hex_char-IsSafe : (n : ℕ) → n < 16 → IsSafe (dec2hex_char n)
unfolding dec2hex_char is_plain
dec2hex_char-IsSafe n h = ground arith

encode_byte-IsSafe : (c : ℕ) → c < 256 → All IsSafe (encode_byte c)
unfolding encode_byte
encode_byte-IsSafe c h = elim (Bool-cases (is_plain c)) [
  | inl e ↦ rw e (rw e refl, tt)
  | inr e ↦
      rw (e, unsigned_value-byte c h)
        (
          unfold is_plain in refl,
          (
            dec2hex_char-IsSafe (c / 16) (omega arith),
            (dec2hex_char-IsSafe (c - c / 16 * 16) (omega arith), tt),
          ),
        )
]

-- Encoded text holds letters, digits, `/`, `.` and `%` only.
pub encode-IsSafe : (s : Bytes) → AreBytes s → All IsSafe (encode s)
unfolding encode
encode-IsSafe [] h = unfold encode_loop in tt
encode-IsSafe (c ∷ s) h = rw (encode_loop_cons c s) (
    All-append IsSafe (encode_byte c) (encode_loop s []) (encode_byte-IsSafe c h.0)
      (encode-IsSafe s h.1))
