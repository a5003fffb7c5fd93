-- ===== src/Base/Number.antt =====
-- The C library's conversions of numbers: `std::ostream << int`, and `atoi` as glibc has it
-- (`strtol`, which stops at the limits of a 64-bit `long`, and the conversion to `int`).
use sunet.Base.{
  ℕ, zero, suc, ◌+◌, ◌-◌, ◌*◌, ◌/◌, ◌%◌, ◌^◌, ◌≤◌, ◌<◌, ◌≡◌, ◌≢◌, refl, inl, inr, Bool, true, false,
  ◌&&◌, ◌||◌, [], ◌∷◌, arith, ltb, leb, ◌==◌, if◌then◌else◌, Bool-cases, Bytes, All, All-weaken,
  ◌⊎◌, sym,
}
use sunet.Base.Int.{ℤ, pos, negsuc, to_int32, sub_ℕ}

abbrev pub is_digit : ℕ → Bool
is_digit c = leb b'0' c && leb c b'9'

-- `fuel` rounds of `do { out = digit + out; n /= 10; } while (n)`.
unfoldable pub digits : ℕ → ℕ → Bytes → Bytes
digits zero n out = out
digits (suc fuel) n out =
    let more = digits fuel (n / 10) ((b'0' + n % 10) ∷ out) in
    if ltb n 10 then (b'0' + n) ∷ out else more

unfoldable pub print_nat : ℕ → Bytes
unfolding digits
print_nat n = digits (suc n) n []

unfoldable pub print_int : ℤ → Bytes
unfolding print_nat
print_int (pos n) = print_nat n
print_int (negsuc n) = b'-' ∷ print_nat (suc n)

-- The white space of `isspace` in the C locale.
abbrev pub is_space : ℕ → Bool
is_space c = c == 32 || (leb 9 c && leb c 13)

unfoldable pub scan_digits : ℕ → Bytes → ℕ
scan_digits n [] = n
scan_digits n (c ∷ s) = elim (is_digit c) [ true ↦ scan_digits (n * 10 + (c - b'0')) s | false ↦ n ]

unfoldable pub skip_space : Bytes → Bytes
skip_space [] = []
skip_space (c ∷ s) = elim (is_space c) [ true ↦ skip_space s | false ↦ c ∷ s ]

abbrev pub clamp : ℕ → ℕ → ℕ
clamp hi n = if leb n hi then n else hi

unfoldable pub signed : Bytes → ℤ
signed [] = pos 0
signed (c ∷ s) =
    if c == b'-'
    then sub_ℕ 0 (clamp (2 ^ 63) (scan_digits 0 s))
    else if c == b'+'
    then pos (clamp (2 ^ 63 - 1) (scan_digits 0 s))
    else pos (clamp (2 ^ 63 - 1) (scan_digits 0 (c ∷ s)))

unfoldable pub atoi : Bytes → ℤ
unfolding signed skip_space
atoi s = to_int32 (signed (skip_space s))

scan_step : (n : ℕ) (out : Bytes) → scan_digits (n / 10) ((b'0' + n % 10) ∷ out) ≡ scan_digits n out
unfolding scan_digits
scan_step n out = ground arith

scan-digits :
    (fuel n : ℕ) (out : Bytes) → n < fuel → scan_digits 0 (digits fuel n out) ≡ scan_digits n out
unfolding digits
scan-digits zero n out h = absurd (omega arith)
scan-digits (suc fuel) n out h = elim (Bool-cases (ltb n 10)) [
  | inl small ↦ rw small (unfold scan_digits in ground arith)
  | inr large ↦
      rw (large, scan-digits fuel (n / 10) ((b'0' + n % 10) ∷ out) (ground arith)) (scan_step n out)
]

abbrev pub IsDigit : ℕ → Type 0
IsDigit c = (b'0' ≤ c) × (c ≤ b'9')

digits-IsDigit : (fuel n : ℕ) (out : Bytes) → All IsDigit out → All IsDigit (digits fuel n out)
unfolding digits
digits-IsDigit zero n out h = h
digits-IsDigit (suc fuel) n out h = elim (Bool-cases (ltb n 10)) [
  | inl small ↦ rw small (ground arith)
  | inr large ↦ rw large (digits-IsDigit fuel (n / 10) ((b'0' + n % 10) ∷ out) (omega arith, h))
]

pub print_nat-IsDigit : (n : ℕ) → All IsDigit (print_nat n)
unfolding print_nat
print_nat-IsDigit n = digits-IsDigit (suc n) n [] tt

digits-ne-nil : (fuel n : ℕ) (out : Bytes) → n < fuel → digits fuel n out ≢ []
unfolding digits
digits-ne-nil zero n out h = absurd (omega arith)
digits-ne-nil (suc fuel) n out h = elim (Bool-cases (ltb n 10)) [
  | inl small ↦ rw small (λ e. cc e)
  | inr large ↦ rw large (digits-ne-nil fuel (n / 10) ((b'0' + n % 10) ∷ out) (ground arith))
]

pub print_nat-ne-nil : (n : ℕ) → print_nat n ≢ []
unfolding print_nat
print_nat-ne-nil n = digits-ne-nil (suc n) n [] (omega arith)

scan_space : (c : ℕ) (s : Bytes) → IsDigit c → skip_space (c ∷ s) ≡ c ∷ s
unfolding skip_space
scan_space c s h = ground arith

signed_of_digit :
    (c : ℕ) (s : Bytes)
    → IsDigit c
    → signed (c ∷ s) ≡ pos (clamp (2 ^ 63 - 1) (scan_digits 0 (c ∷ s)))
unfolding signed
signed_of_digit c s h = ground arith

atoi_of_digits :
    (s : Bytes)
    → s ≢ []
    → All IsDigit s
    → atoi s ≡ to_int32 (pos (clamp (2 ^ 63 - 1) (scan_digits 0 s)))
atoi_of_digits [] h d = absurd (h refl)
atoi_of_digits (c ∷ s) h d = unfold atoi in rw (scan_space c s d.0, signed_of_digit c s d.0)

scan-print_nat : (n : ℕ) → scan_digits 0 (print_nat n) ≡ n
unfolding print_nat
scan-print_nat n = rw (scan-digits (suc n) n [] (omega arith)) (unfold scan_digits in refl)

-- A number that fits an `int` is read back from its print.
pub atoi-print_nat : (n : ℕ) → n < 2 ^ 31 → atoi (print_nat n) ≡ pos n
atoi-print_nat n h =
    rw (atoi_of_digits (print_nat n) (print_nat-ne-nil n) (print_nat-IsDigit n), scan-print_nat)
      (unfold to_int32 in ground arith)

atoi_minus : (s : Bytes) → atoi (b'-' ∷ s) ≡ to_int32 (sub_ℕ 0 (clamp (2 ^ 63) (scan_digits 0 s)))
unfolding atoi
atoi_minus s = refl

abbrev pub IsInt : ℤ → Type 0
IsInt (pos n) = n < 2 ^ 31
IsInt (negsuc n) = n < 2 ^ 31

-- Every `int` is read back from its print.
pub atoi-print_int : (z : ℤ) → IsInt z → atoi (print_int z) ≡ z
unfolding print_int
atoi-print_int (pos n) h = atoi-print_nat n h
atoi-print_int (negsuc n) h = rw (atoi_minus, scan-print_nat) (unfold to_int32 in ground arith)

digit_ne : (d : ℕ) → (d < b'0') ⊎ (b'9' < d) → (c : ℕ) → IsDigit c → c ≢ d
digit_ne d (inl h) c k = omega arith
digit_ne d (inr h) c k = omega arith

-- A print holds digits and a minus sign only.
pub print_int-ne :
    (d : ℕ) (z : ℤ) → (d < b'0') ⊎ (b'9' < d) → d ≢ b'-' → All (λ c. c ≢ d) (print_int z)
unfolding print_int
print_int-ne d (pos n) h k = All-weaken _ _ (digit_ne d h) (print_nat n) (print_nat-IsDigit n)
print_int-ne d (negsuc n) h k =
    (λ e. k (sym e), All-weaken _ _ (digit_ne d h) (print_nat (suc n)) (print_nat-IsDigit (suc n)))
