-- ===== src/Util.antt =====
-- util/utils.h: `StringUtil::split`, `StringUtil::split_ch_words` and `StringUtil::num_to_str`.
-- A loop over indices is a function of its variables on fuel; `none` is a read outside the text.
pub mod Fields
pub mod Join
pub mod Words
mod Tests
use Prim.Native.Nat.{bit_and}
use sunet.Base.{
  ℕ, zero, suc, ◌+◌, ◌-◌, Bool, true, false, not, ◌&&◌, ◌||◌, List, [], ◌∷◌, ◌++◌, Option, none,
  some, ltb, leb, ◌==◌, if◌then◌else◌, Bytes, length, get_elem?, take, drop,
}
use sunet.Base.Int.{ℤ, pos, negsuc, leb_ℤ}
use sunet.Base.Number.{print_int}

-- `s.substr(i, n)` for `i` within the text.
abbrev pub substr : Bytes → ℕ → ℕ → Bytes
substr s i n = take n (drop i s)

unfoldable pub is_member : ℕ → Bytes → Bool
is_member c [] = false
is_member c (d ∷ ds) = c == d || is_member c ds

-- The index, counted from `i`, of the first byte that is one of `delim`; `none` is `npos`.
unfoldable pub find_from : Bytes → Bytes → ℕ → Option ℕ
find_from delim [] i = none
find_from delim (c ∷ s) i = elim (is_member c delim) [
  | true ↦ some i
  | false ↦ find_from delim s (i + 1)
]

unfoldable pub find_first_of : Bytes → Bytes → ℕ → Option ℕ
find_first_of str delim last = find_from delim (drop last str) last

-- The loop of `split`: the last start and the pieces when no delimiter is left.
unfoldable pub split_loop : ℕ → Bytes → Bytes → ℕ → List Bytes → ℕ × List Bytes
split_loop zero str delim last ret = (last, ret)
split_loop (suc fuel) str delim last ret = elim (find_first_of str delim last) [
  | none ↦ (last, ret)
  | some index ↦ split_loop fuel str delim (index + 1) (ret ++ substr str last (index - last) ∷ [])
]

-- `str[str.size() - 1]`
unfoldable pub last_byte : Bytes → ℕ
last_byte [] = 0
last_byte (c ∷ []) = c
last_byte (c ∷ d ∷ s) = last_byte (d ∷ s)

unfoldable pub split_end : Bytes → ℕ × List Bytes → List Bytes
split_end str (last, ret) =
    if last_byte str == b'\t' then ret else ret ++ substr str last (length str - last) ∷ []

unfoldable pub split : Bytes → Bytes → List Bytes
split [] delim = []
split (c ∷ s) [] = []
split (c ∷ s) (d ∷ ds) = split_end (c ∷ s) (split_loop (suc (length (c ∷ s))) (c ∷ s) (d ∷ ds) 0 [])

-- `word[i]`, where `word[word.size()]` is the terminating zero.
abbrev pub char_at : Bytes → ℕ → Option ℕ
char_at word i = get_elem? (word ++ 0 ∷ []) i

-- A `char` is signed: the `int` that a byte is converted to.
abbrev pub schar : ℕ → ℤ
schar c = if ltb c 128 then pos c else negsuc (255 - c)

unfoldable pub is_lead : ℕ → Bool
is_lead c = bit_and c 0xf0 == 0xe0

unfoldable pub is_cont : ℕ → Bool
is_cont c = bit_and c 0xc0 == 0x80

infixl 5 ◌>>=◌
abbrev ◌>>=◌ {ℓ κ} : {A : Type ℓ} {B : Type κ} → Option A → (A → Option B) → Option B
none >>= f = none
some a >>= f = f a

-- `(word[i+1] & 0xc0) == 0x80 && (word[i+2] & 0xc0) == 0x80`: the second is read if the first holds.
unfoldable pub has_tail : Bytes → ℕ → Option Bool
has_tail word i = do
  b ← char_at word (i + 1)
  elim (is_cont b) [ false ↦ some false | true ↦ (do c ← char_at word (i + 2); some (is_cont c)) ]

-- `while (j <= word.length() && !(word[j] >= 0 && word[j] <= 127)) j++;`
unfoldable pub skip_high : ℕ → Bytes → ℕ → Option ℕ
skip_high zero word j = some j
skip_high (suc fuel) word j = elim (leb j (length word)) [
  | false ↦ some j
  | true ↦ do
    c ← char_at word j
    elim (leb_ℤ (pos 0) (schar c) && leb_ℤ (schar c) (pos 127)) [
      | true ↦ some j
      | false ↦ skip_high fuel word (j + 1)
    ]
]

-- One round of the loop at `i`: the next index, and the word that is pushed, if any.
unfoldable pub word_step : Bytes → ℕ → Option (ℕ × List Bytes)
word_step word i = do
  c ← char_at word i
  elim (is_lead c) [
    | true ↦ do
      tail ← has_tail word i
      some (if tail then (i + 3, substr word i 3 ∷ []) else (i + 1, []))
    | false ↦
        if c == b' '
        then some (i + 1, [])
        else if leb_ℤ (schar c) (pos 127)
        then some (i + 1, (c ∷ []) ∷ [])
        else (do j ← skip_high (suc (length word)) word i; some (j, substr word i (j - i) ∷ []))
  ]

unfoldable pub words_loop : ℕ → Bytes → ℕ → List Bytes → Option (List Bytes)
words_loop zero word i cn_words = none
words_loop (suc fuel) word i cn_words = elim (ltb i (length word)) [
  | false ↦ some cn_words
  | true ↦ do (j, pushed) ← word_step word i; words_loop fuel word j (cn_words ++ pushed)
]

-- The result is `none` only if the loop reads outside the text, or does not end within its fuel.
unfoldable pub split_ch_words : Bytes → Option (List Bytes)
split_ch_words word = words_loop (suc (length word)) word 0 []

-- `num_to_str` of an `int`: what is printed to the stream holds no space, and is read back whole.
unfoldable pub num_to_str : ℤ → Bytes
num_to_str v = print_int v

-- What a test by evaluation unfolds.
unfoldable pub util_code : Unit {0}
unfolding is_member find_from find_first_of split_loop last_byte split_end split is_lead is_cont
    has_tail skip_high word_step words_loop split_ch_words num_to_str print_int
util_code = tt
