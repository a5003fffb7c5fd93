-- ===== src/Dat.antt =====
-- alias/dat/dat.h: `DatImpl`. The arrays are lists, and a read outside them is `none`.
pub mod Build
mod Tests
use Prim.Native.Nat.{bit_and}
use sunet.Base.{
  ℕ, zero, suc, ◌+◌, ◌-◌, ◌*◌, ◌^◌, Bool, true, false, List, [], ◌∷◌, ◌++◌, Option, none, some,
  Bytes, codes, length, get_elem?, ltb, ◌==◌, if◌then◌else◌, same,
}
use sunet.Base.Int.{ℤ, pos, negsuc, ◌+ℤ◌, ◌-ℤ◌, ltb_ℤ, int_order}
use sunet.Util.{char_at, split, split_ch_words}
use sunet.Trie.{CnString, cn_string}
use sunet.Dict.{ReverseIndex, postings}

infixl 5 ◌>>=◌
abbrev ◌>>=◌ {ℓ κ} : {A : Type ℓ} {B : Type κ} → Option A → (A → Option B) → Option B
none >>= f = none
some a >>= f = f a

-- The code of a word; `none` is the exit for a word of more than three bytes, or a read outside.
unfoldable pub get_cn_code : Bytes → Option ℕ
get_cn_code cn_str = elim (ltb 3 (length cn_str)) [
  | true ↦ none
  | false ↦ do
    c0 ← char_at cn_str 0
    elim (bit_and c0 0xf0 == 0xe0) [
      | true ↦ do
        c2 ← char_at cn_str 2
        c1 ← char_at cn_str 1
        some (bit_and c0 0x0f * 2 ^ 12 + bit_and c1 0x7f * 2 ^ 6 + bit_and c2 0x7f)
      | false ↦ elim (bit_and c0 0xe0 == 0xd0) [
        | true ↦ do c1 ← char_at cn_str 1; some (bit_and c0 0x1f * 2 ^ 6 + bit_and c1 0x7f)
        | false ↦ if bit_and c0 0x80 == 0 then some (bit_and c0 0x7f) else some 0
      ]
    ]
]

-- The entries of `_load_index_dict`: the word and its postings.
unfoldable pub index_entry : Bytes → Option (List (CnString × List ReverseIndex))
index_entry line = elim (split line (codes "\t")) [
  | [] ↦ some []
  | word ∷ [] ↦ some []
  | word ∷ vecs ∷ [] ↦ do str ← cn_string word; some ((str, postings (split vecs (2 ∷ []))) ∷ [])
  | word ∷ vecs ∷ other ∷ more ↦ some []
]

unfoldable pub load_index_entries : List Bytes → Option (List (CnString × List ReverseIndex))
load_index_entries [] = some []
load_index_entries (line ∷ lines) = do
  entry ← index_entry line
  rest ← load_index_entries lines
  some (entry ++ rest)

unfoldable pub load_words : List Bytes → Option (List CnString)
load_words [] = some []
load_words (line ∷ lines) = do str ← cn_string line; rest ← load_words lines; some (str ∷ rest)

pub record Dat : Type 0 where
  pub base : List ℤ
  pub check : List ℤ

-- `array[p]`
unfoldable pub at_index : List ℤ → ℤ → Option ℤ
at_index array (pos p) = get_elem? array p
at_index array (negsuc p) = none

-- The loop of `_search` over the words; the inner `none` is the `return` in it.
unfoldable pub search_loop : Dat → List Bytes → ℤ → Option (Option ℤ)
search_loop dat [] b = some (some b)
search_loop dat (word ∷ words) b = do
  code ← get_cn_code word
  c ← at_index dat.check (b +ℤ pos code)
  elim (same b c) [
    | true ↦ do next ← at_index dat.base (b +ℤ pos code); search_loop dat words next
    | false ↦ some none
  ]

-- The number of the entry for a key, or -1.
unfoldable pub dat_search : Dat → Bytes → Option ℤ
dat_search dat key = do
  words ← split_ch_words key
  b ← at_index dat.base (pos 0)
  found ← search_loop dat words b
  elim found [
    | none ↦ some (negsuc 0)
    | some p ↦ do
      c ← at_index dat.check p
      elim (same p c) [
        | true ↦ do
          v ← at_index dat.base p
          some (if ltb_ℤ v (pos 0) then pos 0 -ℤ v -ℤ pos 1 else negsuc 0)
        | false ↦ some (negsuc 0)
      ]
  ]

-- `_values[result]`
unfoldable pub value_of {ℓ} : {V : Type ℓ} → List V → ℤ → Option V
value_of values (pos n) = get_elem? values n
value_of values (negsuc n) = none

-- `_reversed_search`: the value of the entry for a key, or the value that `t` has from the start.
unfoldable pub reversed_search {ℓ} : {V : Type ℓ} → V → Dat → List V → Bytes → Option V
reversed_search t dat values key = do
  words ← split_ch_words key
  b ← at_index dat.base (pos 0)
  found ← search_loop dat words b
  elim found [
    | none ↦ some t
    | some p ↦ do
      c ← at_index dat.check p
      elim (same p c) [
        | true ↦ do
          v ← at_index dat.base p
          elim (ltb_ℤ v (pos 0)) [ true ↦ value_of values (pos 0 -ℤ v -ℤ pos 1) | false ↦ some t ]
        | false ↦ some t
      ]
  ]

-- The loop of `_tsearch` and what follows it: `_check` is not looked at.
unfoldable pub tsearch_loop : Dat → List Bytes → ℤ → Option ℤ
tsearch_loop dat [] b = do
  v ← at_index dat.base b
  some (if ltb_ℤ v (pos 0) then pos 0 -ℤ v -ℤ pos 1 else negsuc 0)
tsearch_loop dat (word ∷ words) b = do
  code ← get_cn_code word
  v ← at_index dat.base (b +ℤ pos code)
  elim (same v (pos 0)) [
    | true ↦ some (negsuc 0)
    | false ↦ elim (ltb_ℤ v (pos 0)) [
      | true ↦ some (pos 0 -ℤ v -ℤ pos 1)
      | false ↦ tsearch_loop dat words v
    ]
  ]

unfoldable pub tsearch : Dat → Bytes → Option ℤ
tsearch dat key = do
  words ← split_ch_words key
  b ← at_index dat.base (pos 0)
  tsearch_loop dat words b
