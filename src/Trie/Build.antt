-- ===== src/Trie/Build.antt =====
-- alias/dat/trie.h: `Trie::build` on a file of lines `value<TAB>key`, and `search` after it.
use sunet.Base.{
  ◌≡◌, ◌≢◌, refl, ap, ◌∙◌, List, [], ◌∷◌, ◌++◌, Option, some, Bytes, All, Lacks, map, arith,
  if◌then◌else◌, inl,
}
use mathlib.Core.List.{Memᴰ}
use sunet.Base.Int.{ℤ}
use sunet.Base.Number.{IsInt, print_int, print_int-ne, atoi-print_int}
use sunet.Util.{last_byte}
use sunet.Util.Join.{split_pair}
use sunet.Util.Words.{words, concat, split_ch_words-words}
use sunet.Trie.{Node, cn_string, insert, insert_words, search, build_line, build_lines, build}
use sunet.Trie.Lookup.{value_at, value_at-insert_words, same_words}
use sunet.Trie.Subtree.{search-finds}

-- A value that `atoi` can read back, and a key of at least one word without tabs.
abbrev pub IsEntry : ℤ × Bytes → Type 0
IsEntry e =
    IsInt e.0
    × Lacks b'\t' e.1
    × (last_byte (print_int e.0 ++ b'\t' ∷ e.1) ≢ b'\t')
    × (words e.1 ≢ [])

unfoldable pub write_entry : ℤ × Bytes → Bytes
write_entry e = print_int e.0 ++ b'\t' ∷ e.1

-- One insertion after another, each at the words of its key.
unfoldable pub insert_all : List (ℤ × Bytes) → Node ℤ → Node ℤ
insert_all [] root = root
insert_all (e ∷ es) root = insert_all es (insert_words (words e.1) e.0 root)

cn_string_words : (str : Bytes) → cn_string str ≡ some (record { words = words str; string = str })
unfolding cn_string
cn_string_words str = rw (cn_string, split_ch_words-words str) refl

insert_key :
    (ws : List Bytes) (s : Bytes) (val : ℤ) (root : Node ℤ)
    → ws ≢ []
    → insert root (record { words = ws; string = s }) val ≡ insert_words ws val root
unfolding insert
insert_key [] s val root h = ground (arith, h)
insert_key (w ∷ ws) s val root h = refl

build_line-write_entry :
    (e : ℤ × Bytes) (root : Node ℤ)
    → IsEntry e
    → build_line (write_entry e) root ≡ some (insert_words (words e.1) e.0 root)
unfolding write_entry build_line
build_line-write_entry e root h =
    rw
      (
        build_line,
        split_pair b'\t' (print_int e.0) e.1
            (print_int-ne b'\t' e.0 (inl (omega arith)) (λ p. cc p)) h.1 h.2,
        cn_string_words e.1,
        atoi-print_int e.0 h.0,
        insert_key (words e.1) e.1 e.0 root h.3,
      )
      refl

build_lines-write_entry :
    (es : List (ℤ × Bytes)) (root : Node ℤ)
    → All IsEntry es
    → build_lines (map write_entry es) root ≡ some (insert_all es root)
unfolding build_lines insert_all
build_lines-write_entry [] root h = refl
build_lines-write_entry (e ∷ es) root h =
    rw (build_lines, build_line-write_entry e root h.0)
      (build_lines-write_entry es (insert_words (words e.1) e.0 root) h.1)

-- The value of the last entry whose key has these words, and `old` if there is none.
abbrev pub last_value : List Bytes → List (ℤ × Bytes) → Option ℤ → Option ℤ
last_value ws [] old = old
last_value ws (e ∷ es) old = last_value ws es (if same_words ws (words e.1) then some e.0 else old)

value_at-insert_all :
    (ws : List Bytes) (es : List (ℤ × Bytes)) (root : Node ℤ)
    → value_at ws (insert_all es root) ≡ last_value ws es (value_at ws root)
unfolding insert_all
value_at-insert_all ws [] root = refl
value_at-insert_all ws (e ∷ es) root =
    value_at-insert_all ws es (insert_words (words e.1) e.0 root)
    ∙ ap (last_value ws es) (value_at-insert_words (words e.1) ws e.0 root)

-- `build` stores every line of a file of entries, a later line over an earlier one with the same
-- words, and `search` then reports, for a text, the value of every key that begins with the
-- words of the text, with the text followed by the remaining words of the key.
pub build-search :
    (es : List (ℤ × Bytes)) (root : Node ℤ) (str : Bytes) (ws : List Bytes) (v : ℤ)
    → All IsEntry es
    → last_value (words str ++ ws) es (value_at (words str ++ ws) root) ≡ some v
    → (build (some (map write_entry es)) root ≡ some (insert_all es root))
      × Memᴰ
          (str ++ concat ws, v)
          (search (insert_all es root) (record { words = words str; string = str }))
unfolding build
build-search es root str ws v h k = (
  build_lines-write_entry es root h,
  search-finds (insert_all es root) (record { words = words str; string = str }) ws v
      (value_at-insert_all (words str ++ ws) es root ∙ k),
)
