-- ===== src/Trie/Tests.antt =====
-- Runs of alias/dat/trie.h.
use sunet.Base.{◌≡◌, refl, [], ◌∷◌, ◌++◌, none, some, Bytes, codes, arith, All, if◌then◌else◌, map}
use mathlib.Core.List.{Memᴰ}
use sunet.Base.Int.{ℤ, pos}
use sunet.Base.Number.{print_int, print_nat, digits}
use sunet.Util.{last_byte, is_lead}
use sunet.Util.Words.{words, tail, round, concat}
use sunet.Trie.{Node, node, nil, edge, CnString, insert_words, search, follow, find_edge, build}
use sunet.Trie.Lookup.{value_at, value_at-insert_words, same_words}
use sunet.Trie.Subtree.{search-finds}
use sunet.Trie.Build.{IsEntry, write_entry, insert_all, last_value, build-search}

abbrev empty_trie : Node ℤ
empty_trie = node none nil

-- The key `ab` with the value 7.
abbrev one_key : Node ℤ
one_key =
    node none (edge (codes "a") (node none (edge (codes "b") (node (some (pos 7)) nil) nil)) nil)

abbrev prefix : CnString
prefix = record { words = codes "a" ∷ []; string = codes "a" }

value_at-insert_words_example :
    value_at (codes "a" ∷ []) (insert_words (codes "a" ∷ codes "c" ∷ []) (pos 5) one_key) ≡ (
      if same_words (codes "a" ∷ []) (codes "a" ∷ codes "c" ∷ [])
      then some (pos 5)
      else value_at (codes "a" ∷ []) one_key)
value_at-insert_words_example =
    value_at-insert_words (codes "a" ∷ codes "c" ∷ []) (codes "a" ∷ []) (pos 5) one_key

one_key_value : value_at (codes "a" ∷ codes "b" ∷ []) one_key ≡ some (pos 7)
unfolding follow find_edge
one_key_value = refl

search-finds_example : Memᴰ (codes "a" ++ concat (codes "b" ∷ []), pos 7) (search one_key prefix)
search-finds_example = search-finds one_key prefix (codes "b" ∷ []) (pos 7) one_key_value

abbrev entry : ℤ × Bytes
entry = (pos 7, codes "ab")

entry-IsEntry : All IsEntry (entry ∷ [])
unfolding is_lead words tail round print_int print_nat digits last_byte
entry-IsEntry = ground arith

entry_value :
    last_value
      (words (codes "a") ++ codes "b" ∷ [])
      (entry ∷ [])
      (value_at (words (codes "a") ++ codes "b" ∷ []) empty_trie)
    ≡ some (pos 7)
unfolding is_lead words tail round follow find_edge
entry_value = refl

build-search_example :
    (build (some (map write_entry (entry ∷ []))) empty_trie
      ≡ some (insert_all (entry ∷ []) empty_trie))
    × Memᴰ
        (codes "a" ++ concat (codes "b" ∷ []), pos 7)
        (search
          (insert_all (entry ∷ []) empty_trie)
          (record { words = words (codes "a"); string = codes "a" }))
build-search_example =
    build-search (entry ∷ []) empty_trie (codes "a") (codes "b" ∷ []) (pos 7) entry-IsEntry
      entry_value
