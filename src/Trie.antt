-- ===== src/Trie.antt =====
-- alias/dat/trie.h: `trie_node` and `Trie`, and `cn_string` of alias/dat/dat.h. The map of the
-- children is a list of its own in the block: in ascending order of the keys, as `std::map` is.
-- A pointer to a node is the node, since no two edges of a trie lead to one node.
pub mod Lookup
pub mod Subtree
pub mod Build
mod Tests
use sunet.Base.{
  ℕ, Bool, true, false, List, [], ◌∷◌, ◌++◌, Option, none, some, Bytes, codes, map, if◌then◌else◌,
  cmp_bytes,
}
use Prim.Native.Nat.{Ordering}
use sunet.Base.Int.{ℤ}
use sunet.Base.Number.{atoi}
use sunet.Util.{split, split_ch_words}

-- `_words` and `_string`; `none` would be a read outside the text.
pub record CnString : Type 0 where
  pub words : List Bytes
  pub string : Bytes

unfoldable pub cn_string : Bytes → Option CnString
cn_string str = elim (split_ch_words str) [
  | none ↦ none
  | some words ↦ some (record { words = words; string = str })
]

-- `_status` and `tval` of a node: `none` is a status other than 1.
mutual
  pub data Node {ℓ} (A : Type ℓ) : Type ℓ where
    node : Option A → Edges A → Node A

  pub data Edges {ℓ} (A : Type ℓ) : Type ℓ where
    nil : Edges A
    edge : Bytes → Node A → Edges A → Edges A

module _ {ℓ} {A : Type ℓ} where
  abbrev pub status : Node A → Option A
  status (node st es) = st

  -- `root->_child_nodes_map.find(str)`: the keys ascend.
  unfoldable pub find_edge : Bytes → Edges A → Option (Node A)
  find_edge w nil = none
  find_edge w (edge k n es) = elim (cmp_bytes w k) [
    | Ordering.lt ↦ none
    | Ordering.eq ↦ some n
    | Ordering.gt ↦ find_edge w es
  ]

  -- `f` of the child `w`; a new child, with status 0, is put at its place in the order.
  unfoldable pub update_edge : (Node A → Node A) → Bytes → Edges A → Edges A
  update_edge f w nil = edge w (f (node none nil)) nil
  update_edge f w (edge k n es) = elim (cmp_bytes w k) [
    | Ordering.lt ↦ edge w (f (node none nil)) (edge k n es)
    | Ordering.eq ↦ edge k (f n) es
    | Ordering.gt ↦ edge k n (update_edge f w es)
  ]

  unfoldable pub insert_words : List Bytes → A → Node A → Node A
  insert_words [] val (node st es) = node (some val) es
  insert_words (w ∷ ws) val (node st es) = node st (update_edge (insert_words ws val) w es)

  -- A text without words is not inserted.
  unfoldable pub insert : Node A → CnString → A → Node A
  insert root str val = elim (str.words) [ [] ↦ root | w ∷ ws ↦ insert_words (w ∷ ws) val root ]

  unfoldable pub follow : List Bytes → Node A → Option (Node A)
  follow [] n = some n
  follow (w ∷ ws) (node st es) = elim (find_edge w es) [ none ↦ none | some n ↦ follow ws n ]

  unfoldable pub extract_search : Node A → CnString → Option (Node A)
  extract_search root str = follow str.words root

  abbrev pub push : Option A → Bytes → List (Bytes × A) → List (Bytes × A)
  push none begin results = results
  push (some v) begin results = results ++ (begin, v) ∷ []

  -- The node, and then the children in the order of the map.
  unfoldable mutual
    pub dfs_search : Node A → Bytes → List (Bytes × A) → List (Bytes × A)
    dfs_search (node st es) begin results = dfs_edges es begin (push st begin results)

    pub dfs_edges : Edges A → Bytes → List (Bytes × A) → List (Bytes × A)
    dfs_edges nil begin results = results
    dfs_edges (edge k n es) begin results = dfs_edges es begin (dfs_search n (begin ++ k) results)

  unfoldable pub search : Node A → CnString → List (Bytes × A)
  search root str = elim (extract_search root str) [
    | none ↦ []
    | some target ↦ dfs_search target str.string []
  ]

-- A line of the file of `build`; `none` is a read past the pieces of the line.
unfoldable pub build_line : Bytes → Node ℤ → Option (Node ℤ)
build_line line root = elim (split line (codes "\t")) [
  | [] ↦ none
  | val ∷ [] ↦ none
  | val ∷ key ∷ vals ↦ elim (cn_string key) [
    | none ↦ none
    | some str ↦ some (insert root str (atoi val))
  ]
]

unfoldable pub build_lines : List Bytes → Node ℤ → Option (Node ℤ)
build_lines [] root = some root
build_lines (line ∷ lines) root = elim (build_line line root) [
  | none ↦ none
  | some next ↦ build_lines lines next
]

-- A file that cannot be opened has no line.
unfoldable pub build : Option (List Bytes) → Node ℤ → Option (Node ℤ)
build none root = some root
build (some lines) root = build_lines lines root
