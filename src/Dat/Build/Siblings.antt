-- ===== src/Dat/Build/Siblings.antt =====
-- What `_fetch_siblings` finds where the codes ascend: a node for each run of one code.
use sunet.Base.{
  ℕ, suc, ◌+◌, ◌-◌, ◌≤◌, ◌<◌, ◌≡◌, ◌≢◌, refl, sym, ap, ◌∙◌, true, false, not, ◌&&◌, List, [], ◌∷◌,
  ◌++◌, some, Bytes, length, get_elem?, ltb, ◌==◌, All, Bool-cases, inl, inr, append_assoc,
  length-append, arith,
}
use sunet.Dat.{◌>>=◌}
use sunet.Dat.Build.{TreeNode, set_right, word_code, add_sibling, fetch_loop, fetch_siblings}
use sunet.Dat.Build.Stored.{Distinct}

-- The codes that the loop meets from the word `i` on.
abbrev pub Codes : List (List Bytes) → ℕ → ℕ → List ℕ → Type 0
Codes dicts depth i [] = Unit
Codes dicts depth i (c ∷ codes) =
    ((words : List Bytes) × (get_elem? dicts i ≡ some words)
      × (ltb (length words) depth ≡ false)
      × (word_code words depth ≡ some c))
    × Codes dicts depth (i + 1) codes

abbrev pub Ascending : ℕ → List ℕ → Type 0
Ascending prev [] = Unit
Ascending prev (c ∷ codes) = (prev ≤ c) × Ascending c codes

abbrev pub tree_node : ℕ → ℕ → ℕ → ℕ → TreeNode
tree_node depth left right code = record { depth = depth; left = left; right = right; code = code }

-- The nodes from a node on that began at `left` with the code `cur`.
unfoldable pub groups : ℕ → ℕ → ℕ → ℕ → List ℕ → List TreeNode
groups depth left cur i [] = tree_node (depth + 1) left i cur ∷ []
groups depth left cur i (c ∷ codes) = elim (cur == c) [
  | true ↦ groups depth left cur (i + 1) codes
  | false ↦ tree_node (depth + 1) left i cur ∷ groups depth i c (i + 1) codes
]

set_right-last :
    (i : ℕ) (front : List TreeNode) (n : TreeNode)
    → set_right i (front ++ n ∷ []) ≡ front ++ record n { right = i } ∷ []
unfolding set_right
set_right-last i [] n = refl
set_right-last i (m ∷ []) n = refl
set_right-last i (m ∷ k ∷ front) n = ap (λ nodes. m ∷ nodes) (set_right-last i (k ∷ front) n)

some_length : (front : List TreeNode) (n : TreeNode) → (length (front ++ n ∷ []) == 0) ≡ false
some_length front n = ground (arith, length-append front (n ∷ []))

add_sibling_same :
    (depth i c : ℕ) (front : List TreeNode) (n : TreeNode)
    → add_sibling depth i c c (front ++ n ∷ []) ≡ front ++ n ∷ []
unfolding add_sibling
add_sibling_same depth i c front n =
    let e : (c == c) ≡ true = ground arith in rw (add_sibling, e, some_length front n) refl

add_sibling_new :
    (depth i prev c : ℕ) (front : List TreeNode) (n : TreeNode)
    → (prev == c) ≡ false
    → add_sibling depth i prev c (front ++ n ∷ [])
      ≡ (front ++ record n { right = i } ∷ []) ++ tree_node (depth + 1) i 0 c ∷ []
unfolding add_sibling
add_sibling_new depth i prev c front n e = rw (add_sibling, e, set_right-last i front n) refl

fetch_loop-groups :
    (dicts : List (List Bytes)) (depth : ℕ) (codes : List ℕ) (i prev left : ℕ)
    (front : List TreeNode)
    → Codes dicts depth i codes
    → Ascending prev codes
    → (nodes : List TreeNode) × (fetch_loop dicts depth
          (length codes)
          i
          prev
          (front ++ tree_node (depth + 1) left 0 prev ∷ [])
        ≡ some (true, nodes))
      × (set_right (i + length codes) nodes ≡ front ++ groups depth left prev i codes)
unfolding fetch_loop groups
fetch_loop-groups dicts depth [] i prev left front h k = (
  front ++ tree_node (depth + 1) left 0 prev ∷ [],
  refl,
  set_right-last (i + 0) front (tree_node (depth + 1) left 0 prev)
      ∙ ap (λ n. front ++ tree_node (depth + 1) left n prev ∷ []) (omega arith),
)
fetch_loop-groups dicts depth (c ∷ codes) i prev left front ((words, e, l, w), h) (up, k) =
    let fine : (ltb c prev && not (c == 0)) ≡ false = ground (arith, up) in
    let n : i + suc (length codes) ≡ i + 1 + length codes = omega arith in
    elim (Bool-cases (prev == c)) [
      | inl z ↦
          let q : prev ≡ c = ground (arith, z) in
          let w' : word_code words depth ≡ some prev = w ∙ ap some (sym q) in
          let fine' : (ltb prev prev && not (prev == 0)) ≡ false = ground arith in
          let (nodes, run, closed) =
            fetch_loop-groups dicts depth codes (i + 1) prev left front h (rw (← q) at k) in
          (
            nodes,
            rw
                (
                  fetch_loop,
                  e,
                  ◌>>=◌,
                  l,
                  w',
                  fine',
                  add_sibling_same depth i prev front (tree_node (depth + 1) left 0 prev),
                )
                run,
            rw (groups, z, n) closed,
          )
      | inr z ↦
          let (nodes, run, closed) =
            fetch_loop-groups dicts depth codes (i + 1) c i
              (front ++ tree_node (depth + 1) left i prev ∷ []) h k in
          (
            nodes,
            rw
                (
                  fetch_loop,
                  e,
                  ◌>>=◌,
                  l,
                  w,
                  fine,
                  add_sibling_new depth i prev c front (tree_node (depth + 1) left 0 prev) z,
                )
                run,
            rw (groups, z, n)
                (closed
                  ∙ append_assoc front (tree_node (depth + 1) left i prev ∷ [])
                      (groups depth i c (i + 1) codes)),
          )
    ]

length-set_right : (i : ℕ) (nodes : List TreeNode) → length (set_right i nodes) ≡ length nodes
unfolding set_right
length-set_right i [] = refl
length-set_right i (n ∷ []) = refl
length-set_right i (n ∷ m ∷ nodes) = ap suc (length-set_right i (m ∷ nodes))

first_sibling : (depth i c : ℕ) → add_sibling depth i 0 c [] ≡ tree_node (depth + 1) i 0 c ∷ []
unfolding add_sibling set_right
first_sibling depth i c = elim (Bool-cases (0 == c)) [
  | inl e ↦ rw (add_sibling, e) refl
  | inr e ↦ rw (add_sibling, e) refl
]

-- A node over a range of words whose codes at its depth ascend: `_fetch_siblings` finds a node for each run
-- of one code, over the words of the run.
pub fetch_siblings-groups :
    (dicts : List (List Bytes)) (parent : TreeNode) (c : ℕ) (codes : List ℕ)
    → Codes dicts parent.depth parent.left (c ∷ codes)
    → Ascending c codes
    → parent.right ≡ parent.left + suc (length codes)
    → let nodes = groups parent.depth parent.left c (parent.left + 1) codes in
      fetch_siblings dicts parent ≡ some (length nodes, nodes)
unfolding fetch_siblings fetch_loop
fetch_siblings-groups dicts parent c codes ((words, e, l, w), h) up size =
    let fine : (ltb c 0 && not (c == 0)) ≡ false = ground arith in
    let rounds : parent.right - parent.left ≡ suc (length codes) = omega (arith, size) in
    let end : parent.right ≡ parent.left + 1 + length codes = omega (arith, size) in
    let (nodes, run, closed) =
      fetch_loop-groups dicts parent.depth codes (parent.left + 1) c parent.left [] h up in
    let whole : set_right parent.right nodes
        ≡ groups parent.depth parent.left c (parent.left + 1) codes =
      ap (λ n. set_right n nodes) end ∙ closed in
    let count : length nodes ≡ length (groups parent.depth parent.left c (parent.left + 1) codes) =
      sym (length-set_right parent.right nodes) ∙ ap length whole in
    rw
      (
        fetch_siblings,
        rounds,
        fetch_loop,
        e,
        ◌>>=◌,
        l,
        w,
        fine,
        first_sibling parent.depth parent.left c,
        run,
        whole,
        count,
      )
      refl

-- A range of one word that is too short for the depth has no siblings.
pub fetch_siblings-short :
    (dicts : List (List Bytes)) (parent : TreeNode) (words : List Bytes)
    → get_elem? dicts parent.left ≡ some words
    → length words < parent.depth
    → parent.right ≡ parent.left + 1
    → fetch_siblings dicts parent ≡ some (0, [])
unfolding fetch_siblings fetch_loop set_right
fetch_siblings-short dicts parent words e h size =
    let rounds : parent.right - parent.left ≡ 1 = omega (arith, size) in
    let short : ltb (length words) parent.depth ≡ true = ground (arith, h) in
    rw (fetch_siblings, rounds, fetch_loop, e, ◌>>=◌, short) refl

groups-above :
    (depth left cur i : ℕ) (codes : List ℕ) (low : ℕ)
    → low < cur
    → Ascending cur codes
    → All (λ s. low ≢ s.code) (groups depth left cur i codes)
unfolding groups
groups-above depth left cur i [] low h up = (omega (arith, h), tt)
groups-above depth left cur i (c ∷ codes) low h (le, up) = elim (Bool-cases (cur == c)) [
  | inl e ↦
      let q : cur ≡ c = ground (arith, e) in
      rw (groups, e) (groups-above depth left cur (i + 1) codes low h (rw (← q) at up))
  | inr e ↦
      rw (groups, e)
        (omega (arith, h), groups-above depth i c (i + 1) codes low (omega (arith, h, le)) up)
]

-- The runs of ascending codes have different codes.
pub groups-Distinct :
    (depth left cur i : ℕ) (codes : List ℕ)
    → Ascending cur codes
    → Distinct (groups depth left cur i codes)
unfolding groups
groups-Distinct depth left cur i [] up = (tt, tt)
groups-Distinct depth left cur i (c ∷ codes) (le, up) = elim (Bool-cases (cur == c)) [
  | inl e ↦
      let q : cur ≡ c = ground (arith, e) in
      rw (groups, e) (groups-Distinct depth left cur (i + 1) codes (rw (← q) at up))
  | inr e ↦
      let lt : cur < c = ground (arith, e, le) in
      rw (groups, e)
        (groups-above depth i c (i + 1) codes cur lt up, groups-Distinct depth i c (i + 1) codes up)
]
