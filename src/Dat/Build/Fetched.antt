-- ===== src/Dat/Build/Fetched.antt =====
-- What `_fetch_siblings` finds below a range of a sorted dictionary.
use sunet.Base.{
  ℕ, zero, suc, ◌+◌, ◌≤◌, ◌≡◌, refl, sym, ap, ◌∙◌, subst, false, List, [], ◌∷◌, ◌++◌, map, some,
  Bytes, length, get_elem?, ◌==◌, All, All-weaken, ◌⊎◌, Bool-cases, inl, inr, append_assoc,
  append-nil, length-append, arith,
}
use sunet.Dat.Build.{TreeNode, fetch_siblings}
use sunet.Dat.Build.Grow.{some_inj}
use sunet.Dat.Build.Stored.{Distinct, Orderly}
use sunet.Dat.Build.Siblings.{
  tree_node, groups, fetch_siblings-groups, fetch_siblings-short, groups-Distinct, Codes,
}
use sunet.Dat.Build.Ranges.{
  Spell, Spelled, Sorted, head_code, under, at_key, word_code-Spell, Codes-under, Ascending-Sorted,
  Inner, Leaf, IsRange,
}
use sunet.Dat.Build.Runs.{Member, Meets, Branch, End}
use sunet.Dat.Build.Below.{Runs, groups-Runs, Meets-later}

pub record Fetched (dicts : List (List Bytes)) (keys : List (List ℕ)) (s : TreeNode)
    (x : Inner keys s) : Type 0 where
  pub nodes : List TreeNode
  pub fetched : fetch_siblings dicts s ≡ some (length nodes, nodes)
  pub some_nodes : (length nodes == 0) ≡ false
  pub distinct : Distinct nodes
  pub ranges : All (IsRange keys) nodes
  pub children : All (λ n. Branch keys x.pre n ⊎ End keys x.pre n) nodes
  pub ends :
      x.first ≡ []
      → (n : TreeNode) × Member n nodes × (n.code ≡ 0) × (n.left ≡ s.left) × Leaf keys n
  pub meets :
      (j c : ℕ) (r : List ℕ)
      → get_elem? (x.first ∷ x.rests) j ≡ some (c ∷ r)
      → Meets keys nodes (s.left + j) c r

pub Spell-pos :
    (words : List Bytes) (pre : List ℕ) (c : ℕ) (r : List ℕ) → Spell words (pre ++ c ∷ r) → 1 ≤ c
Spell-pos [] [] c r h = ground (arith, h)
Spell-pos (w ∷ words) [] c r h = h.1
Spell-pos [] (p ∷ pre) c r h = ground (arith, h)
Spell-pos (w ∷ words) (p ∷ pre) c r h = Spell-pos words pre c r h.2

pub length-map : (rests : List (List ℕ)) → length (map head_code rests) ≡ length rests
length-map [] = refl
length-map (r ∷ rests) = ap suc (length-map rests)

groups-some :
    (depth left cur i : ℕ) (codes : List ℕ) → (length (groups depth left cur i codes) == 0) ≡ false
unfolding groups
groups-some depth left cur i [] = ground arith
groups-some depth left cur i (c ∷ codes) = elim (Bool-cases (cur == c)) [
  | inl e ↦ rw (groups, e) (groups-some depth left cur (i + 1) codes)
  | inr e ↦ rw (groups, e) (ground arith)
]

module _ (dicts : List (List Bytes)) (keys : List (List ℕ)) (spelled : Spelled dicts keys) where
  pub fetch_Inner :
      (s : TreeNode) (x : Inner keys s)
      → let nodes =
          groups (length x.pre) s.left (head_code x.first) (s.left + 1) (map head_code x.rests) in
        (fetch_siblings dicts s ≡ some (length nodes, nodes)) × Distinct nodes
  fetch_Inner s x =
      let codes =
        Codes-under dicts x.pre s.left x.before (x.first ∷ x.rests) x.after x.at_left
          (subst (Spelled dicts) x.whole spelled) in
      let up = Ascending-Sorted x.first x.rests x.sorted in
      let size : s.right ≡ s.left + suc (length (map head_code x.rests)) =
        x.at_right ∙ ap (λ n. s.left + suc n) (sym (length-map x.rests)) in
      (
        subst
            (λ d.
              fetch_siblings dicts s
              ≡ some (
                length (groups d s.left (head_code x.first) (s.left + 1) (map head_code x.rests)),
                groups d s.left (head_code x.first) (s.left + 1) (map head_code x.rests),
              ))
            (sym x.deep)
            (fetch_siblings-groups dicts s (head_code x.first) (map head_code x.rests)
              (subst (λ d. Codes dicts d s.left (map head_code (x.first ∷ x.rests))) x.deep codes)
              up size),
        groups-Distinct (length x.pre) s.left (head_code x.first) (s.left + 1)
            (map head_code x.rests) up,
      )

  -- A range whose first key goes on.
  fetched_long :
      (s : TreeNode) (x : Inner keys s) (c : ℕ) (t : List ℕ)
      → x.first ≡ c ∷ t
      → Fetched dicts keys s x
  fetched_long s x c t e =
      let (fetched, distinct) = fetch_Inner s x in
      let nodes =
        groups (length x.pre) s.left (head_code x.first) (s.left + 1) (map head_code x.rests) in
      let runs : Runs keys x.pre nodes s.left (x.first ∷ x.rests) =
        subst
          (λ f.
            Runs keys x.pre
              (groups (length x.pre) s.left (head_code f) (s.left + 1) (map head_code x.rests))
              s.left (f ∷ x.rests))
          (sym e)
          (groups-Runs keys x.pre x.after x.rests x.before c s.left (s.left + 1) t []
            (x.whole ∙ ap (λ f. x.before ++ (under x.pre (f ∷ x.rests) ++ x.after)) e) x.at_left
            (omega arith) (subst (λ f. Sorted (f ∷ x.rests)) e x.sorted)) in
      record {
        nodes = nodes;
        fetched = fetched;
        some_nodes =
            groups-some (length x.pre) s.left (head_code x.first) (s.left + 1)
              (map head_code x.rests);
        distinct = distinct;
        ranges = runs.ranges;
        children = All-weaken _ _ (λ n b. inl b) nodes runs.branches;
        ends = λ q. cc (e, q);
        meets = runs.meets;
      }

  -- The leaf of a key that ends.
  unfoldable Leaf-of :
      (s : TreeNode) (x : Inner keys s)
      → x.first ≡ []
      → Leaf keys (tree_node (length x.pre + 1) s.left (s.left + 1) 0)
  Leaf-of s x e = record {
    key = x.pre ++ [];
    before = x.before;
    after = under x.pre x.rests ++ x.after;
    whole = x.whole ∙ ap (λ f. x.before ++ (x.pre ++ f) ∷ (under x.pre x.rests ++ x.after)) e;
    at_left = x.at_left;
    at_right = refl;
    short = omega (arith, length-append x.pre []);
  }

  -- Behind a key that ends, the runs of the other keys.
  end-Runs :
      (pre : List ℕ) (before rests after : List (List ℕ)) (left : ℕ)
      → keys ≡ before ++ (under pre ([] ∷ rests) ++ after)
      → length before ≡ left
      → Sorted ([] ∷ rests)
      → (nodes : List TreeNode) × (groups (length pre) left 0 (left + 1) (map head_code rests)
          ≡ tree_node (length pre + 1) left (left + 1) 0 ∷ nodes)
        × Runs keys pre nodes (left + 1) rests
  unfolding groups
  end-Runs pre before [] after left whole at_left sorted =
      ([], refl, record { branches = tt; ranges = tt; meets = λ j c r h. cc h })
  end-Runs pre before ([] ∷ rests) after left whole at_left sorted = ground (arith, sorted)
  end-Runs pre before ((c ∷ t) ∷ rests) after left whole at_left sorted =
      let before' = before ++ (pre ++ []) ∷ [] in
      let whole' : keys ≡ before' ++ (under pre ((c ∷ t) ∷ rests) ++ after) =
        whole
        ∙ sym (append_assoc before ((pre ++ []) ∷ []) (under pre ((c ∷ t) ∷ rests) ++ after)) in
      let (words, at, spell) =
        at_key dicts before' (pre ++ c ∷ t) (under pre rests ++ after)
          (subst (Spelled dicts) whole' spelled) in
      let positive = Spell-pos words pre c t spell in
      let z : (0 == c) ≡ false = ground (arith, positive) in
      (
        groups (length pre) (left + 1) c (left + 1 + 1) (map head_code rests),
        rw (groups, z) refl,
        groups-Runs keys pre after rests before' c (left + 1) (left + 1 + 1) t [] whole'
            (omega (arith, at_left, length-append before ((pre ++ []) ∷ []))) (omega arith)
            sorted.1,
      )

  Meets-behind :
      (s : TreeNode) (x : Inner keys s) (more : List TreeNode) (c : ℕ) (r : List ℕ)
      → x.first ≡ []
      → Runs keys x.pre more (s.left + 1) x.rests
      → (j : ℕ) → get_elem? (x.first ∷ x.rests) j ≡ some (c ∷ r)
      → Meets keys (tree_node (length x.pre + 1) s.left (s.left + 1) 0 ∷ more) (s.left + j) c r
  Meets-behind s x more c r e runs zero h = cc (e, h)
  Meets-behind s x more c r e runs (suc j) h =
      subst (λ k. Meets keys (tree_node (length x.pre + 1) s.left (s.left + 1) 0 ∷ more) k c r)
        (omega arith)
        (Meets-later keys (tree_node (length x.pre + 1) s.left (s.left + 1) 0) more (s.left + 1 + j)
          c r (runs.meets j c r h))

  -- A range whose first key ends.
  fetched_short : (s : TreeNode) (x : Inner keys s) → x.first ≡ [] → Fetched dicts keys s x
  unfolding Leaf-of
  fetched_short s x e =
      let (fetched, distinct) = fetch_Inner s x in
      let leaf = Leaf-of s x e in
      let n = tree_node (length x.pre + 1) s.left (s.left + 1) 0 in
      let (more, split, runs) =
        end-Runs x.pre x.before x.rests x.after s.left
          (x.whole ∙ ap (λ f. x.before ++ (under x.pre (f ∷ x.rests) ++ x.after)) e) x.at_left
          (subst (λ f. Sorted (f ∷ x.rests)) e x.sorted) in
      let all : groups (length x.pre) s.left (head_code x.first) (s.left + 1)
            (map head_code x.rests)
          ≡ n ∷ more =
        ap (λ f. groups (length x.pre) s.left (head_code f) (s.left + 1) (map head_code x.rests)) e
        ∙ split in
      record {
        nodes = n ∷ more;
        fetched = subst (λ ns. fetch_siblings dicts s ≡ some (length ns, ns)) all fetched;
        some_nodes = ground arith;
        distinct = subst Distinct all distinct;
        ranges = (inr leaf, runs.ranges);
        children =
            (inr (leaf, append-nil x.pre, refl), All-weaken _ _ (λ i b. inl b) more runs.branches);
        ends = λ z. (n, inl refl, refl, refl, leaf);
        meets = λ j c r h. Meets-behind s x more c r e runs j h;
      }

  fetched_by :
      (s : TreeNode) (x : Inner keys s) (first : List ℕ) → x.first ≡ first → Fetched dicts keys s x
  fetched_by s x [] e = fetched_short s x e
  fetched_by s x (c ∷ t) e = fetched_long s x c t e

  -- Below a range `_fetch_siblings` finds siblings with different codes, which are ranges again: a
  -- leaf for the key that ends there, and for each key that goes on the range of its code.
  pub fetch_siblings-Inner : (s : TreeNode) (x : Inner keys s) → Fetched dicts keys s x
  fetch_siblings-Inner s x = fetched_by s x x.first refl

  pub fetch_siblings-Leaf : (s : TreeNode) → Leaf keys s → fetch_siblings dicts s ≡ some (0, [])
  fetch_siblings-Leaf s x =
      let (words, at, spell) =
        at_key dicts x.before x.key x.after (subst (Spelled dicts) x.whole spelled) in
      let (c, size) =
        word_code-Spell words x.key [] (subst (Spell words) (sym (append-nil x.key)) spell) in
      fetch_siblings-short dicts s words (ap (λ n. get_elem? dicts n) (sym x.at_left) ∙ at)
        (omega (arith, size, x.short)) x.at_right

  pub IsRange-Orderly : Orderly (IsRange keys) dicts
  IsRange-Orderly s fetched (inl x) e z =
      let below = fetch_siblings-Inner s x in
      let q : (length below.nodes, below.nodes) ≡ fetched = some_inj (sym below.fetched ∙ e) in
      subst (λ f. Distinct f.1 × All (IsRange keys) f.1) q (below.distinct, below.ranges)
  IsRange-Orderly s fetched (inr x) e z =
      let q : (0, []) ≡ fetched = some_inj (sym (fetch_siblings-Leaf s x) ∙ e) in
      subst (λ f. Distinct f.1 × All (IsRange keys) f.1) q (tt, tt)
