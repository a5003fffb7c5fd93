-- ===== src/Dat/Build/Runs.antt =====
-- The runs of the keys below a prefix: each is a range again, and holds the keys with its code.
use sunet.Base.{
  ℕ, zero, suc, ◌+◌, ◌≤◌, ◌<◌, ◌≡◌, refl, ap, ◌∙◌, List, [], ◌∷◌, ◌++◌, some, length, get_elem?,
  inl, inr, ◌⊎◌, append_assoc, length-append, arith,
}
use sunet.Dat.Build.{TreeNode}
use sunet.Dat.Build.Grow.{some_inj}
use sunet.Dat.Build.Siblings.{tree_node}
use sunet.Dat.Build.Ranges.{Before, Sorted, under, Inner, Leaf}

abbrev pub Member : TreeNode → List TreeNode → Type 0
Member s [] = zero ≡ suc zero
Member s (n ∷ nodes) = (s ≡ n) ⊎ Member s nodes

-- The node for a key with the code `c` and the number `k`: the rest `r` of the key stands in its range.
pub record Meets (keys : List (List ℕ)) (nodes : List TreeNode) (k c : ℕ) (r : List ℕ)
    : Type 0 where
  pub node : TreeNode
  pub member : Member node nodes
  pub code : node.code ≡ c
  pub range : Inner keys node
  pub at : ℕ
  pub here : get_elem? (range.first ∷ range.rests) at ≡ some r
  pub index : node.left + at ≡ k

-- A sibling with the keys that begin with `pre` and its code.
abbrev pub Branch : List (List ℕ) → List ℕ → TreeNode → Type 0
Branch keys pre s = (x : Inner keys s) × (x.pre ≡ pre ++ s.code ∷ [])

-- A sibling for the key `pre`, which ends.
abbrev pub End : List (List ℕ) → List ℕ → TreeNode → Type 0
End keys pre s = (x : Leaf keys s) × (x.key ≡ pre) × (s.code ≡ 0)

pub under-append :
    (pre : List ℕ) (a b : List (List ℕ)) → under pre (a ++ b) ≡ under pre a ++ under pre b
under-append pre [] b = refl
under-append pre (x ∷ a) b = ap (λ ks. (pre ++ x) ∷ ks) (under-append pre a b)

pub under-under :
    (pre : List ℕ) (c : ℕ) (a : List (List ℕ))
    → under pre (under (c ∷ []) a) ≡ under (pre ++ c ∷ []) a
under-under pre c [] = refl
under-under pre c (x ∷ a) = rw (append_assoc pre (c ∷ []) x, under-under pre c a) refl

pub length-under : (pre : List ℕ) (a : List (List ℕ)) → length (under pre a) ≡ length a
length-under pre [] = refl
length-under pre (x ∷ a) = ap suc (length-under pre a)

Before-same : (c : ℕ) (x y : List ℕ) → Before (c ∷ x) (c ∷ y) → Before x y
Before-same c x y (inl h) = ground (arith, h)
Before-same c x y (inr (q, h)) = h

-- The keys of a run are sorted, and behind it a greater code follows, or its own.
pub Sorted-run :
    (c : ℕ) (t : List ℕ) (tails rests : List (List ℕ))
    → Sorted (under (c ∷ []) (t ∷ tails) ++ rests)
    → Sorted (t ∷ tails)
Sorted-run c t [] rests h = tt
Sorted-run c t (u ∷ tails) rests (b, h) = (Before-same c t u b, Sorted-run c u tails rests h)

Before-next :
    (c : ℕ) (t r : List ℕ) → Before (c ∷ t) r → (d : ℕ) × (r' : List ℕ) × (r ≡ d ∷ r') × (c ≤ d)
Before-next c t [] h = ground (arith, h)
Before-next c t (d ∷ r') (inl h) = (d, r', refl, omega (arith, h))
Before-next c t (d ∷ r') (inr (q, h)) = (d, r', refl, omega (arith, q))

pub run_next :
    (c : ℕ) (t : List ℕ) (tails : List (List ℕ)) (r : List ℕ) (rests : List (List ℕ))
    → Sorted (under (c ∷ []) (t ∷ tails) ++ r ∷ rests)
    → ((d : ℕ) × (r' : List ℕ) × (r ≡ d ∷ r') × (c ≤ d)) × Sorted (r ∷ rests)
run_next c t [] r rests (b, h) = (Before-next c t r b, h)
run_next c t (u ∷ tails) r rests (b, h) = run_next c u tails r rests h

-- An entry of a list in two parts.
pub get_elem?-split {ℓ} :
    {A : Type ℓ} (xs ys : List A) (j : ℕ)
    → (get_elem? (xs ++ ys) j ≡ get_elem? xs j × j < length xs)
      ⊎ ((n : ℕ) × (j ≡ length xs + n) × (get_elem? (xs ++ ys) j ≡ get_elem? ys n))
get_elem?-split [] ys j = inr (j, omega arith, refl)
get_elem?-split (x ∷ xs) ys zero = inl (refl, omega arith)
get_elem?-split (x ∷ xs) ys (suc j) = elim (get_elem?-split xs ys j) [
  | inl (e, h) ↦ inl (e, omega (arith, h))
  | inr (n, q, e) ↦ inr (n, omega (arith, q), e)
]

-- An entry of a run.
pub under_elem :
    (c d : ℕ) (tails : List (List ℕ)) (j : ℕ) (r : List ℕ)
    → get_elem? (under (c ∷ []) tails) j ≡ some (d ∷ r)
    → (c ≡ d) × (get_elem? tails j ≡ some r)
under_elem c d [] j r h = cc h
under_elem c d (t ∷ tails) zero r h = let q : c ∷ t ≡ d ∷ r = some_inj h in (cc q, ap some (cc q))
under_elem c d (t ∷ tails) (suc j) r h = under_elem c d tails j r h

-- A run that is whole.
unfoldable pub run_Inner :
    (keys : List (List ℕ)) (pre : List ℕ) (after before : List (List ℕ)) (c left i : ℕ) (t : List ℕ)
    (tails rests : List (List ℕ))
    → keys ≡ before ++ (under pre (under (c ∷ []) (t ∷ tails) ++ rests) ++ after)
    → length before ≡ left
    → i ≡ left + suc (length tails)
    → Sorted (under (c ∷ []) (t ∷ tails) ++ rests)
    → Inner keys (tree_node (length pre + 1) left i c)
run_Inner keys pre after before c left i t tails rests whole at_left at_i sorted = record {
  pre = pre ++ c ∷ [];
  before = before;
  first = t;
  rests = tails;
  after = under pre rests ++ after;
  whole =
      whole
      ∙ ap (λ ks. before ++ ks)
          (ap (λ ks. ks ++ after)
              (under-append pre (under (c ∷ []) (t ∷ tails)) rests
                ∙ ap (λ ks. ks ++ under pre rests) (under-under pre c (t ∷ tails)))
            ∙ append_assoc (under (pre ++ c ∷ []) (t ∷ tails)) (under pre rests) after);
  at_left = at_left;
  at_right = at_i;
  deep = omega (arith, length-append pre (c ∷ []));
  sorted = Sorted-run c t tails rests sorted;
}
