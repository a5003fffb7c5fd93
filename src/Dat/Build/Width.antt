-- ===== src/Dat/Build/Width.antt =====
-- How many words the nodes that `_fetch_siblings` finds stand for, and how far their codes go.
use sunet.Base.{
  ℕ, ◌+◌, ◌-◌, ◌≤◌, ◌<◌, ◌≡◌, refl, sym, ◌∙◌, subst, List, [], ◌∷◌, ◌++◌, map, Bytes, length, ◌==◌,
  All, Bool-cases, inl, inr, length-append, arith,
}
use sunet.Dat.Build.{TreeNode}
use sunet.Dat.Build.Grow.{some_inj}
use sunet.Dat.Build.Siblings.{groups}
use sunet.Dat.Build.Ranges.{Spelled, head_code, under, Inner}
use sunet.Dat.Build.Fetched.{fetch_siblings-Inner, fetch_Inner, length-map}

-- The words below the nodes.
abbrev pub width : List TreeNode → ℕ
width [] = 0
width (s ∷ nodes) = s.right - s.left + width nodes

abbrev pub AtMost : ℕ → List ℕ → Type 0
AtMost limit codes = All (λ c. c ≤ limit) codes

-- No key has more than `long` codes, and none of them is over `limit`.
abbrev pub Small : ℕ → ℕ → List (List ℕ) → Type 0
Small long limit keys = All (λ k. (length k ≤ long) × AtMost limit k) keys

-- Nodes of one depth, each over some words.
abbrev pub Level : ℕ → ℕ → List TreeNode → Type 0
Level limit depth nodes = All (λ s. (s.depth ≡ depth) × (s.code ≤ limit) × (s.left < s.right)) nodes

width-groups :
    (depth left cur i : ℕ) (codes : List ℕ)
    → left < i
    → width (groups depth left cur i codes) + left ≡ i + length codes
unfolding groups
width-groups depth left cur i [] h = omega (arith, h)
width-groups depth left cur i (c ∷ codes) h = elim (Bool-cases (cur == c)) [
  | inl e ↦
      rw (groups, e) (omega (arith, width-groups depth left cur (i + 1) codes (omega (arith, h))))
  | inr e ↦ rw (groups, e) (omega (arith, h, width-groups depth i c (i + 1) codes (omega arith)))
]

groups-Level :
    (limit depth left cur i : ℕ) (codes : List ℕ)
    → left < i
    → cur ≤ limit
    → AtMost limit codes
    → Level limit (depth + 1) (groups depth left cur i codes)
unfolding groups
groups-Level limit depth left cur i [] h k all = ((refl, k, h), tt)
groups-Level limit depth left cur i (c ∷ codes) h k all = elim (Bool-cases (cur == c)) [
  | inl e ↦
      rw (groups, e) (groups-Level limit depth left cur (i + 1) codes (omega (arith, h)) k all.1)
  | inr e ↦
      rw (groups, e)
        ((refl, k, h), groups-Level limit depth i c (i + 1) codes (omega arith) all.0 all.1)
]

All-later {ℓ κ} : {A : Type ℓ} (P : A → Type κ) (xs ys : List A) → All P (xs ++ ys) → All P ys
All-later P [] ys h = h
All-later P (x ∷ xs) ys h = All-later P xs ys h.1

All-earlier {ℓ κ} : {A : Type ℓ} (P : A → Type κ) (xs ys : List A) → All P (xs ++ ys) → All P xs
All-earlier P [] ys h = tt
All-earlier P (x ∷ xs) ys h = (h.0, All-earlier P xs ys h.1)

head_code_small : (limit : ℕ) (k : List ℕ) → AtMost limit k → head_code k ≤ limit
head_code_small limit [] h = omega arith
head_code_small limit (c ∷ k) h = h.0

heads-Small :
    (long limit : ℕ) (pre : List ℕ) (rests : List (List ℕ))
    → Small long limit (under pre rests)
    → AtMost limit (map head_code rests)
heads-Small long limit pre [] h = tt
heads-Small long limit pre (r ∷ rests) h = (
  head_code_small limit r (All-later (λ c. c ≤ limit) pre r h.0.1),
  heads-Small long limit pre rests h.1,
)

module _ (dicts : List (List Bytes)) (keys : List (List ℕ)) (spelled : Spelled dicts keys)
    (long limit : ℕ) (small : Small long limit keys) where
  range-Small :
      (s : TreeNode) (x : Inner keys s) → Small long limit (under x.pre (x.first ∷ x.rests))
  range-Small s x = All-earlier _ (under x.pre (x.first ∷ x.rests)) x.after (
      All-later _ x.before (under x.pre (x.first ∷ x.rests) ++ x.after)
        (subst (Small long limit) x.whole small))

  -- A range lies no deeper than its keys are long.
  pub Inner_depth : (s : TreeNode) (x : Inner keys s) → s.depth ≤ long
  Inner_depth s x = omega (arith, (range-Small s x).0.0, length-append x.pre x.first, x.deep)

  -- The siblings below a range stand for its words.
  pub Fetched-Level :
      (s : TreeNode) (x : Inner keys s)
      → let nodes = (fetch_siblings-Inner dicts keys spelled s x).nodes in
        Level limit (s.depth + 1) nodes × (width nodes ≡ s.right - s.left)
  Fetched-Level s x =
      let below = fetch_siblings-Inner dicts keys spelled s x in
      let less : s.left < s.left + 1 = omega arith in
      let all =
        groups (length x.pre) s.left (head_code x.first) (s.left + 1) (map head_code x.rests) in
      let wide : width all ≡ s.right - s.left = omega (
        arith,
        width-groups (length x.pre) s.left (head_code x.first) (s.left + 1) (map head_code x.rests)
            (omega arith),
        length-map x.rests,
        x.at_right,
      ) in
      let q : (length all, all) ≡ (length below.nodes, below.nodes) =
        some_inj (sym (fetch_Inner dicts keys spelled s x).0 ∙ below.fetched) in
      let heads = heads-Small long limit x.pre (x.first ∷ x.rests) (range-Small s x) in
      subst (λ f. Level limit (s.depth + 1) f.1 × (width f.1 ≡ s.right - s.left)) q
        (
          subst (λ d. Level limit (d + 1) all) x.deep
              (groups-Level limit (length x.pre) s.left (head_code x.first) (s.left + 1)
                (map head_code x.rests) less heads.0 heads.1),
          wide,
        )
