-- ===== src/Dat/Build/Ranges.antt =====
-- Dictionaries in ascending order of the codes of their words, and the nodes over a range of words
-- with a common prefix.
use sunet.Base.{
  ℕ, zero, suc, ◌+◌, ◌≤◌, ◌<◌, ◌≡◌, refl, sym, ap, ◌∙◌, subst, true, false, List, [], ◌∷◌, ◌++◌,
  map, some, Bytes, length, get_elem?, ◌==◌, Bool-cases, inl, inr, ◌⊎◌, append_assoc, length-append,
  arith,
}
use sunet.Dat.{◌>>=◌, get_cn_code}
use sunet.Dat.Build.{TreeNode, word_code}
use sunet.Dat.Build.Siblings.{Codes, Ascending}

-- The codes of the words; none is 0, the code that ends an entry.
abbrev pub Spell : List Bytes → List ℕ → Type 0
Spell [] [] = Unit
Spell [] (c ∷ codes) = zero ≡ suc zero
Spell (w ∷ words) [] = zero ≡ suc zero
Spell (w ∷ words) (c ∷ codes) = (get_cn_code w ≡ some c) × (1 ≤ c) × Spell words codes

abbrev pub Spelled : List (List Bytes) → List (List ℕ) → Type 0
Spelled [] [] = Unit
Spelled [] (k ∷ keys) = zero ≡ suc zero
Spelled (d ∷ dicts) [] = zero ≡ suc zero
Spelled (d ∷ dicts) (k ∷ keys) = Spell d k × Spelled dicts keys

-- The order of the entries: a prefix first, then code by code.
abbrev pub Before : List ℕ → List ℕ → Type 0
Before xs [] = zero ≡ suc zero
Before [] (y ∷ ys) = Unit
Before (x ∷ xs) (y ∷ ys) = (x < y) ⊎ ((x ≡ y) × Before xs ys)

abbrev pub Sorted : List (List ℕ) → Type 0
Sorted [] = Unit
Sorted (k ∷ []) = Unit
Sorted (k ∷ l ∷ keys) = Before k l × Sorted (l ∷ keys)

abbrev pub head_code : List ℕ → ℕ
head_code [] = 0
head_code (c ∷ codes) = c

-- The prefix `pre` in front of every key.
abbrev pub under : List ℕ → List (List ℕ) → List (List ℕ)
under pre keys = map (λ k. pre ++ k) keys

-- The words that stand at a key.
pub at_key :
    (dicts : List (List Bytes)) (before : List (List ℕ)) (k : List ℕ) (after : List (List ℕ))
    → Spelled dicts (before ++ k ∷ after)
    → (words : List Bytes) × (get_elem? dicts (length before) ≡ some words) × Spell words k
at_key [] [] k after h = ground (arith, h)
at_key (d ∷ dicts) [] k after h = (d, refl, h.0)
at_key [] (b ∷ before) k after h = ground (arith, h)
at_key (d ∷ dicts) (b ∷ before) k after h = at_key dicts before k after h.1

word_code-suc :
    (w : Bytes) (words : List Bytes) (n : ℕ) → word_code (w ∷ words) (suc n) ≡ word_code words n
unfolding word_code
word_code-suc w words n = elim (Bool-cases (length words == n)) [
  | inl e ↦
      let e' : (suc (length words) == suc n) ≡ true = ground (arith, e) in
      rw (word_code, e, e') refl
  | inr e ↦
      let e' : (suc (length words) == suc n) ≡ false = ground (arith, e) in
      rw (word_code, e, e') refl
]

-- The code behind a prefix.
pub word_code-Spell :
    (words : List Bytes) (pre rest : List ℕ)
    → Spell words (pre ++ rest)
    → (word_code words (length pre) ≡ some (head_code rest))
      × (length words ≡ length pre + length rest)
unfolding word_code
word_code-Spell [] [] [] h = (refl, omega arith)
word_code-Spell [] [] (c ∷ rest) h = ground (arith, h)
word_code-Spell (w ∷ words) [] [] h = ground (arith, h)
word_code-Spell (w ∷ words) [] (c ∷ rest) (e, n, h) =
    let some_words : (suc (length words) == 0) ≡ false = ground arith in
    (rw (word_code, some_words, ◌>>=◌, e) refl, omega (arith, (word_code-Spell words [] rest h).1))
word_code-Spell [] (p ∷ pre) rest h = ground (arith, h)
word_code-Spell (w ∷ words) (p ∷ pre) rest (e, n, h) =
    let (c, size) = word_code-Spell words pre rest h in
    (word_code-suc w words (length pre) ∙ c, omega (arith, size))

-- The codes of a range of keys below a prefix.
pub Codes-under :
    (dicts : List (List Bytes)) (pre : List ℕ) (i : ℕ) (before rests after : List (List ℕ))
    → length before ≡ i
    → Spelled dicts (before ++ (under pre rests ++ after))
    → Codes dicts (length pre) i (map head_code rests)
Codes-under dicts pre i before [] after e h = tt
Codes-under dicts pre i before (r ∷ rests) after e h =
    let (words, at, spell) = at_key dicts before (pre ++ r) (under pre rests ++ after) h in
    let (c, size) = word_code-Spell words pre r spell in
    (
      (words, ap (λ n. get_elem? dicts n) (sym e) ∙ at, ground (arith, size), c),
      Codes-under dicts pre (i + 1) (before ++ (pre ++ r) ∷ []) rests after
          (omega (arith, e, length-append before ((pre ++ r) ∷ [])))
          (subst (Spelled dicts)
            (sym (append_assoc before ((pre ++ r) ∷ []) (under pre rests ++ after))) h),
    )

pub Sorted-tail : (k : List ℕ) (keys : List (List ℕ)) → Sorted (k ∷ keys) → Sorted keys
Sorted-tail k [] h = tt
Sorted-tail k (l ∷ keys) h = h.1

head_code-le : (k l : List ℕ) → Before k l → head_code k ≤ head_code l
head_code-le k [] h = ground (arith, h)
head_code-le [] (y ∷ ys) h = omega arith
head_code-le (x ∷ xs) (y ∷ ys) h = ground (arith, h)

pub Ascending-Sorted :
    (k : List ℕ) (keys : List (List ℕ))
    → Sorted (k ∷ keys)
    → Ascending (head_code k) (map head_code keys)
Ascending-Sorted k [] h = tt
Ascending-Sorted k (l ∷ keys) h = (head_code-le k l h.0, Ascending-Sorted l keys h.1)

-- A node over the keys that begin with `pre`.
pub record Inner (keys : List (List ℕ)) (s : TreeNode) : Type 0 where
  pub pre : List ℕ
  pub before : List (List ℕ)
  pub first : List ℕ
  pub rests : List (List ℕ)
  pub after : List (List ℕ)
  pub whole : keys ≡ before ++ (under pre (first ∷ rests) ++ after)
  pub at_left : length before ≡ s.left
  pub at_right : s.right ≡ s.left + suc (length rests)
  pub deep : length pre ≡ s.depth
  pub sorted : Sorted (first ∷ rests)

-- A node over one key that ends above its depth.
pub record Leaf (keys : List (List ℕ)) (s : TreeNode) : Type 0 where
  pub key : List ℕ
  pub before : List (List ℕ)
  pub after : List (List ℕ)
  pub whole : keys ≡ before ++ key ∷ after
  pub at_left : length before ≡ s.left
  pub at_right : s.right ≡ s.left + 1
  pub short : length key < s.depth

abbrev pub IsRange : List (List ℕ) → TreeNode → Type 0
IsRange keys s = Inner keys s ⊎ Leaf keys s
