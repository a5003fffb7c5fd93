-- ===== src/Util/Fields.antt =====
-- `split` against a reading of the text from left to right.
use sunet.Base.{
  ℕ, zero, suc, ◌+◌, ◌-◌, ◌<◌, ◌≡◌, refl, sym, ap, inl, inr, Bool, true, false, List, [], ◌∷◌, ◌++◌,
  none, some, arith, Option-cases, ◌==◌, if◌then◌else◌, Bool-cases, Bytes, length, take, drop,
  drop-drop, append_assoc,
}
use sunet.Util.{
  split, split_loop, split_end, last_byte, find_from, find_first_of, is_member, substr,
}

length-drop : (n : ℕ) (s : Bytes) → length (drop n s) ≡ length s - n
length-drop zero s = omega arith
length-drop (suc n) [] = omega arith
length-drop (suc n) (c ∷ s) = omega (arith, length-drop n s)

-- Puts a byte in front of the first piece, or opens a new piece at a delimiter.
unfoldable pub glue : Bool → ℕ → List Bytes → List Bytes
glue true c ps = [] ∷ ps
glue false c [] = (c ∷ []) ∷ []
glue false c (p ∷ ps) = (c ∷ p) ∷ ps

-- The text cut at every delimiter.
unfoldable pub fields : Bytes → Bytes → List Bytes
fields delim [] = [] ∷ []
fields delim (c ∷ s) = glue (is_member c delim) c (fields delim s)

fields-find : (delim s : Bytes) (i : ℕ) → find_from delim s i ≡ none → fields delim s ≡ s ∷ []
unfolding fields glue find_from
fields-find delim [] i h = refl
fields-find delim (c ∷ s) i h = ground (arith, fields-find delim s (i + 1))

fields-find_some :
    (delim s : Bytes) (i j : ℕ)
    → find_from delim s i ≡ some j
    → (k : ℕ) × (j ≡ i + k)
      × (k < length s)
      × (fields delim s ≡ take k s ∷ fields delim (drop (suc k) s))
unfolding fields glue find_from
fields-find_some delim [] i j h = cc
fields-find_some delim (c ∷ s) i j h = elim (Bool-cases (is_member c delim)) [
  | inl e ↦ (0, ground arith, omega arith, rw e)
  | inr e ↦
      let (k, at, inside, cut) = fields-find_some delim s (i + 1) j (ground arith) in
      (suc k, omega arith, omega arith, rw (e, cut))
]

first_none :
    (str delim : Bytes) (last : ℕ)
    → find_first_of str delim last ≡ none
    → fields delim (drop last str) ≡ drop last str ∷ []
unfolding find_first_of
first_none str delim last = fields-find delim (drop last str) last

first_some :
    (str delim : Bytes) (last j : ℕ)
    → find_first_of str delim last ≡ some j
    → (k : ℕ) × (j ≡ last + k)
      × (k < length (drop last str))
      × (fields delim (drop last str)
          ≡ take k (drop last str) ∷ fields delim (drop (suc k) (drop last str)))
unfolding find_first_of
first_some str delim last = fields-find_some delim (drop last str) last

split_loop-fields :
    (fuel : ℕ) (str delim : Bytes) (last : ℕ) (ret : List Bytes)
    → length (drop last str) < fuel
    → (split_loop fuel str delim last ret).1 ++ drop (split_loop fuel str delim last ret).0 str ∷ []
      ≡ ret ++ fields delim (drop last str)
unfolding split_loop
split_loop-fields zero str delim last ret h = absurd (omega arith)
split_loop-fields (suc fuel) str delim last ret h =
    elim (Option-cases (find_first_of str delim last)) [
      | inl e ↦ rw (e, split_loop, first_none str delim last e)
      | inr (j, e) ↦
          let (k, at, inside, cut) = first_some str delim last j e in
          let rest : drop (suc k) (drop last str) ≡ drop (j + 1) str =
            rw drop-drop (ap (λ (n : ℕ). drop n str) (omega arith)) in
          rw
            (
              e,
              split_loop,
              split_loop-fields fuel str delim (j + 1) (ret ++ substr str last (j - last) ∷ [])
                  (rw (← rest) (omega (arith, length-drop (suc k) (drop last str)))),
              cut,
              rest,
              append_assoc,
            )
            (ap (λ (n : ℕ). ret ++ take n (drop last str) ∷ fields delim (drop (j + 1) str))
              (omega arith))
    ]

unfoldable pub but_last {ℓ} : {A : Type ℓ} → List A → List A
but_last [] = []
but_last (x ∷ []) = []
but_last (x ∷ y ∷ xs) = x ∷ but_last (y ∷ xs)

but_last-append {ℓ} : {A : Type ℓ} (xs : List A) (x : A) → but_last (xs ++ x ∷ []) ≡ xs
unfolding but_last
but_last-append [] x = refl
but_last-append (y ∷ []) x = refl
but_last-append (y ∷ z ∷ xs) x = ap (◌∷◌ y) (but_last-append (z ∷ xs) x)

-- A text, taken whole.
pub take_all : (s : Bytes) → take (length s) s ≡ s
take_all [] = refl
take_all (c ∷ s) = ap (◌∷◌ c) (take_all s)

sub_zero : (n : ℕ) → n - 0 ≡ n
sub_zero n = omega arith

sub_suc : (n m : ℕ) → suc n - suc m ≡ n - m
sub_suc n m = omega arith

take_rest : (l : ℕ) (s : Bytes) → take (length s - l) (drop l s) ≡ drop l s
take_rest zero [] = refl
take_rest zero (c ∷ s) = rw (sub_zero (suc (length s))) (ap (◌∷◌ c) (take_all s))
take_rest (suc l) [] = ground arith
take_rest (suc l) (c ∷ s) = rw (sub_suc (length s) l) (take_rest l s)

-- `split` cuts at every delimiter; a text that ends in a tab loses its last piece.
pub split-fields :
    (c : ℕ) (s : Bytes) (d : ℕ) (ds : Bytes)
    → split (c ∷ s) (d ∷ ds) ≡ (
        if last_byte (c ∷ s) == b'\t'
        then but_last (fields (d ∷ ds) (c ∷ s))
        else fields (d ∷ ds) (c ∷ s))
unfolding split split_end
split-fields c s d ds =
    let (l, ret) = split_loop (suc (length (c ∷ s))) (c ∷ s) (d ∷ ds) 0 [] in
    let whole : ret ++ drop l (c ∷ s) ∷ [] ≡ fields (d ∷ ds) (c ∷ s) =
      split_loop-fields (suc (length (c ∷ s))) (c ∷ s) (d ∷ ds) 0 [] (omega arith) in
    elim (Bool-cases (last_byte (c ∷ s) == b'\t')) [
      | inl tab ↦ rw (tab, ← whole) (sym (but_last-append ret _))
      | inr other ↦ rw (other, take_rest l (c ∷ s)) whole
    ]
