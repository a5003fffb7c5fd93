-- ===== src/Dat/Build/Slots.antt =====
-- What `_insert` does to the slots of the arrays, where they do not grow.
use sunet.Base.{
  ℕ, zero, suc, ◌+◌, ◌≤◌, ◌<◌, ◌≡◌, ◌≢◌, refl, sym, ap, ◌∙◌, subst, true, false, List, [], ◌∷◌,
  some, length, get_elem?, set, ltb, same, same→eq, same-cases, nat_order, All, Bool-cases,
  Option-cases, inl, inr, arith,
}
use sunet.Base.Int.{ℤ, pos, int_order}
use sunet.Dat.{◌>>=◌}
use sunet.Dat.Build.{DatImpl, Memory, TreeNode, set_at, any_taken, mark_check, claim_slots}
use sunet.Dat.Build.Grow.{some_inj, Grows, Found}

get_elem?-set_ne {ℓ} :
    {A : Type ℓ} (xs : List A) (i j : ℕ) (v : A) → j ≢ i → get_elem? (set xs i v) j ≡ get_elem? xs j
get_elem?-set_ne [] i j v h = refl
get_elem?-set_ne (x ∷ xs) zero zero v h = absurd (h refl)
get_elem?-set_ne (x ∷ xs) zero (suc j) v h = refl
get_elem?-set_ne (x ∷ xs) (suc i) zero v h = refl
get_elem?-set_ne (x ∷ xs) (suc i) (suc j) v h = get_elem?-set_ne xs i j v (λ q. h (ap suc q))

get_elem?-set_self {ℓ} :
    {A : Type ℓ} (xs : List A) (i : ℕ) (v : A) → i < length xs → get_elem? (set xs i v) i ≡ some v
get_elem?-set_self [] i v h = ground (arith, h)
get_elem?-set_self (x ∷ xs) zero v h = refl
get_elem?-set_self (x ∷ xs) (suc i) v h = get_elem?-set_self xs i v (omega (arith, h))

-- A write that stays in the array.
pub set_at_lem {ℓ} :
    {A : Type ℓ} (xs ys : List A) (i : ℕ) (v : A)
    → set_at xs i v ≡ some ys
    → (get_elem? ys i ≡ some v) × ((j : ℕ) → j ≢ i → get_elem? ys j ≡ get_elem? xs j)
unfolding set_at
set_at_lem xs ys i v e = elim (Bool-cases (ltb i (length xs))) [
  | inr t ↦ cc (rw (set_at, t) at e)
  | inl t ↦
      let q : set xs i v ≡ ys = some_inj (rw (set_at, t) at e) in
      (
        ap (λ zs. get_elem? zs i) (sym q) ∙ get_elem?-set_self xs i v (ground (arith, t)),
        λ j h. ap (λ zs. get_elem? zs j) (sym q) ∙ get_elem?-set_ne xs i j v h,
      )
]

-- The index `p` is none of the siblings' slots.
abbrev pub Apart : ℕ → ℕ → List TreeNode → Type 0
Apart begin p siblings = All (λ s. p ≢ begin + s.code) siblings

-- The siblings' slots hold `begin`.
abbrev pub Claimed : List ℤ → ℕ → List TreeNode → Type 0
Claimed check begin siblings =
    All (λ s. get_elem? check (begin + s.code) ≡ some (pos begin)) siblings

-- A slot that is taken is none of those that are free.
any_taken-Apart :
    (check : List ℤ) (begin : ℕ) (siblings : List TreeNode) (p : ℕ) (c : ℤ)
    → any_taken check begin siblings ≡ some false
    → get_elem? check p ≡ some c
    → c ≢ pos 0
    → Apart begin p siblings
unfolding any_taken
any_taken-Apart check begin [] p c e h k = tt
any_taken-Apart check begin (s ∷ siblings) p c e h k =
    elim (Option-cases (get_elem? check (begin + s.code))) [
      | inl n ↦ cc (rw (any_taken, n) at e)
      | inr (d, n) ↦ elim (Bool-cases (same d (pos 0))) [
        | inr z ↦ cc (rw (any_taken, n, ◌>>=◌, z) at e)
        | inl z ↦ (
          λ q. k (some_inj (sym h ∙ ap (λ (i : ℕ). get_elem? check i) q ∙ n) ∙ same→eq d (pos 0) z),
          any_taken-Apart check begin siblings p c (rw (any_taken, n, ◌>>=◌, z) at e) h k,
        )
      ]
    ]

mark_check-Apart :
    (begin : ℕ) (siblings : List TreeNode) (check check' : List ℤ) (p : ℕ)
    → mark_check begin siblings check ≡ some check'
    → Apart begin p siblings
    → get_elem? check' p ≡ get_elem? check p
unfolding mark_check
mark_check-Apart begin [] check check' p e h = ap (λ zs. get_elem? zs p) (sym (some_inj e))
mark_check-Apart begin (s ∷ siblings) check check' p e h =
    elim (Option-cases (set_at check (begin + s.code) (pos begin))) [
      | inl n ↦ cc (rw (mark_check, n) at e)
      | inr (zs, n) ↦
          mark_check-Apart begin siblings zs check' p (rw (mark_check, n) at e) h.1
          ∙ (set_at_lem check zs (begin + s.code) (pos begin) n).1 p h.0
    ]

-- A slot that holds `begin` holds it on.
mark_check_kept :
    (begin : ℕ) (siblings : List TreeNode) (check check' : List ℤ) (p : ℕ)
    → mark_check begin siblings check ≡ some check'
    → get_elem? check p ≡ some (pos begin)
    → get_elem? check' p ≡ some (pos begin)
unfolding mark_check
mark_check_kept begin [] check check' p e h = ap (λ zs. get_elem? zs p) (sym (some_inj e)) ∙ h
mark_check_kept begin (s ∷ siblings) check check' p e h =
    elim (Option-cases (set_at check (begin + s.code) (pos begin))) [
      | inl n ↦ cc (rw (mark_check, n) at e)
      | inr (zs, n) ↦
          let (here, there) = set_at_lem check zs (begin + s.code) (pos begin) n in
          mark_check_kept begin siblings zs check' p (rw (mark_check, n) at e)
            (elim (same-cases p (begin + s.code)) [
              | inl q ↦ ap (λ (i : ℕ). get_elem? zs i) q ∙ here
              | inr ne ↦ there p ne ∙ h
            ])
    ]

mark_check-Claimed :
    (begin : ℕ) (siblings : List TreeNode) (check check' : List ℤ)
    → mark_check begin siblings check ≡ some check'
    → Claimed check' begin siblings
unfolding mark_check
mark_check-Claimed begin [] check check' e = tt
mark_check-Claimed begin (s ∷ siblings) check check' e =
    elim (Option-cases (set_at check (begin + s.code) (pos begin))) [
      | inl n ↦ cc (rw (mark_check, n) at e)
      | inr (zs, n) ↦
          let e' : mark_check begin siblings zs ≡ some check' = rw (mark_check, n) at e in
          (
            mark_check_kept begin siblings zs check' (begin + s.code) e'
                (set_at_lem check zs (begin + s.code) (pos begin) n).0,
            mark_check-Claimed begin siblings zs check' e',
          )
    ]

-- The words are the same, and while the arrays do not grow, what is taken stays as it is.
pub record Kept (t t' : DatImpl) : Type 0 where
  pub words : t'.dicts ≡ t.dicts
  pub le : t.size ≤ t'.size
  pub slots :
      t'.size ≡ t.size
      → (p : ℕ) (c : ℤ) → get_elem? t.check p ≡ some c
      → c ≢ pos 0
      → (get_elem? t'.check p ≡ some c) × (get_elem? t'.base p ≡ get_elem? t.base p)
  pub starts :
      t'.size ≡ t.size → (p : ℕ) → get_elem? t.used p ≡ some true → get_elem? t'.used p ≡ some true

pub Kept-refl : (t : DatImpl) → Kept t t
Kept-refl t = record {
  words = refl;
  le = omega arith;
  slots = λ e p c h k. (h, refl);
  starts = λ e p h. h;
}

pub Kept-trans : (t u v : DatImpl) → Kept t u → Kept u v → Kept t v
Kept-trans t u v h k = record {
  words = k.words ∙ h.words;
  le = omega (arith, h.le, k.le);
  slots = λ e p c a b.
      let (check, base) = h.slots (omega (arith, e, h.le, k.le)) p c a b in
      let (check', base') = k.slots (omega (arith, e, h.le, k.le)) p c check b in
      (check', base' ∙ base);
  starts = λ e p a.
      k.starts (omega (arith, e, h.le, k.le)) p (h.starts (omega (arith, e, h.le, k.le)) p a);
}

-- The slots of a place that was found are claimed.
pub record Claims (t : DatImpl) (begin : ℕ) (siblings : List TreeNode) (v : DatImpl) : Type 0 where
  pub kept : Kept t v
  pub claimed : Claimed v.check begin siblings
  pub started : get_elem? v.used begin ≡ some true
  pub fresh : v.size ≡ t.size → get_elem? t.used begin ≡ some false
  pub start : 1 ≤ begin
  pub apart :
      v.size ≡ t.size
      → (p : ℕ) (c : ℤ) → get_elem? t.check p ≡ some c
      → c ≢ pos 0
      → Apart begin p siblings

module _ (memory : Memory) (grows : Grows memory) where
  pub claim_slots-Claims :
      (t u v : DatImpl) (begin at : ℕ) (s : TreeNode) (more : List TreeNode)
      → Found memory grows t s more (begin, at, u)
      → claim_slots memory begin at (s ∷ more) u ≡ some v
      → Claims t begin (s ∷ more) v
  unfolding claim_slots
  claim_slots-Claims t u v begin at s more f e = elim (Option-cases (set_at u.used begin true)) [
    | inl n ↦ cc (rw (claim_slots, n) at e)
    | inr (used, n) ↦ elim (Option-cases (mark_check begin (s ∷ more) u.check)) [
      | inl m ↦ cc (rw (claim_slots, n, ◌>>=◌, m) at e)
      | inr (check, m) ↦
          let (here, there) = set_at_lem u.used used begin true n in
          subst (Claims t begin (s ∷ more)) (some_inj (rw (claim_slots, n, ◌>>=◌, m) at e))
            (record {
              kept = record {
                words = f.same.words;
                le = f.same.le;
                slots = λ q p c h k.
                    let (b, c', w) = f.same.arrays q in
                    let h' : get_elem? u.check p ≡ some c = ap (λ zs. get_elem? zs p) c' ∙ h in
                    (
                      mark_check-Apart begin (s ∷ more) u.check check p m
                            (any_taken-Apart u.check begin (s ∷ more) p c f.free h' k)
                          ∙ h',
                      ap (λ zs. get_elem? zs p) b,
                    );
                starts = λ q p h.
                    let (b, c', w) = f.same.arrays q in
                    elim (same-cases p begin) [
                      | inl r ↦ ap (λ (i : ℕ). get_elem? used i) r ∙ here
                      | inr ne ↦ there p ne ∙ ap (λ zs. get_elem? zs p) w ∙ h
                    ];
              };
              claimed = mark_check-Claimed begin (s ∷ more) u.check check m;
              started = here;
              fresh = f.fresh;
              start = f.start;
              apart = λ q p c h k.
                  let (b, c', w) = f.same.arrays q in
                  any_taken-Apart u.check begin (s ∷ more) p c f.free
                    (ap (λ zs. get_elem? zs p) c' ∙ h) k;
            })
    ]
  ]
