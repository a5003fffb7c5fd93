-- ===== src/Dat/Build/Tight.antt =====
-- Which slots belong to a place: those of its siblings, and no others.
use sunet.Base.{
  ℕ, zero, suc, ◌+◌, ◌≤◌, ◌<◌, ◌≡◌, ◌≢◌, refl, sym, ap, ◌∙◌, true, List, [], ◌∷◌, some, Bytes,
  get_elem?, All, All-weaken, Option-cases, same-cases, nat_order, inl, inr, ◌⊎◌,
}
use sunet.Base.Int.{ℤ, pos}
use sunet.Dat.Build.{DatImpl, TreeNode, fetch_siblings, set_at, mark_check}
use sunet.Dat.Build.Grow.{some_inj}
use sunet.Dat.Build.Slots.{set_at_lem}
use sunet.Dat.Build.Runs.{Member}

-- Every slot that is taken belongs to a place that is used.
abbrev pub Owned : DatImpl → Type 0
Owned t = (p b : ℕ) → get_elem? t.check p ≡ some (pos b) → 1 ≤ b → get_elem? t.used b ≡ some true

-- A place that is used gets no slot more, and every slot keeps its owner and, where `Hit` says so, its entry of
-- `_base`.
pub record Sealed (Hit : ℕ → Type 0) (t t' : DatImpl) : Type 0 where
  pub starts : (b : ℕ) → get_elem? t.used b ≡ some true → get_elem? t'.used b ≡ some true
  pub back :
      (b p : ℕ)
      → get_elem? t.used b ≡ some true
      → get_elem? t'.check p ≡ some (pos b)
      → get_elem? t.check p ≡ some (pos b)
  pub forth :
      (b p : ℕ) → 1 ≤ b → get_elem? t.check p ≡ some (pos b) → get_elem? t'.check p ≡ some (pos b)
  pub bases :
      (b p : ℕ)
      → 1 ≤ b
      → get_elem? t.check p ≡ some (pos b)
      → Hit p
      → get_elem? t'.base p ≡ get_elem? t.base p

pub Sealed-refl : (Hit : ℕ → Type 0) (t : DatImpl) → Sealed Hit t t
Sealed-refl Hit t = record {
  starts = λ b h. h;
  back = λ b p h c. c;
  forth = λ b p one c. c;
  bases = λ b p one c hit. refl;
}

pub Sealed-trans :
    (H H₁ H₂ : ℕ → Type 0) (t u v : DatImpl)
    → ((p b : ℕ) → 1 ≤ b → get_elem? t.check p ≡ some (pos b) → H p → H₁ p × H₂ p)
    → Sealed H₁ t u
    → Sealed H₂ u v
    → Sealed H t v
Sealed-trans H H₁ H₂ t u v hits x y = record {
  starts = λ b h. y.starts b (x.starts b h);
  back = λ b p h c. x.back b p h (y.back b p (x.starts b h) c);
  forth = λ b p one c. y.forth b p one (x.forth b p one c);
  bases = λ b p one c hit.
      let (h₁, h₂) = hits p b one c hit in
      y.bases b p one (x.forth b p one c) h₂ ∙ x.bases b p one c h₁;
}

-- A write of one entry of `_base`.
pub Sealed-base :
    (t : DatImpl) (base : List ℤ) (i progress : ℕ) (v : ℤ)
    → set_at t.base i v ≡ some base
    → Sealed (λ p. p ≢ i) t (record t { base = base; progress = progress })
Sealed-base t base i progress v e = record {
  starts = λ b h. h;
  back = λ b p h c. c;
  forth = λ b p one c. c;
  bases = λ b p one c hit. (set_at_lem t.base base i v e).1 p hit;
}

-- The slots with the owner `b` are those of the siblings.
abbrev pub Tight : DatImpl → ℕ → List TreeNode → Type 0
Tight t b nodes =
    (c : ℕ)
    → get_elem? t.check (b + c) ≡ some (pos b)
    → (s : TreeNode) × Member s nodes × (s.code ≡ c)

-- Each sibling has its slot, and `R` holds of the place that its entry of `_base` leads to.
abbrev pub Leads :
    List (List Bytes) → (ℕ → List TreeNode → Type 0) → DatImpl → ℕ → TreeNode → Type 0
Leads dicts R t b s =
    (get_elem? t.check (b + s.code) ≡ some (pos b))
    × ((x : ℕ) (fetched : ℕ × List TreeNode)
        → get_elem? t.base (b + s.code) ≡ some (pos x)
        → fetch_siblings dicts s ≡ some fetched
        → R x fetched.1)

pub record Spot (dicts : List (List Bytes)) (top : ℕ) (R : ℕ → List TreeNode → Type 0)
    (P : ℕ → Type 0) (t : DatImpl) (b : ℕ) (nodes : List TreeNode) : Type 0 where
  pub here : P b
  pub start : 1 ≤ b
  pub low : b < top
  pub used : get_elem? t.used b ≡ some true
  pub tight : Tight t b nodes
  pub leads : All (Leads dicts R t b) nodes

module _ (dicts : List (List Bytes)) (top : ℕ) where
  -- The place of the siblings is tight, and so are all places below it, over the levels; they lie below `top`,
  -- and `P` holds of them.
  unfoldable pub Tree : ℕ → (ℕ → Type 0) → DatImpl → ℕ → List TreeNode → Type 0
  Tree zero P t b nodes = zero ≡ suc zero
  Tree (suc k) P t b nodes = Spot dicts top (Tree k P t) P t b nodes

  -- From one state to another that keeps the slots of the places where `P` holds.
  pub Tree-carry :
      (k : ℕ) (P Q : ℕ → Type 0) (Hit : ℕ → Type 0) (t t' : DatImpl) (b : ℕ) (nodes : List TreeNode)
      → ((i : ℕ) → P i → Q i)
      → Sealed Hit t t'
      → ((i c : ℕ) → P i → 1 ≤ i → get_elem? t.check (i + c) ≡ some (pos i) → Hit (i + c))
      → Tree k P t b nodes
      → Tree k Q t' b nodes
  unfolding Tree
  Tree-carry zero P Q Hit t t' b nodes weaken seal hits h = h
  Tree-carry (suc k) P Q Hit t t' b nodes weaken seal hits x = record {
    here = weaken b x.here;
    start = x.start;
    low = x.low;
    used = seal.starts b x.used;
    tight = λ c h. x.tight c (seal.back b (b + c) x.used h);
    leads =
        All-weaken (Leads dicts (Tree k P t) t b) (Leads dicts (Tree k Q t') t' b)
          (λ s (own, lead). (
            seal.forth b (b + s.code) x.start own,
            λ y fetched v f. Tree-carry k P Q Hit t t' y fetched.1 weaken seal hits (
                lead y fetched
                  (sym (seal.bases b (b + s.code) x.start own (hits b s.code x.here x.start own))
                    ∙ v)
                  f),
          ))
          nodes x.leads;
  }

pub mark_check_back :
    (begin : ℕ) (nodes : List TreeNode) (check check' : List ℤ) (p : ℕ) (c : ℤ)
    → mark_check begin nodes check ≡ some check'
    → get_elem? check' p ≡ some c
    → ((s : TreeNode) × Member s nodes × (p ≡ begin + s.code)) ⊎ (get_elem? check p ≡ some c)
unfolding mark_check
mark_check_back begin [] check check' p c e h = inr (ap (λ zs. get_elem? zs p) (some_inj e) ∙ h)
mark_check_back begin (s ∷ nodes) check check' p c e h =
    elim (Option-cases (set_at check (begin + s.code) (pos begin))) [
      | inl n ↦ cc (rw (mark_check, n) at e)
      | inr (zs, n) ↦ elim (same-cases p (begin + s.code)) [
        | inl q ↦ inl (s, inl refl, q)
        | inr ne ↦ elim (mark_check_back begin nodes zs check' p c (rw (mark_check, n) at e) h) [
          | inl (r, m, q) ↦ inl (r, inr m, q)
          | inr k ↦ inr (sym ((set_at_lem check zs (begin + s.code) (pos begin) n).1 p ne) ∙ k)
        ]
      ]
    ]

module _ (dicts : List (List Bytes)) (top k : ℕ) where
  -- `P` may be weakened in what the siblings lead to.
  pub Leads-weaken :
      (P Q : ℕ → Type 0) (t : DatImpl) (b : ℕ) (nodes : List TreeNode)
      → ((i : ℕ) → P i → Q i)
      → All (Leads dicts (Tree dicts top k P t) t b) nodes
      → All (Leads dicts (Tree dicts top k Q t) t b) nodes
  Leads-weaken P Q t b nodes weaken h =
      All-weaken (Leads dicts (Tree dicts top k P t) t b) (Leads dicts (Tree dicts top k Q t) t b)
        (λ s (own, lead). (
          own,
          λ x fetched v f.
              Tree-carry dicts top k P Q (λ p. Unit) t t x fetched.1 weaken
                (Sealed-refl (λ p. Unit) t) (λ i p here one c. tt) (lead x fetched v f),
        ))
        nodes h
