-- ===== src/Dat/Build/Wrote.antt =====
-- One sibling after another is stored: what each write leaves of those before it.
use sunet.Base.{
  ℕ, ◌+◌, ◌≤◌, ◌≡◌, ◌≢◌, refl, ap, ◌∙◌, true, List, ◌∷◌, some, get_elem?, All, All-weaken, inl, inr,
  arith,
}
use sunet.Base.Int.{ℤ, pos}
use sunet.Dat.Build.{DatImpl, TreeNode, fetch_siblings}
use sunet.Dat.Build.Slots.{Apart, Claimed}
use sunet.Dat.Build.Stored.{
  Linked, Stored, pos_ne, Stored-carry, Distinct, Claimed-Apart, Distinct-Apart,
}

pub record Placed (fuel : ℕ) (P : ℕ → Type 0) (t : DatImpl) (begin : ℕ) (siblings : List TreeNode)
    (t' : DatImpl) : Type 0 where
  pub words : t'.dicts ≡ t.dicts
  pub le : t.size ≤ t'.size
  pub slots :
      t'.size ≡ t.size
      → (p : ℕ) (c : ℤ) → get_elem? t.check p ≡ some c
      → c ≢ pos 0
      → (get_elem? t'.check p ≡ some c)
        × (Apart begin p siblings → get_elem? t'.base p ≡ get_elem? t.base p)
  pub starts :
      t'.size ≡ t.size → (p : ℕ) → get_elem? t.used p ≡ some true → get_elem? t'.used p ≡ some true
  pub linked :
      t'.size ≡ t.size
      → All
          (λ s.
            (get_elem? t'.check (begin + s.code) ≡ some (pos begin))
            × Linked (Stored fuel P t') t' begin s)
          siblings

-- One more sibling, whose entry of `_base` is written in `t₁`, a state that keeps what is taken in `t` but for
-- the slot of the sibling.
pub record Wrote (fuel : ℕ) (P : ℕ → Type 0) (t : DatImpl) (begin : ℕ) (s : TreeNode) (t₁ : DatImpl)
    : Type 0 where
  pub words : t₁.dicts ≡ t.dicts
  pub le : t.size ≤ t₁.size
  pub slots :
      t₁.size ≡ t.size
      → (p : ℕ) (c : ℤ) → get_elem? t.check p ≡ some c
      → c ≢ pos 0
      → (get_elem? t₁.check p ≡ some c)
        × (p ≢ begin + s.code → get_elem? t₁.base p ≡ get_elem? t.base p)
  pub starts :
      t₁.size ≡ t.size → (p : ℕ) → get_elem? t.used p ≡ some true → get_elem? t₁.used p ≡ some true
  pub link : t₁.size ≡ t.size → Linked (Stored fuel P t₁) t₁ begin s

pub Claimed-kept :
    (t t₁ : DatImpl) (begin : ℕ) (siblings : List TreeNode)
    → 1 ≤ begin
    → ((p : ℕ) (c : ℤ) → get_elem? t.check p ≡ some c → c ≢ pos 0 → get_elem? t₁.check p ≡ some c)
    → Claimed t.check begin siblings
    → Claimed t₁.check begin siblings
Claimed-kept t t₁ begin siblings start keep h =
    All-weaken (λ s. get_elem? t.check (begin + s.code) ≡ some (pos begin))
      (λ s. get_elem? t₁.check (begin + s.code) ≡ some (pos begin))
      (λ s c. keep (begin + s.code) (pos begin) c (pos_ne begin start)) siblings h

-- What was linked keeps a weaker property.
pub Linked-weaken :
    (fuel : ℕ) (P R : ℕ → Type 0) (t : DatImpl) (begin : ℕ) (siblings : List TreeNode)
    → ((b : ℕ) → R b → P b)
    → All
        (λ s.
          (get_elem? t.check (begin + s.code) ≡ some (pos begin))
          × Linked (Stored fuel R t) t begin s)
        siblings
    → All
        (λ s.
          (get_elem? t.check (begin + s.code) ≡ some (pos begin))
          × Linked (Stored fuel P t) t begin s)
        siblings
Linked-weaken fuel P R t begin siblings weaken h =
    All-weaken
      (λ s.
        (get_elem? t.check (begin + s.code) ≡ some (pos begin))
        × Linked (Stored fuel R t) t begin s)
      (λ s.
        (get_elem? t.check (begin + s.code) ≡ some (pos begin))
        × Linked (Stored fuel P t) t begin s)
      (λ s (c, (fetched, f, linked)). (
        c,
        (
          fetched,
          f,
          elim linked [
            | inl x ↦ inl x
            | inr (z, (sub, v, below)) ↦ inr (
              z,
              (
                sub,
                v,
                Stored-carry fuel R P t t sub fetched.1 refl weaken
                    (λ p b new one far c'. (c', refl)) below,
              ),
            )
          ],
        ),
      ))
      siblings h

pub Placed-cons :
    (fuel : ℕ) (P R : ℕ → Type 0) (t t₁ t' : DatImpl) (begin : ℕ) (s : TreeNode)
    (siblings : List TreeNode)
    → 1 ≤ begin
    → ((b : ℕ) → P b → b ≢ begin)
    → Claimed t.check begin (s ∷ siblings)
    → Distinct (s ∷ siblings)
    → Wrote fuel P t begin s t₁
    → (t₁.size ≡ t.size → (b : ℕ) → R b → P b)
    → Placed fuel R t₁ begin siblings t'
    → Placed fuel P t begin (s ∷ siblings) t'
Placed-cons fuel P R t t₁ t' begin s siblings start apart claimed distinct w weaken l =
    let low : t'.size ≡ t.size → t₁.size ≡ t.size = λ q. omega (arith, q, w.le, l.le) in
    let high : t'.size ≡ t.size → t'.size ≡ t₁.size = λ q. omega (arith, q, w.le, l.le) in
    let ne = pos_ne begin start in
    record {
      words = l.words ∙ w.words;
      le = omega (arith, w.le, l.le);
      slots = λ q p c h k.
          let (c₁, b₁) = w.slots (low q) p c h k in
          let (c₂, b₂) = l.slots (high q) p c c₁ k in (c₂, λ a. b₂ a.1 ∙ b₁ a.0);
      starts = λ q p h. l.starts (high q) p (w.starts (low q) p h);
      linked = λ q.
          let (own, own_base) = w.slots (low q) (begin + s.code) (pos begin) claimed.0 ne in
          let (own', own_base') = l.slots (high q) (begin + s.code) (pos begin) own ne in
          let rest : Claimed t₁.check begin siblings =
            Claimed-kept t t₁ begin siblings start (λ p c h k. (w.slots (low q) p c h k).0)
              claimed.1 in
          let (fetched, f, link) = w.link (low q) in
          let kept_base = own_base' (Distinct-Apart begin s siblings distinct.0) in
          (
            (
              own',
              (
                fetched,
                ap (λ dicts. fetch_siblings dicts s) l.words ∙ f,
                elim link [
                  | inl (z, v) ↦ inl (z, kept_base ∙ v)
                  | inr (z, (sub, v, below)) ↦ inr (
                    z,
                    (
                      sub,
                      kept_base ∙ v,
                      Stored-carry fuel P P t₁ t' sub fetched.1 l.words (λ b h. h)
                          (λ p b new one far c.
                            let (c', base') = l.slots (high q) p (pos b) c (pos_ne b one) in
                            (
                              c',
                              base'
                                  (Claimed-Apart t₁.check begin b p siblings rest c (apart b new)),
                            ))
                          below,
                    ),
                  )
                ],
              ),
            ),
            Linked-weaken fuel P R t' begin siblings (weaken (low q)) (l.linked (high q)),
          );
    }
