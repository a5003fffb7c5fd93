-- ===== src/Dat/Build/Stored.antt =====
-- `_insert` stores the siblings and all that is below them.
use sunet.Base.{
  ℕ, zero, suc, ◌+◌, ◌≤◌, ◌≡◌, ◌≢◌, sym, ap, ◌∙◌, true, false, List, [], ◌∷◌, some, Bytes,
  get_elem?, ◌==◌, All, All-weaken, inl, inr, ◌⊎◌, arith,
}
use sunet.Base.Int.{ℤ, pos, negsuc, pos_part}
use sunet.Dat.Build.{DatImpl, TreeNode, fetch_siblings}
use sunet.Dat.Build.Grow.{some_inj}
use sunet.Dat.Build.Slots.{Apart, Claimed, Kept}

-- What stands in `_base` for a sibling: the number of its first word, or the place of its own
-- siblings.
abbrev pub Linked : (ℕ → List TreeNode → Type 0) → DatImpl → ℕ → TreeNode → Type 0
Linked P t begin s =
    (fetched : ℕ × List TreeNode) × (fetch_siblings t.dicts s ≡ some fetched)
    × ((((fetched.0 == 0) ≡ true) × (get_elem? t.base (begin + s.code) ≡ some (negsuc s.left)))
        ⊎ (((fetched.0 == 0) ≡ false)
            × ((sub : ℕ) × (get_elem? t.base (begin + s.code) ≡ some (pos sub)) × P sub fetched.1)))

-- The siblings stand at `begin`, with all that is below them; `P` holds of every place.
unfoldable pub Stored : ℕ → (ℕ → Type 0) → DatImpl → ℕ → List TreeNode → Type 0
Stored zero P t begin siblings = zero ≡ suc zero
Stored (suc fuel) P t begin siblings =
    P begin
    × (1 ≤ begin)
    × All
        (λ s.
          (get_elem? t.check (begin + s.code) ≡ some (pos begin))
          × Linked (Stored fuel P t) t begin s)
        siblings

pub pos_ne : (n : ℕ) → 1 ≤ n → pos n ≢ pos 0
pos_ne n h q = let r : n ≡ 0 = ap (λ z. pos_part z) q in omega (arith, r, h)

-- From one state to another that keeps the slots of every place.
pub Stored-carry :
    (fuel : ℕ) (P Q : ℕ → Type 0) (t t' : DatImpl) (begin : ℕ) (siblings : List TreeNode)
    → t'.dicts ≡ t.dicts
    → ((start : ℕ) → P start → Q start)
    → ((p start : ℕ)
        → P start
        → 1 ≤ start
        → start ≤ p
        → get_elem? t.check p ≡ some (pos start)
        → (get_elem? t'.check p ≡ some (pos start)) × (get_elem? t'.base p ≡ get_elem? t.base p))
    → Stored fuel P t begin siblings
    → Stored fuel Q t' begin siblings
unfolding Stored
Stored-carry zero P Q t t' begin siblings words weaken carry h = h
Stored-carry (suc fuel) P Q t t' begin siblings words weaken carry (here, start, all) = (
  weaken begin here,
  start,
  All-weaken
      (λ s.
        (get_elem? t.check (begin + s.code) ≡ some (pos begin))
        × Linked (Stored fuel P t) t begin s)
      (λ s.
        (get_elem? t'.check (begin + s.code) ≡ some (pos begin))
        × Linked (Stored fuel Q t') t' begin s)
      (λ s (c, (fetched, f, linked)).
        let (c', b) = carry (begin + s.code) begin here start (omega arith) c in
        (
          c',
          (
            fetched,
            ap (λ dicts. fetch_siblings dicts s) words ∙ f,
            elim linked [
              | inl (z, v) ↦ inl (z, b ∙ v)
              | inr (z, (sub, v, below)) ↦ inr (
                z,
                (sub, b ∙ v, Stored-carry fuel P Q t t' sub fetched.1 words weaken carry below),
              )
            ],
          ),
        ))
      siblings all,
)

-- No two siblings have one code.
abbrev pub Distinct : List TreeNode → Type 0
Distinct [] = Unit
Distinct (s ∷ siblings) = All (λ r. s.code ≢ r.code) siblings × Distinct siblings

-- The siblings that are found below a good node have different codes, and are good.
abbrev pub Orderly : (TreeNode → Type 0) → List (List Bytes) → Type 0
Orderly Good dicts =
    (parent : TreeNode) (fetched : ℕ × List TreeNode)
    → Good parent
    → fetch_siblings dicts parent ≡ some fetched
    → (fetched.0 == 0) ≡ false
    → Distinct fetched.1 × All Good fetched.1

abbrev pub NotStarted : DatImpl → ℕ → Type 0
NotStarted t b = get_elem? t.used b ≢ some true

pub record Inserted (fuel : ℕ) (t : DatImpl) (r : ℕ × DatImpl) (siblings : List TreeNode)
    : Type 0 where
  pub kept : Kept t r.1
  pub stored : r.1.size ≡ t.size → Stored fuel (NotStarted t) r.1 r.0 siblings

-- Slots of two places are apart.
pub Claimed-Apart :
    (check : List ℤ) (begin start p : ℕ) (siblings : List TreeNode)
    → Claimed check begin siblings
    → get_elem? check p ≡ some (pos start)
    → start ≢ begin
    → Apart begin p siblings
Claimed-Apart check begin start p [] h c ne = tt
Claimed-Apart check begin start p (s ∷ siblings) h c ne = (
  λ q. ne (ap (λ z. pos_part z) (some_inj (sym c ∙ ap (λ (i : ℕ). get_elem? check i) q ∙ h.0))),
  Claimed-Apart check begin start p siblings h.1 c ne,
)

pub Distinct-Apart :
    (begin : ℕ) (s : TreeNode) (siblings : List TreeNode)
    → All (λ r. s.code ≢ r.code) siblings
    → Apart begin (begin + s.code) siblings
Distinct-Apart begin s siblings h =
    All-weaken (λ r. s.code ≢ r.code) (λ r. begin + s.code ≢ begin + r.code)
      (λ r ne q. ne (omega (arith, q))) siblings h
