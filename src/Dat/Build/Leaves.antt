-- ===== src/Dat/Build/Leaves.antt =====
-- What a call of `_insert` and its second loop leave.
use sunet.Base.{
  ℕ, suc, true, ◌+◌, ◌-◌, ◌*◌, get_elem?, ◌≤◌, ◌≡◌, ◌≢◌, sym, ap, ◌∙◌, subst, List, ◌∷◌, some,
  Bytes, All,
}
use sunet.Base.Int.{ℤ, pos, negsuc, pos_part}
use sunet.Dat.Build.{DatImpl, TreeNode, fetch_siblings, set_at}
use sunet.Dat.Build.Grow.{some_inj}
use sunet.Dat.Build.Slots.{set_at_lem, Apart, Claimed}
use sunet.Dat.Build.Stored.{Distinct, Distinct-Apart, NotStarted, Claimed-Apart}
use sunet.Dat.Build.Tight.{
  Owned, Sealed, Sealed-trans, Sealed-base, Leads, Tree, Tree-carry, Leads-weaken,
}
use sunet.Dat.Build.Room.{Free, Free-later}
use sunet.Dat.Build.Width.{width}

module _ (dicts : List (List Bytes)) (limit size : ℕ) where
  -- What the siblings of nodes take, with `k` levels of keys below them.
  abbrev pub taken : ℕ → List TreeNode → ℕ
  taken k nodes = width nodes * (k * (limit + 1))

  -- The places lie below this slot, so that every code leads to a slot of the arrays.
  abbrev pub top : ℕ
  top = size - limit

  -- What a call leaves, with `taken` slots more taken.
  pub record InsertLeaves (k from : ℕ) (nodes : List TreeNode) (t : DatImpl) (r : ℕ × DatImpl)
      : Type 0 where
    pub free : Free dicts size from from r.1
    pub tree : Tree dicts top (suc k) (NotStarted t) r.1 r.0 nodes
    pub seal : Sealed (λ p. Unit) t r.1
    pub owned : Owned r.1

  -- What the second loop leaves.
  pub record LoopLeaves (k begin from : ℕ) (nodes : List TreeNode) (t t' : DatImpl) : Type 0 where
    pub free : Free dicts size from from t'
    pub seal : Sealed (λ p. Apart begin p nodes) t t'
    pub owned : Owned t'
    pub leads : All (Leads dicts (Tree dicts top k (NotStarted t) t') t' begin) nodes

  -- A sibling without words below it.
  pub leaf-Leads :
      (R : ℕ → List TreeNode → Type 0) (t : DatImpl) (begin n : ℕ) (s : TreeNode)
      → get_elem? t.check (begin + s.code) ≡ some (pos begin)
      → get_elem? t.base (begin + s.code) ≡ some (negsuc n)
      → Leads dicts R t begin s
  leaf-Leads R t begin n s own v = (own, λ x fetched w f. cc (v, w))

  -- A sibling whose words were inserted at `sub`, and then the siblings behind it.
  pub inner_leaves :
      (k begin from from' n : ℕ) (s : TreeNode) (nodes below : List TreeNode) (t t' : DatImpl)
      (sub : ℕ × DatImpl) (base : List ℤ)
      → from ≤ from'
      → 1 ≤ begin
      → Distinct (s ∷ nodes)
      → get_elem? t.used begin ≡ some true
      → Claimed t.check begin (s ∷ nodes)
      → Claimed sub.1.check begin (s ∷ nodes)
      → fetch_siblings dicts s ≡ some (n, below)
      → set_at sub.1.base (begin + s.code) (pos sub.0) ≡ some base
      → Sealed (λ p. Unit) t sub.1
      → Tree dicts top (suc k) (NotStarted t) sub.1 sub.0 below
      → LoopLeaves (suc k) begin from nodes (record sub.1 { base = base }) t'
      → LoopLeaves (suc k) begin from' (s ∷ nodes) t t'
  inner_leaves k begin from from' n s nodes below t t' sub base le one distinct used claimed
        claimed' f e seal tree rest =
      let slot = begin + s.code in
      let u = sub.1 in
      let t₁ : DatImpl = record u { base = base } in
      let apart : ℕ → Type 0 = λ p. Apart begin p (s ∷ nodes) in
      let behind : Sealed apart u t' =
        Sealed-trans apart (λ p. p ≢ slot) (λ p. Apart begin p nodes) u t₁ t'
          (λ p b first c hit. hit) (Sealed-base u base slot u.progress (pos sub.0) e) rest.seal in
      let whole : Sealed apart t t' =
        Sealed-trans apart (λ p. Unit) apart t u t' (λ p b first c hit. (tt, hit)) seal behind in
      let entry : get_elem? t'.base slot ≡ some (pos sub.0) =
        rest.seal.bases begin slot one claimed'.0 (Distinct-Apart begin s nodes distinct.0)
        ∙ (set_at_lem u.base base slot (pos sub.0) e).0 in
      let tree' : Tree dicts top (suc k) (NotStarted t) t' sub.0 below =
        Tree-carry dicts top (suc k) (NotStarted t) (NotStarted t) apart u t' sub.0 below (λ i h. h)
          behind
          (λ i c new first h.
            Claimed-Apart u.check begin i (i + c) (s ∷ nodes) claimed' h
              (λ q. new (ap (λ (b : ℕ). get_elem? t.used b) q ∙ used)))
          tree in
      record {
        free = Free-later dicts size _ _ _ _ t' le le rest.free;
        seal = whole;
        owned = rest.owned;
        leads = (
          (
            whole.forth begin slot one claimed.0,
            λ x fetched v g.
                let place : sub.0 ≡ x = ap (λ z. pos_part z) (some_inj (sym entry ∙ v)) in
                let found : (n, below) ≡ fetched = some_inj (sym f ∙ g) in
                subst (λ (b : ℕ). Tree dicts top (suc k) (NotStarted t) t' b fetched.1) place
                  (subst (λ h. Tree dicts top (suc k) (NotStarted t) t' sub.0 h.1) found tree'),
          ),
          Leads-weaken dicts top (suc k) (NotStarted t₁) (NotStarted t) t' begin nodes
              (λ b new was. new (seal.starts b was)) rest.leads,
        );
      }
