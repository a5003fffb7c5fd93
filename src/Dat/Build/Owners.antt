-- ===== src/Dat/Build/Owners.antt =====
-- The slots that `_insert` claims, and their owner.
use sunet.Base.{
  ℕ, ◌+◌, ◌≡◌, sym, ap, ◌∙◌, true, false, List, ◌∷◌, some, get_elem?, Option-cases, inl, inr, ◌⊎◌,
  arith,
}
use sunet.Base.Int.{ℤ, pos, pos_part}
use sunet.Dat.{◌>>=◌}
use sunet.Dat.Build.{DatImpl, Memory, TreeNode, set_at, mark_check, claim_slots}
use sunet.Dat.Build.Grow.{some_inj, Grows, Found}
use sunet.Dat.Build.Slots.{Claims, claim_slots-Claims}
use sunet.Dat.Build.Stored.{pos_ne}
use sunet.Dat.Build.Runs.{Member}
use sunet.Dat.Build.Walk.{All-Member}
use sunet.Dat.Build.Tight.{Owned, Sealed, Tight, mark_check_back}

claim_slots_back :
    (memory : Memory) (begin at : ℕ) (nodes : List TreeNode) (u v : DatImpl) (p : ℕ) (c : ℤ)
    → claim_slots memory begin at nodes u ≡ some v
    → get_elem? v.check p ≡ some c
    → ((s : TreeNode) × Member s nodes × (p ≡ begin + s.code)) ⊎ (get_elem? u.check p ≡ some c)
unfolding claim_slots
claim_slots_back memory begin at nodes u v p c e h =
    elim (Option-cases (set_at u.used begin true)) [
      | inl n ↦ cc (rw (claim_slots, n) at e)
      | inr (used, n) ↦ elim (Option-cases (mark_check begin nodes u.check)) [
        | inl m ↦ cc (rw (claim_slots, n, ◌>>=◌, m) at e)
        | inr (check, m) ↦ mark_check_back begin nodes u.check check p c m (
            ap (λ (w : DatImpl). get_elem? w.check p)
              (some_inj (rw (claim_slots, n, ◌>>=◌, m) at e))
            ∙ h)
      ]
    ]

-- What holds behind the claim of a place.
pub record Own (t : DatImpl) (begin : ℕ) (nodes : List TreeNode) (v : DatImpl) : Type 0 where
  pub claims : Claims t begin nodes v
  pub seal : Sealed (λ p. Unit) t v
  pub owned : Owned v
  pub tight : Tight v begin nodes
  pub fresh : get_elem? t.used begin ≡ some false

module _ (memory : Memory) (grows : Grows memory) where
  pub claim_slots-Own :
      (t u v : DatImpl) (begin at : ℕ) (s : TreeNode) (more : List TreeNode)
      → Owned t
      → u.size ≡ t.size
      → v.size ≡ t.size
      → Found memory grows t s more (begin, at, u)
      → claim_slots memory begin at (s ∷ more) u ≡ some v
      → Own t begin (s ∷ more) v
  claim_slots-Own t u v begin at s more owned size size' f e =
      let claims = claim_slots-Claims memory grows t u v begin at s more f e in
      let (base_same, check_same, used_same) = f.same.arrays size in
      let fresh = f.fresh size in
      let owner : (p b : ℕ)
          → get_elem? v.check p ≡ some (pos b)
          → ((b ≡ begin) × ((r : TreeNode) × Member r (s ∷ more) × (p ≡ begin + r.code)))
            ⊎ (get_elem? t.check p ≡ some (pos b)) =
        λ p b h. elim (claim_slots_back memory begin at (s ∷ more) u v p (pos b) e h) [
          | inl (r, m, q) ↦
              let own =
                All-Member (λ i. get_elem? v.check (begin + i.code) ≡ some (pos begin)) (s ∷ more) r
                  claims.claimed m in
              inl (
                ap (λ z. pos_part z)
                    (some_inj (sym h ∙ ap (λ (i : ℕ). get_elem? v.check i) q ∙ own)),
                (r, m, q),
              )
          | inr k ↦ inr (ap (λ zs. get_elem? zs p) (sym check_same) ∙ k)
        ] in
      record {
        claims = claims;
        seal = record {
          starts = λ b h. claims.kept.starts size' b h;
          back = λ b p h c. elim (owner p b c) [
            | inl (q, m) ↦ cc (ap (λ (i : ℕ). get_elem? t.used i) q, fresh, h)
            | inr k ↦ k
          ];
          forth = λ b p one c. (claims.kept.slots size' p (pos b) c (pos_ne b one)).0;
          bases = λ b p one c hit. (claims.kept.slots size' p (pos b) c (pos_ne b one)).1;
        };
        owned = λ p b c one. elim (owner p b c) [
          | inl (q, m) ↦ ap (λ (i : ℕ). get_elem? v.used i) q ∙ claims.started
          | inr k ↦ claims.kept.starts size' b (owned p b k one)
        ];
        tight = λ c h. elim (owner (begin + c) begin h) [
          | inl (q, (r, m, k)) ↦ (r, m, omega (arith, k))
          | inr k ↦ cc (owned (begin + c) begin k claims.start, fresh)
        ];
        fresh = fresh;
      }
