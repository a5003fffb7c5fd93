-- ===== src/Dat/Build/Insert.antt =====
-- `_insert`, whole.
use sunet.Base.{
  ℕ, zero, suc, ◌+◌, ◌-◌, ◌≤◌, ◌≡◌, sym, ◌∙◌, subst, false, List, [], ◌∷◌, some, ltb, if◌then◌else◌,
  Option-cases, inl, inr, arith,
}
use sunet.Dat.{◌>>=◌}
use sunet.Dat.Build.{DatImpl, Memory, TreeNode, place_children, claim_slots, find_begin, dat_insert}
use sunet.Dat.Build.Grow.{some_inj, Grows, Found, find_begin-Found}
use sunet.Dat.Build.Slots.{Claims, claim_slots-Claims}
use sunet.Dat.Build.Stored.{Stored, Orderly, NotStarted}
use sunet.Dat.Build.Wrote.{Placed, Linked-weaken}
use sunet.Dat.Build.Placing.{Inserts, InsertLe, place_children-Le, place_children-Placed}

module _ (memory : Memory) (grows : Grows memory) where
  -- A call that places its siblings: where the search begins, and its three parts.
  record Steps (fuel rounds : ℕ) (s : TreeNode) (more : List TreeNode) (t : DatImpl)
      (r : ℕ × DatImpl) : Type 0 where
    at : ℕ
    u : DatImpl
    v : DatImpl
    found : Found memory grows t s more (r.0, at, u)
    claims : Claims t r.0 (s ∷ more) v
    placed : place_children memory (dat_insert memory fuel rounds) r.0 (s ∷ more) v ≡ some r.1

  pub Found-zeroed :
      (s : TreeNode) (more : List TreeNode) (t : DatImpl) (r : ℕ × ℕ × DatImpl)
      → Found memory grows (record t { non_zero_num = 0 }) s more r
      → Found memory grows t s more r
  Found-zeroed s more t r f = record {
    same = record { words = f.same.words; le = f.same.le; arrays = f.same.arrays };
    fresh = f.fresh;
    free = f.free;
    start = f.start;
  }

  dat_insert-Steps :
      (fuel rounds : ℕ) (s : TreeNode) (more : List TreeNode) (t : DatImpl) (r : ℕ × DatImpl)
      → 20 ≤ t.size
      → dat_insert memory (suc fuel) rounds (s ∷ more) t ≡ some r
      → Steps fuel rounds s more t r
  unfolding dat_insert
  dat_insert-Steps fuel rounds s more t r size e =
      let t₀ : DatImpl = record t { non_zero_num = 0 } in
      let at₀ : ℕ =
        (if ltb t.next_check_pos (s.code + 1) then s.code + 1 else t.next_check_pos) - 1 in
      elim (Option-cases (find_begin memory rounds false at₀ s more t₀)) [
        | inl n ↦ cc (rw (dat_insert, n) at e)
        | inr ((begin, at, u), n) ↦ elim (Option-cases (claim_slots memory begin at (s ∷ more) u)) [
          | inl m ↦ cc (rw (dat_insert, n, ◌>>=◌, m) at e)
          | inr (v, m) ↦
              elim (Option-cases
                (place_children memory (dat_insert memory fuel rounds) begin (s ∷ more) v)) [
                  | inl k ↦ cc (rw (dat_insert, n, ◌>>=◌, m, k) at e)
                  | inr (t', k) ↦
                      let f : Found memory grows t s more (begin, at, u) =
                        Found-zeroed s more t (begin, at, u)
                          (find_begin-Found memory grows rounds false at₀ s more t₀ (begin, at, u)
                            size (ground arith) n) in
                      subst (Steps fuel rounds s more t)
                        (some_inj (rw (dat_insert, n, ◌>>=◌, m, k) at e))
                        (record {
                          at = at;
                          u = u;
                          v = v;
                          found = f;
                          claims = claim_slots-Claims memory grows t u v begin at s more f m;
                          placed = k;
                        })
                ]
        ]
      ]

  dat_insert-Le : (fuel rounds : ℕ) → InsertLe (dat_insert memory fuel rounds)
  unfolding dat_insert
  dat_insert-Le zero rounds siblings t r size e = cc e
  dat_insert-Le (suc fuel) rounds [] t r size e = cc e
  dat_insert-Le (suc fuel) rounds (s ∷ more) t r size e =
      let steps = dat_insert-Steps fuel rounds s more t r size e in
      let kept = steps.claims.kept in
      let (words, le) =
        place_children-Le memory grows (dat_insert memory fuel rounds) r.0 (s ∷ more) steps.v r.1
          (dat_insert-Le fuel rounds) (omega (arith, size, kept.le)) steps.placed in
      (words ∙ kept.words, omega (arith, le, kept.le))

  pub dat_insert-Inserts :
      (Good : TreeNode → Type 0) (fuel rounds : ℕ)
      → Inserts Good fuel (dat_insert memory fuel rounds)
  unfolding dat_insert Stored
  dat_insert-Inserts Good zero rounds siblings t r size orderly distinct good e = cc e
  dat_insert-Inserts Good (suc fuel) rounds [] t r size orderly distinct good e = cc e
  dat_insert-Inserts Good (suc fuel) rounds (s ∷ more) t r size orderly distinct good e =
      let steps = dat_insert-Steps fuel rounds s more t r size e in
      let claims = steps.claims in
      let v = steps.v in
      let (words, le) =
        place_children-Le memory grows (dat_insert memory fuel rounds) r.0 (s ∷ more) v r.1
          (dat_insert-Le fuel rounds) (omega (arith, size, claims.kept.le)) steps.placed in
      let low : r.1.size ≡ t.size → v.size ≡ t.size = λ q. omega (arith, q, le, claims.kept.le) in
      let high : r.1.size ≡ t.size → r.1.size ≡ v.size =
        λ q. omega (arith, q, le, claims.kept.le) in
      let placed : r.1.size ≡ t.size → Placed fuel (NotStarted v) v r.0 (s ∷ more) r.1 = λ q.
        place_children-Placed memory grows Good fuel (dat_insert memory fuel rounds) r.0 (s ∷ more)
          v r.1 (dat_insert-Le fuel rounds) (dat_insert-Inserts Good fuel rounds)
          (omega (arith, size, claims.kept.le)) claims.start
          (subst (Orderly Good) (sym claims.kept.words) orderly) distinct good claims.claimed
          claims.started (high q) steps.placed in
      record {
        kept = record {
          words = words ∙ claims.kept.words;
          le = omega (arith, le, claims.kept.le);
          slots = λ q p c h k.
              let (c₁, b₁) = claims.kept.slots (low q) p c h k in
              let (c₂, b₂) = (placed q).slots (high q) p c c₁ k in
              (c₂, b₂ (claims.apart (low q) p c h k) ∙ b₁);
          starts = λ q p h. (placed q).starts (high q) p (claims.kept.starts (low q) p h);
        };
        stored = λ q. (
          λ was. cc (claims.fresh (low q), was),
          claims.start,
          Linked-weaken fuel (NotStarted t) (NotStarted v) r.1 r.0 (s ∷ more)
              (λ b new was. new (claims.kept.starts (low q) b was)) ((placed q).linked (high q)),
        );
      }
