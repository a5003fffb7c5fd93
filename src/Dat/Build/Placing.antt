-- ===== src/Dat/Build/Placing.antt =====
-- The second loop of `_insert`, with the calls of `_insert` in it.
use sunet.Base.{
  ℕ, ◌+◌, ◌≤◌, ◌≡◌, ◌≢◌, refl, sym, ap, ◌∙◌, subst, true, false, List, [], ◌∷◌, Option, some,
  get_elem?, ◌==◌, All, Bool-cases, Option-cases, inl, inr, arith,
}
use sunet.Base.Int.{ℤ, pos, negsuc}
use sunet.Dat.{◌>>=◌}
use sunet.Dat.Build.{DatImpl, Memory, TreeNode, fetch_siblings, set_at, place_children}
use sunet.Dat.Build.Grow.{some_inj, Grows}
use sunet.Dat.Build.Slots.{set_at_lem, Claimed}
use sunet.Dat.Build.Stored.{
  Stored-carry, Distinct, Orderly, NotStarted, Inserted, Claimed-Apart, pos_ne,
}
use sunet.Dat.Build.Wrote.{Claimed-kept, Placed, Wrote, Placed-cons}

-- A sibling without words below it.
Wrote-leaf :
    (fuel : ℕ) (P : ℕ → Type 0) (t : DatImpl) (begin : ℕ) (s : TreeNode) (base : List ℤ)
    (fetched : ℕ × List TreeNode)
    → fetch_siblings t.dicts s ≡ some fetched
    → (fetched.0 == 0) ≡ true
    → set_at t.base (begin + s.code) (negsuc s.left) ≡ some base
    → Wrote fuel P t begin s (record t { base = base; progress = t.progress + 1 })
Wrote-leaf fuel P t begin s base fetched f z e =
    let (here, there) = set_at_lem t.base base (begin + s.code) (negsuc s.left) e in
    record {
      words = refl;
      le = omega arith;
      slots = λ q p c h k. (h, λ ne. there p ne);
      starts = λ q p h. h;
      link = λ q. (fetched, f, inl (z, here));
    }

-- A sibling below which words are inserted.
Wrote-inner :
    (fuel : ℕ) (t : DatImpl) (begin : ℕ) (s : TreeNode) (base : List ℤ)
    (fetched : ℕ × List TreeNode) (sub : ℕ × DatImpl)
    → 1 ≤ begin
    → get_elem? t.check (begin + s.code) ≡ some (pos begin)
    → get_elem? t.used begin ≡ some true
    → fetch_siblings t.dicts s ≡ some fetched
    → (fetched.0 == 0) ≡ false
    → Inserted fuel t sub fetched.1
    → set_at sub.1.base (begin + s.code) (pos sub.0) ≡ some base
    → Wrote fuel (NotStarted t) t begin s (record sub.1 { base = base })
Wrote-inner fuel t begin s base fetched sub start own started f z i e =
    let u = sub.1 in
    let t₁ : DatImpl = record u { base = base } in
    let (here, there) = set_at_lem u.base base (begin + s.code) (pos sub.0) e in
    record {
      words = i.kept.words;
      le = i.kept.le;
      slots = λ q p c h k. let (c', b) = i.kept.slots q p c h k in (c', λ ne. there p ne ∙ b);
      starts = i.kept.starts;
      link = λ q.
          let own' = (i.kept.slots q (begin + s.code) (pos begin) own (pos_ne begin start)).0 in
          (
            fetched,
            ap (λ dicts. fetch_siblings dicts s) i.kept.words ∙ f,
            inr (
              z,
              (
                sub.0,
                here,
                Stored-carry fuel (NotStarted t) (NotStarted t) u t₁ sub.0 fetched.1 refl (λ b h. h)
                    (λ p b new one far c.
                      let apart : b ≢ begin =
                        λ r. new (ap (λ (i : ℕ). get_elem? t.used i) r ∙ started) in
                      (c, there p (Claimed-Apart u.check begin b p (s ∷ []) (own', tt) c apart).0))
                    (i.stored q),
              ),
            ),
          );
    }

-- What is asked of the call of `_insert`.
abbrev pub Inserts :
    (TreeNode → Type 0) → ℕ → (List TreeNode → DatImpl → Option (ℕ × DatImpl)) → Type 0
Inserts Good fuel insert =
    (siblings : List TreeNode) (t : DatImpl) (r : ℕ × DatImpl)
    → 20 ≤ t.size
    → Orderly Good t.dicts
    → Distinct siblings
    → All Good siblings
    → insert siblings t ≡ some r
    → Inserted fuel t r siblings

-- The words stay, and the arrays do not shrink.
abbrev pub Le : DatImpl → DatImpl → Type 0
Le t t' = (t'.dicts ≡ t.dicts) × (t.size ≤ t'.size)

abbrev pub InsertLe : (List TreeNode → DatImpl → Option (ℕ × DatImpl)) → Type 0
InsertLe insert =
    (siblings : List TreeNode) (t : DatImpl) (r : ℕ × DatImpl)
    → 20 ≤ t.size
    → insert siblings t ≡ some r
    → Le t r.1

module _ (memory : Memory) (grows : Grows memory) where
  pub place_children-Le :
      (insert : List TreeNode → DatImpl → Option (ℕ × DatImpl)) (begin : ℕ)
      (siblings : List TreeNode) (t t' : DatImpl)
      → InsertLe insert
      → 20 ≤ t.size
      → place_children memory insert begin siblings t ≡ some t'
      → Le t t'
  unfolding place_children
  place_children-Le insert begin [] t t' ins size e = subst (Le t) (some_inj e) (refl, omega arith)
  place_children-Le insert begin (s ∷ siblings) t t' ins size e =
      elim (Option-cases (fetch_siblings t.dicts s)) [
        | inl n ↦ cc (rw (place_children, n) at e)
        | inr (fetched, n) ↦ elim (Bool-cases (fetched.0 == 0)) [
          | inl z ↦ elim (Option-cases (set_at t.base (begin + s.code) (negsuc s.left))) [
            | inl m ↦ cc (rw (place_children, n, ◌>>=◌, z, m) at e)
            | inr (base, m) ↦
                place_children-Le insert begin siblings
                  (record t { base = base; progress = t.progress + 1 }) t' ins size
                  (rw (place_children, n, ◌>>=◌, z, m) at e)
          ]
          | inr z ↦ elim (Option-cases (insert fetched.1 t)) [
            | inl m ↦ cc (rw (place_children, n, ◌>>=◌, z, m) at e)
            | inr (sub, m) ↦ elim (Option-cases (set_at sub.1.base (begin + s.code) (pos sub.0))) [
              | inl k ↦ cc (rw (place_children, n, ◌>>=◌, z, m, k) at e)
              | inr (base, k) ↦
                  let (words, le) = ins fetched.1 t sub size m in
                  let (words', le') =
                    place_children-Le insert begin siblings (record sub.1 { base = base }) t' ins
                      (omega (arith, size, le)) (rw (place_children, n, ◌>>=◌, z, m, k) at e) in
                  (words' ∙ words, omega (arith, le, le'))
            ]
          ]
        ]
      ]

  pub place_children-Placed :
      (Good : TreeNode → Type 0) (fuel : ℕ)
      (insert : List TreeNode → DatImpl → Option (ℕ × DatImpl)) (begin : ℕ)
      (siblings : List TreeNode) (t t' : DatImpl)
      → InsertLe insert
      → Inserts Good fuel insert
      → 20 ≤ t.size
      → 1 ≤ begin
      → Orderly Good t.dicts
      → Distinct siblings
      → All Good siblings
      → Claimed t.check begin siblings
      → get_elem? t.used begin ≡ some true
      → t'.size ≡ t.size
      → place_children memory insert begin siblings t ≡ some t'
      → Placed fuel (NotStarted t) t begin siblings t'
  unfolding place_children
  place_children-Placed Good fuel insert begin [] t t' insle ins size start orderly distinct good
        claimed used fits e =
      subst (Placed fuel (NotStarted t) t begin []) (some_inj e) (record {
        words = refl;
        le = omega arith;
        slots = λ q p c h k. (h, λ a. refl);
        starts = λ q p h. h;
        linked = λ q. tt;
      })
  place_children-Placed Good fuel insert begin (s ∷ siblings) t t' insle ins size start orderly
        distinct good claimed used fits e =
      let away : (b : ℕ) → NotStarted t b → b ≢ begin =
        λ b new r. new (ap (λ (i : ℕ). get_elem? t.used i) r ∙ used) in
      elim (Option-cases (fetch_siblings t.dicts s)) [
        | inl n ↦ cc (rw (place_children, n) at e)
        | inr (fetched, n) ↦ elim (Bool-cases (fetched.0 == 0)) [
          | inl z ↦ elim (Option-cases (set_at t.base (begin + s.code) (negsuc s.left))) [
            | inl m ↦ cc (rw (place_children, n, ◌>>=◌, z, m) at e)
            | inr (base, m) ↦
                let t₁ : DatImpl = record t { base = base; progress = t.progress + 1 } in
                Placed-cons fuel (NotStarted t) (NotStarted t₁) t t₁ t' begin s siblings start away
                  claimed distinct (Wrote-leaf fuel (NotStarted t) t begin s base fetched n z m)
                  (λ q b h. h)
                  (place_children-Placed Good fuel insert begin siblings t₁ t' insle ins size start
                    orderly distinct.1 good.1 claimed.1 used fits
                    (rw (place_children, n, ◌>>=◌, z, m) at e))
          ]
          | inr z ↦ elim (Option-cases (insert fetched.1 t)) [
            | inl m ↦ cc (rw (place_children, n, ◌>>=◌, z, m) at e)
            | inr (sub, m) ↦ elim (Option-cases (set_at sub.1.base (begin + s.code) (pos sub.0))) [
              | inl k ↦ cc (rw (place_children, n, ◌>>=◌, z, m, k) at e)
              | inr (base, k) ↦
                  let t₁ : DatImpl = record sub.1 { base = base } in
                  let e₁ = rw (place_children, n, ◌>>=◌, z, m, k) at e in
                  let i =
                    ins fetched.1 t sub size orderly (orderly s fetched good.0 n z).0
                      (orderly s fetched good.0 n z).1 m in
                  let (words, le) = insle fetched.1 t sub size m in
                  let (words', le') =
                    place_children-Le insert begin siblings t₁ t' insle (omega (arith, size, le))
                      e₁ in
                  let q : t₁.size ≡ t.size = omega (arith, fits, le, le') in
                  Placed-cons fuel (NotStarted t) (NotStarted t₁) t t₁ t' begin s siblings start
                    away claimed distinct
                    (Wrote-inner fuel t begin s base fetched sub start claimed.0 used n z i k)
                    (λ r b new was. new (i.kept.starts r b was))
                    (place_children-Placed Good fuel insert begin siblings t₁ t' insle ins
                      (omega (arith, size, le)) start (subst (Orderly Good) (sym words) orderly)
                      distinct.1 good.1
                      (Claimed-kept t t₁ begin siblings start
                        (λ p c h nz. (i.kept.slots q p c h nz).0) claimed.1)
                      (i.kept.starts q begin used) (omega (arith, fits, q)) e₁)
            ]
          ]
        ]
      ]
