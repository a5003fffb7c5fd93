-- ===== src/Dat/Build/Grow.antt =====
-- The search of `_insert` for a place: it changes no array, unless the arrays grow.
use sunet.Base.{
  ℕ, zero, suc, ◌+◌, ◌-◌, ◌≤◌, ◌<◌, ◌≡◌, ◌≢◌, refl, sym, ap, ◌∙◌, subst, Bool, true, false, List,
  ◌∷◌, some, length, get_elem?, ltb, leb, same, if◌then◌else◌, Bool-cases, Option-cases, inl, inr,
  arith,
}
use sunet.Base.Int.{pos, int_order}
use sunet.Dat.{◌>>=◌}
use sunet.Dat.Build.{
  DatImpl, Memory, TreeNode, resize_to, make_room, make_more_room, find_begin, any_taken, back_code,
}

lt_ne : (m n : ℕ) → m < n → m ≢ n
lt_ne m n h e = omega (arith, h, e)

pub some_inj {ℓ} : {A : Type ℓ} {a b : A} → some a ≡ some b → a ≡ b
some_inj p = cc p

-- The arrays are the same, unless they have grown.
pub record Same (t t' : DatImpl) : Type 0 where
  pub words : t'.dicts ≡ t.dicts
  pub le : t.size ≤ t'.size
  pub arrays : t'.size ≡ t.size → (t'.base ≡ t.base) × (t'.check ≡ t.check) × (t'.used ≡ t.used)

pub Same-refl : (t : DatImpl) → Same t t
Same-refl t = record { words = refl; le = omega arith; arrays = λ e. (refl, refl, refl) }

pub Same-trans : (t u v : DatImpl) → Same t u → Same u v → Same t v
Same-trans t u v h k = record {
  words = k.words ∙ h.words;
  le = omega (arith, h.le, k.le);
  arrays = λ e.
      let (b, c, w) = h.arrays (omega (arith, e, h.le, k.le)) in
      let (b', c', w') = k.arrays (omega (arith, e, h.le, k.le)) in (b' ∙ b, c' ∙ c, w' ∙ w);
}

-- Arrays of 20 slots or more grow where they are made to: `(int) (_size * 1.05)` is more than
-- `_size` from 20 on, and for fewer slots it is `_size` itself.
abbrev pub Grows : Memory → Type 0
Grows memory = (size words progress : ℕ) → 20 ≤ size → size < memory.grow size words progress

module _ (memory : Memory) (grows : Grows memory) where
  resize_to-Same : (n : ℕ) (t : DatImpl) → t.size < n → Same t (resize_to memory n t)
  unfolding resize_to
  resize_to-Same n t h = record {
    words = refl;
    le = omega (arith, h);
    arrays = λ e. absurd (lt_ne t.size n h (sym e));
  }

  make_room-Same : (last : ℕ) (t : DatImpl) → 20 ≤ t.size → Same t (make_room memory last t)
  unfolding make_room
  make_room-Same last t h = elim (Bool-cases (leb t.size last)) [
    | inl e ↦ rw (make_room, e) (resize_to-Same _ t (grows t.size (length t.dicts) t.progress h))
    | inr e ↦ rw (make_room, e) (Same-refl t)
  ]

  make_more_room-Same :
      (last : ℕ) (t : DatImpl) → 20 ≤ t.size → Same t (make_more_room memory last t)
  unfolding make_more_room
  make_more_room-Same last t h = elim (Bool-cases (ltb t.size last)) [
    | inl e ↦ rw (make_more_room, e) (resize_to-Same _ t (omega (arith, h)))
    | inr e ↦ rw (make_more_room, e) (Same-refl t)
  ]

  -- A place that is found for the siblings `s ∷ more`.
  pub record Found (t : DatImpl) (s : TreeNode) (more : List TreeNode) (r : ℕ × ℕ × DatImpl)
      : Type 0 where
    pub same : Same t r.2
    pub fresh : r.2.size ≡ t.size → get_elem? t.used r.0 ≡ some false
    pub free : any_taken r.2.check r.0 (s ∷ more) ≡ some false
    pub start : 1 ≤ r.0

  Found-from :
      (t u : DatImpl) (s : TreeNode) (more : List TreeNode) (r : ℕ × ℕ × DatImpl)
      → Same t u
      → Found u s more r
      → Found t s more r
  Found-from t u s more r h f = record {
    same = Same-trans t u r.2 h f.same;
    fresh = λ e.
        let (b, c, w) = h.arrays (omega (arith, e, h.le, f.same.le)) in
        ap (λ used. get_elem? used r.0) (sym w) ∙ f.fresh (omega (arith, e, h.le, f.same.le));
    free = f.free;
    start = f.start;
  }

  -- The note that a free slot was met.
  noted-Same :
      (first : Bool) (n : ℕ) (t : DatImpl)
      → Same t (if first then t else record t { next_check_pos = n })
  noted-Same true n t = Same-refl t
  noted-Same false n t = record { words = refl; le = omega arith; arrays = λ e. (refl, refl, refl) }

  pub find_begin-Found :
      (rounds : ℕ) (first : Bool) (at : ℕ) (s : TreeNode) (more : List TreeNode) (t : DatImpl)
      (r : ℕ × ℕ × DatImpl)
      → 20 ≤ t.size
      → s.code ≤ at
      → find_begin memory rounds first at s more t ≡ some r
      → Found t s more r
  unfolding find_begin
  find_begin-Found zero first at s more t r h k e = cc e
  find_begin-Found (suc rounds) first at s more t r h k e =
      elim (Option-cases (get_elem? t.check (at + 1))) [
        | inl n ↦ cc (rw (find_begin, n) at e)
        | inr (c, n) ↦ elim (Bool-cases (same c (pos 0))) [
          | inr z ↦
              let u : DatImpl = record t { non_zero_num = t.non_zero_num + 1 } in
              Found-from t u s more r
                (record { words = refl; le = omega arith; arrays = λ q. (refl, refl, refl) })
                (find_begin-Found rounds first (at + 1) s more u r h (omega (arith, k))
                  (rw (find_begin, n, ◌>>=◌, z) at e))
          | inl z ↦
              let begin = at + 1 - s.code in
              let last = back_code s more + begin in
              let t₁ : DatImpl = if first then t else record t { next_check_pos = at + 1 } in
              let t₂ = make_room memory last t₁ in
              let t₃ = make_more_room memory last t₂ in
              let s₂ : Same t t₂ =
                Same-trans t t₁ t₂ (noted-Same first (at + 1) t)
                  (make_room-Same last t₁ (omega (arith, h, (noted-Same first (at + 1) t).le))) in
              let s₃ : Same t₂ t₃ = make_more_room-Same last t₂ (omega (arith, h, s₂.le)) in
              let s₁₃ = Same-trans t t₂ t₃ s₂ s₃ in
              let again : (u : DatImpl)
                  → Same t u
                  → find_begin memory rounds true (at + 1) s more u ≡ some r
                  → Found t s more r =
                λ u q f. Found-from t u s more r q (
                  find_begin-Found rounds true (at + 1) s more u r (omega (arith, h, q.le))
                    (omega (arith, k)) f) in
              elim (Option-cases (get_elem? t₂.used begin)) [
                | inl m ↦ cc (rw (find_begin, n, ◌>>=◌, z, m) at e)
                | inr (true, m) ↦ again t₂ s₂ (rw (find_begin, n, ◌>>=◌, z, m) at e)
                | inr (false, m) ↦ elim (Option-cases (any_taken t₃.check begin (s ∷ more))) [
                  | inl a ↦ cc (rw (find_begin, n, ◌>>=◌, z, m, a) at e)
                  | inr (true, a) ↦ again t₃ s₁₃ (rw (find_begin, n, ◌>>=◌, z, m, a) at e)
                  | inr (false, a) ↦
                      subst (Found t s more) (some_inj (rw (find_begin, n, ◌>>=◌, z, m, a) at e))
                        (record {
                          same = s₁₃;
                          fresh = λ q.
                              let (b, c', w) = s₂.arrays (omega (arith, q, s₂.le, s₃.le)) in
                              ap (λ used. get_elem? used begin) (sym w) ∙ m;
                          free = a;
                          start = omega (arith, k);
                        })
                ]
              ]
        ]
      ]
