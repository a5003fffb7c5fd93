-- ===== src/Dat/Build/Walk.antt =====
-- The walk of a search through the places that `_insert` made.
use sunet.Base.{
  ℕ, zero, suc, ◌+◌, ◌≡◌, refl, sym, ap, ◌∙◌, subst, List, [], ◌∷◌, some, Bytes, length, get_elem?,
  ◌==◌, All, inl, inr, same_refl, arith,
}
use sunet.Base.Int.{ℤ, pos, negsuc, ◌+ℤ◌, int_order, +ℤ_parts, eq_of_parts}
use sunet.Dat.{◌>>=◌, Dat, at_index, search_loop}
use sunet.Dat.Build.{DatImpl, TreeNode, fetch_siblings}
use sunet.Dat.Build.Grow.{some_inj}
use sunet.Dat.Build.Stored.{Stored, Linked}
use sunet.Dat.Build.Ranges.{Spell, Spelled, Before, Sorted, Inner}
use sunet.Dat.Build.Runs.{Member}
use sunet.Dat.Build.Fetched.{fetch_siblings-Inner, fetch_siblings-Leaf}

pub All-Member :
    (P : TreeNode → Type 0) (nodes : List TreeNode) (s : TreeNode)
    → All P nodes
    → Member s nodes
    → P s
All-Member P [] s h m = ground (arith, m)
All-Member P (n ∷ nodes) s h (inl e) = subst P (sym e) h.0
All-Member P (n ∷ nodes) s h (inr m) = All-Member P nodes s h.1 m

-- Only the first key of a range ends.
ends_first :
    (first : List ℕ) (rests : List (List ℕ)) (j : ℕ)
    → Sorted (first ∷ rests)
    → get_elem? (first ∷ rests) j ≡ some []
    → (j ≡ 0) × (first ≡ [])
ends_first first rests zero h e = (refl, some_inj e)
ends_first first [] (suc j) h e = cc e
ends_first first (r ∷ rests) (suc j) h e =
    let (z, q) = ends_first r rests j h.1 e in ground (arith, subst (Before first) q h.0)

plus_pos : (n c : ℕ) → pos n +ℤ pos c ≡ pos (n + c)
unfolding ◌+ℤ◌
plus_pos n c = eq_of_parts (pos n +ℤ pos c) (pos (n + c)) (omega (arith, +ℤ_parts (pos n) (pos c)))

pub at_sum : (array : List ℤ) (n c : ℕ) → at_index array (pos n +ℤ pos c) ≡ get_elem? array (n + c)
unfolding at_index
at_sum array n c = rw (plus_pos n c) refl

module _ (dicts : List (List Bytes)) (keys : List (List ℕ)) (spelled : Spelled dicts keys) where
  -- What a search ends at: the state of an entry with the number `k`.
  abbrev pub Ends : Dat → List Bytes → ℕ → ℕ → Type 0
  Ends dat words begin k =
      (p : ℕ) × (search_loop dat words (pos begin) ≡ some (some (pos p)))
      × (get_elem? dat.check p ≡ some (pos p))
      × (get_elem? dat.base p ≡ some (negsuc k))

  pub walk :
      (words : List Bytes) (fuel : ℕ) (P : ℕ → Type 0) (t : DatImpl) (begin : ℕ) (s : TreeNode)
      (x : Inner keys s) (j : ℕ) (r : List ℕ)
      → t.dicts ≡ dicts
      → Stored fuel P t begin (fetch_siblings-Inner dicts keys spelled s x).nodes
      → get_elem? (x.first ∷ x.rests) j ≡ some r
      → Spell words r
      → Ends (record { base = t.base; check = t.check }) words begin (s.left + j)
  unfolding Stored search_loop
  walk words zero P t begin s x j r same_words stored h spell = ground (arith, stored)
  walk [] (suc fuel) P t begin s x j [] same_words (here, start, all) h spell =
      let below = fetch_siblings-Inner dicts keys spelled s x in
      let (z, q) = ends_first x.first x.rests j x.sorted h in
      let (n, member, code, left, leaf) = below.ends q in
      let (c, (fetched, f, linked)) =
        All-Member
          (λ i.
            (get_elem? t.check (begin + i.code) ≡ some (pos begin))
            × Linked (Stored fuel P t) t begin i)
          below.nodes n all member in
      let none_below : (0, []) ≡ fetched = some_inj (
        sym (fetch_siblings-Leaf dicts keys spelled n leaf)
        ∙ ap (λ d. fetch_siblings d n) (sym same_words)
        ∙ f) in
      let slot : begin + n.code ≡ begin = omega (arith, code) in
      let number : n.left ≡ s.left + j = omega (arith, left, z) in
      elim linked [
        | inr (some_below, deeper) ↦ cc (ap (λ g. g.0 == 0) none_below, some_below)
        | inl (u, v) ↦ (
          begin,
          refl,
          ap (λ i. get_elem? t.check i) (sym slot) ∙ c,
          ap (λ i. get_elem? t.base i) (sym slot) ∙ v ∙ ap (λ i. some (negsuc i)) number,
        )
      ]
  walk (w ∷ words) (suc fuel) P t begin s x j [] same_words stored h spell = ground (arith, spell)
  walk [] (suc fuel) P t begin s x j (c ∷ r) same_words stored h spell = ground (arith, spell)
  walk (w ∷ words) (suc fuel) P t begin s x j (c ∷ r) same_words (here, start, all) h
        (code, one, spell) =
      let below = fetch_siblings-Inner dicts keys spelled s x in
      let m = below.meets j c r h in
      let deeper = fetch_siblings-Inner dicts keys spelled m.node m.range in
      let (check, (fetched, f, linked)) =
        All-Member
          (λ i.
            (get_elem? t.check (begin + i.code) ≡ some (pos begin))
            × Linked (Stored fuel P t) t begin i)
          below.nodes m.node all m.member in
      let q : (length deeper.nodes, deeper.nodes) ≡ fetched =
        some_inj (sym deeper.fetched ∙ ap (λ d. fetch_siblings d m.node) (sym same_words) ∙ f) in
      let slot : begin + m.node.code ≡ begin + c = omega (arith, m.code) in
      elim linked [
        | inl (u, v) ↦ cc (ap (λ g. g.0 == 0) q, deeper.some_nodes, u)
        | inr (u, (sub, v, stored)) ↦
            let stored' : Stored fuel P t sub deeper.nodes =
              subst (λ g. Stored fuel P t sub g.1) (sym q) stored in
            let (p, found, ends, number) =
              walk words fuel P t sub m.node m.range m.at r same_words stored' m.here spell in
            let check' : at_index t.check (pos begin +ℤ pos c) ≡ some (pos begin) =
              at_sum t.check begin c ∙ ap (λ i. get_elem? t.check i) (sym slot) ∙ check in
            let base' : at_index t.base (pos begin +ℤ pos c) ≡ some (pos sub) =
              at_sum t.base begin c ∙ ap (λ i. get_elem? t.base i) (sym slot) ∙ v in
            (
              p,
              rw (search_loop, code, ◌>>=◌, check', same_refl (pos begin), base') found,
              ends,
              number ∙ ap (λ i. some (negsuc i)) m.index,
            )
      ]
