-- ===== src/Dat/Build/Absent.antt =====
-- The walk of `_search` for words that are no entry.
use sunet.Base.{
  ℕ, zero, suc, ◌+◌, ◌-◌, ◌≤◌, ◌≡◌, ◌≢◌, refl, sym, ap, ◌∙◌, subst, false, List, [], ◌∷◌, ◌++◌,
  some, none, Bytes, length, get_elem?, same, same→eq, same_refl, Bool-cases, inl, inr, ◌⊎◌,
  append_assoc, append-nil, arith, ◌==◌,
}
use sunet.Base.Int.{ℤ, pos, int_order, ◌+ℤ◌}
use sunet.Dat.{◌>>=◌, Dat, at_index, search_loop, get_cn_code}
use sunet.Dat.Build.{DatImpl, TreeNode, fetch_siblings}
use sunet.Dat.Build.Grow.{some_inj}
use sunet.Dat.Build.Stored.{Stored, Linked}
use sunet.Dat.Build.Ranges.{Spell, Spelled, under, at_key, Inner}
use sunet.Dat.Build.Runs.{Branch, End}
use sunet.Dat.Build.Fetched.{fetch_siblings-Inner, Spell-pos}
use sunet.Dat.Build.Walk.{All-Member, at_sum}
use sunet.Dat.Build.Room.{get_elem?_in}
use sunet.Dat.Build.Width.{AtMost}
use sunet.Dat.Build.Tight.{Tree, Leads}

-- How a search fails: in its loop, or at the slot that it ends at.
abbrev pub Misses : Dat → List Bytes → ℕ → Type 0
Misses dat words b =
    (search_loop dat words (pos b) ≡ some none)
    ⊎ ((p : ℕ) × (c : ℤ) × (search_loop dat words (pos b) ≡ some (some (pos p)))
        × (get_elem? dat.check p ≡ some c)
        × (same (pos p) c ≡ false))

elem_at :
    (before : List (List ℕ)) (k : List ℕ) (after : List (List ℕ))
    → get_elem? (before ++ k ∷ after) (length before) ≡ some k
elem_at [] k after = refl
elem_at (b ∷ before) k after = elem_at before k after

-- A round that leaves the loop, and one that goes on.
loop_leaves :
    (dat : Dat) (w : Bytes) (words : List Bytes) (begin c : ℕ) (v : ℤ)
    → get_cn_code w ≡ some c
    → get_elem? dat.check (begin + c) ≡ some v
    → same (pos begin) v ≡ false
    → search_loop dat (w ∷ words) (pos begin) ≡ some none
unfolding search_loop
loop_leaves dat w words begin c v code e z =
    let check : at_index dat.check (pos begin +ℤ pos c) ≡ some v = at_sum dat.check begin c ∙ e in
    rw (search_loop, code, ◌>>=◌, check, z) refl

Misses-after :
    (dat : Dat) (w : Bytes) (words : List Bytes) (begin c sub : ℕ)
    → get_cn_code w ≡ some c
    → get_elem? dat.check (begin + c) ≡ some (pos begin)
    → get_elem? dat.base (begin + c) ≡ some (pos sub)
    → Misses dat words sub
    → Misses dat (w ∷ words) begin
unfolding search_loop
Misses-after dat w words begin c sub code e b m =
    let check : at_index dat.check (pos begin +ℤ pos c) ≡ some (pos begin) =
      at_sum dat.check begin c ∙ e in
    let base : at_index dat.base (pos begin +ℤ pos c) ≡ some (pos sub) =
      at_sum dat.base begin c ∙ b in
    let step : search_loop dat (w ∷ words) (pos begin) ≡ search_loop dat words (pos sub) =
      rw (search_loop, code, ◌>>=◌, check, same_refl (pos begin), base) refl in
    elim m [
      | inl n ↦ inl (step ∙ n)
      | inr (p, d, n, found, differs) ↦ inr (p, d, step ∙ n, found, differs)
    ]

module _ (dicts : List (List Bytes)) (keys : List (List ℕ)) (spelled : Spelled dicts keys)
    (limit size : ℕ) where
  -- No sibling with the code 0 has words below it.
  Branch-pos : (pre : List ℕ) (s : TreeNode) → Branch keys pre s → 1 ≤ s.code
  Branch-pos pre s (x, q) =
      let (words, at, spell) =
        at_key dicts x.before (x.pre ++ x.first) (under x.pre x.rests ++ x.after)
          (subst (Spelled dicts) x.whole spelled) in
      Spell-pos words pre s.code x.first (
        subst (Spell words)
          (ap (λ (k : List ℕ). k ++ x.first) q ∙ append_assoc pre (s.code ∷ []) x.first) spell)

  End-key : (pre : List ℕ) (s : TreeNode) → End keys pre s → (j : ℕ) × (get_elem? keys j ≡ some pre)
  End-key pre s (x, q, z) = (
    length x.before,
    ap (λ ks. get_elem? ks (length x.before)) x.whole ∙ elem_at x.before x.key x.after ∙ ap some q,
  )

  pub absent :
      (words : List Bytes) (codes : List ℕ) (k fuel : ℕ) (P Q : ℕ → Type 0) (t : DatImpl)
      (begin : ℕ) (s : TreeNode) (x : Inner keys s)
      → t.dicts ≡ dicts
      → length t.check ≡ size
      → Tree dicts (size - limit) k P t begin (fetch_siblings-Inner dicts keys spelled s x).nodes
      → Stored fuel Q t begin (fetch_siblings-Inner dicts keys spelled s x).nodes
      → Spell words codes
      → AtMost limit codes
      → ((j : ℕ) → get_elem? keys j ≢ some (x.pre ++ codes))
      → Misses (record { base = t.base; check = t.check }) words begin
  unfolding Tree Stored search_loop
  absent words codes zero fuel P Q t begin s x same_words checks tree stored spell low none_such =
      ground (arith, tree)
  absent words codes (suc k) zero P Q t begin s x same_words checks tree stored spell low
        none_such =
      ground (arith, stored)
  absent [] (c ∷ codes) (suc k) (suc fuel) P Q t begin s x same_words checks tree stored spell low
        none_such =
      ground (arith, spell)
  absent (w ∷ words) [] (suc k) (suc fuel) P Q t begin s x same_words checks tree stored spell low
        none_such =
      ground (arith, spell)
  absent [] [] (suc k) (suc fuel) P Q t begin s x same_words checks tree stored spell low
        none_such =
      let below = fetch_siblings-Inner dicts keys spelled s x in
      let (c, e) = get_elem?_in t.check begin (omega (arith, tree.low, checks)) in
      elim (Bool-cases (same (pos begin) c)) [
        | inr z ↦ inr (begin, c, refl, e, z)
        | inl z ↦
            let own : get_elem? t.check (begin + 0) ≡ some (pos begin) =
              ap (λ (i : ℕ). get_elem? t.check i) (omega arith)
              ∙ e
              ∙ ap some (sym (same→eq (pos begin) c z)) in
            let (r, m, code) = tree.tight 0 own in
            elim (All-Member _ below.nodes r below.children m) [
              | inl b ↦ absurd (omega (arith, Branch-pos x.pre r b, code))
              | inr b ↦
                  let (j, at) = End-key x.pre r b in
                  absurd (none_such j (at ∙ ap some (sym (append-nil x.pre))))
            ]
      ]
  absent (w ∷ words) (c ∷ codes) (suc k) (suc fuel) P Q t begin s x same_words checks tree
        (here, start, all) (code, one, spell) (small, low) none_such =
      let below = fetch_siblings-Inner dicts keys spelled s x in
      let dat : Dat = record { base = t.base; check = t.check } in
      let (v, e) = get_elem?_in t.check (begin + c) (omega (arith, tree.low, small, checks)) in
      elim (Bool-cases (same (pos begin) v)) [
        | inr z ↦ inl (loop_leaves dat w words begin c v code e z)
        | inl z ↦
            let own : get_elem? t.check (begin + c) ≡ some (pos begin) =
              e ∙ ap some (sym (same→eq (pos begin) v z)) in
            let (r, m, q) = tree.tight c own in
            let slot : begin + r.code ≡ begin + c = omega (arith, q) in
            elim (All-Member _ below.nodes r below.children m) [
              | inr (y, h, nought) ↦ absurd (omega (arith, nought, one, q))
              | inl (y, h) ↦
                  let deeper = fetch_siblings-Inner dicts keys spelled r y in
                  let (chk, (fetched, f, linked)) =
                    All-Member
                      (λ i.
                        (get_elem? t.check (begin + i.code) ≡ some (pos begin))
                        × Linked (Stored fuel Q t) t begin i)
                      below.nodes r all m in
                  let g : (length deeper.nodes, deeper.nodes) ≡ fetched =
                    some_inj
                      (sym deeper.fetched ∙ ap (λ d. fetch_siblings d r) (sym same_words) ∙ f) in
                  elim linked [
                    | inl (u, entry) ↦ cc (ap (λ n. n.0 == 0) g, deeper.some_nodes, u)
                    | inr (u, (sub, entry, stored)) ↦
                        let into =
                          (All-Member (Leads dicts (Tree dicts (size - limit) k P t) t begin)
                              below.nodes r tree.leads m).1
                            sub (length deeper.nodes, deeper.nodes) entry deeper.fetched in
                        let stored' : Stored fuel Q t sub deeper.nodes =
                          subst (λ n. Stored fuel Q t sub n.1) (sym g) stored in
                        let key : y.pre ++ codes ≡ x.pre ++ c ∷ codes =
                          ap (λ (n : List ℕ). n ++ codes) h
                          ∙ append_assoc x.pre (r.code ∷ []) codes
                          ∙ ap (λ (n : ℕ). x.pre ++ n ∷ codes) q in
                        let base : get_elem? t.base (begin + c) ≡ some (pos sub) =
                          ap (λ (i : ℕ). get_elem? t.base i) (sym slot) ∙ entry in
                        Misses-after dat w words begin c sub code own base (
                          absent words codes k fuel P Q t sub r y same_words checks into stored'
                            spell low (λ j n. none_such j (n ∙ ap some key)))
                  ]
            ]
      ]
