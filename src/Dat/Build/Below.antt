-- ===== src/Dat/Build/Below.antt =====
-- The siblings below a range: they are ranges, and each key below is met by one of them.
use sunet.Base.{
  ℕ, suc, ◌+◌, ◌≡◌, refl, sym, ap, ◌∙◌, subst, List, [], ◌∷◌, ◌++◌, map, some, length, get_elem?,
  ◌==◌, All, Bool-cases, inl, inr, append_assoc, length-append, arith,
}
use sunet.Dat.Build.{TreeNode}
use sunet.Dat.Build.Siblings.{tree_node, groups}
use sunet.Dat.Build.Ranges.{Sorted, head_code, under, Inner, IsRange}
use sunet.Dat.Build.Runs.{
  Meets, Branch, under-append, length-under, run_next, get_elem?-split, under_elem, run_Inner,
}

pub record Runs (keys : List (List ℕ)) (pre : List ℕ) (nodes : List TreeNode) (left : ℕ)
    (below : List (List ℕ)) : Type 0 where
  pub branches : All (Branch keys pre) nodes
  pub ranges : All (IsRange keys) nodes
  pub meets :
      (j c : ℕ) (r : List ℕ) → get_elem? below j ≡ some (c ∷ r) → Meets keys nodes (left + j) c r

pub Meets-later :
    (keys : List (List ℕ)) (n : TreeNode) (nodes : List TreeNode) (k c : ℕ) (r : List ℕ)
    → Meets keys nodes k c r
    → Meets keys (n ∷ nodes) k c r
Meets-later keys n nodes k c r m = record {
  node = m.node;
  member = inr m.member;
  code = m.code;
  range = m.range;
  at = m.at;
  here = m.here;
  index = m.index;
}

Meets-first :
    (keys : List (List ℕ)) (n : TreeNode) (nodes : List TreeNode) (range : Inner keys n) (j c d : ℕ)
    (r : List ℕ)
    → n.code ≡ c
    → c ≡ d
    → get_elem? (range.first ∷ range.rests) j ≡ some r
    → Meets keys (n ∷ nodes) (n.left + j) d r
Meets-first keys n nodes range j c d r e q h = record {
  node = n;
  member = inl refl;
  code = e ∙ q;
  range = range;
  at = j;
  here = h;
  index = refl;
}

under_snoc :
    (c : ℕ) (t r : List ℕ) (tails rests : List (List ℕ))
    → under (c ∷ []) (t ∷ (tails ++ r ∷ [])) ++ rests
      ≡ under (c ∷ []) (t ∷ tails) ++ (c ∷ r) ∷ rests
under_snoc c t r tails rests =
    ap (λ ks. ks ++ rests) (under-append (c ∷ []) (t ∷ tails) (r ∷ []))
    ∙ append_assoc (under (c ∷ []) (t ∷ tails)) ((c ∷ r) ∷ []) rests

module _ (keys : List (List ℕ)) (pre : List ℕ) (after : List (List ℕ)) where
  pub groups-Runs :
      (rests before : List (List ℕ)) (c left i : ℕ) (t : List ℕ) (tails : List (List ℕ))
      → keys ≡ before ++ (under pre (under (c ∷ []) (t ∷ tails) ++ rests) ++ after)
      → length before ≡ left
      → i ≡ left + suc (length tails)
      → Sorted (under (c ∷ []) (t ∷ tails) ++ rests)
      → Runs keys pre
          (groups (length pre) left c i (map head_code rests))
          left
          (under (c ∷ []) (t ∷ tails) ++ rests)
  unfolding groups run_Inner
  groups-Runs [] before c left i t tails whole at_left at_i sorted =
      let range = run_Inner keys pre after before c left i t tails [] whole at_left at_i sorted in
      record {
        branches = ((range, refl), tt);
        ranges = (inl range, tt);
        meets = λ j d r h. elim (get_elem?-split (under (c ∷ []) (t ∷ tails)) [] j) [
          | inr (n, q, e) ↦ cc (e, h)
          | inl (e, size) ↦
              let (q, e') = under_elem c d (t ∷ tails) j r (sym e ∙ h) in
              Meets-first keys (tree_node (length pre + 1) left i c) [] range j c d r refl q e'
        ];
      }
  groups-Runs ([] ∷ rests) before c left i t tails whole at_left at_i sorted =
      let ((d, r', q, le), sorted') = run_next c t tails [] rests sorted in cc q
  groups-Runs ((d ∷ r) ∷ rests) before c left i t tails whole at_left at_i sorted =
      let ((d', r', q, le), sorted') = run_next c t tails (d ∷ r) rests sorted in
      elim (Bool-cases (c == d)) [
        | inl z ↦
            let same_code : c ≡ d = ground (arith, z) in
            let snoc : under (c ∷ []) (t ∷ (tails ++ r ∷ [])) ++ rests
                ≡ under (c ∷ []) (t ∷ tails) ++ (d ∷ r) ∷ rests =
              under_snoc c t r tails rests
              ∙ ap (λ (n : ℕ). under (c ∷ []) (t ∷ tails) ++ (n ∷ r) ∷ rests) same_code in
            let ih =
              groups-Runs rests before c left (i + 1) t (tails ++ r ∷ [])
                (whole ∙ ap (λ ks. before ++ (under pre ks ++ after)) (sym snoc)) at_left
                (omega (arith, at_i, length-append tails (r ∷ [])))
                (subst Sorted (sym snoc) sorted) in
            subst
              (λ ks. Runs keys pre (groups (length pre) left c i (d ∷ map head_code rests)) left ks)
              snoc (rw (groups, z) ih)
        | inr z ↦
            let run = under (c ∷ []) (t ∷ tails) in
            let range =
              run_Inner keys pre after before c left i t tails ((d ∷ r) ∷ rests) whole at_left at_i
                sorted in
            let size : length run ≡ suc (length tails) = length-under (c ∷ []) (t ∷ tails) in
            let before' = before ++ under pre run in
            let whole' : keys ≡ before' ++ (under pre ((d ∷ r) ∷ rests) ++ after) =
              whole
              ∙ ap (λ ks. before ++ (ks ++ after)) (under-append pre run ((d ∷ r) ∷ rests))
              ∙ ap (λ ks. before ++ ks)
                  (append_assoc (under pre run) (under pre ((d ∷ r) ∷ rests)) after)
              ∙ sym (append_assoc before (under pre run) (under pre ((d ∷ r) ∷ rests) ++ after)) in
            let ih =
              groups-Runs rests before' d i (i + 1) r [] whole'
                (omega (
                  arith,
                  at_i,
                  at_left,
                  size,
                  length-append before (under pre run),
                  length-under pre run,
                ))
                (omega arith) sorted' in
            rw (groups, z)
              (record {
                branches = ((range, refl), ih.branches);
                ranges = (inl range, ih.ranges);
                meets = λ j e s h. elim (get_elem?-split run ((d ∷ r) ∷ rests) j) [
                  | inl (f, less) ↦
                      let (same_code, here) = under_elem c e (t ∷ tails) j s (sym f ∙ h) in
                      Meets-first keys (tree_node (length pre + 1) left i c)
                        (groups (length pre) i d (i + 1) (map head_code rests)) range j c e s refl
                        same_code here
                  | inr (n, at_j, f) ↦
                      let k : i + n ≡ left + j = omega (arith, at_i, at_j, size) in
                      Meets-later keys (tree_node (length pre + 1) left i c)
                        (groups (length pre) i d (i + 1) (map head_code rests)) (left + j) e s
                        (subst
                          (λ m.
                            Meets keys (groups (length pre) i d (i + 1) (map head_code rests)) m e
                              s)
                          k (ih.meets n e s (sym f ∙ h)))
                ];
              })
      ]
