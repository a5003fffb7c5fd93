-- ===== src/Trie/Lookup.antt =====
-- alias/dat/trie.h: what `Trie::insert` does to the values stored in the trie.
use sunet.Base.{
  ◌≡◌, refl, ap, ◌∙◌, Bool, true, false, List, [], ◌∷◌, Option, none, some, Bytes, if◌then◌else◌,
  cmp_bytes, cmp_bytes_sound, cmp_bytes_refl, cmp_bytes_trans, cmp_bytes-cases, inl, inr, ◌≢◌,
}
use native.Mathlib.Omega.{arith}
use Prim.Native.Nat.{Ordering}
use sunet.Trie.{Node, node, Edges, nil, edge, status, find_edge, update_edge, insert_words, follow}

-- The test for two texts of the same words.
abbrev pub same_words : List Bytes → List Bytes → Bool
same_words [] [] = true
same_words [] (w ∷ ws) = false
same_words (v ∷ vs) [] = false
same_words (v ∷ vs) (w ∷ ws) = elim (cmp_bytes v w) [ Ordering.eq ↦ same_words vs ws | _ ↦ false ]

module _ {ℓ} {A : Type ℓ} where
  -- A child that is not in the map yet.
  abbrev pub or_new : Option (Node A) → Node A
  or_new none = node none nil
  or_new (some n) = n

  abbrev pub value_of : Option (Node A) → Option A
  value_of none = none
  value_of (some n) = status n

  -- The value stored under the words, when the nodes lead there.
  abbrev pub value_at : List Bytes → Node A → Option A
  value_at ws n = value_of (follow ws n)

  pub find-update_self :
      (f : Node A → Node A) (w : Bytes) (es : Edges A)
      → find_edge w (update_edge f w es) ≡ some (f (or_new (find_edge w es)))
  unfolding find_edge update_edge
  find-update_self f w nil = ground (arith, cmp_bytes_refl w)
  find-update_self f w (edge k n es) = elim (cmp_bytes-cases w k) [
    | inl e ↦ rw (e, find_edge, update_edge) ground (arith, cmp_bytes_refl w)
    | inr (inl e) ↦ rw (e, find_edge, update_edge) ground (arith, e)
    | inr (inr e) ↦ rw (e, find_edge, update_edge) ground (arith, find-update_self f w es)
  ]

  pub find-update_ne :
      (f : Node A → Node A) (v w : Bytes) (es : Edges A)
      → v ≢ w
      → find_edge v (update_edge f w es) ≡ find_edge v es
  unfolding find_edge update_edge
  find-update_ne f v w nil h = ground (arith, cmp_bytes_sound v w)
  find-update_ne f v w (edge k n es) h = elim (cmp_bytes-cases w k) [
    | inl e ↦
        rw (e, find_edge, update_edge) ground (arith, cmp_bytes_sound v w, cmp_bytes_trans v w k)
    | inr (inl e) ↦
        rw (e, find_edge, update_edge) ground (arith, cmp_bytes_sound v w, cmp_bytes_sound w k)
    | inr (inr e) ↦ rw (e, find_edge, update_edge) ground (arith, find-update_ne f v w es h)
  ]

  unfoldable pub step : List Bytes → Option (Node A) → Option (Node A)
  step ws none = none
  step ws (some n) = follow ws n

  pub follow_cons :
      (w : Bytes) (ws : List Bytes) (st : Option A) (es : Edges A)
      → follow (w ∷ ws) (node st es) ≡ step ws (find_edge w es)
  unfolding follow step
  follow_cons w ws st es = ground arith

  value_at_new : (ws : List Bytes) → value_at ws (or_new none) ≡ none
  unfolding follow find_edge
  value_at_new [] = refl
  value_at_new (w ∷ ws) = refl

  value_of-step :
      (ws : List Bytes) (o : Option (Node A)) → value_at ws (or_new o) ≡ value_of (step ws o)
  unfolding step
  value_of-step ws none = value_at_new ws
  value_of-step ws (some n) = refl

  below :
      (w : Bytes) (ws vs : List Bytes) (val : A) (st : Option A) (es : Edges A)
      → value_at (w ∷ vs) (insert_words (w ∷ ws) val (node st es))
        ≡ value_at vs (insert_words ws val (or_new (find_edge w es)))
  unfolding insert_words step
  below w ws vs val st es =
      rw
        (
          follow_cons w vs st (update_edge (insert_words ws val) w es),
          find-update_self (insert_words ws val) w es,
        )
        refl

  beside :
      (v w : Bytes) (ws vs : List Bytes) (val : A) (st : Option A) (es : Edges A)
      → v ≢ w
      → value_at (v ∷ vs) (insert_words (w ∷ ws) val (node st es)) ≡ value_at (v ∷ vs) (node st es)
  unfolding insert_words
  beside v w ws vs val st es h =
      rw
        (
          follow_cons v vs st (update_edge (insert_words ws val) w es),
          follow_cons v vs st es,
          find-update_ne (insert_words ws val) v w es h,
        )
        refl

  value_at_child :
      (w : Bytes) (vs : List Bytes) (st : Option A) (es : Edges A)
      → value_at vs (or_new (find_edge w es)) ≡ value_at (w ∷ vs) (node st es)
  value_at_child w vs st es = rw (follow_cons w vs st es) (value_of-step vs (find_edge w es))

  -- After a value is stored under some words, these words lead to it, and every other sequence
  -- of words leads to the value it led to before.
  pub value_at-insert_words :
      (ws vs : List Bytes) (val : A) (t : Node A)
      → value_at vs (insert_words ws val t) ≡ (if same_words vs ws then some val else value_at vs t)
  value_at-insert_words [] [] val (node st es) = unfold follow in unfold insert_words in refl
  value_at-insert_words [] (v ∷ vs) val (node st es) = unfold follow in unfold insert_words in refl
  value_at-insert_words (w ∷ ws) [] val (node st es) = unfold follow in unfold insert_words in refl
  value_at-insert_words (w ∷ ws) (v ∷ vs) val (node st es) = elim (cmp_bytes-cases v w) [
    | inl e ↦ rw (e, same_words) (beside v w ws vs val st es (λ p. cc (e, cmp_bytes_refl w)))
    | inr (inl e) ↦
        rw (same_words, e, cmp_bytes_sound v w e)
          (below w ws vs val st es
            ∙ value_at-insert_words ws vs val (or_new (find_edge w es))
            ∙ ap (λ o. if same_words vs ws then some val else o) (value_at_child w vs st es))
    | inr (inr e) ↦ rw (e, same_words) (beside v w ws vs val st es (λ p. cc (e, cmp_bytes_refl w)))
  ]
