-- ===== src/Trie/Subtree.antt =====
-- alias/dat/trie.h: the completeness of `dfs_search` and of `Trie::search`.
use sunet.Base.{
  ◌≡◌, refl, sym, ap, ◌∙◌, List, [], ◌∷◌, ◌++◌, Option, none, some, Bytes, cmp_bytes,
  cmp_bytes_sound, cmp_bytes-cases, inl, inr, ◌≢◌, arith, append_assoc, append-nil,
}
use Prim.Native.Nat.{Ordering}
use mathlib.Core.List.{Memᴰ}
use mathlib.Core.List.Memᴰ
use sunet.Util.Words.{concat}
use sunet.Trie.{
  Node, node, Edges, nil, edge, find_edge, follow, push, dfs_search, dfs_edges, CnString,
  extract_search, search,
}
use sunet.Trie.Lookup.{value_at, value_of, step, follow_cons}

module _ {ℓ} {A : Type ℓ} where
  push_keeps :
      (x : Bytes × A) (st : Option A) (begin : Bytes) (results : List (Bytes × A))
      → Memᴰ x results
      → Memᴰ x (push st begin results)
  push_keeps x none begin results m = m
  push_keeps x (some v) begin results m = Memᴰ.append_left ((begin, v) ∷ []) m

  mutual
    unfolding dfs_search dfs_edges

    keeps :
        (x : Bytes × A) (n : Node A) (begin : Bytes) (results : List (Bytes × A))
        → Memᴰ x results
        → Memᴰ x (dfs_search n begin results)
    keeps x (node st es) begin results m =
        edges_keep x es begin (push st begin results) (push_keeps x st begin results m)

    edges_keep :
        (x : Bytes × A) (es : Edges A) (begin : Bytes) (results : List (Bytes × A))
        → Memᴰ x results
        → Memᴰ x (dfs_edges es begin results)
    edges_keep x nil begin results m = m
    edges_keep x (edge k n es) begin results m =
        edges_keep x es begin (dfs_search n (begin ++ k) results) (keeps x n (begin ++ k) results m)

  push_finds :
      (v : A) (st : Option A) (begin : Bytes) (results : List (Bytes × A))
      → st ≡ some v
      → Memᴰ (begin ++ concat [], v) (push st begin results)
  unfolding concat
  push_finds v none begin results h = cc h
  push_finds v (some u) begin results h =
      Memᴰ.append_right results (Memᴰ.head (ground (arith, append-nil begin, h)))

  value_here :
      (v : A) (st : Option A) (es : Edges A) → value_at [] (node st es) ≡ some v → st ≡ some v
  value_here v st es h = unfold follow in h

  text_along :
      (begin w k : Bytes) (ws : List Bytes) (v : A)
      → w ≡ k
      → ◌≡◌ {A = Bytes × A} (begin ++ concat (w ∷ ws), v) ((begin ++ k) ++ concat ws, v)
  unfolding concat
  text_along begin w k ws v e = ground (arith, append_assoc begin k (concat ws), e)

  -- The child that a lookup takes.
  taken :
      (w k : Bytes) (ws : List Bytes) (v : A) (n : Node A) (es : Edges A)
      → cmp_bytes w k ≡ Ordering.eq
      → value_of (step ws (find_edge w (edge k n es))) ≡ some v
      → value_at ws n ≡ some v
  unfolding find_edge step
  taken w k ws v n es e h = ground (arith, e, h)

  passed :
      (w k : Bytes) (ws : List Bytes) (v : A) (n : Node A) (es : Edges A)
      → cmp_bytes w k ≢ Ordering.eq
      → value_of (step ws (find_edge w (edge k n es))) ≡ some v
      → value_of (step ws (find_edge w es)) ≡ some v
  unfolding find_edge step
  passed w k ws v n es e h = ground (arith, e, h)

  mutual
    unfolding dfs_search dfs_edges find_edge step

    finds :
        (ws : List Bytes) (v : A) (n : Node A) (begin : Bytes) (results : List (Bytes × A))
        → value_at ws n ≡ some v
        → Memᴰ (begin ++ concat ws, v) (dfs_search n begin results)
    finds [] v (node st es) begin results h =
        edges_keep (begin ++ concat [], v) es begin (push st begin results)
          (push_finds v st begin results (value_here v st es h))
    finds (w ∷ ws) v (node st es) begin results h =
        edges_find w ws v es begin (push st begin results)
          (sym (ap value_of (follow_cons w ws st es)) ∙ h)

    edges_find :
        (w : Bytes) (ws : List Bytes) (v : A) (es : Edges A) (begin : Bytes)
        (results : List (Bytes × A))
        → value_of (step ws (find_edge w es)) ≡ some v
        → Memᴰ (begin ++ concat (w ∷ ws), v) (dfs_edges es begin results)
    edges_find w ws v nil begin results h = ground (arith, h)
    edges_find w ws v (edge k n es) begin results h = elim (cmp_bytes-cases w k) [
      | inl e ↦
          edges_find w ws v es begin (dfs_search n (begin ++ k) results)
            (passed w k ws v n es (λ p. cc (e, p)) h)
      | inr (inl e) ↦
          edges_keep (begin ++ concat (w ∷ ws), v) es begin (dfs_search n (begin ++ k) results)
            (Memᴰ.cast (text_along begin w k ws v (cmp_bytes_sound w k e))
              (finds ws v n (begin ++ k) results (taken w k ws v n es e h)))
      | inr (inr e) ↦
          edges_find w ws v es begin (dfs_search n (begin ++ k) results)
            (passed w k ws v n es (λ p. cc (e, p)) h)
    ]

  step_append :
      (us ws : List Bytes) (o : Option (Node A))
      → ((n : Node A) → follow (us ++ ws) n ≡ step ws (follow us n))
      → step (us ++ ws) o ≡ step ws (step us o)
  unfolding step
  step_append us ws none h = refl
  step_append us ws (some n) h = h n

  follow_append : (us ws : List Bytes) (n : Node A) → follow (us ++ ws) n ≡ step ws (follow us n)
  follow_append [] ws n = unfold follow in unfold step in refl
  follow_append (u ∷ us) ws (node st es) =
      follow_cons u (us ++ ws) st es
      ∙ step_append us ws (find_edge u es) (follow_append us ws)
      ∙ ap (step ws) (sym (follow_cons u us st es))

  rest_of :
      (us ws : List Bytes) (n : Node A) (o : Option (Node A)) (v : A)
      → follow us n ≡ o
      → value_at (us ++ ws) n ≡ some v
      → value_of (step ws o) ≡ some v
  rest_of us ws n o v e h = ap value_of (ap (step ws) (sym e) ∙ sym (follow_append us ws n)) ∙ h

  reported :
      (str : CnString) (ws : List Bytes) (v : A) (o : Option (Node A))
      → value_of (step ws o) ≡ some v
      → Memᴰ
          (str.string ++ concat ws, v)
          (elim o [ none ↦ [] | some target ↦ dfs_search target str.string [] ])
  unfolding step
  reported str ws v none h = ground (arith, h)
  reported str ws v (some n) h = finds ws v n str.string [] h

  -- When a sequence of words that begins with those of the text leads to a value, `search`
  -- reports this value, and with it the text followed by the remaining words.
  pub search-finds :
      (root : Node A) (str : CnString) (ws : List Bytes) (v : A)
      → value_at (str.words ++ ws) root ≡ some v
      → Memᴰ (str.string ++ concat ws, v) (search root str)
  unfolding search extract_search
  search-finds root str ws v h =
      reported str ws v (follow str.words root)
        (rest_of str.words ws root (follow str.words root) v refl h)
