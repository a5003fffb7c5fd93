-- ===== src/Dat/Build/Search.antt =====
-- `_search` and `_reversed_search` in a double array that was built.
use sunet.Base.{
  ℕ, suc, ◌≤◌, ◌≡◌, refl, sym, ap, ◌∙◌, subst, true, List, [], ◌∷◌, some, Bytes, length, get_elem?,
  Option-cases, inl, inr, append-nil, same_refl, arith,
}
use sunet.Base.Int.{pos, negsuc, ◌-ℤ◌, ltb_ℤ, int_order}
use sunet.Util.{split_ch_words}
use sunet.Dat.{◌>>=◌, Dat, at_index, dat_search, reversed_search, value_of}
use sunet.Dat.Build.{DatImpl, Memory, TreeNode, dat_insert, dat_build, set_at}
use sunet.Dat.Build.Grow.{some_inj, Grows}
use sunet.Dat.Build.Slots.{set_at_lem}
use sunet.Dat.Build.Stored.{Stored-carry, NotStarted}
use sunet.Dat.Build.Insert.{dat_insert-Inserts}
use sunet.Dat.Build.Ranges.{Spell, Spelled, Sorted, under, Inner, IsRange}
use sunet.Dat.Build.Fetched.{fetch_siblings-Inner, IsRange-Orderly}
use sunet.Dat.Build.Walk.{Ends, walk}

pub under_nothing : (keys : List (List ℕ)) → under [] keys ≡ keys
under_nothing [] = refl
under_nothing (k ∷ keys) = ap (λ ks. k ∷ ks) (under_nothing keys)

pub length-Spelled :
    (dicts : List (List Bytes)) (keys : List (List ℕ))
    → Spelled dicts keys
    → length dicts ≡ length keys
length-Spelled [] [] h = refl
length-Spelled [] (k ∷ keys) h = ground (arith, h)
length-Spelled (d ∷ dicts) [] h = ground (arith, h)
length-Spelled (d ∷ dicts) (k ∷ keys) h = ap suc (length-Spelled dicts keys h.1)

-- The root is a range over all keys.
abbrev pub root_Inner :
    (dicts : List (List Bytes)) (first : List ℕ) (rests : List (List ℕ))
    → Spelled dicts (first ∷ rests)
    → Sorted (first ∷ rests)
    → Inner (first ∷ rests) (record { depth = 0; left = 0; right = length dicts; code = 0 })
root_Inner dicts first rests spelled sorted = record {
  pre = [];
  before = [];
  first = first;
  rests = rests;
  after = [];
  whole = sym (append-nil (under [] (first ∷ rests)) ∙ under_nothing (first ∷ rests));
  at_left = refl;
  at_right = omega (arith, length-Spelled dicts (first ∷ rests) spelled);
  deep = refl;
  sorted = sorted;
}

back_number : (k : ℕ) → pos 0 -ℤ negsuc k -ℤ pos 1 ≡ pos k
unfolding ◌-ℤ◌
back_number k = ground arith

-- A search that ends at the state of an entry returns its number.
dat_search-Ends :
    (dicts : List (List Bytes)) (keys : List (List ℕ)) (spelled : Spelled dicts keys) (dat : Dat)
    (key : Bytes) (words : List Bytes) (begin k : ℕ)
    → split_ch_words key ≡ some words
    → get_elem? dat.base 0 ≡ some (pos begin)
    → Ends dicts keys spelled dat words begin k
    → dat_search dat key ≡ some (pos k)
unfolding dat_search at_index
dat_search-Ends dicts keys spelled dat key words begin k split first (p, found, check, base) =
    let negative : ltb_ℤ (negsuc k) (pos 0) ≡ true = ground arith in
    rw
      (
        dat_search,
        split,
        ◌>>=◌,
        first,
        found,
        check,
        same_refl (pos p),
        base,
        negative,
        back_number k,
      )
      refl

reversed_search-Ends :
    {V : Type 0} (absent : V) (values : List V) (dicts : List (List Bytes)) (keys : List (List ℕ))
    (spelled : Spelled dicts keys) (dat : Dat) (key : Bytes) (words : List Bytes) (begin k : ℕ)
    → split_ch_words key ≡ some words
    → get_elem? dat.base 0 ≡ some (pos begin)
    → Ends dicts keys spelled dat words begin k
    → reversed_search absent dat values key ≡ get_elem? values k
unfolding reversed_search at_index value_of
reversed_search-Ends absent values dicts keys spelled dat key words begin k split first
      (p, found, check, base) =
    let negative : ltb_ℤ (negsuc k) (pos 0) ≡ true = ground arith in
    rw
      (
        reversed_search,
        split,
        ◌>>=◌,
        first,
        found,
        check,
        same_refl (pos p),
        base,
        negative,
        back_number k,
      )
      refl

module _ (memory : Memory) (grows : Grows memory) where
  -- The build leads to the place of the first siblings, and from there to every entry.
  dat_build-Ends :
      (fuel rounds : ℕ) (t t' : DatImpl) (first : List ℕ) (rests : List (List ℕ))
      (words : List Bytes) (codes : List ℕ) (k : ℕ) (spelled : Spelled t.dicts (first ∷ rests))
      → 20 ≤ t.size
      → Sorted (first ∷ rests)
      → dat_build memory fuel rounds t ≡ some t'
      → t'.size ≡ t.size
      → get_elem? (first ∷ rests) k ≡ some codes
      → Spell words codes
      → (begin : ℕ) × (get_elem? t'.base 0 ≡ some (pos begin))
        × Ends t.dicts
            (first ∷ rests)
            spelled
            (record { base = t'.base; check = t'.check })
            words
            begin
            k
  unfolding dat_build
  dat_build-Ends fuel rounds t t' first rests words codes k spelled size sorted built fits at
        spell =
      let keys = first ∷ rests in
      let root : TreeNode = record { depth = 0; left = 0; right = length t.dicts; code = 0 } in
      let x = root_Inner t.dicts first rests spelled sorted in
      let below = fetch_siblings-Inner t.dicts keys spelled root x in
      elim (Option-cases (dat_insert memory fuel rounds below.nodes t)) [
        | inl n ↦ cc (rw (dat_build, below.fetched, ◌>>=◌, n) at built)
        | inr (r, n) ↦ elim (Option-cases (set_at r.1.base 0 (pos r.0))) [
          | inl m ↦ cc (rw (dat_build, below.fetched, ◌>>=◌, n, m) at built)
          | inr (base, m) ↦
              let q : record r.1 { base = base } ≡ t' =
                some_inj (rw (dat_build, below.fetched, ◌>>=◌, n, m) at built) in
              let u : DatImpl = record r.1 { base = base } in
              let inserted =
                dat_insert-Inserts memory grows (IsRange keys) fuel rounds below.nodes t r size
                  (IsRange-Orderly t.dicts keys spelled) below.distinct below.ranges n in
              let (here, there) = set_at_lem r.1.base base 0 (pos r.0) m in
              let stored =
                Stored-carry fuel (NotStarted t) (NotStarted t) r.1 u r.0 below.nodes refl
                  (λ b h. h) (λ p b new one far c. (c, there p (omega (arith, one, far))))
                  (inserted.stored (ap (λ (v : DatImpl). v.size) q ∙ fits)) in
              subst
                (λ (v : DatImpl).
                  (begin : ℕ) × (get_elem? v.base 0 ≡ some (pos begin))
                  × Ends t.dicts keys spelled (record { base = v.base; check = v.check }) words
                      begin k)
                q
                (
                  r.0,
                  here,
                  subst
                      (Ends t.dicts keys spelled (record { base = u.base; check = u.check }) words
                        r.0)
                      (omega arith)
                      (walk t.dicts keys spelled words fuel (NotStarted t) u r.0 root x k codes
                        inserted.kept.words stored at spell),
                )
        ]
      ]

  -- The arrays are built for a dictionary that is not empty, whose words have codes other than 0
  -- and whose keys of codes ascend, a key before those it begins. If the build ends and the arrays
  -- did not have to grow, then every entry is found: for a text that is split into the words of the
  -- key of number `k`, `_search` returns `k` and `_reversed_search` the value of number `k`.
  pub dat_search-dat_build :
      {V : Type 0} (absent : V) (values : List V) (fuel rounds : ℕ) (t t' : DatImpl)
      (first : List ℕ) (rests : List (List ℕ)) (key : Bytes) (words : List Bytes) (codes : List ℕ)
      (k : ℕ)
      → 20 ≤ t.size
      → Spelled t.dicts (first ∷ rests)
      → Sorted (first ∷ rests)
      → dat_build memory fuel rounds t ≡ some t'
      → t'.size ≡ t.size
      → get_elem? (first ∷ rests) k ≡ some codes
      → split_ch_words key ≡ some words
      → Spell words codes
      → let dat : Dat = record { base = t'.base; check = t'.check } in
        (dat_search dat key ≡ some (pos k))
        × (reversed_search absent dat values key ≡ get_elem? values k)
  dat_search-dat_build absent values fuel rounds t t' first rests key words codes k size spelled
        sorted built fits at split spell =
      let keys = first ∷ rests in
      let dat : Dat = record { base = t'.base; check = t'.check } in
      let (begin, top, ends) =
        dat_build-Ends fuel rounds t t' first rests words codes k spelled size sorted built fits at
          spell in
      (
        dat_search-Ends t.dicts keys spelled dat key words begin k split top ends,
        reversed_search-Ends absent values t.dicts keys spelled dat key words begin k split top
            ends,
      )
