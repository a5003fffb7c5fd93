-- ===== src/Dat/Build/Built.antt =====
-- Whole double arrays: `_build` on new arrays, and `_search` in what it leaves.
use sunet.Base.{
  ℕ, suc, ◌+◌, ◌-◌, ◌*◌, ◌≤◌, ◌≡◌, ◌≢◌, refl, sym, ap, ◌∙◌, subst, List, ◌∷◌, some, Bytes, length,
  get_elem?, inl, inr, arith,
}
use sunet.Base.Int.{ℤ, pos, negsuc, int_order}
use sunet.Util.{split_ch_words}
use sunet.Dat.{◌>>=◌, Dat, dat_search, reversed_search, at_index}
use sunet.Dat.Build.{DatImpl, Memory, TreeNode, fetch_siblings, dat_build, new_dat, set_at}
use sunet.Dat.Build.Grow.{Grows}
use sunet.Dat.Build.Slots.{set_at_lem}
use sunet.Dat.Build.Stored.{Stored, Stored-carry, NotStarted, Orderly}
use sunet.Dat.Build.Insert.{dat_insert-Inserts}
use sunet.Dat.Build.Tight.{Owned, Tree, Tree-carry, Sealed-base}
use sunet.Dat.Build.Absent.{Misses, absent}
use sunet.Dat.Build.Ranges.{Spell, Spelled, Sorted, IsRange}
use sunet.Dat.Build.Fetched.{fetch_siblings-Inner, IsRange-Orderly}
use sunet.Dat.Build.Room.{set_at_in, Free}
use sunet.Dat.Build.Width.{width, Small, AtMost, Fetched-Level}
use sunet.Dat.Build.Leaves.{taken}
use sunet.Dat.Build.Total.{dat_insert_ends}
use sunet.Dat.Build.Blank.{Zeroed, new_dat-Free, new_dat-Owned}
use sunet.Dat.Build.Search.{root_Inner, dat_search-dat_build}

-- The root, above all words.
abbrev pub root_node : List (List Bytes) → TreeNode
root_node dicts = record { depth = 0; left = 0; right = length dicts; code = 0 }

module _ (memory : Memory) (grows : Grows memory) (dicts : List (List Bytes)) (first : List ℕ)
    (rests : List (List ℕ)) (spelled : Spelled dicts (first ∷ rests))
    (sorted : Sorted (first ∷ rests)) (long limit size : ℕ)
    (small : Small long limit (first ∷ rests)) where
  -- The siblings below the root.
  abbrev first_nodes : List TreeNode
  first_nodes =
      (fetch_siblings-Inner dicts (first ∷ rests) spelled (root_node dicts)
        (root_Inner dicts first rests spelled sorted)).nodes

  -- The arrays that a build leaves.
  pub record Stands (P : ℕ → Type 0) (t : DatImpl) : Type 0 where
    pub begin : ℕ
    pub entry : get_elem? t.base 0 ≡ some (pos begin)
    pub words : t.dicts ≡ dicts
    pub room : t.size ≡ size
    pub checks : length t.check ≡ size
    pub tree : Tree dicts (size - limit) (suc long) P t begin first_nodes
    pub stored : Stored (suc long) P t begin first_nodes

  -- The last write, of the entry 0, which belongs to no place.
  Stands-entry :
      (t u : DatImpl) (begin : ℕ) (base : List ℤ)
      → u.dicts ≡ dicts
      → u.size ≡ size
      → length u.check ≡ size
      → Tree dicts (size - limit) (suc long) (NotStarted t) u begin first_nodes
      → Stored (suc long) (NotStarted t) u begin first_nodes
      → set_at u.base 0 (pos begin) ≡ some base
      → Stands (NotStarted t) (record u { base = base })
  Stands-entry t u begin base words room checks tree stored e =
      let (here, there) = set_at_lem u.base base 0 (pos begin) e in
      record {
        begin = begin;
        entry = here;
        words = words;
        room = room;
        checks = checks;
        tree =
            Tree-carry dicts (size - limit) (suc long) (NotStarted t) (NotStarted t) (λ p. p ≢ 0) u
              (record u { base = base }) begin first_nodes (λ i h. h)
              (Sealed-base u base 0 u.progress (pos begin) e)
              (λ i c new one h q. omega (arith, one, q)) tree;
        stored =
            Stored-carry (suc long) (NotStarted t) (NotStarted t) u (record u { base = base }) begin
              first_nodes refl (λ b h. h)
              (λ p b new one far c. (c, there p (λ q. omega (arith, one, far, q)))) stored;
      }

  dat_build_ends :
      (rounds : ℕ) (t : DatImpl)
      → 20 ≤ size
      → 1 + (limit + 1) + length dicts * (long * (limit + 1)) ≤ size
      → size ≤ rounds
      → Free dicts size 1 1 t
      → Owned t
      → (t' : DatImpl) × (dat_build memory (suc long) rounds t ≡ some t') × Stands (NotStarted t) t'
  unfolding dat_build
  dat_build_ends rounds t twenty fits enough free owned =
      let keys = first ∷ rests in
      let root = root_node dicts in
      let x = root_Inner dicts first rests spelled sorted in
      let below = fetch_siblings-Inner dicts keys spelled root x in
      let (level, wide) = Fetched-Level dicts keys spelled long limit small root x in
      let wide' : width below.nodes ≡ length dicts = omega (arith, wide) in
      let part : taken dicts limit size long below.nodes ≡ length dicts * (long * (limit + 1)) =
        ap (λ (n : ℕ). n * (long * (limit + 1))) wide' in
      let f : fetch_siblings t.dicts (root_node t.dicts) ≡ some (length below.nodes, below.nodes) =
        ap (λ (d : List (List Bytes)). fetch_siblings d (root_node d)) free.words ∙ below.fetched in
      let (r, inserted, into) =
        dat_insert_ends memory dicts keys spelled long limit small size grows twenty long rounds
          enough 1 1 below.nodes t below.some_nodes (omega arith) level below.ranges below.distinct
          (omega arith) (omega (arith, part, fits)) free owned in
      let (base, e, l) = set_at_in r.1.base 0 (pos r.0) (omega (arith, fits, into.free.bases)) in
      let orderly : Orderly (IsRange keys) t.dicts =
        subst (Orderly (IsRange keys)) (sym free.words) (IsRange-Orderly dicts keys spelled) in
      let whole =
        dat_insert-Inserts memory grows (IsRange keys) (suc long) rounds below.nodes t r
          (omega (arith, free.room, twenty)) orderly below.distinct below.ranges inserted in
      (
        record r.1 { base = base },
        rw (dat_build, f, ◌>>=◌, inserted, e) refl,
        Stands-entry t r.1 r.0 base into.free.words into.free.room into.free.checks into.tree
            (whole.stored (into.free.room ∙ sym free.room)) e,
      )

-- A search that fails.
dat_search-Misses :
    {V : Type 0} (absent_value : V) (values : List V) (dat : Dat) (key : Bytes) (words : List Bytes)
    (begin : ℕ)
    → split_ch_words key ≡ some words
    → get_elem? dat.base 0 ≡ some (pos begin)
    → Misses dat words begin
    → (dat_search dat key ≡ some (negsuc 0))
      × (reversed_search absent_value dat values key ≡ some absent_value)
unfolding dat_search reversed_search at_index
dat_search-Misses absent_value values dat key words begin split first (inl found) = (
  rw (dat_search, split, ◌>>=◌, first, found) refl,
  rw (reversed_search, split, ◌>>=◌, first, found) refl,
)
dat_search-Misses absent_value values dat key words begin split first
      (inr (p, c, found, check, differs)) =
    (
      rw (dat_search, split, ◌>>=◌, first, found, check, differs) refl,
      rw (reversed_search, split, ◌>>=◌, first, found, check, differs) refl,
    )

module _ (memory : Memory) (grows : Grows memory) (zeroed : Zeroed memory) where
  -- The memory that is allocated is zero, and the first resize makes arrays of 20 slots or more
  -- larger. The dictionary is not empty, its words have codes other than 0, its keys of codes ascend, a
  -- key before those it begins, no key has more than `long` codes and no code is over `limit`. If the
  -- first arrays have at least 20 and `1 + (limit + 1) * (1 + words * long)` slots, `words` the number of the
  -- entries, then the build of a new double array ends, with `long + 1` calls of `_insert`
  -- in one another and `size` rounds of each search. In the arrays that it leaves every entry is
  -- found: for a text that is split into the words of the key of number `k`, `_search` returns `k`
  -- and `_reversed_search` the value of number `k`.
  pub dat_search-dat_build_total :
      {V : Type 0} (absent : V) (values : List V) (dicts : List (List Bytes)) (first : List ℕ)
      (rests : List (List ℕ)) (long limit size rounds : ℕ) (key : Bytes) (words : List Bytes)
      (codes : List ℕ) (k : ℕ)
      → Spelled dicts (first ∷ rests)
      → Sorted (first ∷ rests)
      → Small long limit (first ∷ rests)
      → 20 ≤ size
      → 1 + (limit + 1) + length dicts * (long * (limit + 1)) ≤ size
      → size ≤ rounds
      → get_elem? (first ∷ rests) k ≡ some codes
      → split_ch_words key ≡ some words
      → Spell words codes
      → (t' : DatImpl) × (dat_build memory (suc long) rounds (new_dat memory size dicts) ≡ some t')
        × (let dat : Dat = record { base = t'.base; check = t'.check } in
            (dat_search dat key ≡ some (pos k))
            × (reversed_search absent dat values key ≡ get_elem? values k))
  unfolding new_dat
  dat_search-dat_build_total absent values dicts first rests long limit size rounds key words codes
        k spelled sorted small twenty fits enough at split spell =
      let t = new_dat memory size dicts in
      let (t', built, stands) =
        dat_build_ends memory grows dicts first rests spelled sorted long limit size small rounds t
          twenty fits enough (new_dat-Free memory size dicts zeroed (omega (arith, twenty)))
          (new_dat-Owned memory size dicts zeroed (omega (arith, twenty))) in
      (
        t',
        built,
        dat_search-dat_build memory grows absent values (suc long) rounds t t' first rests key words
            codes k (omega (arith, twenty)) spelled sorted built stands.room at split spell,
      )

  -- Under the same conditions a text that is no entry is not found: if it is split into words whose codes are
  -- not 0, not over `limit`, and no key of the dictionary, then `_search` returns -1 and
  -- `_reversed_search` the value that stands for none, without a read outside the arrays.
  pub dat_search-dat_build_absent :
      {V : Type 0} (absent_value : V) (values : List V) (dicts : List (List Bytes)) (first : List ℕ)
      (rests : List (List ℕ)) (long limit size rounds : ℕ) (key : Bytes) (words : List Bytes)
      (codes : List ℕ)
      → Spelled dicts (first ∷ rests)
      → Sorted (first ∷ rests)
      → Small long limit (first ∷ rests)
      → 20 ≤ size
      → 1 + (limit + 1) + length dicts * (long * (limit + 1)) ≤ size
      → size ≤ rounds
      → split_ch_words key ≡ some words
      → Spell words codes
      → AtMost limit codes
      → ((k : ℕ) → get_elem? (first ∷ rests) k ≢ some codes)
      → (t' : DatImpl) × (dat_build memory (suc long) rounds (new_dat memory size dicts) ≡ some t')
        × (let dat : Dat = record { base = t'.base; check = t'.check } in
            (dat_search dat key ≡ some (negsuc 0))
            × (reversed_search absent_value dat values key ≡ some absent_value))
  dat_search-dat_build_absent absent_value values dicts first rests long limit size rounds key words
        codes spelled sorted small twenty fits enough split spell low none_such =
      let t = new_dat memory size dicts in
      let (t', built, stands) =
        dat_build_ends memory grows dicts first rests spelled sorted long limit size small rounds t
          twenty fits enough (new_dat-Free memory size dicts zeroed (omega (arith, twenty)))
          (new_dat-Owned memory size dicts zeroed (omega (arith, twenty))) in
      let misses =
        absent dicts (first ∷ rests) spelled limit size words codes (suc long) (suc long)
          (NotStarted t) (NotStarted t) t' stands.begin (root_node dicts)
          (root_Inner dicts first rests spelled sorted) stands.words stands.checks stands.tree
          stands.stored spell low none_such in
      (
        t',
        built,
        dat_search-Misses absent_value values (record { base = t'.base; check = t'.check }) key
            words stands.begin split stands.entry misses,
      )
