-- ===== src/Dat/Build/Total.antt =====
-- The calls of `_insert` in arrays with room for all siblings of the dictionary.
use sunet.Base.{
  ℕ, zero, suc, true, false, ◌+◌, ◌-◌, ◌*◌, get_elem?, ◌≤◌, ◌<◌, ◌≡◌, ◌≢◌, sym, refl, ap, ◌∙◌, Bool,
  List, [], ◌∷◌, Option, some, Bytes, length, ltb, ◌==◌, if◌then◌else◌, All, All-weaken, inl, inr,
  arith,
}
use sunet.Base.Int.{ℤ, pos, negsuc}
use sunet.Dat.{◌>>=◌}
use sunet.Dat.Build.{
  DatImpl, Memory, TreeNode, fetch_siblings, place_children, dat_insert, find_begin, claim_slots,
}
use sunet.Dat.Build.Grow.{Grows, find_begin-Found}
use sunet.Dat.Build.Slots.{set_at_lem, Apart, Claimed}
use sunet.Dat.Build.Stored.{Distinct, Distinct-Apart, NotStarted, Claimed-Apart}
use sunet.Dat.Build.Insert.{Found-zeroed}
use sunet.Dat.Build.Leaves.{taken, top, InsertLeaves, LoopLeaves, leaf-Leads, inner_leaves}
use sunet.Dat.Build.Tight.{Owned, Sealed-refl, Sealed-trans, Sealed-base, Tree, Leads-weaken}
use sunet.Dat.Build.Owners.{claim_slots-Own}
use sunet.Dat.Build.Ranges.{Spelled, IsRange}
use sunet.Dat.Build.Fetched.{fetch_siblings-Inner, fetch_siblings-Leaf}
use sunet.Dat.Build.Room.{set_at_in, Coded, Free, Free-later, Free-counted, find_begin_ends}
use sunet.Dat.Build.Claim.{claim_slots_ends}
use sunet.Dat.Build.Width.{width, Small, Level, Inner_depth, Fetched-Level}

spent : (unit k w : ℕ) → 1 ≤ w → unit + w * (k * unit) ≤ w * (suc k * unit)
spent unit k zero h = omega (arith, h)
spent unit k (suc w) h = ground arith

both : (a b k : ℕ) → (a + b) * k ≡ a * k + b * k
both a b k = ground arith

-- A place that is used is not one that is not.
used_ne :
    (used : List Bool) (b begin : ℕ)
    → get_elem? used b ≡ some true
    → get_elem? used begin ≡ some false
    → b ≢ begin
used_ne used b begin h k q = cc (ap (λ (i : ℕ). get_elem? used i) q, h, k)

Free-based :
    (dicts : List (List Bytes)) (size from low progress : ℕ) (base : List ℤ) (t : DatImpl)
    → length base ≡ length t.base
    → Free dicts size from low t
    → Free dicts size from low (record t { base = base; progress = progress })
Free-based dicts size from low progress base t h x = record {
  words = x.words;
  room = x.room;
  bases = h ∙ x.bases;
  checks = x.checks;
  uses = x.uses;
  unowned = x.unowned;
  unused = x.unused;
  next = x.next;
}

module _ (memory : Memory) (dicts : List (List Bytes)) (keys : List (List ℕ))
    (spelled : Spelled dicts keys) (long limit : ℕ) (small : Small long limit keys) (size : ℕ)
    (grows : Grows memory) (wide : 20 ≤ size) where
  -- The call ends for nodes with `k` levels of keys below them.
  abbrev pub InsertEnds : ℕ → (List TreeNode → DatImpl → Option (ℕ × DatImpl)) → Type 0
  InsertEnds k insert =
      (depth from : ℕ) (nodes : List TreeNode) (t : DatImpl)
      → (length nodes == 0) ≡ false
      → depth + k ≡ long + 1
      → Level limit depth nodes
      → All (IsRange keys) nodes
      → Distinct nodes
      → 1 ≤ from
      → from + (limit + 1) + taken dicts limit size k nodes ≤ size
      → Free dicts size from from t
      → Owned t
      → (r : ℕ × DatImpl) × (insert nodes t ≡ some r)
        × InsertLeaves dicts limit size k (from + (limit + 1) + taken dicts limit size k nodes)
            nodes t r

  abbrev Deeper : ℕ → (List TreeNode → DatImpl → Option (ℕ × DatImpl)) → Type 0
  Deeper zero insert = Unit
  Deeper (suc k) insert = InsertEnds k insert

  place_children_ends :
      (k : ℕ) (insert : List TreeNode → DatImpl → Option (ℕ × DatImpl)) (begin depth from : ℕ)
      (nodes : List TreeNode) (t : DatImpl)
      → Deeper k insert
      → 1 ≤ begin
      → begin + limit < from
      → depth + k ≡ long + 1
      → Level limit depth nodes
      → All (IsRange keys) nodes
      → Distinct nodes
      → from + taken dicts limit size k nodes ≤ size
      → Free dicts size from from t
      → Owned t
      → get_elem? t.used begin ≡ some true
      → Claimed t.check begin nodes
      → (t' : DatImpl) × (place_children memory insert begin nodes t ≡ some t')
        × LoopLeaves dicts limit size k begin (from + taken dicts limit size k nodes) nodes t t'
  unfolding place_children
  place_children_ends k insert begin depth from [] t deeper one behind levels level ranges distinct
        fits free owned used claimed =
      (
        t,
        refl,
        record {
          free = Free-later dicts size from from _ _ t (omega arith) (omega arith) free;
          seal = Sealed-refl _ t;
          owned = owned;
          leads = tt;
        },
      )
  place_children_ends k insert begin depth from (s ∷ nodes) t deeper one behind levels level
        (inr leaf, ranges) distinct fits free owned used claimed =
      let slot = begin + s.code in
      let cost = both (s.right - s.left) (width nodes) (k * (limit + 1)) in
      let f : fetch_siblings t.dicts s ≡ some (0, []) =
        ap (λ d. fetch_siblings d s) free.words ∙ fetch_siblings-Leaf dicts keys spelled s leaf in
      let (base, e, l) =
        set_at_in t.base slot (negsuc s.left)
          (omega (arith, behind, level.0.1, fits, free.bases)) in
      let t₁ : DatImpl = record t { base = base; progress = t.progress + 1 } in
      let seal₁ = Sealed-base t base slot (t.progress + 1) (negsuc s.left) e in
      let (t', run, rest) =
        place_children_ends k insert begin depth from nodes t₁ deeper one behind levels level.1
          ranges distinct.1 (omega (arith, fits, cost))
          (Free-based dicts size from from (t.progress + 1) base t l free) owned used claimed.1 in
      (
        t',
        rw (place_children, f, ◌>>=◌, e) run,
        record {
          free =
              Free-later dicts size _ _ _ _ t' (omega (arith, cost)) (omega (arith, cost))
                rest.free;
          seal = Sealed-trans _ _ _ t t₁ t' (λ p b first c hit. hit) seal₁ rest.seal;
          owned = rest.owned;
          leads = (
            leaf-Leads dicts limit size (Tree dicts (top dicts limit size) k (NotStarted t) t') t'
                begin s.left s (rest.seal.forth begin slot one claimed.0)
                (rest.seal.bases begin slot one claimed.0 (Distinct-Apart begin s nodes distinct.0)
                  ∙ (set_at_lem t.base base slot (negsuc s.left) e).0),
            rest.leads,
          );
        },
      )
  place_children_ends zero insert begin depth from (s ∷ nodes) t deeper one behind levels level
        (inl x, ranges) distinct fits free owned used claimed =
      let deep = Inner_depth dicts keys spelled long limit small s x in
      absurd (omega (arith, deep, level.0.0, levels))
  place_children_ends (suc k) insert begin depth from (s ∷ nodes) t deeper one behind levels level
        (inl x, ranges) distinct fits free owned used claimed =
      let slot = begin + s.code in
      let cost = both (s.right - s.left) (width nodes) (suc k * (limit + 1)) in
      let enough = spent (limit + 1) k (s.right - s.left) (omega (arith, level.0.2)) in
      let from' = from + (s.right - s.left) * (suc k * (limit + 1)) in
      let below = fetch_siblings-Inner dicts keys spelled s x in
      let (level', wide) = Fetched-Level dicts keys spelled long limit small s x in
      let part : taken dicts limit size k below.nodes ≡ (s.right - s.left) * (k * (limit + 1)) =
        ap (λ (n : ℕ). n * (k * (limit + 1))) wide in
      let f : fetch_siblings t.dicts s ≡ some (length below.nodes, below.nodes) =
        ap (λ d. fetch_siblings d s) free.words ∙ below.fetched in
      let (sub, inserted, into) =
        deeper (s.depth + 1) from below.nodes t below.some_nodes (omega (arith, levels, level.0.0))
          level' below.ranges below.distinct (omega (arith, behind))
          (omega (arith, part, enough, fits, cost)) free owned in
      let (base, e, l) =
        set_at_in sub.1.base slot (pos sub.0)
          (omega (arith, behind, level.0.1, fits, into.free.bases)) in
      let t₁ : DatImpl = record sub.1 { base = base } in
      let free₂ : Free dicts size from' from' sub.1 =
        Free-later dicts size _ _ from' from' sub.1 (omega (arith, part, enough))
          (omega (arith, part, enough)) into.free in
      let claimed' : Claimed sub.1.check begin (s ∷ nodes) =
        All-weaken _ _ (λ r c. into.seal.forth begin (begin + r.code) one c) (s ∷ nodes) claimed in
      let (t', run, rest) =
        place_children_ends (suc k) insert begin depth from' nodes t₁ deeper one
          (omega (arith, behind)) levels level.1 ranges distinct.1 (omega (arith, fits, cost))
          (Free-based dicts size from' from' sub.1.progress base sub.1 l free₂) into.owned
          (into.seal.starts begin used) claimed'.1 in
      (
        t',
        rw (place_children, f, ◌>>=◌, below.some_nodes, inserted, e) run,
        inner_leaves dicts limit size k begin _ _ (length below.nodes) s nodes below.nodes t t' sub
            base (omega (arith, cost)) one distinct used claimed claimed' below.fetched e into.seal
            into.tree rest,
      )

  -- The three parts of a call.
  dat_insert_run :
      (fuel rounds begin at : ℕ) (s : TreeNode) (more : List TreeNode) (t u v t' : DatImpl)
      → find_begin memory rounds false
          ((if ltb t.next_check_pos (s.code + 1) then s.code + 1 else t.next_check_pos) - 1)
          s
          more
          (record t { non_zero_num = 0 })
        ≡ some (begin, at, u)
      → claim_slots memory begin at (s ∷ more) u ≡ some v
      → place_children memory (dat_insert memory fuel rounds) begin (s ∷ more) v ≡ some t'
      → dat_insert memory (suc fuel) rounds (s ∷ more) t ≡ some (begin, t')
  unfolding dat_insert
  dat_insert_run fuel rounds begin at s more t u v t' found claimed placed =
      rw (dat_insert, found, ◌>>=◌, claimed, placed) refl

  dat_insert_step :
      (k fuel rounds : ℕ)
      → size ≤ rounds
      → Deeper k (dat_insert memory fuel rounds)
      → InsertEnds k (dat_insert memory (suc fuel) rounds)
  unfolding Tree
  dat_insert_step k fuel rounds enough deeper depth from [] t some_nodes levels level ranges
        distinct one fits free owned =
      ground (arith, some_nodes)
  dat_insert_step k fuel rounds enough deeper depth from (s ∷ more) t some_nodes levels level ranges
        distinct one fits free owned =
      let at₀ = (if ltb t.next_check_pos (s.code + 1) then s.code + 1 else t.next_check_pos) - 1 in
      let t₀ : DatImpl = record t { non_zero_num = 0 } in
      let coded : Coded limit (s ∷ more) = All-weaken _ _ (λ n h. h.1) (s ∷ more) level in
      let low : s.code ≤ at₀ = ground arith in
      let high : at₀ < from + s.code = ground (arith, free.next, one) in
      let room : 20 ≤ t.size = omega (arith, free.room, wide) in
      let ((begin, at, u), found, place) =
        find_begin_ends memory dicts size limit from rounds false at₀ s more t₀
          (omega (arith, fits)) coded low high (omega (arith, low, fits, enough))
          (Free-counted dicts size from (from + limit) t.next_check_pos 0 t
            (omega (arith, free.next))
            (Free-later dicts size from from from (from + limit) t (omega arith) (omega arith)
              free)) in
      let (v, claimed, free₁) =
        claim_slots_ends memory dicts size limit from begin at (s ∷ more) u (omega (arith, fits))
          coded place.begin place.at place.free in
      let own =
        claim_slots-Own memory grows t u v begin at s more owned (place.free.room ∙ sym free.room)
          (free₁.room ∙ sym free.room)
          (Found-zeroed memory grows s more t (begin, at, u)
            (find_begin-Found memory grows rounds false at₀ s more t₀ (begin, at, u) room low
              found))
          claimed in
      let claims = own.claims in
      let from' = from + (limit + 1) in
      let free₂ : Free dicts size from' from' v =
        Free-later dicts size _ _ from' from' v (omega arith) (omega arith) free₁ in
      let (t', placed, rest) =
        place_children_ends k (dat_insert memory fuel rounds) begin depth from' (s ∷ more) v deeper
          claims.start (omega (arith, place.begin)) levels level ranges distinct fits free₂
          own.owned claims.started claims.claimed in
      let below_top : begin < (top dicts limit size) = omega (arith, place.begin, fits) in
      let apart : (p b : ℕ)
          → 1 ≤ b
          → get_elem? t.check p ≡ some (pos b)
          → Unit
          → Unit × Apart begin p (s ∷ more) =
        λ p b first c hit. (
          tt,
          Claimed-Apart v.check begin b p (s ∷ more) claims.claimed (own.seal.forth b p first c)
              (used_ne t.used b begin (owned p b c first) own.fresh),
        ) in
      (
        (begin, t'),
        dat_insert_run fuel rounds begin at s more t u v t' found claimed placed,
        record {
          free = rest.free;
          tree = record {
            here = λ was. used_ne t.used begin begin was own.fresh refl;
            start = claims.start;
            low = below_top;
            used = rest.seal.starts begin claims.started;
            tight = λ c h. own.tight c (rest.seal.back begin (begin + c) claims.started h);
            leads =
                Leads-weaken dicts (top dicts limit size) k (NotStarted v) (NotStarted t) t' begin
                  (s ∷ more) (λ b new was. new (own.seal.starts b was)) rest.leads;
          };
          seal = Sealed-trans _ _ _ t v t' apart own.seal rest.seal;
          owned = rest.owned;
        },
      )

  pub dat_insert_ends :
      (k rounds : ℕ) → size ≤ rounds → InsertEnds k (dat_insert memory (suc k) rounds)
  dat_insert_ends zero rounds enough = dat_insert_step zero zero rounds enough tt
  dat_insert_ends (suc k) rounds enough =
      dat_insert_step (suc k) (suc k) rounds enough (dat_insert_ends k rounds enough)
