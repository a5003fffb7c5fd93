-- ===== src/Dat/Build/Room.antt =====
-- The search of `_insert` for a place, in arrays that are free from a slot on.
use sunet.Base.{
  ℕ, zero, suc, ◌+◌, ◌-◌, ◌≤◌, ◌<◌, ◌≡◌, refl, ap, Bool, true, false, List, [], ◌∷◌, Option, some,
  length, get_elem?, set, ltb, leb, same, same-cases, nat_order, if◌then◌else◌, All, Bool-cases,
  inl, inr, Bytes, arith,
}
use sunet.Base.Int.{ℤ, pos, int_order}
use sunet.Dat.{◌>>=◌}
use sunet.Dat.Build.{
  DatImpl, Memory, TreeNode, set_at, make_room, make_more_room, find_begin, any_taken, back_code,
}

pub get_elem?_in {ℓ} :
    {A : Type ℓ} (xs : List A) (i : ℕ) → i < length xs → (x : A) × (get_elem? xs i ≡ some x)
get_elem?_in [] i h = ground (arith, h)
get_elem?_in (x ∷ xs) zero h = (x, refl)
get_elem?_in (x ∷ xs) (suc i) h = get_elem?_in xs i (omega (arith, h))

length-set {ℓ} : {A : Type ℓ} (xs : List A) (i : ℕ) (v : A) → length (set xs i v) ≡ length xs
length-set [] i v = refl
length-set (x ∷ xs) zero v = refl
length-set (x ∷ xs) (suc i) v = ap suc (length-set xs i v)

-- A write inside the array.
pub set_at_in {ℓ} :
    {A : Type ℓ} (xs : List A) (i : ℕ) (v : A)
    → i < length xs
    → (ys : List A) × (set_at xs i v ≡ some ys) × (length ys ≡ length xs)
unfolding set_at
set_at_in xs i v h =
    let e : ltb i (length xs) ≡ true = ground (arith, h) in
    (set xs i v, rw (set_at, e) refl, length-set xs i v)

-- The codes of the nodes are at most `limit`.
abbrev pub Coded : ℕ → List TreeNode → Type 0
Coded limit nodes = All (λ s. s.code ≤ limit) nodes

back_code-le :
    (limit : ℕ) (s : TreeNode) (more : List TreeNode)
    → Coded limit (s ∷ more)
    → back_code s more ≤ limit
unfolding back_code
back_code-le limit s [] h = h.0
back_code-le limit s (t ∷ more) h = back_code-le limit t more h.1

any_taken_ends :
    (check : List ℤ) (begin limit : ℕ) (nodes : List TreeNode)
    → Coded limit nodes
    → begin + limit < length check
    → (b : Bool) × (any_taken check begin nodes ≡ some b)
unfolding any_taken
any_taken_ends check begin limit [] h k = (false, refl)
any_taken_ends check begin limit (s ∷ nodes) h k =
    let (c, e) = get_elem?_in check (begin + s.code) (omega (arith, h.0, k)) in
    elim (Bool-cases (same c (pos 0))) [
      | inl z ↦
          let (b, f) = any_taken_ends check begin limit nodes h.1 k in
          (b, rw (any_taken, e, ◌>>=◌, z) f)
      | inr z ↦ (true, rw (any_taken, e, ◌>>=◌, z) refl)
    ]

any_taken_free :
    (check : List ℤ) (begin limit : ℕ) (nodes : List TreeNode)
    → Coded limit nodes
    → ((p : ℕ) → begin ≤ p → p ≤ begin + limit → get_elem? check p ≡ some (pos 0))
    → any_taken check begin nodes ≡ some false
unfolding any_taken
any_taken_free check begin limit [] h k = refl
any_taken_free check begin limit (s ∷ nodes) h k =
    let e = k (begin + s.code) (omega arith) (omega (arith, h.0)) in
    rw (any_taken, e, ◌>>=◌) (any_taken_free check begin limit nodes h.1 k)

-- The words and the size of the arrays, all of whose slots are free from `from` on; the next search
-- begins at `low` at the latest.
pub record Free (dicts : List (List Bytes)) (size from low : ℕ) (t : DatImpl) : Type 0 where
  pub words : t.dicts ≡ dicts
  pub room : t.size ≡ size
  pub bases : length t.base ≡ size
  pub checks : length t.check ≡ size
  pub uses : length t.used ≡ size
  pub unowned : (p : ℕ) → from ≤ p → p < size → get_elem? t.check p ≡ some (pos 0)
  pub unused : (p : ℕ) → from ≤ p → p < size → get_elem? t.used p ≡ some false
  pub next : t.next_check_pos ≤ low

pub Free-later :
    (dicts : List (List Bytes)) (size from low from' low' : ℕ) (t : DatImpl)
    → from ≤ from'
    → low ≤ low'
    → Free dicts size from low t
    → Free dicts size from' low' t
Free-later dicts size from low from' low' t h k x = record {
  words = x.words;
  room = x.room;
  bases = x.bases;
  checks = x.checks;
  uses = x.uses;
  unowned = λ p a b. x.unowned p (omega (arith, a, h)) b;
  unused = λ p a b. x.unused p (omega (arith, a, h)) b;
  next = omega (arith, x.next, k);
}

-- The numbers that only count.
pub Free-counted :
    (dicts : List (List Bytes)) (size from low next count : ℕ) (t : DatImpl)
    → next ≤ low
    → Free dicts size from low t
    → Free dicts size from low (record t { next_check_pos = next; non_zero_num = count })
Free-counted dicts size from low next count t h x = record {
  words = x.words;
  room = x.room;
  bases = x.bases;
  checks = x.checks;
  uses = x.uses;
  unowned = x.unowned;
  unused = x.unused;
  next = h;
}

Free-noted :
    (dicts : List (List Bytes)) (size from low n : ℕ) (first : Bool) (t : DatImpl)
    → n ≤ low
    → Free dicts size from low t
    → Free dicts size from low (if first then t else record t { next_check_pos = n })
Free-noted dicts size from low n true t h x = x
Free-noted dicts size from low n false t h x =
    Free-counted dicts size from low n t.non_zero_num t h x

module _ (memory : Memory) (dicts : List (List Bytes)) (size limit from : ℕ) where
  -- The place that a search ends with.
  pub record Place (r : ℕ × ℕ × DatImpl) : Type 0 where
    pub begin : r.0 ≤ from
    pub at : r.1 ≤ from + limit
    pub free : Free dicts size from (from + limit) r.2

  abbrev Places : Option (ℕ × ℕ × DatImpl) → Type 0
  Places o = (r : ℕ × ℕ × DatImpl) × (o ≡ some r) × Place r

  make_room_kept : (last : ℕ) (t : DatImpl) → last < t.size → make_room memory last t ≡ t
  unfolding make_room
  make_room_kept last t h =
      let e : leb t.size last ≡ false = ground (arith, h) in rw (make_room, e) refl

  make_more_room_kept : (last : ℕ) (t : DatImpl) → last < t.size → make_more_room memory last t ≡ t
  unfolding make_more_room
  make_more_room_kept last t h =
      let e : ltb t.size last ≡ false = ground (arith, h) in rw (make_more_room, e) refl

  pub find_begin_ends :
      (rounds : ℕ) (first : Bool) (at : ℕ) (s : TreeNode) (more : List TreeNode) (t : DatImpl)
      → from + limit < size
      → Coded limit (s ∷ more)
      → s.code ≤ at
      → at < from + s.code
      → from + s.code ≤ at + rounds
      → Free dicts size from (from + limit) t
      → Places (find_begin memory rounds first at s more t)
  unfolding find_begin
  find_begin_ends zero first at s more t fits coded low high enough free =
      ground (arith, high, enough)
  find_begin_ends (suc rounds) first at s more t fits coded low high enough free =
      let begin = at + 1 - s.code in
      let last = back_code s more + begin in
      let t₁ : DatImpl = if first then t else record t { next_check_pos = at + 1 } in
      let free₁ : Free dicts size from (from + limit) t₁ =
        Free-noted dicts size from (from + limit) (at + 1) first t (omega (arith, high, coded.0))
          free in
      let short : last < t₁.size =
        omega (arith, back_code-le limit s more coded, high, fits, free₁.room) in
      let kept = make_room_kept last t₁ short in
      let kept' = make_more_room_kept last t₁ short in
      elim (same-cases (at + 1) (from + s.code)) [
        | inl q ↦
            let n : get_elem? t.check (at + 1) ≡ some (pos 0) =
              free.unowned (at + 1) (omega (arith, q)) (omega (arith, high, fits, coded.0)) in
            let m : get_elem? t₁.used begin ≡ some false =
              free₁.unused begin (omega (arith, q)) (omega (arith, high, fits)) in
            let a : any_taken t₁.check begin (s ∷ more) ≡ some false =
              any_taken_free t₁.check begin limit (s ∷ more) coded
                (λ p le ge. free₁.unowned p (omega (arith, q, le)) (omega (arith, q, ge, fits))) in
            (
              (begin, at + 1, t₁),
              rw (find_begin, n, ◌>>=◌, kept, m, kept, kept', a, kept, kept') refl,
              record { begin = omega (arith, q); at = omega (arith, q, coded.0); free = free₁ },
            )
        | inr ne ↦
            let again : (first' : Bool) (u : DatImpl)
                → Free dicts size from (from + limit) u
                → Places (find_begin memory rounds first' (at + 1) s more u) =
              λ first' u x.
                find_begin_ends rounds first' (at + 1) s more u fits coded (omega (arith, low))
                  (omega (arith, high, ne)) (omega (arith, enough)) x in
            let (c, n) =
              get_elem?_in t.check (at + 1) (omega (arith, high, fits, free.checks, coded.0)) in
            let (u, m) = get_elem?_in t₁.used begin (omega (arith, high, fits, free₁.uses)) in
            let (b, a) =
              any_taken_ends t₁.check begin limit (s ∷ more) coded
                (omega (arith, high, fits, free₁.checks)) in
            elim (Bool-cases (same c (pos 0))) [
              | inr z ↦
                  rw (find_begin, n, ◌>>=◌, z)
                    (again first (record t { non_zero_num = t.non_zero_num + 1 })
                      (Free-counted dicts size from (from + limit) t.next_check_pos
                        (t.non_zero_num + 1) t free.next free))
              | inl z ↦ elim (Bool-cases u) [
                | inl y ↦ rw (find_begin, n, ◌>>=◌, z, kept, m, y, kept) (again true t₁ free₁)
                | inr y ↦ elim (Bool-cases b) [
                  | inl x ↦
                      rw (find_begin, n, ◌>>=◌, z, kept, m, y, kept, kept', a, x, kept, kept')
                        (again true t₁ free₁)
                  | inr x ↦ (
                    (begin, at + 1, t₁),
                    rw (find_begin, n, ◌>>=◌, z, kept, m, y, kept, kept', a, x, kept, kept') refl,
                    record {
                      begin = omega (arith, high);
                      at = omega (arith, high, coded.0);
                      free = free₁;
                    },
                  )
                ]
              ]
            ]
      ]
