-- ===== src/Dat/Build.antt =====
-- alias/dat/dat.h: the construction of the double array, `_fetch_siblings`, `_insert` and `_build`.
-- What a new allocation holds and the new size of the first `resize` are parameters; a read or a
-- write outside an array is `none`, and so are an exit and a run out of fuel.
pub mod Grow
pub mod Slots
pub mod Stored
pub mod Wrote
pub mod Placing
pub mod Insert
pub mod Ranges
pub mod Runs
pub mod Below
pub mod Fetched
pub mod Walk
pub mod Search
pub mod Siblings
pub mod Room
pub mod Claim
pub mod Width
pub mod Tight
pub mod Owners
pub mod Leaves
pub mod Total
pub mod Absent
pub mod Blank
pub mod Built
mod Tests
use sunet.Base.{
  ℕ, zero, suc, ◌+◌, ◌-◌, ◌*◌, ◌/◌, Bool, true, false, not, ◌&&◌, ◌||◌, List, [], ◌∷◌, ◌++◌, Option,
  none, some, Bytes, take, drop, set, length, get_elem?, ltb, leb, ◌==◌, same, if◌then◌else◌,
}
use sunet.Base.Int.{ℤ, pos, negsuc, int_order}
use sunet.Dat.{◌>>=◌, Dat, get_cn_code}

-- `tree_node`. The `right` of a new node is set later; until then it is 0 here.
pub record TreeNode : Type 0 where
  pub depth : ℕ
  pub left : ℕ
  pub right : ℕ
  pub code : ℕ

-- The members of `DatImpl`, with the words of `_dicts` only.
pub record DatImpl : Type 0 where
  pub dicts : List (List Bytes)
  pub base : List ℤ
  pub check : List ℤ
  pub used : List Bool
  pub size : ℕ
  pub next_check_pos : ℕ
  pub non_zero_num : ℕ
  pub progress : ℕ

-- `siblings[siblings.size() - 1]->right = i`, if there are siblings.
unfoldable pub set_right : ℕ → List TreeNode → List TreeNode
set_right i [] = []
set_right i (n ∷ []) = record n { right = i } ∷ []
set_right i (n ∷ m ∷ nodes) = n ∷ set_right i (m ∷ nodes)

unfoldable pub word_code : List Bytes → ℕ → Option ℕ
word_code words depth = elim (length words == depth) [
  | true ↦ some 0
  | false ↦ do word ← get_elem? words depth; get_cn_code word
]

-- The siblings behind a word with the code `cur`.
unfoldable pub add_sibling : ℕ → ℕ → ℕ → ℕ → List TreeNode → List TreeNode
add_sibling depth i prev cur siblings = elim (not (prev == cur) || (length siblings == 0)) [
  | true ↦
      set_right i siblings ++ record { depth = depth + 1; left = i; right = 0; code = cur } ∷ []
  | false ↦ siblings
]

-- The loop from `i` on, with the rounds that are left; `false` is `return 0`.
unfoldable pub fetch_loop :
    List (List Bytes) → ℕ → ℕ → ℕ → ℕ → List TreeNode → Option (Bool × List TreeNode)
fetch_loop dicts depth zero i prev siblings = some (true, siblings)
fetch_loop dicts depth (suc rounds) i prev siblings = do
  words ← get_elem? dicts i
  elim (ltb (length words) depth) [
    | true ↦ fetch_loop dicts depth rounds (i + 1) prev siblings
    | false ↦ do
      cur ← word_code words depth
      elim (ltb cur prev && not (cur == 0)) [
        | true ↦ some (false, siblings)
        | false ↦ fetch_loop dicts depth rounds (i + 1) cur (add_sibling depth i prev cur siblings)
      ]
  ]

-- The result and the siblings, into a vector that is empty.
unfoldable pub fetch_siblings : List (List Bytes) → TreeNode → Option (ℕ × List TreeNode)
fetch_siblings dicts parent = do
  fetched ← fetch_loop dicts parent.depth (parent.right - parent.left) parent.left 0 []
  elim fetched.0 [
    | true ↦ some (length fetched.1, set_right parent.right fetched.1)
    | false ↦ some (0, fetched.1)
  ]

-- `array[i] = v`
unfoldable pub set_at {ℓ} : {A : Type ℓ} → List A → ℕ → A → Option (List A)
set_at array i v = elim (ltb i (length array)) [ true ↦ some (set array i v) | false ↦ none ]

-- `siblings.back()->code`
unfoldable pub back_code : TreeNode → List TreeNode → ℕ
back_code s [] = s.code
back_code s (t ∷ siblings) = back_code t siblings

-- The `for` loop that looks for a slot that is taken.
unfoldable pub any_taken : List ℤ → ℕ → List TreeNode → Option Bool
any_taken check begin [] = some false
any_taken check begin (s ∷ siblings) = do
  c ← get_elem? check (begin + s.code)
  elim (same c (pos 0)) [ true ↦ any_taken check begin siblings | false ↦ some true ]

unfoldable pub mark_check : ℕ → List TreeNode → List ℤ → Option (List ℤ)
mark_check begin [] check = some check
mark_check begin (s ∷ siblings) check = do
  check' ← set_at check (begin + s.code) (pos begin)
  mark_check begin siblings check'

-- What a new array holds, and `(int) (_size * l)` for the size, the number of words and the
-- progress.
pub record Memory : Type 0 where
  pub fresh_int : ℕ → List ℤ
  pub fresh_bool : ℕ → List Bool
  pub grow : ℕ → ℕ → ℕ → ℕ

module _ (memory : Memory) where
  -- `memcpy` copies `_size` bytes: all of `_used`, and a quarter of the two other arrays, whose
  -- numbers have four bytes. The size is taken to be a multiple of 4.
  unfoldable pub resize_to : ℕ → DatImpl → DatImpl
  resize_to new_size t = record t {
    base = take (t.size / 4) t.base ++ drop (t.size / 4) (memory.fresh_int new_size);
    check = take (t.size / 4) t.check ++ drop (t.size / 4) (memory.fresh_int new_size);
    used = take t.size t.used ++ drop t.size (memory.fresh_bool new_size);
    size = new_size;
  }

  -- The first test of the size, and the second one.
  unfoldable pub make_room : ℕ → DatImpl → DatImpl
  make_room last t = elim (leb t.size last) [
    | true ↦ resize_to (memory.grow t.size (length t.dicts) t.progress) t
    | false ↦ t
  ]

  unfoldable pub make_more_room : ℕ → DatImpl → DatImpl
  make_more_room last t = elim (ltb t.size last) [ true ↦ resize_to (t.size * 2) t | false ↦ t ]

  -- `while (true)` of `_insert` for the siblings `s ∷ more`: the result is `begin`, `pos` and the
  -- object. `first` is whether a free slot was met.
  unfoldable pub find_begin :
      ℕ → Bool → ℕ → TreeNode → List TreeNode → DatImpl → Option (ℕ × ℕ × DatImpl)
  find_begin zero first at s more t = none
  find_begin (suc rounds) first at s more t = do
    c ← get_elem? t.check (at + 1)
    elim (same c (pos 0)) [
      | false ↦
          find_begin rounds first (at + 1) s more (record t { non_zero_num = t.non_zero_num + 1 })
      | true ↦
          let t₁ : DatImpl = if first then t else record t { next_check_pos = at + 1 } in
          let begin = at + 1 - s.code in
          let t₂ = make_room (back_code s more + begin) t₁ in
          do
            u ← get_elem? t₂.used begin
            elim u [
              | true ↦ find_begin rounds true (at + 1) s more t₂
              | false ↦
                  let t₃ = make_more_room (back_code s more + begin) t₂ in
                  do
                    taken ← any_taken t₃.check begin (s ∷ more)
                    elim taken [
                      | true ↦ find_begin rounds true (at + 1) s more t₃
                      | false ↦ some (begin, at + 1, t₃)
                    ]
            ]
    ]

  -- The second `for` loop; `insert` is the call of `_insert`.
  unfoldable pub place_children :
      (List TreeNode → DatImpl → Option (ℕ × DatImpl))
      → ℕ
      → List TreeNode
      → DatImpl
      → Option DatImpl
  place_children insert begin [] t = some t
  place_children insert begin (s ∷ siblings) t = do
    fetched ← fetch_siblings t.dicts s
    elim (fetched.0 == 0) [
      | true ↦ do
        base ← set_at t.base (begin + s.code) (negsuc s.left)
        place_children insert begin siblings (record t { base = base; progress = t.progress + 1 })
      | false ↦ do
        sub ← insert fetched.1 t
        base ← set_at sub.1.base (begin + s.code) (pos sub.0)
        place_children insert begin siblings (record sub.1 { base = base })
    ]

  -- What stands between the two loops: `1.0 * _non_zero_num / (pos - _next_check_pos + 1) >= 0.95`
  -- moves `_next_check_pos`.
  unfoldable pub claim_slots : ℕ → ℕ → List TreeNode → DatImpl → Option DatImpl
  claim_slots begin at siblings t = do
    used ← set_at t.used begin true
    check ← mark_check begin siblings t.check
    some (record t {
      used = used;
      check = check;
      next_check_pos =
          if leb (19 * (at - t.next_check_pos + 1)) (20 * t.non_zero_num)
          then at
          else t.next_check_pos;
    })

  -- `_insert`, on the depth of its recursion and the rounds of its search. Without siblings
  -- `siblings[0]` is outside the vector.
  unfoldable pub dat_insert : ℕ → ℕ → List TreeNode → DatImpl → Option (ℕ × DatImpl)
  dat_insert zero rounds siblings t = none
  dat_insert (suc fuel) rounds [] t = none
  dat_insert (suc fuel) rounds (s ∷ more) t = do
    found ←
        find_begin rounds false
          ((if ltb t.next_check_pos (s.code + 1) then s.code + 1 else t.next_check_pos) - 1) s more
          (record t { non_zero_num = 0 })
    claimed ← claim_slots found.0 found.1 (s ∷ more) found.2
    placed ← place_children (dat_insert fuel rounds) found.0 (s ∷ more) claimed
    some (found.0, placed)

  unfoldable pub dat_build : ℕ → ℕ → DatImpl → Option DatImpl
  dat_build fuel rounds t = do
    let root : TreeNode = record { depth = 0; left = 0; right = length t.dicts; code = 0 } in
        do
          fetched ← fetch_siblings t.dicts root
          inserted ← dat_insert fuel rounds fetched.1 t
          base ← set_at inserted.1.base 0 (pos inserted.0)
          some (record inserted.1 { base = base })

-- The constructor, with the words that are loaded: `memset` clears the 8 bytes of a pointer.
unfoldable pub new_dat : Memory → ℕ → List (List Bytes) → DatImpl
new_dat memory size dicts = record {
  dicts = dicts;
  base = pos 0 ∷ pos 0 ∷ drop 2 (memory.fresh_int size);
  check = pos 0 ∷ pos 0 ∷ drop 2 (memory.fresh_int size);
  used =
      false
      ∷ false
      ∷ false
      ∷ false
      ∷ false
      ∷ false
      ∷ false
      ∷ false
      ∷ drop 8 (memory.fresh_bool size);
  size = size;
  next_check_pos = 0;
  non_zero_num = 0;
  progress = 0;
}
