-- ===== src/Dat/Build/Claim.antt =====
-- What `_insert` does between its two loops, in arrays that are free from a slot on.
use sunet.Base.{
  ℕ, suc, ◌+◌, ◌-◌, ◌*◌, leb, if◌then◌else◌, ◌≤◌, ◌<◌, ◌≡◌, refl, ◌∙◌, true, List, [], ◌∷◌, some,
  length, get_elem?, Bytes, arith,
}
use sunet.Base.Int.{ℤ, pos}
use sunet.Dat.{◌>>=◌}
use sunet.Dat.Build.{DatImpl, Memory, TreeNode, mark_check, claim_slots}
use sunet.Dat.Build.Slots.{set_at_lem}
use sunet.Dat.Build.Room.{set_at_in, Coded, Free}

mark_check_ends :
    (begin limit : ℕ) (nodes : List TreeNode) (check : List ℤ)
    → Coded limit nodes
    → begin + limit < length check
    → (check' : List ℤ) × (mark_check begin nodes check ≡ some check')
      × (length check' ≡ length check)
      × ((p : ℕ) → begin + limit < p → get_elem? check' p ≡ get_elem? check p)
unfolding mark_check
mark_check_ends begin limit [] check h k = (check, refl, refl, λ p a. refl)
mark_check_ends begin limit (s ∷ nodes) check h k =
    let (zs, e, l) = set_at_in check (begin + s.code) (pos begin) (omega (arith, h.0, k)) in
    let (check', f, l', apart) = mark_check_ends begin limit nodes zs h.1 (omega (arith, l, k)) in
    (
      check',
      rw (mark_check, e, ◌>>=◌) f,
      l' ∙ l,
      λ p a.
          apart p a
          ∙ (set_at_lem check zs (begin + s.code) (pos begin) e).1 p
              (λ q. omega (arith, q, a, h.0)),
    )

pub claim_slots_ends :
    (memory : Memory) (dicts : List (List Bytes)) (size limit from begin at : ℕ)
    (nodes : List TreeNode) (t : DatImpl)
    → from + limit < size
    → Coded limit nodes
    → begin ≤ from
    → at ≤ from + limit
    → Free dicts size from (from + limit) t
    → (v : DatImpl) × (claim_slots memory begin at nodes t ≡ some v)
      × Free dicts size (from + suc limit) (from + suc limit) v
unfolding claim_slots
claim_slots_ends memory dicts size limit from begin at nodes t fits coded h k free =
    let (used, e, l) = set_at_in t.used begin true (omega (arith, h, fits, free.uses)) in
    let (check, f, l', apart) =
      mark_check_ends begin limit nodes t.check coded (omega (arith, h, fits, free.checks)) in
    (
      record t {
        used = used;
        check = check;
        next_check_pos =
            if leb (19 * (at - t.next_check_pos + 1)) (20 * t.non_zero_num)
            then at
            else t.next_check_pos;
      },
      rw (claim_slots, e, ◌>>=◌, f) refl,
      record {
        words = free.words;
        room = free.room;
        bases = free.bases;
        checks = l' ∙ free.checks;
        uses = l ∙ free.uses;
        unowned = λ p a b. apart p (omega (arith, a, h)) ∙ free.unowned p (omega (arith, a)) b;
        unused = λ p a b.
            (set_at_lem t.used used begin true e).1 p (λ q. omega (arith, q, a, h))
            ∙ free.unused p (omega (arith, a)) b;
        next = ground (arith, k, free.next);
      },
    )
