-- ===== src/Dat/Build/Blank.antt =====
-- The arrays of a new double array, where `new` returns memory that is zero.
use sunet.Base.{
  ℕ, zero, suc, ◌-◌, ◌≤◌, ◌<◌, ◌≡◌, refl, sym, ap, subst, false, List, Bytes, some, length,
  get_elem?, replicate, arith,
}
use sunet.Base.Int.{pos}
use sunet.Dat.Build.{DatImpl, Memory, new_dat}
use sunet.Dat.Build.Grow.{some_inj}
use sunet.Dat.Build.Stored.{pos_ne}
use sunet.Dat.Build.Room.{Free}
use sunet.Dat.Build.Tight.{Owned}

-- Memory as the system hands it out to a program: all bytes are 0.
abbrev pub Zeroed : Memory → Type 0
Zeroed memory =
    (n : ℕ) → (memory.fresh_int n ≡ replicate n (pos 0)) × (memory.fresh_bool n ≡ replicate n false)

length-replicate {ℓ} : {A : Type ℓ} (n : ℕ) (v : A) → length (replicate n v) ≡ n
length-replicate zero v = refl
length-replicate (suc n) v = ap suc (length-replicate n v)

get_elem?-replicate {ℓ} :
    {A : Type ℓ} (n : ℕ) (v : A) (p : ℕ) → p < n → get_elem? (replicate n v) p ≡ some v
get_elem?-replicate zero v p h = ground (arith, h)
get_elem?-replicate (suc n) v zero h = refl
get_elem?-replicate (suc n) v (suc p) h = get_elem?-replicate n v p (omega (arith, h))

-- The object that `new_dat` makes of such memory.
blank_dat : ℕ → List (List Bytes) → DatImpl
blank_dat size dicts = record {
  dicts = dicts;
  base = replicate size (pos 0);
  check = replicate size (pos 0);
  used = replicate size false;
  size = size;
  next_check_pos = 0;
  non_zero_num = 0;
  progress = 0;
}

blank_dat-Free : (size : ℕ) (dicts : List (List Bytes)) → Free dicts size 1 1 (blank_dat size dicts)
unfolding blank_dat
blank_dat-Free size dicts = record {
  words = refl;
  room = refl;
  bases = length-replicate size (pos 0);
  checks = length-replicate size (pos 0);
  uses = length-replicate size false;
  unowned = λ p a b. get_elem?-replicate size (pos 0) p b;
  unused = λ p a b. get_elem?-replicate size false p b;
  next = omega arith;
}

new_dat_blank :
    (memory : Memory) (n : ℕ) (dicts : List (List Bytes))
    → Zeroed memory
    → let size = suc (suc (suc (suc (suc (suc (suc (suc n))))))) in
      new_dat memory size dicts ≡ blank_dat size dicts
unfolding new_dat blank_dat
new_dat_blank memory n dicts zeroed =
    let size = suc (suc (suc (suc (suc (suc (suc (suc n))))))) in
    rw (new_dat, (zeroed size).0, (zeroed size).1) refl

pub new_dat-Free :
    (memory : Memory) (size : ℕ) (dicts : List (List Bytes))
    → Zeroed memory
    → 8 ≤ size
    → Free dicts size 1 1 (new_dat memory size dicts)
new_dat-Free memory size dicts zeroed h =
    let n = size - 8 in
    let q : suc (suc (suc (suc (suc (suc (suc (suc n))))))) ≡ size = omega (arith, h) in
    subst (λ m. Free dicts m 1 1 (new_dat memory m dicts)) q
      (subst (Free dicts _ 1 1) (sym (new_dat_blank memory n dicts zeroed))
        (blank_dat-Free _ dicts))

get_elem?_replicated {ℓ} :
    {A : Type ℓ} (n : ℕ) (v : A) (p : ℕ) (w : A) → get_elem? (replicate n v) p ≡ some w → v ≡ w
get_elem?_replicated zero v p w h = cc h
get_elem?_replicated (suc n) v zero w h = some_inj h
get_elem?_replicated (suc n) v (suc p) w h = get_elem?_replicated n v p w h

blank_dat-Owned : (size : ℕ) (dicts : List (List Bytes)) → Owned (blank_dat size dicts)
unfolding blank_dat
blank_dat-Owned size dicts p b h one =
    absurd (pos_ne b one (sym (get_elem?_replicated size (pos 0) p (pos b) h)))

pub new_dat-Owned :
    (memory : Memory) (size : ℕ) (dicts : List (List Bytes))
    → Zeroed memory
    → 8 ≤ size
    → Owned (new_dat memory size dicts)
new_dat-Owned memory size dicts zeroed h =
    let n = size - 8 in
    let q : suc (suc (suc (suc (suc (suc (suc (suc n))))))) ≡ size = omega (arith, h) in
    subst (λ m. Owned (new_dat memory m dicts)) q
      (subst Owned (sym (new_dat_blank memory n dicts zeroed)) (blank_dat-Owned _ dicts))
