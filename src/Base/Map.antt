-- ===== src/Base/Map.antt =====
-- `std::map`: an association list in ascending order of its keys. `find` is `map::find` (and
-- `none` is `end()`), `put` is `m[k] = v`, `insert` is `map::insert`, which keeps an old entry.
use Prim.Native.Nat.{ℕ, compare, Ordering}
use mathlib.Core.Path.{◌≡◌, refl, ap}
use mathlib.Core.Logic.{◌≢◌, ◌⊎◌, inl, inr}
use mathlib.Core.Bool.{Bool, true, false}
use mathlib.Core.List.{List, [], ◌∷◌}
use mathlib.Core.Option.{Option, none, some}
use native.Mathlib.Omega.{arith}
use sunet.Base.Text.{Bytes}
use sunet.Base.Tests.{if◌then◌else◌, Bool-cases, Option-cases}

pub record Order {ℓ} (K : Type ℓ) : Type ℓ where
  pub cmp : K → K → Ordering
  pub cmp_sound : (a b : K) → cmp a b ≡ Ordering.eq → a ≡ b
  pub cmp_refl : (a : K) → cmp a a ≡ Ordering.eq

pub cmp_ℕ_sound : (a b : ℕ) → compare a b ≡ Ordering.eq → a ≡ b
cmp_ℕ_sound a b h = ground arith

pub cmp_ℕ_refl : (a : ℕ) → compare a a ≡ Ordering.eq
cmp_ℕ_refl a = ground arith

-- `std::string` is ordered byte by byte.
abbrev pub cmp_bytes : Bytes → Bytes → Ordering
cmp_bytes [] [] = Ordering.eq
cmp_bytes [] (b ∷ t) = Ordering.lt
cmp_bytes (a ∷ s) [] = Ordering.gt
cmp_bytes (a ∷ s) (b ∷ t) = elim (compare a b) [
  | Ordering.lt ↦ Ordering.lt
  | Ordering.gt ↦ Ordering.gt
  | Ordering.eq ↦ cmp_bytes s t
]

pub cmp_bytes_sound : (s t : Bytes) → cmp_bytes s t ≡ Ordering.eq → s ≡ t
cmp_bytes_sound [] [] h = refl
cmp_bytes_sound [] (b ∷ t) h = cc
cmp_bytes_sound (a ∷ s) [] h = cc
cmp_bytes_sound (a ∷ s) (b ∷ t) h = ground (arith, cmp_bytes_sound s t)

pub cmp_bytes_refl : (s : Bytes) → cmp_bytes s s ≡ Ordering.eq
cmp_bytes_refl [] = refl
cmp_bytes_refl (a ∷ s) = ground (arith, cmp_bytes_refl s)

pub cmp_bytes_trans :
    (s t u : Bytes)
    → cmp_bytes s t ≡ Ordering.lt
    → cmp_bytes t u ≡ Ordering.lt
    → cmp_bytes s u ≡ Ordering.lt
cmp_bytes_trans [] [] u h k = cc
cmp_bytes_trans (a ∷ s) [] u h k = cc
cmp_bytes_trans s (b ∷ t) [] h k = cc
cmp_bytes_trans [] (b ∷ t) (c ∷ u) h k = refl
cmp_bytes_trans (a ∷ s) (b ∷ t) (c ∷ u) h k = ground (arith, cmp_bytes_trans s t u)

pub cmp_bytes-cases :
    (s t : Bytes)
    → (cmp_bytes s t ≡ Ordering.lt) ⊎ (cmp_bytes s t ≡ Ordering.eq) ⊎ (cmp_bytes s t ≡ Ordering.gt)
cmp_bytes-cases s t = ground arith

instance abbrev pub nat_order : Order ℕ
nat_order = record { cmp = compare; cmp_sound = cmp_ℕ_sound; cmp_refl = cmp_ℕ_refl }

instance abbrev pub bytes_order : Order Bytes
bytes_order = record { cmp = cmp_bytes; cmp_sound = cmp_bytes_sound; cmp_refl = cmp_bytes_refl }

abbrev pub same {ℓ} : {K : Type ℓ} ⦃o : Order K⦄ → K → K → Bool
same ⦃o⦄ a b = elim (o.cmp a b) [ Ordering.eq ↦ true | _ ↦ false ]

pub same→eq {ℓ} : {K : Type ℓ} ⦃o : Order K⦄ (a b : K) → same a b ≡ true → a ≡ b
same→eq ⦃o⦄ a b h = ground (arith, o.cmp_sound a b)

pub same_refl {ℓ} : {K : Type ℓ} ⦃o : Order K⦄ (a : K) → same a a ≡ true
same_refl ⦃o⦄ a = ground (arith, o.cmp_refl a)

pub same_ne {ℓ} : {K : Type ℓ} ⦃o : Order K⦄ (a b : K) → a ≢ b → same a b ≡ false
same_ne ⦃o⦄ a b h = ground (arith, o.cmp_sound a b)

pub same-cases {ℓ} : {K : Type ℓ} ⦃o : Order K⦄ (a b : K) → (a ≡ b) ⊎ (a ≢ b)
same-cases ⦃o⦄ a b = elim (Bool-cases (same a b)) [
  | inl t ↦ inl (same→eq a b t)
  | inr t ↦ inr (λ q. cc (t, same_refl b, ap (λ x. same x b) q))
]

module _ {ℓ κ} {K : Type ℓ} {V : Type κ} ⦃o : Order K⦄ where
  unfoldable pub find : K → List (K × V) → Option V
  find k [] = none
  find k ((j, v) ∷ m) = elim (o.cmp k j) [ Ordering.eq ↦ some v | _ ↦ find k m ]

  unfoldable pub put : K → V → List (K × V) → List (K × V)
  put k v [] = (k, v) ∷ []
  put k v ((j, w) ∷ m) = elim (o.cmp k j) [
    | Ordering.lt ↦ (k, v) ∷ (j, w) ∷ m
    | Ordering.eq ↦ (j, v) ∷ m
    | Ordering.gt ↦ (j, w) ∷ put k v m
  ]

  unfoldable pub insert : K → V → List (K × V) → List (K × V)
  insert k v m = elim (find k m) [ none ↦ put k v m | some _ ↦ m ]

  -- One `m[k] = v` after another.
  unfoldable pub put_all : List (K × V) → List (K × V) → List (K × V)
  put_all [] m = m
  put_all ((k, v) ∷ kvs) m = put_all kvs (put k v m)

  pub find-put_self : (k : K) (v : V) (m : List (K × V)) → find k (put k v m) ≡ some v
  unfolding find put
  find-put_self k v [] = ground (arith, o.cmp_refl k)
  find-put_self k v ((j, w) ∷ m) = ground (arith, o.cmp_refl k, find-put_self k v m)

  pub find-put_ne : (j k : K) (v : V) (m : List (K × V)) → j ≢ k → find j (put k v m) ≡ find j m
  unfolding find put
  find-put_ne j k v [] h = ground (arith, o.cmp_sound j k)
  find-put_ne j k v ((i, w) ∷ m) h =
      ground (arith, o.cmp_sound j k, o.cmp_sound k i, find-put_ne j k v m h)

  pub find-put :
      (j k : K) (v : V) (m : List (K × V))
      → find j (put k v m) ≡ (if same j k then some v else find j m)
  find-put j k v m = elim (Bool-cases (same j k)) [
    | inl e ↦ rw (same→eq j k e, same_refl k) (find-put_self k v m)
    | inr e ↦ rw e (find-put_ne j k v m (λ p. cc (e, same_refl j, ap (same j) p)))
  ]

  -- The first entry for a key stays.
  pub find-insert :
      (j k : K) (v : V) (m : List (K × V))
      → find j (insert k v m)
        ≡ elim (find k m) [ none ↦ if same j k then some v else find j m | some _ ↦ find j m ]
  unfolding insert
  find-insert j k v m = elim (Option-cases (find k m)) [
    | inl e ↦ rw (e, insert) (find-put j k v m)
    | inr (w, e) ↦ rw (e, insert)
  ]

  -- `map::erase`.
  unfoldable pub erase : K → List (K × V) → List (K × V)
  erase k [] = []
  erase k ((j, v) ∷ m) = elim (same k j) [ true ↦ erase k m | false ↦ (j, v) ∷ erase k m ]

  pub find-erase_self : (k : K) (m : List (K × V)) → find k (erase k m) ≡ none
  unfolding find erase
  find-erase_self k [] = refl
  find-erase_self k ((j, v) ∷ m) = ground (arith, find-erase_self k m)

  pub find-erase_ne : (j k : K) (m : List (K × V)) → j ≢ k → find j (erase k m) ≡ find j m
  unfolding find erase
  find-erase_ne j k [] h = refl
  find-erase_ne j k ((i, v) ∷ m) h =
      ground (arith, o.cmp_sound j i, o.cmp_sound k i, find-erase_ne j k m h)
