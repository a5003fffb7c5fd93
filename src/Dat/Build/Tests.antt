-- ===== src/Dat/Build/Tests.antt =====
-- A small double array, of the words "a", "ab" and "b".
use sunet.Base.{
  ℕ, zero, suc, ◌*◌, ◌/◌, ◌≡◌, ◌≢◌, refl, false, List, [], ◌∷◌, none, some, Bytes, codes, replicate,
  arith, inl, inr, get_elem?,
}
use sunet.Base.Int.{pos, negsuc, ◌+ℤ◌, ◌-ℤ◌}
use sunet.Util.{util_code, split_ch_words}
use sunet.Dat.{Dat, get_cn_code, search_loop, at_index, dat_search, reversed_search}
use sunet.Dat.Build.{
  DatImpl, Memory, set_right, word_code, add_sibling, fetch_loop, fetch_siblings, set_at, back_code,
  any_taken, mark_check, make_room, make_more_room, find_begin, place_children, claim_slots,
  dat_insert, dat_build, new_dat,
}
use sunet.Dat.Build.Ranges.{Spelled, Sorted}
use sunet.Dat.Build.Width.{Small}
use sunet.Dat.Build.Built.{dat_search-dat_build_total, dat_search-dat_build_absent}

abbrev zeros : Memory
zeros = record {
  fresh_int = λ n. replicate n (pos 0);
  fresh_bool = λ n. replicate n false;
  grow = λ size words progress. size * 105 / 100;
}

abbrev three_words : List (List Bytes)
three_words = (codes "a" ∷ []) ∷ (codes "a" ∷ codes "b" ∷ []) ∷ (codes "b" ∷ []) ∷ []

abbrev new_array : DatImpl
new_array = new_dat zeros 256 three_words

-- The array that is built, or the empty one.
unfoldable built_array : DatImpl
unfolding new_dat dat_build dat_insert find_begin claim_slots place_children make_room
    make_more_room any_taken mark_check back_code set_at fetch_siblings fetch_loop word_code
    add_sibling set_right get_cn_code
built_array = elim (dat_build zeros 4 200 new_array) [ none ↦ new_array | some t ↦ t ]

built : dat_build zeros 4 200 new_array ≡ some built_array
unfolding built_array
built = refl

built_entries :
    (dat_search (record { base = built_array.base; check = built_array.check }) (codes "ab")
      ≡ some (pos 1))
    × (built_array.size ≡ new_array.size)
unfolding built_array new_dat get_cn_code dat_search search_loop at_index util_code ◌+ℤ◌ ◌-ℤ◌
built_entries = (refl, refl)

words-Spelled : Spelled three_words ((97 ∷ []) ∷ (97 ∷ 98 ∷ []) ∷ (98 ∷ []) ∷ [])
unfolding get_cn_code
words-Spelled = (
  (refl, omega arith, tt),
  ((refl, omega arith, (refl, omega arith, tt)), ((refl, omega arith, tt), tt)),
)

keys-Sorted : Sorted ((97 ∷ []) ∷ (97 ∷ 98 ∷ []) ∷ (98 ∷ []) ∷ [])
keys-Sorted = (inr (refl, tt), (inl (omega arith), tt))

split_ab : split_ch_words (codes "ab") ≡ some (codes "a" ∷ codes "b" ∷ [])
unfolding util_code
split_ab = refl

words-Small : Small 2 98 ((97 ∷ []) ∷ (97 ∷ 98 ∷ []) ∷ (98 ∷ []) ∷ [])
words-Small = (
  (omega arith, (omega arith, tt)),
  ((omega arith, (omega arith, (omega arith, tt))), ((omega arith, (omega arith, tt)), tt)),
)

dat_search-dat_build_total_example :
    (t' : DatImpl) × (dat_build zeros 3 700 (new_dat zeros 700 three_words) ≡ some t')
    × (let dat : Dat = record { base = t'.base; check = t'.check } in
        (dat_search dat (codes "ab") ≡ some (pos 1))
        × (reversed_search {V = ℕ} 0 dat (10 ∷ 20 ∷ 30 ∷ []) (codes "ab") ≡ some 20))
unfolding new_dat get_cn_code
dat_search-dat_build_total_example =
    dat_search-dat_build_total zeros (λ size words progress h. omega (arith, h)) (λ n. (refl, refl))
      {V = ℕ} 0 (10 ∷ 20 ∷ 30 ∷ []) three_words (97 ∷ []) ((97 ∷ 98 ∷ []) ∷ (98 ∷ []) ∷ []) 2 98 700
      700 (codes "ab") (codes "a" ∷ codes "b" ∷ []) (97 ∷ 98 ∷ []) 1 words-Spelled keys-Sorted
      words-Small (omega arith) (omega arith) (omega arith) refl split_ab
      (refl, omega arith, (refl, omega arith, tt))

split_ba : split_ch_words (codes "ba") ≡ some (codes "b" ∷ codes "a" ∷ [])
unfolding util_code
split_ba = refl

abbrev three_keys : List (List ℕ)
three_keys = (97 ∷ []) ∷ (97 ∷ 98 ∷ []) ∷ (98 ∷ []) ∷ []

-- "ba" is no entry.
no_entry : (k : ℕ) → get_elem? three_keys k ≢ some (98 ∷ 97 ∷ [])
no_entry zero h = cc h
no_entry (suc zero) h = ground (arith, h)
no_entry (suc (suc zero)) h = cc h
no_entry (suc (suc (suc k))) h = cc h

dat_search-dat_build_absent_example :
    (t' : DatImpl) × (dat_build zeros 3 700 (new_dat zeros 700 three_words) ≡ some t')
    × (let dat : Dat = record { base = t'.base; check = t'.check } in
        (dat_search dat (codes "ba") ≡ some (negsuc 0))
        × (reversed_search {V = ℕ} 0 dat (10 ∷ 20 ∷ 30 ∷ []) (codes "ba") ≡ some 0))
unfolding new_dat get_cn_code
dat_search-dat_build_absent_example =
    dat_search-dat_build_absent zeros (λ size words progress h. omega (arith, h))
      (λ n. (refl, refl)) {V = ℕ} 0 (10 ∷ 20 ∷ 30 ∷ []) three_words (97 ∷ [])
      ((97 ∷ 98 ∷ []) ∷ (98 ∷ []) ∷ []) 2 98 700 700 (codes "ba") (codes "b" ∷ codes "a" ∷ [])
      (98 ∷ 97 ∷ []) words-Spelled keys-Sorted words-Small (omega arith) (omega arith) (omega arith)
      split_ba (refl, omega arith, (refl, omega arith, tt)) (omega arith, (omega arith, tt))
      no_entry
