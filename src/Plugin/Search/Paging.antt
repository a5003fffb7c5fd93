-- ===== src/Plugin/Search/Paging.antt =====
-- The pages of a search are the result list, cut.
use sunet.Base.{
  ℕ, zero, suc, ◌+◌, ◌-◌, ◌*◌, ◌/◌, ◌≤◌, ◌<◌, ◌≡◌, refl, sym, ap, ◌∙◌, Bool, true, false, List, [],
  ◌∷◌, ◌++◌, Option, none, some, length, take, drop, arith, if◌then◌else◌, drop-drop, take-drop,
  ltb, leb, inl, inr, ◌⊎◌,
}
use sunet.Base.Int.{ℤ, pos, ◌+ℤ◌, ◌-ℤ◌, ◌*ℤ◌, quot_ℤ, ltb_ℤ, leb_ℤ, negsuc}
use sunet.Plugin.Search.{page_of, records}

-- The pages of a list of `n` results, at least one.
abbrev pub page_count : ℕ → ℕ
page_count n = (n - 1) / 20 + 1

page_cnt_lem : (asked : ℤ) (n : ℕ) → (page_of asked n).page_cnt ≡ pos (page_count n)
unfolding page_of quot_ℤ ◌+ℤ◌ ◌-ℤ◌
page_cnt_lem asked zero = refl
page_cnt_lem asked (suc n) = ground arith

-- The page that is shown, counted from 0.
abbrev pub shown : ℕ → ℕ → ℕ
shown k n = if ltb k (page_count n) then k else page_count n - 1

begin_lem : (k n : ℕ) → (page_of (pos (suc k)) n).begin_record_index ≡ pos (shown k n * 20)
unfolding page_of quot_ℤ ◌+ℤ◌ ◌-ℤ◌ ◌*ℤ◌
begin_lem k zero = ground arith
begin_lem k (suc n) = ground arith

end_lem :
    (k n : ℕ)
    → (page_of (pos (suc k)) n).end_record_index
      ≡ (if leb (page_count n) (suc k) then pos n else pos (suc k * 20))
unfolding page_of quot_ℤ ◌+ℤ◌ ◌-ℤ◌ ◌*ℤ◌
end_lem k zero = ground arith
end_lem k (suc n) = ground arith

before_lem :
    (asked : ℤ) (n : ℕ)
    → ltb_ℤ asked (pos 1) ≡ true
    → ltb_ℤ (page_of asked n).begin_record_index (pos 0) ≡ true
unfolding page_of quot_ℤ ◌+ℤ◌ ◌-ℤ◌ ◌*ℤ◌
before_lem asked zero h = ground arith
before_lem asked (suc n) h = ground arith

if_pos : (t : Bool) (a b : ℕ) → (if t then pos a else pos b) ≡ pos (if t then a else b)
if_pos true a b = refl
if_pos false a b = refl

take_all {ℓ} : {A : Type ℓ} (n : ℕ) (xs : List A) → length xs ≤ n → take n xs ≡ xs
take_all zero [] h = refl
take_all (suc n) [] h = refl
take_all zero (x ∷ xs) h = absurd (omega arith)
take_all (suc n) (x ∷ xs) h = ap (◌∷◌ x) (take_all n xs (omega (arith, h)))

length-drop {ℓ} : {A : Type ℓ} (n : ℕ) (xs : List A) → length (drop n xs) ≡ length xs - n
length-drop zero xs = omega arith
length-drop (suc n) [] = omega arith
length-drop (suc n) (x ∷ xs) = omega (arith, length-drop n xs)

test_first : (a : ℕ) → ltb_ℤ (pos a) (pos 0) ≡ false
test_first a = ground arith

test_order : (a b : ℕ) → a ≤ b → ltb_ℤ (pos b) (pos a) ≡ false
test_order a b h = ground (arith, h)

records_within {ℓ} :
    {A : Type ℓ} (a b : ℕ) (docs : List A)
    → a ≤ b
    → b ≤ length docs
    → records (pos a) (pos b) docs ≡ some (take (b - a) (drop a docs))
unfolding records
records_within a b docs h k =
    rw (records, test_first a, test_order a (length docs) (omega (arith, h, k)), test_order a b h)
      refl

records_before {ℓ} :
    {A : Type ℓ} (a b : ℤ) (docs : List A) → ltb_ℤ a (pos 0) ≡ true → records a b docs ≡ none
unfolding records
records_before a b docs h = rw (records, h) refl

-- The end of the page, as a number.
abbrev stop : ℕ → ℕ → ℕ
stop k n = if leb (page_count n) (suc k) then n else suc k * 20

stop_lem : (k n : ℕ) → (page_of (pos (suc k)) n).end_record_index ≡ pos (stop k n)
stop_lem k n = end_lem k n ∙ if_pos (leb (page_count n) (suc k)) n (suc k * 20)

stop_bounds : (k n : ℕ) → (shown k n * 20 ≤ stop k n) × (stop k n ≤ n)
stop_bounds k n = ground arith

-- A page holds twenty results, or what is left.
stop_size :
    (k n : ℕ) → (stop k n ≡ shown k n * 20 + 20) ⊎ ((stop k n ≡ n) × (n ≤ shown k n * 20 + 20))
stop_size k n = ground arith

take_left {ℓ} :
    {A : Type ℓ} (a b : ℕ) (docs : List A)
    → (b ≡ a + 20) ⊎ ((b ≡ length docs) × (length docs ≤ a + 20))
    → take (b - a) (drop a docs) ≡ take 20 (drop a docs)
take_left a b docs (inl e) =
    let q : b - a ≡ 20 = omega (arith, e) in ap (λ (n : ℕ). take n (drop a docs)) q
take_left a b docs (inr (e, h)) =
    take_all (b - a) (drop a docs) (omega (arith, length-drop a docs, e))
    ∙ sym (take_all 20 (drop a docs) (omega (arith, length-drop a docs, h)))

-- Page `k + 1` shows the results from `20 * k` on, twenty of them or what is left, and a page
-- behind the last one shows the last one.
pub records-page_of {ℓ} :
    {A : Type ℓ} (k : ℕ) (docs : List A)
    → records
        (page_of (pos (suc k)) (length docs)).begin_record_index
        (page_of (pos (suc k)) (length docs)).end_record_index
        docs
      ≡ some (take 20 (drop (shown k (length docs) * 20) docs))
records-page_of k docs =
    let n = length docs in
    let (low, high) = stop_bounds k n in
    rw (begin_lem k n, stop_lem k n, records_within (shown k n * 20) (stop k n) docs low high)
      (ap some (take_left (shown k n * 20) (stop k n) docs (stop_size k n)))

-- For page 0 and for a negative page from -107374181 on, of which `(page - 1) * 20` is an `int`, the
-- loop begins before the vector.
pub records-page_of_below {ℓ} :
    {A : Type ℓ} (asked : ℤ) (docs : List A)
    → ltb_ℤ asked (pos 1) ≡ true
    → leb_ℤ (negsuc 107374180) asked ≡ true
    → records
        (page_of asked (length docs)).begin_record_index
        (page_of asked (length docs)).end_record_index
        docs
      ≡ none
records-page_of_below asked docs h fits = records_before _ _ docs (before_lem asked (length docs) h)

-- The pages from the given one on, for as many as are asked for.
unfoldable pub pages {ℓ} : {A : Type ℓ} → ℕ → ℕ → List A → List A
pages zero k docs = []
pages (suc left) k docs = take 20 (drop (k * 20) docs) ++ pages left (k + 1) docs

drop_end {ℓ} : {A : Type ℓ} (n : ℕ) (xs : List A) → length xs ≤ n → drop n xs ≡ []
drop_end zero [] h = refl
drop_end (suc n) [] h = refl
drop_end zero (x ∷ xs) h = absurd (omega arith)
drop_end (suc n) (x ∷ xs) h = drop_end n xs (omega (arith, h))

next_page {ℓ} :
    {A : Type ℓ} (k : ℕ) (docs : List A) → drop ((k + 1) * 20) docs ≡ drop 20 (drop (k * 20) docs)
next_page k docs =
    let q : (k + 1) * 20 ≡ k * 20 + 20 = omega arith in
    ap (λ (n : ℕ). drop n docs) q ∙ sym (drop-drop 20 (k * 20) docs)

pages_from {ℓ} :
    {A : Type ℓ} (left k : ℕ) (docs : List A)
    → length docs ≤ (k + left) * 20
    → pages left k docs ≡ drop (k * 20) docs
unfolding pages
pages_from zero k docs h = sym (drop_end (k * 20) docs (omega (arith, h)))
pages_from (suc left) k docs h =
    rw (pages_from left (k + 1) docs (omega (arith, h)), next_page k docs)
      (take-drop 20 (drop (k * 20) docs))

-- What the pages show from the given one on, for as many as are asked for, one after another.
unfoldable pub all_records {ℓ} : {A : Type ℓ} → ℕ → ℕ → List A → Option (List A)
all_records zero k docs = some []
all_records (suc left) k docs =
    let rest = all_records left (k + 1) docs in
    elim (records (page_of (pos (suc k)) (length docs)).begin_record_index
      (page_of (pos (suc k)) (length docs)).end_record_index docs) [
        | none ↦ none
        | some shown_docs ↦ elim rest [ none ↦ none | some more ↦ some (shown_docs ++ more) ]
      ]

shown_within : (k n : ℕ) → k < page_count n → shown k n ≡ k
shown_within k n h = ground (arith, h)

page_within {ℓ} :
    {A : Type ℓ} (k : ℕ) (docs : List A)
    → k < page_count (length docs)
    → records
        (page_of (pos (suc k)) (length docs)).begin_record_index
        (page_of (pos (suc k)) (length docs)).end_record_index
        docs
      ≡ some (take 20 (drop (k * 20) docs))
page_within k docs h =
    records-page_of k docs
    ∙ ap (λ (n : ℕ). some (take 20 (drop (n * 20) docs))) (shown_within k (length docs) h)

all_records-pages {ℓ} :
    {A : Type ℓ} (left k : ℕ) (docs : List A)
    → k + left ≤ page_count (length docs)
    → all_records left k docs ≡ some (pages left k docs)
unfolding all_records pages
all_records-pages zero k docs h = refl
all_records-pages (suc left) k docs h =
    rw
      (
        all_records,
        page_within k docs (omega (arith, h)),
        all_records-pages left (k + 1) docs (omega (arith, h)),
      )
      refl

-- The pages of a search, one after another, are the whole list of results: none is lost, shown
-- twice or moved.
pub all_records-whole {ℓ} :
    {A : Type ℓ} (docs : List A) → all_records (page_count (length docs)) 0 docs ≡ some docs
all_records-whole docs =
    all_records-pages (page_count (length docs)) 0 docs (omega arith)
    ∙ ap some (pages_from (page_count (length docs)) 0 docs (omega arith))
