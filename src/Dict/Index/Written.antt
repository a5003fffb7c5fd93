-- ===== src/Dict/Index/Written.antt =====
-- The loaders of plugin/dict_mgr.h on the files that index/build_index.cpp writes.
use sunet.Base.{
  ℕ, ◌<◌, ◌≡◌, ◌≢◌, refl, sym, ap, ◌∙◌, true, false, List, [], ◌∷◌, ◌++◌, Bytes, codes, Lacks, All,
  All-append, map, put, put_all, bytes_order, arith, inl, inr, ltb, length, Bool-cases,
}
use sunet.Base.Int.{ℤ, pos, negsuc, int_order}
use sunet.Base.Number.{IsInt, print_int, print_int-ne, print_nat-ne-nil, atoi-print_int}
use sunet.Util.{split}
use sunet.Util.Join.{
  join, split_pair, split-join, last_byte-append, join-All, join-ne-nil, append-ne-nil,
}
use sunet.Http.Query.{last-ne}
use sunet.Dict.{
  ReverseIndex, CountDict, LengthDict, IndexDict, each_line, count_line, length_line, posting,
  postings, index_line,
}
use sunet.Dict.Index.{write_count, write_length, write_posting, write_postings, write_index}

-- A word without tabs, and a count.
abbrev pub IsCount : Bytes × ℤ → Type 0
IsCount e = Lacks b'\t' e.0 × IsInt e.1

abbrev pub IsLength : ℤ × ℤ → Type 0
IsLength e = IsInt e.0 × IsInt e.1

abbrev pub IsPosting : ReverseIndex → Type 0
IsPosting t = IsInt t.doc_id × IsInt t.cnt

-- A word without tabs, and at least one posting.
abbrev pub IsPosted : Bytes × List ReverseIndex → Type 0
IsPosted e = Lacks b'\t' e.0 × (e.1 ≢ []) × All IsPosting e.1

print_int-Lacks_tab : (z : ℤ) → Lacks b'\t' (print_int z)
print_int-Lacks_tab z = print_int-ne b'\t' z (inl (omega arith)) (omega arith)

print_int-ne-nil : (z : ℤ) → print_int z ≢ []
unfolding print_int
print_int-ne-nil (pos n) = print_nat-ne-nil n
print_int-ne-nil (negsuc n) = λ e. cc e

-- Two pieces around a tab.
split-tab :
    (k v : Bytes)
    → Lacks b'\t' k
    → Lacks b'\t' v
    → v ≢ []
    → split (k ++ b'\t' ∷ v) (codes "\t") ≡ k ∷ v ∷ []
split-tab k v hk hv some_v =
    split_pair b'\t' k v hk hv
      (λ e. last-ne b'\t' v (omega arith) hv (sym (last_byte-append k b'\t' v some_v) ∙ e))

count_line-write_count :
    (e : Bytes × ℤ) (dict : CountDict)
    → IsCount e
    → count_line (write_count e) dict ≡ put e.0 e.1 dict
unfolding write_count count_line
count_line-write_count e dict h =
    rw
      (
        count_line,
        split-tab e.0 (print_int e.1) h.0 (print_int-Lacks_tab e.1) (print_int-ne-nil e.1),
        atoi-print_int e.1 h.1,
      )
      refl

length_line-write_length :
    (e : ℤ × ℤ) (dict : LengthDict)
    → IsLength e
    → length_line (write_length e) dict ≡ put e.0 e.1 dict
unfolding write_length length_line
length_line-write_length e dict h =
    rw
      (
        length_line,
        split-tab (print_int e.0) (print_int e.1) (print_int-Lacks_tab e.0)
            (print_int-Lacks_tab e.1) (print_int-ne-nil e.1),
        atoi-print_int e.0 h.0,
        atoi-print_int e.1 h.1,
      )
      refl

-- Every written count is loaded again.
pub each_line-write_count :
    (d dict : CountDict)
    → All IsCount d
    → each_line count_line (map write_count d) dict ≡ put_all d dict
unfolding each_line put_all
each_line-write_count [] dict h = refl
each_line-write_count (e ∷ d) dict h =
    rw (each_line, count_line-write_count e dict h.0)
      (each_line-write_count d (put e.0 e.1 dict) h.1)

-- Every written length is loaded again.
pub each_line-write_length :
    (d dict : LengthDict)
    → All IsLength d
    → each_line length_line (map write_length d) dict ≡ put_all d dict
unfolding each_line put_all
each_line-write_length [] dict h = refl
each_line-write_length (e ∷ d) dict h =
    rw (each_line, length_line-write_length e dict h.0)
      (each_line-write_length d (put e.0 e.1 dict) h.1)

-- A byte that no print and no mark of a posting holds.
abbrev IsOutside : ℕ → Type 0
IsOutside d = (d < b'0') × (d ≢ b'-') × (d ≢ 1)

write_posting-All : (d : ℕ) (t : ReverseIndex) → IsOutside d → Lacks d (write_posting t)
unfolding write_posting
write_posting-All d t h =
    All-append (λ c. c ≢ d) (print_int t.doc_id) _ (print_int-ne d t.doc_id (inl h.0) h.1)
      (
        (λ e. h.2 (sym e)),
        All-append (λ c. c ≢ d) (print_int t.cnt) _ (print_int-ne d t.cnt (inl h.0) h.1)
            ((λ e. h.2 (sym e)), (omega (arith, h.0), tt)),
      )

write_postings-join : (ts : List ReverseIndex) → write_postings ts ≡ join 2 (map write_posting ts)
unfolding write_postings join
write_postings-join [] = refl
write_postings-join (t ∷ []) = refl
write_postings-join (t ∷ u ∷ ts) =
    ap (λ (s : Bytes). write_posting t ++ 2 ∷ s) (write_postings-join (u ∷ ts))

postings_Lacks :
    (d : ℕ) (ts : List ReverseIndex) → IsOutside d → All (Lacks d) (map write_posting ts)
postings_Lacks d [] h = tt
postings_Lacks d (t ∷ ts) h = (write_posting-All d t h, postings_Lacks d ts h)

write_posting-ne-nil : (t : ReverseIndex) → write_posting t ≢ []
unfolding write_posting
write_posting-ne-nil t = append-ne-nil (print_int t.doc_id) 1 (print_int t.cnt ++ 1 ∷ codes "0")

postings_tab : (ts : List ReverseIndex) → Lacks b'\t' (join 2 (map write_posting ts))
postings_tab ts =
    join-All 2 (λ c. c ≢ b'\t') (map write_posting ts) (omega arith)
      (postings_Lacks b'\t' ts (omega arith, omega arith, omega arith))

split-write_postings :
    (ts : List ReverseIndex) → ts ≢ [] → split (write_postings ts) (2 ∷ []) ≡ map write_posting ts
split-write_postings [] h = absurd (h refl)
split-write_postings (t ∷ ts) h = rw (write_postings-join (t ∷ ts)) (
    split-join 2 (write_posting t) (map write_posting ts)
      (postings_Lacks 2 (t ∷ ts) (omega arith, omega arith, omega arith))
      (join-ne-nil 2 (write_posting t) (map write_posting ts) (write_posting-ne-nil t))
      (last-ne b'\t' _ (omega arith) (postings_tab (t ∷ ts))))

print_int-Lacks_one : (z : ℤ) → Lacks 1 (print_int z)
print_int-Lacks_one z = print_int-ne 1 z (inl (omega arith)) (omega arith)

split-write_posting :
    (t : ReverseIndex)
    → split (write_posting t) (1 ∷ []) ≡ print_int t.doc_id ∷ print_int t.cnt ∷ codes "0" ∷ []
unfolding write_posting join
split-write_posting t =
    split-join 1 (print_int t.doc_id) (print_int t.cnt ∷ codes "0" ∷ [])
      (print_int-Lacks_one t.doc_id, (print_int-Lacks_one t.cnt, ((omega arith, tt), tt)))
      (append-ne-nil (print_int t.doc_id) 1 (print_int t.cnt ++ 1 ∷ codes "0"))
      (last-ne b'\t' _ (omega arith) (postings_tab (t ∷ [])))

postings-write_posting :
    (ts : List ReverseIndex) → All IsPosting ts → postings (map write_posting ts) ≡ ts
unfolding postings posting
postings-write_posting [] h = refl
postings-write_posting (t ∷ ts) h =
    rw
      (
        split-write_posting t,
        posting,
        atoi-print_int t.doc_id h.0.0,
        atoi-print_int t.cnt h.0.1,
        postings-write_posting ts h.1,
      )
      refl

write_postings-ne-nil : (ts : List ReverseIndex) → ts ≢ [] → write_postings ts ≢ []
write_postings-ne-nil [] h = absurd (h refl)
write_postings-ne-nil (t ∷ ts) h =
    rw (write_postings-join (t ∷ ts))
      (join-ne-nil 2 (write_posting t) (map write_posting ts) (write_posting-ne-nil t))

index_line-write_postings :
    (w : Bytes) (ts : List ReverseIndex) (dict : IndexDict)
    → IsPosted (w, ts)
    → index_line (w ++ b'\t' ∷ write_postings ts) dict ≡ put w ts dict
unfolding index_line
index_line-write_postings w ts dict h =
    rw
      (
        split-tab w (write_postings ts) h.0 (rw (write_postings-join ts) (postings_tab ts))
            (write_postings-ne-nil ts h.1),
        index_line,
        split-write_postings ts h.1,
        postings-write_posting ts h.2,
      )
      refl

-- The entries whose word has three bytes or more.
unfoldable pub long_words : IndexDict → IndexDict
long_words [] = []
long_words ((w, ts) ∷ mps) =
    let rest = long_words mps in elim (ltb (length w) 3) [ true ↦ rest | false ↦ (w, ts) ∷ rest ]

-- Every written list of postings is loaded again under its word, in order; a word of fewer than
-- three bytes is not written.
pub each_line-write_index :
    (mps dict : IndexDict)
    → All IsPosted mps
    → each_line index_line (write_index mps) dict ≡ put_all (long_words mps) dict
unfolding write_index each_line put_all long_words
each_line-write_index [] dict h = refl
each_line-write_index ((w, ts) ∷ mps) dict h = elim (Bool-cases (ltb (length w) 3)) [
  | inl e ↦ rw (write_index, long_words, e) (each_line-write_index mps dict h.1)
  | inr e ↦
      rw (write_index, long_words, e, each_line, put_all, index_line-write_postings w ts dict h.0)
        (each_line-write_index mps (put w ts dict) h.1)
]
