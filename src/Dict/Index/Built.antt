-- ===== src/Dict/Index/Built.antt =====
-- What index/build_index.cpp holds in its maps, and that plugin/dict_mgr.h reads it back.
use sunet.Base.{
  ◌≡◌, ◌≢◌, refl, Bool, true, false, List, [], ◌∷◌, ◌++◌, some, Bytes, codes, Lacks, All,
  All-append, put, put_all, find, bytes_order, arith, inl, inr, ◌⊎◌, length, Order, Option-cases,
  if◌then◌else◌, ◌==◌,
}
use Prim.Native.Nat.{Ordering}
use sunet.Base.Int.{ℤ, pos, negsuc, int_order, to_int32, of_word, ◌+ℤ◌}
use sunet.Base.Number.{IsInt, atoi, signed, skip_space}
use sunet.Util.{split, last_byte}
use sunet.Util.Fields.{fields, but_last, split-fields}
use sunet.Util.Join.{fields-Lacks}
use sunet.Dict.{ReverseIndex, CountDict, IndexDict, load, count_line, length_line, index_line}
use sunet.Dict.Index.{
  Builder, or_zero, or_empty, add_one, count_words, add_postings, add_docs, add_document,
  document_line, document_pieces, new_builder, document_lines, write_files, build_index,
}
use sunet.Dict.Index.Written.{
  IsCount, IsLength, IsPosting, IsPosted, long_words, each_line-write_count, each_line-write_length,
  each_line-write_index,
}

order_cases : (o : Ordering) → (o ≡ Ordering.lt) ⊎ (o ≡ Ordering.eq) ⊎ (o ≡ Ordering.gt)
order_cases Ordering.lt = inl refl
order_cases Ordering.eq = inr (inl refl)
order_cases Ordering.gt = inr (inr refl)

All-put {ℓ κ μ} :
    {K : Type ℓ} {V : Type κ} ⦃o : Order K⦄ (P : K × V → Type μ) (k : K) (v : V) (m : List (K × V))
    → All P m
    → P (k, v)
    → All P (put k v m)
unfolding put
All-put P k v [] h p = (p, tt)
All-put ⦃o⦄ P k v ((j, w) ∷ m) h p = elim (order_cases (o.cmp k j)) [
  | inl e ↦ rw (e, put, All) (p, h)
  | inr (inl e) ↦ rw (e, put, All) (rw (← o.cmp_sound k j e) p, h.1)
  | inr (inr e) ↦ rw (e, put, All) (h.0, All-put P k v m h.1 p)
]

to_int32-IsInt : (z : ℤ) → IsInt (to_int32 z)
unfolding to_int32 of_word
to_int32-IsInt (pos n) = ground arith
to_int32-IsInt (negsuc n) = ground arith

find-All {ℓ κ μ} :
    {K : Type ℓ} {V : Type κ} ⦃o : Order K⦄ (P : K × V → Type μ) (k : K) (v : V) (m : List (K × V))
    → All P m
    → find k m ≡ some v
    → P (k, v)
unfolding find
find-All P k v [] h e = cc e
find-All ⦃o⦄ P k v ((j, w) ∷ m) h e = elim (order_cases (o.cmp k j)) [
  | inl q ↦ find-All P k v m h.1 (ground (arith, e, q))
  | inr (inl q) ↦ let p : w ≡ v = ground (arith, e, q) in rw (o.cmp_sound k j q, ← p) h.0
  | inr (inr q) ↦ find-All P k v m h.1 (ground (arith, e, q))
]

atoi-IsInt : (s : Bytes) → IsInt (atoi s)
unfolding atoi
atoi-IsInt s = to_int32-IsInt (signed (skip_space s))

add_one-All :
    (w : Bytes) (dict : CountDict) → Lacks b'\t' w → All IsCount dict → All IsCount (add_one w dict)
unfolding add_one
add_one-All w dict h k =
    All-put IsCount w (to_int32 (or_zero (find w dict) +ℤ pos 1)) dict k
      (h, to_int32-IsInt (or_zero (find w dict) +ℤ pos 1))

count_words-All :
    (ws : List Bytes) (dict : CountDict)
    → All (Lacks b'\t') ws
    → All IsCount dict
    → All IsCount (count_words ws dict)
unfolding count_words
count_words-All [] dict h k = k
count_words-All (w ∷ ws) dict h k =
    count_words-All ws (add_one w dict) h.1 (add_one-All w dict h.0 k)

add_docs-All :
    (cnts dict : CountDict) → All IsCount cnts → All IsCount dict → All IsCount (add_docs cnts dict)
unfolding add_docs
add_docs-All [] dict h k = k
add_docs-All ((w, cnt) ∷ cnts) dict h k =
    add_docs-All cnts (add_one w dict) h.1 (add_one-All w dict h.0.0 k)

or_empty-All :
    (w : Bytes) (mps : IndexDict) → All IsPosted mps → All IsPosting (or_empty (find w mps))
or_empty-All w mps h = elim (Option-cases (find w mps)) [
  | inl e ↦ rw e tt
  | inr (ts, e) ↦ rw e (find-All IsPosted w ts mps h e).2
]

appended-ne-nil : (ts : List ReverseIndex) (t : ReverseIndex) → ts ++ t ∷ [] ≢ []
appended-ne-nil [] t = λ e. cc e
appended-ne-nil (u ∷ ts) t = λ e. cc e

add_postings-All :
    (id : ℤ) (cnts : CountDict) (mps : IndexDict)
    → IsInt id
    → All IsCount cnts
    → All IsPosted mps
    → All IsPosted (add_postings id cnts mps)
unfolding add_postings
add_postings-All id [] mps i h k = k
add_postings-All id ((w, cnt) ∷ cnts) mps i h k =
    let old = or_empty (find w mps) in
    let t : ReverseIndex = record { doc_id = id; cnt = cnt } in
    add_postings-All id cnts (put w (old ++ t ∷ []) mps) i h.1 (
      All-put IsPosted w (old ++ t ∷ []) mps k (
        h.0.0,
        appended-ne-nil old t,
        All-append IsPosting old (t ∷ []) (or_empty-All w mps k) ((i, h.0.1), tt),
      ))

-- What holds of the maps after every line.
pub record IsBuilt (b : Builder) : Type 0 where
  pub posted : All IsPosted b.mps
  pub counted : All IsCount b.word_freq
  pub doc_counted : All IsCount b.word_doc_freq
  pub lengths : All IsLength b.doc_length

add_document-IsBuilt :
    (id len : ℤ) (ws : List Bytes) (b : Builder)
    → IsInt id
    → IsInt len
    → All (Lacks b'\t') ws
    → IsBuilt b
    → IsBuilt (add_document id len ws b)
unfolding add_document
add_document-IsBuilt id len ws b i l h v =
    let cnts = count_words-All ws [] h tt in
    record {
      posted = add_postings-All id (count_words ws []) b.mps i cnts v.posted;
      counted = count_words-All ws b.word_freq h v.counted;
      doc_counted = add_docs-All (count_words ws []) b.word_doc_freq cnts v.doc_counted;
      lengths = All-put IsLength id len b.doc_length v.lengths (i, l);
    }

but_last-All : (ps : List Bytes) → All (Lacks b'\t') ps → All (Lacks b'\t') (but_last ps)
unfolding but_last
but_last-All [] h = tt
but_last-All (p ∷ []) h = tt
but_last-All (p ∷ q ∷ ps) h = (h.0, but_last-All (q ∷ ps) h.1)

if_All :
    (xs ys : List Bytes) (t : Bool)
    → All (Lacks b'\t') xs
    → All (Lacks b'\t') ys
    → All (Lacks b'\t') (if t then xs else ys)
if_All xs ys true hx hy = hx
if_All xs ys false hx hy = hy

split-Lacks_tab : (line : Bytes) → All (Lacks b'\t') (split line (codes "\t"))
split-Lacks_tab [] = unfold split in tt
split-Lacks_tab (c ∷ s) =
    let pieces = fields-Lacks b'\t' (c ∷ s) in
    rw (split-fields c s b'\t' []) (
      if_All (but_last (fields (codes "\t") (c ∷ s))) (fields (codes "\t") (c ∷ s))
        (last_byte (c ∷ s) == b'\t') (but_last-All (fields (codes "\t") (c ∷ s)) pieces) pieces)

module _ (segment : Bytes → List Bytes)
    (pieces : (text : Bytes) → Lacks b'\t' text → All (Lacks b'\t') (segment text)) where
  document_pieces-IsBuilt :
      (len : ℤ) (ps : List Bytes) (b : Builder)
      → IsInt len
      → All (Lacks b'\t') ps
      → IsBuilt b
      → IsBuilt (document_pieces segment len ps b)
  unfolding document_pieces
  document_pieces-IsBuilt len [] b l h v = v
  document_pieces-IsBuilt len (id ∷ []) b l h v = v
  document_pieces-IsBuilt len (id ∷ text ∷ []) b l h v =
      add_document-IsBuilt (atoi id) len (segment text) b (atoi-IsInt id) l (pieces text h.1.0) v
  document_pieces-IsBuilt len (id ∷ text ∷ other ∷ more) b l h v = v

  document_lines-IsBuilt :
      (lines : List Bytes) (b : Builder) → IsBuilt b → IsBuilt (document_lines segment lines b)
  unfolding document_lines document_line
  document_lines-IsBuilt [] b v = v
  document_lines-IsBuilt (line ∷ lines) b v =
      document_lines-IsBuilt lines (document_line segment line b) (
        document_pieces-IsBuilt (to_int32 (pos (length line))) (split line (codes "\t")) b
          (to_int32-IsInt (pos (length line))) (split-Lacks_tab line) v)

  -- Whatever the lines are, the loaders read back the four files of the builder: the index
  -- without the words of fewer than three bytes, both counts, and the lengths. The pieces that
  -- the segmentation makes of a text without tabs hold no tab.
  pub load-build_index :
      (lines : List Bytes)
      → (load index_line (some (build_index segment (some lines)).index_file) []
          ≡ put_all (long_words (document_lines segment lines new_builder).mps) [])
        × (load count_line (some (build_index segment (some lines)).word_freq_file) []
            ≡ put_all (document_lines segment lines new_builder).word_freq [])
        × (load count_line (some (build_index segment (some lines)).word_doc_freq_file) []
            ≡ put_all (document_lines segment lines new_builder).word_doc_freq [])
        × (load length_line (some (build_index segment (some lines)).doc_length_file) []
            ≡ put_all (document_lines segment lines new_builder).doc_length [])
  unfolding load build_index write_files
  load-build_index lines =
      let b = document_lines segment lines new_builder in
      let v =
        document_lines-IsBuilt lines new_builder
          (record { posted = tt; counted = tt; doc_counted = tt; lengths = tt }) in
      (
        each_line-write_index b.mps [] v.posted,
        each_line-write_count b.word_freq [] v.counted,
        each_line-write_count b.word_doc_freq [] v.doc_counted,
        each_line-write_length b.doc_length [] v.lengths,
      )
