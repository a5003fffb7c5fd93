-- ===== src/WordSeg/Pieces.antt =====
-- The pieces of a segmented text.
use sunet.Base.{
  ◌≡◌, refl, ap, ◌∙◌, true, false, List, [], ◌∷◌, ◌++◌, Option, some, Bytes, All, map, append_assoc,
  append-nil, inl, inr, Bool-cases,
}
use sunet.Util.Words.{concat, IsCharacter, split_ch_words-concat}
use sunet.WordSeg.{seg_words, is_last, context_of, seg_loop, segment}

-- The words behind the last one that ends a piece: they are in no piece.
unfoldable pub unfinished : List (Bytes × Bytes) → Bytes → Bytes
unfinished [] seg_str = seg_str
unfinished ((x, tag) ∷ rows) seg_str = elim (is_last tag) [
  | true ↦ unfinished rows []
  | false ↦ unfinished rows (seg_str ++ x)
]

concat-append : (xs ys : List Bytes) → concat (xs ++ ys) ≡ concat xs ++ concat ys
unfolding concat
concat-append [] ys = refl
concat-append (x ∷ xs) ys = rw (concat-append xs ys, append_assoc) refl

concat_one : (x : Bytes) → concat (x ∷ []) ≡ x
unfolding concat
concat_one x = append-nil x

-- The text of the rows.
unfoldable row_text : List (Bytes × Bytes) → Bytes
row_text [] = []
row_text ((x, tag) ∷ rows) = x ++ row_text rows

seg_loop-concat :
    (rows : List (Bytes × Bytes)) (seg_str : Bytes) (res : List Bytes)
    → concat (seg_loop rows seg_str res) ++ unfinished rows seg_str
      ≡ concat res ++ (seg_str ++ row_text rows)
unfolding row_text seg_loop concat unfinished
seg_loop-concat [] seg_str res = rw (append-nil seg_str) refl
seg_loop-concat ((x, tag) ∷ rows) seg_str res = elim (Bool-cases (is_last tag)) [
  | inl e ↦
      rw (seg_loop, unfinished, e)
        (seg_loop-concat rows [] (res ++ (seg_str ++ x) ∷ [])
          ∙ rw
              (
                concat-append res ((seg_str ++ x) ∷ []),
                concat_one (seg_str ++ x),
                append_assoc,
                append_assoc,
              )
              refl)
  | inr e ↦
      rw (seg_loop, unfinished, e)
        (seg_loop-concat rows (seg_str ++ x) res ∙ rw (append_assoc seg_str x (row_text rows)) refl)
]

whole_rows :
    (rows : List (Bytes × Bytes))
    → concat (seg_loop rows [] []) ++ unfinished rows [] ≡ row_text rows
unfolding concat
whole_rows rows = seg_loop-concat rows [] []

rows-words : (rows : List (Bytes × Bytes)) → row_text rows ≡ concat (map (λ r. r.0) rows)
unfolding row_text concat
rows-words [] = refl
rows-words (r ∷ rows) = ap (◌++◌ r.0) (rows-words rows)

-- For a text of complete characters, with a tagger that gives one row for each line that is added, its
-- first column the character of the line, the pieces, one after another, are the text, but for the
-- characters behind the last tag that ends a piece.
pub segment-concat :
    (tagger : List Bytes → Option (List (Bytes × Bytes))) (cs : List Bytes)
    (rows : List (Bytes × Bytes))
    → All IsCharacter cs
    → tagger (map context_of cs) ≡ some rows
    → map (λ r. r.0) rows ≡ cs
    → (pieces : List Bytes) × (segment tagger (concat cs) ≡ some pieces)
      × (concat pieces ++ unfinished rows [] ≡ concat cs)
unfolding segment seg_words
segment-concat tagger cs rows h e k = (
  seg_loop rows [] [],
  rw (segment, seg_words, split_ch_words-concat cs h, e) refl,
  whole_rows rows ∙ rows-words rows ∙ ap concat k,
)
