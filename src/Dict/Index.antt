-- ===== src/Dict/Index.antt =====
-- index/build_index.cpp: `build_index`. The segmentation of a text is a parameter; the files are
-- the lists of the lines that are written.
pub mod Written
pub mod Built
use sunet.Base.{
  ℕ, suc, ◌+◌, Bool, true, false, List, [], ◌∷◌, ◌++◌, Option, none, some, Bytes, codes, put, find,
  bytes_order, length, ltb, map,
}
use sunet.Base.Int.{ℤ, pos, ◌+ℤ◌, to_int32, int_order}
use sunet.Base.Number.{atoi, print_int}
use sunet.Util.{split}
use sunet.Dict.{ReverseIndex, CountDict, LengthDict, IndexDict}

-- The four maps of the function.
pub record Builder : Type 0 where
  pub mps : IndexDict
  pub word_freq : CountDict
  pub word_doc_freq : CountDict
  pub doc_length : LengthDict

abbrev pub new_builder : Builder
new_builder = record { mps = []; word_freq = []; word_doc_freq = []; doc_length = [] }

abbrev pub or_zero : Option ℤ → ℤ
or_zero none = pos 0
or_zero (some n) = n

abbrev pub or_empty : Option (List ReverseIndex) → List ReverseIndex
or_empty none = []
or_empty (some v) = v

-- `if (d.find(w) == d.end()) d[w] = 0; d[w] += 1;`
unfoldable pub add_one : Bytes → CountDict → CountDict
add_one w dict = put w (to_int32 (or_zero (find w dict) +ℤ pos 1)) dict

unfoldable pub count_words : List Bytes → CountDict → CountDict
count_words [] dict = dict
count_words (w ∷ ws) dict = count_words ws (add_one w dict)

-- The loop over `cnt_map`: the index, and in how many documents a word stands.
unfoldable pub add_postings : ℤ → CountDict → IndexDict → IndexDict
add_postings id [] mps = mps
add_postings id ((w, cnt) ∷ cnts) mps =
    add_postings id cnts
      (put w (or_empty (find w mps) ++ record { doc_id = id; cnt = cnt } ∷ []) mps)

unfoldable pub add_docs : CountDict → CountDict → CountDict
add_docs [] dict = dict
add_docs ((w, cnt) ∷ cnts) dict = add_docs cnts (add_one w dict)

-- What a line with an id and a text adds.
unfoldable pub add_document : ℤ → ℤ → List Bytes → Builder → Builder
add_document id len seg_results b =
    let cnt_map = count_words seg_results [] in
    record {
      mps = add_postings id cnt_map b.mps;
      word_freq = count_words seg_results b.word_freq;
      word_doc_freq = add_docs cnt_map b.word_doc_freq;
      doc_length = put id len b.doc_length;
    }

module _ (segment : Bytes → List Bytes) where
  -- The pieces of a line around its tabs.
  unfoldable pub document_pieces : ℤ → List Bytes → Builder → Builder
  document_pieces len [] b = b
  document_pieces len (id ∷ []) b = b
  document_pieces len (id ∷ text ∷ []) b = add_document (atoi id) len (segment text) b
  document_pieces len (id ∷ text ∷ other ∷ more) b = b

  unfoldable pub document_line : Bytes → Builder → Builder
  document_line line b = document_pieces (to_int32 (pos (length line))) (split line (codes "\t")) b

  unfoldable pub document_lines : List Bytes → Builder → Builder
  document_lines [] b = b
  document_lines (line ∷ lines) b = document_lines lines (document_line line b)

unfoldable pub write_count : Bytes × ℤ → Bytes
write_count e = e.0 ++ b'\t' ∷ print_int e.1

unfoldable pub write_length : ℤ × ℤ → Bytes
write_length e = print_int e.0 ++ b'\t' ∷ print_int e.1

unfoldable pub write_posting : ReverseIndex → Bytes
write_posting t = print_int t.doc_id ++ 1 ∷ (print_int t.cnt ++ 1 ∷ codes "0")

-- `if (i + 1 < size) os_index << "\002";`
unfoldable pub write_postings : List ReverseIndex → Bytes
write_postings [] = []
write_postings (t ∷ []) = write_posting t
write_postings (t ∷ u ∷ ts) = write_posting t ++ 2 ∷ write_postings (u ∷ ts)

-- A word of fewer than three bytes is left out.
unfoldable pub write_index : IndexDict → List Bytes
write_index [] = []
write_index ((w, ts) ∷ mps) =
    let rest = write_index mps in
    elim (ltb (length w) 3) [ true ↦ rest | false ↦ (w ++ b'\t' ∷ write_postings ts) ∷ rest ]

-- The files `index.dict`, `word_freq.dict`, `word_doc_freq.dict` and `doc_length.dict`.
pub record Files : Type 0 where
  pub index_file : List Bytes
  pub word_freq_file : List Bytes
  pub word_doc_freq_file : List Bytes
  pub doc_length_file : List Bytes

unfoldable pub write_files : Builder → Files
write_files b = record {
  index_file = write_index b.mps;
  word_freq_file = map write_count b.word_freq;
  word_doc_freq_file = map write_count b.word_doc_freq;
  doc_length_file = map write_length b.doc_length;
}

unfoldable pub build_index : (Bytes → List Bytes) → Option (List Bytes) → Files
build_index segment none = write_files new_builder
build_index segment (some lines) = write_files (document_lines segment lines new_builder)
