-- ===== src/Dict.antt =====
-- plugin/dict_mgr.h: `DictMgr` and its loaders, and `reverse_index` of alias/dat/dat.h.
pub mod Index
mod Tests
use sunet.Base.{
  ℕ, Bool, true, false, List, [], ◌∷◌, ◌++◌, Option, none, some, Bytes, codes, put, bytes_order,
}
use sunet.Base.Int.{ℤ, int_order}
use sunet.Base.Number.{atoi}
use sunet.Util.{split}
use sunet.Config.{File, ConfDict, get_conf_val}
use sunet.Trie.{Node, node, nil, build}

pub record ReverseIndex : Type 0 where
  pub doc_id : ℤ
  pub cnt : ℤ

abbrev pub CountDict : Type 0
CountDict = List (Bytes × ℤ)

abbrev pub LengthDict : Type 0
LengthDict = List (ℤ × ℤ)

abbrev pub IndexDict : Type 0
IndexDict = List (Bytes × List ReverseIndex)

pub record DictMgr : Type 0 where
  pub index_dict : IndexDict
  pub word_freq_dict : CountDict
  pub word_doc_freq_dict : CountDict
  pub doc_length_dict : LengthDict
  pub suggest_dict : Node ℤ

-- The loop over the lines of a file; a file that cannot be opened has none.
unfoldable pub each_line {ℓ} : {A : Type ℓ} → (Bytes → A → A) → List Bytes → A → A
each_line f [] dict = dict
each_line f (line ∷ lines) dict = each_line f lines (f line dict)

unfoldable pub load {ℓ} : {A : Type ℓ} → (Bytes → A → A) → File → A → A
load f none dict = dict
load f (some lines) dict = each_line f lines dict

-- The body of the loops of `_load_word_doc_freq_dict` and `_load_word_freq_dict`.
unfoldable pub count_line : Bytes → CountDict → CountDict
count_line line dict = elim (split line (codes "\t")) [
  | [] ↦ dict
  | word ∷ [] ↦ dict
  | word ∷ cnt ∷ [] ↦ put word (atoi cnt) dict
  | word ∷ cnt ∷ other ∷ more ↦ dict
]

unfoldable pub length_line : Bytes → LengthDict → LengthDict
length_line line dict = elim (split line (codes "\t")) [
  | [] ↦ dict
  | id ∷ [] ↦ dict
  | id ∷ len ∷ [] ↦ put (atoi id) (atoi len) dict
  | id ∷ len ∷ other ∷ more ↦ dict
]

-- The entries that one piece of an index line appends: none, or one.
unfoldable pub posting : List Bytes → List ReverseIndex
posting [] = []
posting (id ∷ []) = []
posting (id ∷ cnt ∷ []) = []
posting (id ∷ cnt ∷ pos ∷ more) = record { doc_id = atoi id; cnt = atoi cnt } ∷ []

unfoldable pub postings : List Bytes → List ReverseIndex
postings [] = []
postings (vec ∷ vecs) = posting (split vec (1 ∷ [])) ++ postings vecs

unfoldable pub index_line : Bytes → IndexDict → IndexDict
index_line line dict = elim (split line (codes "\t")) [
  | [] ↦ dict
  | word ∷ [] ↦ dict
  | word ∷ vecs ∷ [] ↦ put word (postings (split vecs (2 ∷ []))) dict
  | word ∷ vecs ∷ other ∷ more ↦ dict
]

-- The files of a path, and the paths of the configuration.
module _ (open_file : Bytes → File) (conf : ConfDict) where
  unfoldable pub load_word_freq_dict : DictMgr → DictMgr
  load_word_freq_dict d = record d {
    word_freq_dict =
        load count_line (open_file (get_conf_val (codes "word_freq_file") conf)) d.word_freq_dict;
  }

  unfoldable pub load_word_doc_freq_dict : DictMgr → DictMgr
  load_word_doc_freq_dict d = record d {
    word_doc_freq_dict =
        load count_line (open_file (get_conf_val (codes "word_doc_freq_file") conf))
          d.word_doc_freq_dict;
  }

  unfoldable pub load_doc_length_dict : DictMgr → DictMgr
  load_doc_length_dict d = record d {
    doc_length_dict =
        load length_line (open_file (get_conf_val (codes "doc_length_file") conf))
          d.doc_length_dict;
  }

  unfoldable pub load_index_dict : DictMgr → DictMgr
  load_index_dict d = record d {
    index_dict = load index_line (open_file (get_conf_val (codes "index_file") conf)) d.index_dict;
  }

  -- `none` is a line that `build` cannot cut in two.
  unfoldable pub load_suggest_dict : DictMgr → Option DictMgr
  load_suggest_dict d =
      elim (build (open_file (get_conf_val (codes "suggest_file") conf)) (node none nil)) [
        | none ↦ none
        | some t ↦ some (record d { suggest_dict = t })
      ]

  unfoldable pub load_dict : DictMgr → Option DictMgr
  load_dict d =
      load_suggest_dict (load_doc_length_dict (load_word_doc_freq_dict (load_index_dict d)))
