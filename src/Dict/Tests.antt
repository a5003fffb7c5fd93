-- ===== src/Dict/Tests.antt =====
-- Runs of plugin/dict_mgr.h and index/build_index.cpp.
use sunet.Base.{◌≡◌, List, [], ◌∷◌, some, Bytes, codes, put_all, bytes_order, Lacks, All}
use sunet.Base.Int.{int_order}
use sunet.Dict.{load, count_line, length_line, index_line}
use sunet.Dict.Index.{build_index, document_lines, new_builder}
use sunet.Dict.Index.Written.{long_words}
use sunet.Dict.Index.Built.{load-build_index}

-- The whole text as one piece.
abbrev whole : Bytes → List Bytes
whole text = text ∷ []

whole-Lacks : (text : Bytes) → Lacks b'\t' text → All (Lacks b'\t') (whole text)
whole-Lacks text h = (h, tt)

abbrev documents : List Bytes
documents = codes "1\tabc" ∷ codes "2\tabc" ∷ []

load-build_index_example :
    (load index_line (some (build_index whole (some documents)).index_file) []
      ≡ put_all (long_words (document_lines whole documents new_builder).mps) [])
    × (load count_line (some (build_index whole (some documents)).word_freq_file) []
        ≡ put_all (document_lines whole documents new_builder).word_freq [])
    × (load count_line (some (build_index whole (some documents)).word_doc_freq_file) []
        ≡ put_all (document_lines whole documents new_builder).word_doc_freq [])
    × (load length_line (some (build_index whole (some documents)).doc_length_file) []
        ≡ put_all (document_lines whole documents new_builder).doc_length [])
load-build_index_example = load-build_index whole whole-Lacks documents
