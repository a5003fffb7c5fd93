-- ===== src/Util/Tests.antt =====
-- Runs of util/utils.h.
use sunet.Base.{◌≡◌, refl, [], ◌∷◌, some, codes, arith, if◌then◌else◌, ◌==◌, All}
use sunet.Util.{split, split_ch_words, util_code, last_byte, num_to_str}
use sunet.Util.Fields.{split-fields, fields, but_last}
use sunet.Util.Words.{split_ch_words-words, split_ch_words-concat, words, concat, IsCharacter}
use sunet.Base.Int.{negsuc}

split_colon : split (codes "thread_cnt:5") (codes ":") ≡ codes "thread_cnt" ∷ codes "5" ∷ []
unfolding util_code
split_colon = refl

-- The last piece is lost behind any delimiter.
split_tab : split (codes "a:b\t") (codes ":") ≡ codes "a" ∷ []
unfolding util_code
split_tab = refl

split_ch_words_mixed :
    split_ch_words (b'a' ∷ b' ' ∷ 228 ∷ 184 ∷ 173 ∷ b'b' ∷ [])
    ≡ some (codes "a" ∷ (228 ∷ 184 ∷ 173 ∷ []) ∷ codes "b" ∷ [])
unfolding util_code
split_ch_words_mixed = refl

num_to_str_negative : num_to_str (negsuc 41) ≡ codes "-42"
unfolding util_code
num_to_str_negative = refl

split-fields_example : split (codes "a b") (codes " ") ≡ (
    if last_byte (codes "a b") == b'\t'
    then but_last (fields (codes " ") (codes "a b"))
    else fields (codes " ") (codes "a b"))
split-fields_example = split-fields b'a' (codes " b") b' ' []

split_ch_words-words_example : split_ch_words (codes "a b") ≡ some (words (codes "a b"))
split_ch_words-words_example = split_ch_words-words (codes "a b")

chars : All IsCharacter ((228 ∷ 184 ∷ 173 ∷ []) ∷ codes "b" ∷ [])
unfolding util_code
chars = ((refl, refl, refl), ((refl, omega arith), tt))

split_ch_words-concat_example :
    split_ch_words (concat ((228 ∷ 184 ∷ 173 ∷ []) ∷ codes "b" ∷ []))
    ≡ some ((228 ∷ 184 ∷ 173 ∷ []) ∷ codes "b" ∷ [])
split_ch_words-concat_example =
    split_ch_words-concat ((228 ∷ 184 ∷ 173 ∷ []) ∷ codes "b" ∷ []) chars
