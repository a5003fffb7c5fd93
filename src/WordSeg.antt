-- ===== src/WordSeg.antt =====
-- alias/wordseg/wordseg.cpp: `WordSeg::_init_tagger` and `WordSeg::segment`. CRF++ makes the tagger
-- of a text of options. The tagger is a parameter: for the lines that are added it gives the first
-- column and the tag of each of its rows, or a failure. A word has at most three bytes, so the 64
-- bytes of a line hold it.
pub mod Pieces
mod Tests
use sunet.Base.{
  ℕ, leb, length, Bool, true, false, ◌||◌, List, [], ◌∷◌, ◌++◌, Option, none, some, Bytes, codes,
  bytes_order, same, map, ◌==◌, if◌then◌else◌,
}
use sunet.Util.{split_ch_words}

-- `WordSeg::split_ch_words` is the code of `StringUtil::split_ch_words`.
unfoldable pub seg_words : Bytes → Option (List Bytes)
seg_words word = split_ch_words word

-- `strcmp(tag_res, "E") == 0 || strcmp(tag_res, "S") == 0`
unfoldable pub is_last : Bytes → Bool
is_last tag = same tag (codes "E") || same tag (codes "S")

-- `%s` of `sprintf`: the text of `c_str()`, up to its first zero.
unfoldable pub printed : Bytes → Bytes
printed [] = []
printed (c ∷ s) = let rest = printed s in if c == 0 then [] else c ∷ rest

-- `context`, the line that is added for a word.
unfoldable pub context_of : Bytes → Bytes
context_of word = printed word ++ codes "\to\tB"

-- The loop over the rows: `x(i, 0)` and `y2(i)` of each.
unfoldable pub seg_loop : List (Bytes × Bytes) → Bytes → List Bytes → List Bytes
seg_loop [] seg_str seg_results = seg_results
seg_loop ((x, tag) ∷ rows) seg_str seg_results = elim (is_last tag) [
  | true ↦ seg_loop rows [] (seg_results ++ (seg_str ++ x) ∷ [])
  | false ↦ seg_loop rows (seg_str ++ x) seg_results
]

-- `none` is `FAIL`, which leaves the vector of the caller as it is.
unfoldable pub segment : (List Bytes → Option (List (Bytes × Bytes))) → Bytes → Option (List Bytes)
segment tagger str = elim (seg_words str) [
  | none ↦ none
  | some words ↦ elim (tagger (map context_of words)) [
    | none ↦ none
    | some rows ↦ some (seg_loop rows [] [])
  ]
]

-- The results `FAIL` and `OK`.
pub data SegStatus : Type 0 where
  seg_fail seg_ok : SegStatus

-- The text that `sprintf` writes into the 128 bytes of `_tagger_conf`, without its zero.
unfoldable pub tagger_conf : Bytes → Bytes
tagger_conf model_path = codes "-m " ++ (model_path ++ codes " -v 3 -n2")

-- The result and `_tagger`, which is what `create` makes of the text; `none` is a write behind the
-- buffer.
unfoldable pub init_tagger {ℓ} :
    {T : Type ℓ} → (Bytes → Option T) → Bytes → Option (SegStatus × Option T)
init_tagger create model_path = elim (leb 128 (length (tagger_conf model_path))) [
  | true ↦ none
  | false ↦ elim (create (tagger_conf model_path)) [
    | none ↦ some (seg_fail, none)
    | some tagger ↦ some (seg_ok, some tagger)
  ]
]
