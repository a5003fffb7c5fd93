-- ===== src/WordSeg/Tests.antt =====
-- Runs of alias/wordseg/wordseg.cpp.
use sunet.Base.{
  ◌≡◌, refl, List, [], ◌∷◌, ◌++◌, Option, none, some, Bytes, codes, All, arith, ℕ, length,
  replicate, map, ◌==◌, if◌then◌else◌,
}
use sunet.Util.{util_code}
use sunet.Util.Words.{concat, IsCharacter}
use sunet.WordSeg.{context_of, printed, segment, seg_ok, seg_fail, tagger_conf, init_tagger}
use sunet.WordSeg.Pieces.{unfinished, segment-concat}

abbrev letters : List Bytes
letters = codes "a" ∷ codes "b" ∷ codes "c" ∷ []

-- The text before the first tab.
abbrev column : Bytes → Bytes
column [] = []
column (c ∷ s) = let rest = column s in if c == 9 then [] else c ∷ rest

-- A tagger that gives its lines the tags begin and end by turns.
abbrev tag_lines : Bytes → Bytes → List Bytes → List (Bytes × Bytes)
tag_lines tag other [] = []
tag_lines tag other (line ∷ lines) = (column line, tag) ∷ tag_lines other tag lines

abbrev turns : List Bytes → Option (List (Bytes × Bytes))
turns lines = some (tag_lines (codes "B") (codes "E") lines)

abbrev tagged : List (Bytes × Bytes)
tagged = (codes "a", codes "B") ∷ (codes "b", codes "E") ∷ (codes "c", codes "B") ∷ []

letters-IsCharacter : All IsCharacter letters
unfolding util_code
letters-IsCharacter = ((refl, omega arith), ((refl, omega arith), ((refl, omega arith), tt)))

letters-tagged : turns (map context_of letters) ≡ some tagged
unfolding context_of printed
letters-tagged = refl

segment-concat_example :
    (pieces : List Bytes) × (segment turns (concat letters) ≡ some pieces)
    × (concat pieces ++ unfinished tagged [] ≡ concat letters)
segment-concat_example = segment-concat turns letters tagged letters-IsCharacter letters-tagged refl

-- A path that fits into the options, and one of 116 bytes, which does not.
model_loaded : init_tagger (λ conf. some (length conf)) (codes "model") ≡ some (seg_ok, some 17)
unfolding init_tagger tagger_conf
model_loaded = refl

no_model : init_tagger {T = ℕ} (λ conf. none) (codes "model") ≡ some (seg_fail, none)
unfolding init_tagger tagger_conf
no_model = refl

path_too_long : init_tagger (λ conf. some (length conf)) (replicate 116 97) ≡ none
unfolding init_tagger tagger_conf
path_too_long = refl

path_fits : init_tagger (λ conf. some (length conf)) (replicate 115 97) ≡ some (seg_ok, some 127)
unfolding init_tagger tagger_conf
path_fits = refl
