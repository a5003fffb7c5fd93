-- ===== src/Util/Words.antt =====
-- `split_ch_words` against a reading of the text from left to right.
use Prim.Native.Nat.add
use native.Mathlib.Nat.{suc-add, add-zero}
use sunet.Base.Int.{pos, leb_ℤ}
use sunet.Base.{
  ℕ, zero, suc, ◌+◌, ◌-◌, ◌≤◌, ◌<◌, ◌≡◌, ◌≢◌, refl, ap, ◌∙◌, inl, inr, Bool, true, false, List, [],
  ◌∷◌, ◌++◌, some, arith, ltb, ◌==◌, ◌&&◌, ◌||◌, Bool-cases, ltb→lt, Bytes, length, take, drop,
  append_assoc, append-nil, get_elem?, All,
}
use sunet.Util.{split_ch_words, is_lead, is_cont, words_loop, word_step, has_tail, char_at, schar}

-- The words of a text: a leading byte with two continuations is one word, a leading byte without
-- them and a space are skipped, and any other byte is a word.
unfoldable pub words : Bytes → List Bytes
words [] = []
words (a ∷ []) = elim (is_lead a || a == b' ') [ true ↦ [] | false ↦ (a ∷ []) ∷ [] ]
words (a ∷ b ∷ []) = elim (is_lead a || a == b' ') [
  | true ↦ words (b ∷ [])
  | false ↦ (a ∷ []) ∷ words (b ∷ [])
]
words (a ∷ b ∷ c ∷ s) = elim (is_lead a) [
  | true ↦ elim (is_cont b && is_cont c) [
    | true ↦ (a ∷ b ∷ c ∷ []) ∷ words s
    | false ↦ words (b ∷ c ∷ s)
  ]
  | false ↦ elim (a == b' ') [ true ↦ words (b ∷ c ∷ s) | false ↦ (a ∷ []) ∷ words (b ∷ c ∷ s) ]
]

unfoldable pub tail : Bytes → Bool
tail [] = false
tail (b ∷ []) = false
tail (b ∷ c ∷ s) = is_cont b && is_cont c

-- What one round does at a text of which `a ∷ t` is left: the bytes passed, and the word pushed.
unfoldable pub round : ℕ → Bytes → ℕ × List Bytes
round a t = elim (is_lead a) [
  | true ↦ elim (tail t) [ true ↦ (3, take 3 (a ∷ t) ∷ []) | false ↦ (1, []) ]
  | false ↦ elim (a == b' ') [ true ↦ (1, []) | false ↦ (1, (a ∷ []) ∷ []) ]
]

char_at-drop :
    (word : Bytes) (i k : ℕ) → i ≤ length word → char_at word (i + k) ≡ char_at (drop i word) k
char_at-drop word zero k h = rw add.zero
char_at-drop [] (suc i) k h = absurd (omega arith)
char_at-drop (c ∷ word) (suc i) k h = rw suc-add (char_at-drop word i k (omega arith))

drop_inside : (word : Bytes) (i a : ℕ) (t : Bytes) → drop i word ≡ a ∷ t → i ≤ length word
drop_inside word zero a t h = omega arith
drop_inside [] (suc i) a t h = cc
drop_inside (c ∷ word) (suc i) a t h = omega (arith, drop_inside word i a t h)

-- No read of a round is outside the text.
char_at_rest :
    (word : Bytes) (i k a : ℕ) (t : Bytes)
    → drop i word ≡ a ∷ t
    → char_at word (i + k) ≡ get_elem? (a ∷ (t ++ 0 ∷ [])) k
char_at_rest word i k a t h =
    char_at-drop word i k (drop_inside word i a t h) ∙ ap (λ (s : Bytes). char_at s k) h

not_cont_zero : is_cont 0 ≡ false
unfolding is_cont
not_cont_zero = refl

has_tail-tail :
    (word : Bytes) (i a : ℕ) (t : Bytes) → drop i word ≡ a ∷ t → has_tail word i ≡ some (tail t)
unfolding has_tail tail
has_tail-tail word i a [] h = ground (arith, char_at_rest word i 1 a [] h, not_cont_zero)
has_tail-tail word i a (b ∷ []) h =
    ground
      (arith, char_at_rest word i 1 a (b ∷ []) h, char_at_rest word i 2 a (b ∷ []) h, not_cont_zero)
has_tail-tail word i a (b ∷ c ∷ s) h =
    ground (arith, char_at_rest word i 1 a (b ∷ c ∷ s) h, char_at_rest word i 2 a (b ∷ c ∷ s) h)

char_at_here : (word : Bytes) (i a : ℕ) (t : Bytes) → drop i word ≡ a ∷ t → char_at word i ≡ some a
char_at_here word i a t h = rw (add-zero i) at (char_at_rest word i 0 a t h)

ascii_branch : (c : ℕ) → leb_ℤ (schar c) (pos 127) ≡ true
ascii_branch c = ground arith

word_step-round :
    (word : Bytes) (i a : ℕ) (t : Bytes)
    → drop i word ≡ a ∷ t
    → word_step word i ≡ some (i + (round a t).0, (round a t).1)
unfolding word_step round
word_step-round word i a t h =
    ground (arith, char_at_here word i a t h, has_tail-tail word i a t h, ascii_branch a, h)

words-round :
    (a : ℕ) (t : Bytes) → words (a ∷ t) ≡ (round a t).1 ++ words (drop (round a t).0 (a ∷ t))
unfolding words round tail
words-round a [] = ground arith
words-round a (b ∷ []) = ground arith
words-round a (b ∷ c ∷ s) = ground arith

drop-drop : (a b : ℕ) (s : Bytes) → drop a (drop b s) ≡ drop (b + a) s
drop-drop a zero s = rw add.zero
drop-drop zero (suc b) [] = rw add-zero
drop-drop (suc a) (suc b) [] = rw suc-add
drop-drop a (suc b) (c ∷ s) = rw suc-add (drop-drop a b s)

length-drop : (n : ℕ) (s : Bytes) → length (drop n s) ≡ length s - n
length-drop zero s = omega arith
length-drop (suc n) [] = omega arith
length-drop (suc n) (c ∷ s) = omega (arith, length-drop n s)

round_pos : (a : ℕ) (t : Bytes) → 0 < (round a t).0
unfolding round
round_pos a t = ground arith

round_fits : (a : ℕ) (t : Bytes) → (round a t).0 ≤ length (a ∷ t)
unfolding round tail
round_fits a [] = ground arith
round_fits a (b ∷ []) = ground arith
round_fits a (b ∷ c ∷ t) = ground arith

drop_cases : (i : ℕ) (s : Bytes) → i < length s → (a : ℕ) × (t : Bytes) × (drop i s ≡ a ∷ t)
drop_cases i [] h = absurd (omega arith)
drop_cases zero (a ∷ t) h = (a, t, refl)
drop_cases (suc i) (c ∷ s) h = drop_cases i s (omega arith)

drop_past : (i : ℕ) (s : Bytes) → length s ≤ i → drop i s ≡ []
drop_past zero [] h = refl
drop_past (suc i) [] h = refl
drop_past zero (c ∷ s) h = absurd (omega arith)
drop_past (suc i) (c ∷ s) h = drop_past i s (omega arith)

words_loop-words :
    (fuel : ℕ) (word : Bytes) (i : ℕ) (found : List Bytes)
    → i ≤ length word
    → length word < i + fuel
    → words_loop fuel word i found ≡ some (found ++ words (drop i word))
unfolding words_loop
words_loop-words zero word i found fit h = absurd (omega arith)
words_loop-words (suc fuel) word i found fit h = elim (Bool-cases (ltb i (length word))) [
  | inl more ↦
      let (a, t, e) = drop_cases i word (ltb→lt i _ more) in
      rw (
        more,
        words_loop,
        word_step-round word i a t e,
        words_loop-words fuel word (i + (round a t).0) (found ++ (round a t).1)
            (omega (arith, round_fits a t, length-drop i word, ap length e))
            (omega (arith, round_pos a t)),
        e,
        words-round a t,
        ← e,
        drop-drop,
        append_assoc,
      )
  | inr done ↦
      rw (done, words_loop, drop_past i word (ground arith)) (unfold words in rw append-nil)
]

-- For every text the loop ends, reads nothing outside the text, and finds the words of `words`.
pub split_ch_words-words : (word : Bytes) → split_ch_words word ≡ some (words word)
unfolding split_ch_words
split_ch_words-words word =
    words_loop-words (suc (length word)) word 0 [] (omega arith) (omega arith)

-- A character of a well-formed text: one ASCII byte that is no space, or a leading byte and its
-- two continuations.
abbrev pub IsCharacter : Bytes → Type 0
IsCharacter (a ∷ []) = (is_lead a ≡ false) × (a ≢ b' ')
IsCharacter (a ∷ b ∷ c ∷ []) = (is_lead a ≡ true) × (is_cont b ≡ true) × (is_cont c ≡ true)
IsCharacter _ = ⊥

unfoldable pub concat : List Bytes → Bytes
concat [] = []
concat (c ∷ cs) = c ++ concat cs

words_single :
    (a : ℕ) (t : Bytes) → is_lead a ≡ false → a ≢ b' ' → words (a ∷ t) ≡ (a ∷ []) ∷ words t
unfolding words
words_single a [] h k = ground arith
words_single a (b ∷ []) h k = ground arith
words_single a (b ∷ c ∷ t) h k = ground arith

words_triple :
    (a b c : ℕ) (t : Bytes)
    → is_lead a ≡ true
    → is_cont b ≡ true
    → is_cont c ≡ true
    → words (a ∷ b ∷ c ∷ t) ≡ (a ∷ b ∷ c ∷ []) ∷ words t
unfolding words
words_triple a b c t h k l = ground arith

words-concat : (cs : List Bytes) → All IsCharacter cs → words (concat cs) ≡ cs
unfolding concat
words-concat [] h = unfold words in refl
words-concat ((a ∷ []) ∷ cs) h = rw (words_single a (concat cs) h.0.0 h.0.1, words-concat cs h.1)
words-concat ((a ∷ b ∷ c ∷ []) ∷ cs) h =
    rw (words_triple a b c (concat cs) h.0.0 h.0.1 h.0.2, words-concat cs h.1)
words-concat ([] ∷ cs) h = absurd h.0
words-concat ((a ∷ b ∷ []) ∷ cs) h = absurd h.0
words-concat ((a ∷ b ∷ c ∷ d ∷ r) ∷ cs) h = absurd h.0

-- A text of complete characters, each a leading byte with two continuations or another byte that
-- is no space, is split into exactly those characters.
pub split_ch_words-concat :
    (cs : List Bytes) → All IsCharacter cs → split_ch_words (concat cs) ≡ some cs
split_ch_words-concat cs h = split_ch_words-words (concat cs) ∙ ap some (words-concat cs h)
