-- ===== src/Config/Strategies.antt =====
-- Reading the strategies that were written as sections.
use sunet.Base.{
  ℕ, ◌≡◌, ◌≢◌, refl, ap, ◌∙◌, false, not, List, [], ◌∷◌, ◌++◌, none, some, arith, if◌then◌else◌,
  ◌==◌, Bytes, codes, Lacks, All, All-append, inl, inr, length, take, length-append, take-append,
  map, put, insert, bytes_order, append_assoc, append-nil,
}
use sunet.Base.Int.{ℤ}
use sunet.Base.Number.{IsInt, print_int, atoi-print_int, print_int-ne}
use sunet.Util.{split}
use sunet.Http.Query.{last-ne}
use sunet.Util.Fields.{split-fields, but_last}
use sunet.Util.Join.{fields_of_Lacks, split_pair}
use sunet.Config.{
  StrategyConf, StrategyDict, Reader, is_section, open_section, add_strategy, strategy_line,
  strategy_lines, strategy_end, read_strategy_file,
}

-- `name:level`; the name holds no colon and no tab, and does not begin as a section does.
abbrev pub IsStrategy : StrategyConf → Type 0
IsStrategy s =
    Lacks b':' s.strategy_name
    × Lacks b'\t' s.strategy_name
    × (is_section s.strategy_name ≡ false)
    × IsInt s.strategy_level

unfoldable pub write_strategy : StrategyConf → Bytes
write_strategy s = s.strategy_name ++ b':' ∷ print_int s.strategy_level

-- A uri with the strategies of its section.
abbrev pub Section : Type 0
Section = Bytes × List StrategyConf

abbrev pub IsSection : Section → Type 0
IsSection x = (x.1 ≢ []) × All IsStrategy x.1

unfoldable pub write_sections : List Section → List Bytes
write_sections [] = []
write_sections (x ∷ xs) =
    (b'[' ∷ (x.0 ++ b']' ∷ [])) ∷ (map write_strategy x.1 ++ write_sections xs)

-- What is stored: a section is inserted when the next one begins, and the last one is assigned.
unfoldable pub store_sections : Section → List Section → StrategyDict → StrategyDict
store_sections x [] dict = put x.0 x.1 dict
store_sections x (y ∷ ys) dict = store_sections y ys (insert x.0 x.1 dict)

name_no_section : (name v : Bytes) → is_section name ≡ false → is_section (name ++ b':' ∷ v) ≡ false
unfolding is_section
name_no_section [] v h = refl
name_no_section (c ∷ name) v h = h

write_strategy-is_section :
    (s : StrategyConf) → IsStrategy s → is_section (write_strategy s) ≡ false
unfolding write_strategy
write_strategy-is_section s h = name_no_section s.strategy_name (print_int s.strategy_level) h.2

strategy_line-split :
    (line : Bytes) (r : Reader)
    → is_section line ≡ false
    → strategy_line line r ≡ add_strategy (split line (codes ":")) r
unfolding strategy_line
strategy_line-split line r h = rw h

split-write_strategy :
    (s : StrategyConf)
    → IsStrategy s
    → split (write_strategy s) (codes ":") ≡ s.strategy_name ∷ print_int s.strategy_level ∷ []
unfolding write_strategy
split-write_strategy s h =
    split_pair b':' s.strategy_name (print_int s.strategy_level) h.0
      (print_int-ne b':' s.strategy_level (inr (omega arith)) (omega arith))
      (last-ne b'\t' _ (omega arith) (
        All-append _ s.strategy_name _ h.1
          (omega arith, print_int-ne b'\t' s.strategy_level (inl (omega arith)) (omega arith))))

strategy_line-write_strategy :
    (s : StrategyConf) (r : Reader)
    → IsStrategy s
    → strategy_line (write_strategy s) r ≡ some (record r { strategies = r.strategies ++ s ∷ [] })
strategy_line-write_strategy s r h =
    rw
      (
        strategy_line-split (write_strategy s) r (write_strategy-is_section s h),
        split-write_strategy s h,
      )
      (unfold add_strategy in
        ap
          (λ (z : ℤ). some (record r {
            strategies =
                r.strategies ++ record { strategy_name = s.strategy_name; strategy_level = z } ∷ [];
          }))
          (atoi-print_int s.strategy_level h.3))

strategy_lines-write_strategy :
    (ss : List StrategyConf) (rest : List Bytes) (r : Reader)
    → All IsStrategy ss
    → strategy_lines (map write_strategy ss ++ rest) r
      ≡ strategy_lines rest (record r { strategies = r.strategies ++ ss })
unfolding strategy_lines
strategy_lines-write_strategy [] rest r h = rw append-nil
strategy_lines-write_strategy (s ∷ ss) rest r h =
    rw (strategy_line-write_strategy s r h.0, strategy_lines)
      (strategy_lines-write_strategy ss rest (record r { strategies = r.strategies ++ s ∷ [] }) h.1
        ∙ ap (λ (l : List StrategyConf). strategy_lines rest (record r { strategies = l }))
            (append_assoc r.strategies (s ∷ []) ss))

open_section-write :
    (uri : Bytes) (r : Reader)
    → open_section (b'[' ∷ (uri ++ b']' ∷ [])) r ≡ record {
      dict =
          if not (length r.strategies == 0) then insert r.cur_uri r.strategies r.dict else r.dict;
      cur_uri = uri;
      strategies = [];
    }
unfolding open_section
open_section-write uri r =
    ap
      (λ (u : Bytes). record {
        dict =
            if not (length r.strategies == 0) then insert r.cur_uri r.strategies r.dict else r.dict;
        cur_uri = u;
        strategies = [];
      })
      (ap (λ (n : ℕ). take n (uri ++ b']' ∷ [])) (omega (arith, length-append uri (b']' ∷ [])))
        ∙ take-append uri (b']' ∷ []))

section_step :
    (uri : Bytes) (rest : List Bytes) (r : Reader)
    → strategy_lines ((b'[' ∷ (uri ++ b']' ∷ [])) ∷ rest) r
      ≡ strategy_lines rest (record {
        dict =
            if not (length r.strategies == 0) then insert r.cur_uri r.strategies r.dict else r.dict;
        cur_uri = uri;
        strategies = [];
      })
unfolding strategy_lines strategy_line is_section
section_step uri rest r = ap (strategy_lines rest) (open_section-write uri r)

some_strategies : (ss : List StrategyConf) → ss ≢ [] → (length ss == 0) ≡ false
some_strategies [] h = absurd (h refl)
some_strategies (s ∷ ss) h = ground arith

-- Behind the first section: its uri and its strategies are in the reader.
sections_lem :
    (x : Section) (xs : List Section) (dict : StrategyDict)
    → All IsSection (x ∷ xs)
    → (r : Reader) × (strategy_lines
          (write_sections xs)
          (record { dict = dict; cur_uri = x.0; strategies = x.1 })
        ≡ some r)
      × (strategy_end r ≡ store_sections x xs dict)
unfolding write_sections store_sections
sections_lem x [] dict h = (
  record { dict = dict; cur_uri = x.0; strategies = x.1 },
  unfold strategy_lines in refl,
  unfold strategy_end in ground (arith, some_strategies x.1 h.0.0),
)
sections_lem x (y ∷ ys) dict h =
    let (r, reads, ends) = sections_lem y ys (insert x.0 x.1 dict) h.1 in
    (
      r,
      section_step y.0 (map write_strategy y.1 ++ write_sections ys)
            (record { dict = dict; cur_uri = x.0; strategies = x.1 })
          ∙ strategy_lines-write_strategy y.1 (write_sections ys) _ h.1.0.1
          ∙ rw (some_strategies x.1 h.0.0) reads,
      ends,
    )

first_section :
    (x : Section) (xs : List Section) (dict : StrategyDict)
    → All IsStrategy x.1
    → strategy_lines
        (write_sections (x ∷ xs))
        (record { dict = dict; cur_uri = []; strategies = [] })
      ≡ strategy_lines (write_sections xs) (record { dict = dict; cur_uri = x.0; strategies = x.1 })
unfolding write_sections
first_section x xs dict h =
    section_step x.0 (map write_strategy x.1 ++ write_sections xs)
      (record { dict = dict; cur_uri = []; strategies = [] })
    ∙ strategy_lines-write_strategy x.1 (write_sections xs)
        (record { dict = dict; cur_uri = x.0; strategies = [] }) h

-- Sections that are well-formed, at least one, are written and read back: each uri gets the strategies of its section, in order.
pub read_strategy_file-write_sections :
    (x : Section) (xs : List Section) (dict : StrategyDict)
    → All IsSection (x ∷ xs)
    → read_strategy_file (some (write_sections (x ∷ xs))) dict
      ≡ some (none, store_sections x xs dict)
unfolding read_strategy_file
read_strategy_file-write_sections x xs dict h =
    let (r, reads, ends) = sections_lem x xs dict h in
    let all : strategy_lines (write_sections (x ∷ xs))
          (record { dict = dict; cur_uri = []; strategies = [] })
        ≡ some r =
      first_section x xs dict h.0.1 ∙ reads in
    rw (all, read_strategy_file, ends)

few_pieces :
    (line : Bytes) (r : Reader) → Lacks b':' line → add_strategy (split line (codes ":")) r ≡ none
unfolding add_strategy
few_pieces [] r k = unfold split in refl
few_pieces (c ∷ line) r k =
    rw (split-fields c line b':' [], fields_of_Lacks b':' (c ∷ line) k)
      (unfold but_last in ground arith)

-- A line that is no section and holds no colon makes the reader index past the pieces.
pub strategy_line_without_colon :
    (line : Bytes) (r : Reader)
    → is_section line ≡ false
    → Lacks b':' line
    → strategy_line line r ≡ none
strategy_line_without_colon line r h k = strategy_line-split line r h ∙ few_pieces line r k
