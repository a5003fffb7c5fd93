-- ===== src/Log/Writing.antt =====
-- Which lines reach the log file.
use Prim.Native.Nat.{bit_and}
use sunet.Base.{
  ℕ, zero, suc, same-cases, nat_order, subst, sym, ◌<◌, ◌/◌, ◌%◌, ◌^◌, ◌==◌, ◌∙◌, ◌≡◌, refl, Bool,
  true, false, not, ◌&&◌, List, [], ◌∷◌, ◌++◌, some, Bytes, codes, get_elem?, take, arith, inl, inr,
  Bool-cases, if◌then◌else◌,
}
use sunet.Log.{Logger, Call, is_enabled, tag_of, print_line, locked_log, write_log}

and_false : (b : Bool) → (b && false) ≡ false
and_false true = refl
and_false false = refl

-- What stands behind the time in a line of DEBUG, WARN and NOTICE.
abbrev pub tags : List Bytes
tags = codes " [DEBUG] " ∷ codes " [WARNING] " ∷ codes " [NOTICE] " ∷ []

-- The bit of a level in a mask.
abbrev pub bit : ℕ → ℕ → Bool
bit k level = (level / 2 ^ k) % 2 == 1

tag_of_lem : (k : ℕ) (tag : Bytes) → get_elem? tags k ≡ some tag → tag_of k ≡ some tag
unfolding tag_of
tag_of_lem zero tag h = h
tag_of_lem (suc zero) tag h = h
tag_of_lem (suc (suc zero)) tag h = h
tag_of_lem (suc (suc (suc k))) tag h = cc h

-- The test of the first three bits of a mask.
abbrev BitsRead : ℕ → Type 0
BitsRead level =
    (not (bit_and 1 level == 0) ≡ bit 0 level)
    × (not (bit_and 2 level == 0) ≡ bit 1 level)
    × (not (bit_and 4 level == 0) ≡ bit 2 level)

-- `P` of every number below `n`.
abbrev Below : (ℕ → Type 0) → ℕ → Type 0
Below P zero = Unit
Below P (suc n) = P n × Below P n

below_lem : (P : ℕ → Type 0) (n k : ℕ) → Below P n → k < n → P k
below_lem P zero k h lt = absurd (omega (arith, lt))
below_lem P (suc n) k (here, rest) lt = elim (same-cases k n) [
  | inl q ↦ subst P (sym q) here
  | inr ne ↦ below_lem P n k rest (omega (arith, lt, ne))
]

masks-BitsRead : Below BitsRead 16
masks-BitsRead = (
  (refl, refl, refl),
  (
    (refl, refl, refl),
    (
      (refl, refl, refl),
      (
        (refl, refl, refl),
        (
          (refl, refl, refl),
          (
            (refl, refl, refl),
            (
              (refl, refl, refl),
              (
                (refl, refl, refl),
                (
                  (refl, refl, refl),
                  (
                    (refl, refl, refl),
                    (
                      (refl, refl, refl),
                      (
                        (refl, refl, refl),
                        (
                          (refl, refl, refl),
                          ((refl, refl, refl), ((refl, refl, refl), ((refl, refl, refl), tt))),
                        ),
                      ),
                    ),
                  ),
                ),
              ),
            ),
          ),
        ),
      ),
    ),
  ),
)

is_enabled_lem :
    (k : ℕ) (tag : Bytes) (l : Logger)
    → get_elem? tags k ≡ some tag
    → l.log_level < 16
    → is_enabled k l ≡ bit k l.log_level
unfolding is_enabled
is_enabled_lem zero tag l h small = (below_lem BitsRead 16 l.log_level masks-BitsRead small).0
is_enabled_lem (suc zero) tag l h small = (below_lem BitsRead 16 l.log_level masks-BitsRead small).1
is_enabled_lem (suc (suc zero)) tag l h small =
    (below_lem BitsRead 16 l.log_level masks-BitsRead small).2
is_enabled_lem (suc (suc (suc k))) tag l h small = cc h

-- A line of DEBUG, WARN or NOTICE, while the mutex is free, the name of the log file is up to date and the
-- file opens: if the bit of its level is set in the log level, a mask below 16, the line is appended to the file,
-- with its time and the tag of its level, cut to 1023 bytes, and the mutex is free behind the
-- call; if not, nothing changes.
pub write_log-lines :
    (log_type : ℕ) (tag : Bytes) (c : Call) (l : Logger)
    → get_elem? tags log_type ≡ some tag
    → l.log_level < 16
    → c.updated ≡ true
    → c.opened ≡ true
    → l.locked ≡ false
    → write_log log_type c l ≡ (
        if bit log_type l.log_level
        then some (record l {
          file_open = true;
          lines = l.lines ++ take 1023 (c.time ++ (tag ++ c.message)) ∷ [];
        })
        else some l)
unfolding write_log locked_log print_line
write_log-lines log_type tag c l known small u o k =
    let on = is_enabled_lem log_type tag l known small in
    elim (Bool-cases (bit log_type l.log_level)) [
      | inl e ↦
          rw
            (
              write_log,
              on ∙ e,
              e,
              locked_log,
              u,
              tag_of_lem log_type tag known,
              print_line,
              o,
              and_false (not l.file_open),
            )
            (rw k refl)
      | inr e ↦ rw (write_log, on ∙ e, e) refl
    ]

-- No call with the level `FATAL` writes a line, whatever the level of the logger is.
pub write_log-fatal :
    (c : Call) (l next : Logger) → write_log 3 c l ≡ some next → next.lines ≡ l.lines
unfolding write_log locked_log tag_of
write_log-fatal c l next h = ground (arith, h)
