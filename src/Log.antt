-- ===== src/Log.antt =====
-- log/sub_log.h and log/sub_log.cpp: `SubLogger::_write_log`. The clock, the formatted message and
-- what the file system answers are arguments of a call.
pub mod Writing
pub mod FileName
mod Tests
use Prim.Native.Nat.{bit_and}
use sunet.Base.{
  ℕ, ◌^◌, Bool, true, false, not, ◌&&◌, List, [], ◌∷◌, ◌++◌, Option, none, some, Bytes, codes, take,
  ◌==◌, if◌then◌else◌,
}

-- The level, whether `_log_file_p` is set, whether `_log_mutex` is held by a call that has
-- returned, and the lines of the file.
pub record Logger : Type 0 where
  pub log_level : ℕ
  pub file_open : Bool
  pub locked : Bool
  pub lines : List Bytes

-- The answers to a call: the time, what `_update_log_file_name` finds (`true` is `LOG_OK`, and
-- `false` a file that cannot be opened), whether a later `fopen` succeeds, and the message.
pub record Call : Type 0 where
  pub time : Bytes
  pub updated : Bool
  pub opened : Bool
  pub message : Bytes

-- `1 << log_type & _log_level`
unfoldable pub is_enabled : ℕ → Logger → Bool
is_enabled log_type l = not (bit_and (2 ^ log_type) l.log_level == 0)

-- The cases of the `switch` that go on behind it; `FATAL` falls into `default`.
unfoldable pub tag_of : ℕ → Option Bytes
tag_of log_type =
    if log_type == 0
    then some (codes " [DEBUG] ")
    else if log_type == 1
    then some (codes " [WARNING] ")
    else if log_type == 2
    then some (codes " [NOTICE] ")
    else none

-- What follows the `switch`: `MAX_LOG_LEN` bytes hold the line and its zero.
unfoldable pub print_line : Bytes → Call → Logger → Logger
print_line tag c l =
    if not l.file_open && not c.opened then record l { locked = true } else record l {
      file_open = true;
      lines = l.lines ++ take 1023 (c.time ++ (tag ++ c.message)) ∷ [];
    }

-- Behind the lock.
unfoldable pub locked_log : ℕ → Call → Logger → Logger
locked_log log_type c l = elim (c.updated) [
  | false ↦ record l { file_open = false; locked = true }
  | true ↦ elim (tag_of log_type) [ none ↦ l | some tag ↦ print_line tag c l ]
]

-- `none` is a call that waits for a mutex that nobody gives back.
unfoldable pub write_log : ℕ → Call → Logger → Option Logger
write_log log_type c l =
    if not (is_enabled log_type l)
    then some l
    else if l.locked
    then none
    else some (locked_log log_type c l)
