-- ===== src/Log/Tests.antt =====
-- Runs of log/sub_log.cpp.
use sunet.Base.{
  find, ◌≡◌, refl, arith, [], ◌∷◌, ◌++◌, some, true, false, codes, take, if◌then◌else◌,
}
use sunet.Log.FileName.{Time, padded, file_name, time_text, init_logger, update_log_file_name}
use sunet.Config.{get_conf_val, get_conf_int_val}
use sunet.Base.Number.{print_int}
use sunet.Log.{Logger, Call, is_enabled, tag_of, write_log, locked_log}
use sunet.Log.Writing.{bit, write_log-lines}

-- The level 15 of `_init_logger`.
abbrev logger : Logger
logger = record { log_level = 15; file_open = true; locked = false; lines = [] }

abbrev call : Call
call = record { time = codes "now"; updated = true; opened = true; message = codes "m" }

abbrev no_file : Call
no_file = record call { updated = false }

write_log-lines_example : write_log 1 call logger ≡ (
    if bit 1 15
    then some (record logger {
      file_open = true;
      lines = [] ++ take 1023 (codes "now" ++ (codes " [WARNING] " ++ codes "m")) ∷ [];
    })
    else some logger)
write_log-lines_example =
    write_log-lines 1 (codes " [WARNING] ") call logger refl (omega arith) refl refl refl

fatal_run : write_log 3 call logger ≡ some logger
unfolding write_log locked_log tag_of is_enabled
fatal_run = refl

-- 2016-10-17 10:09.
abbrev october : Time
october = record { year = 2016; mon = 10; mday = 17; hour = 10; min = 9; sec = 27 }

october_name : file_name october ≡ codes "sub.log.2016101710" ++ codes "00"
unfolding file_name padded print_int
october_name = refl

october_text : time_text october ≡ codes "2016-10-17 10:09:27"
unfolding time_text padded print_int
october_text = refl

-- Without `log_path` in the configuration the default path is lost.
default_path : (init_logger (λ path. true) october []).log_path ≡ []
unfolding init_logger update_log_file_name file_name padded print_int get_conf_val get_conf_int_val
    find
default_path = refl
