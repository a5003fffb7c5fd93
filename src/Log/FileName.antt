-- ===== src/Log/FileName.antt =====
-- log/sub_log.cpp: `_init_logger` and `_update_log_file_name`, with the time as an argument and
-- whether `fopen` succeeds for a path as a parameter.
use sunet.Base.{
  ℕ, ◌-◌, ◌≡◌, refl, Bool, true, false, [], ◌++◌, Option, none, some, Bytes, codes, length,
  replicate, same, same_refl, bytes_order,
}
use sunet.Base.Int.{ℤ, pos}
use sunet.Base.Number.{print_int}
use sunet.Config.{ConfDict, get_conf_val, get_conf_int_val}

-- `struct tm`, with the year and the month as they are printed.
pub record Time : Type 0 where
  pub year : ℕ
  pub mon : ℕ
  pub mday : ℕ
  pub hour : ℕ
  pub min : ℕ
  pub sec : ℕ

-- `%0<width>d`
unfoldable pub padded : ℕ → ℕ → Bytes
padded width n = let digits = print_int (pos n) in replicate (width - length digits) b'0' ++ digits

unfoldable pub file_name : Time → Bytes
file_name t =
    codes "sub.log."
    ++ (padded 4 t.year ++ (padded 2 t.mon ++ (padded 2 t.mday ++ (padded 2 t.hour ++ codes "00"))))

-- What `log_line` is set to.
unfoldable pub time_text : Time → Bytes
time_text t =
    padded 4 t.year
    ++ (codes "-"
        ++ (padded 2 t.mon
            ++ (codes "-"
                ++ (padded 2 t.mday
                    ++ (codes " "
                        ++ (padded 2 t.hour
                            ++ (codes ":"
                                ++ (padded 2 t.min ++ (codes ":" ++ padded 2 t.sec)))))))))

-- The members that name the file; `log_file` is the path that is open, if one is.
pub record LogFile : Type 0 where
  pub log_level : ℤ
  pub log_path : Bytes
  pub log_file_name : Bytes
  pub log_file : Option Bytes

module _ (can_open : Bytes → Bool) where
  -- The result is `LOG_OK` or not.
  unfoldable pub update_log_file_name : Time → LogFile → Bool × LogFile
  update_log_file_name t l = elim (same l.log_file_name (file_name t)) [
    | true ↦ (true, l)
    | false ↦ elim (can_open (l.log_path ++ file_name t)) [
      | true ↦ (
        true,
        record l { log_file_name = file_name t; log_file = some (l.log_path ++ file_name t) },
      )
      | false ↦ (false, record l { log_file_name = file_name t; log_file = none })
    ]
  ]

  -- `_get_conf_val` leaves the path empty when the configuration has none.
  unfoldable pub init_logger : Time → ConfDict → LogFile
  init_logger t conf =
      (update_log_file_name t (record {
        log_level = get_conf_int_val (codes "log_level") (pos 15) conf;
        log_path = get_conf_val (codes "log_path") conf;
        log_file_name = [];
        log_file = none;
      })).1

  -- An update that has to open a file that cannot be opened fails; the next one in the same hour succeeds all the
  -- same, with no file open.
  pub update_log_file_name-twice :
      (t : Time) (l : LogFile)
      → same l.log_file_name (file_name t) ≡ false
      → can_open (l.log_path ++ file_name t) ≡ false
      → let l₁ = (update_log_file_name t l).1 in
        ((update_log_file_name t l).0 ≡ false)
        × ((update_log_file_name t l₁).0 ≡ true)
        × ((update_log_file_name t l₁).1.log_file ≡ none)
  unfolding update_log_file_name
  update_log_file_name-twice t l h k =
      let failed : LogFile = record l { log_file_name = file_name t; log_file = none } in
      let first : update_log_file_name t l ≡ (false, failed) =
        rw (update_log_file_name, h, k) refl in
      let again : update_log_file_name t failed ≡ (true, failed) =
        rw (update_log_file_name, same_refl (file_name t)) refl in
      rw (first, again) (refl, refl, refl)
