-- ===== src/Config/Reading.antt =====
-- Reading the configuration that was written as `key:value` lines.
use sunet.Base.{
  ◌≡◌, ◌≢◌, refl, List, [], ◌∷◌, ◌++◌, none, some, Bytes, Lacks, All, map, put, put_all,
  bytes_order,
}
use sunet.Util.{last_byte}
use sunet.Util.Join.{split_pair}
use sunet.Config.{sub_ok, sub_fail, ConfDict, conf_line, conf_lines, read_conf_file}

-- A key and a value without a colon; the line does not end in a tab.
abbrev pub IsEntry : Bytes × Bytes → Type 0
IsEntry e = Lacks b':' e.0 × Lacks b':' e.1 × (last_byte (e.0 ++ b':' ∷ e.1) ≢ b'\t')

unfoldable pub write_entry : Bytes × Bytes → Bytes
write_entry e = e.0 ++ b':' ∷ e.1

conf_line-write_entry :
    (e : Bytes × Bytes) (conf : ConfDict)
    → IsEntry e
    → conf_line (write_entry e) conf ≡ put e.0 e.1 conf
unfolding conf_line write_entry
conf_line-write_entry e conf h = rw (split_pair b':' e.0 e.1 h.0 h.1 h.2, conf_line)

conf_lines-write_entry :
    (es : List (Bytes × Bytes)) (conf : ConfDict)
    → All IsEntry es
    → conf_lines (map write_entry es) conf ≡ put_all es conf
unfolding conf_lines put_all
conf_lines-write_entry [] conf h = refl
conf_lines-write_entry (e ∷ es) conf h =
    rw (conf_line-write_entry e conf h.0, conf_lines)
      (conf_lines-write_entry es (put e.0 e.1 conf) h.1)

-- A file of well-formed entries is read into the dictionary of those entries, a later entry over an earlier
-- one; a file that cannot be opened leaves the dictionary as it is.
pub read_conf_file-write_entry :
    (es : List (Bytes × Bytes)) (conf : ConfDict)
    → All IsEntry es
    → (read_conf_file (some (map write_entry es)) conf ≡ (sub_ok, put_all es conf))
      × (read_conf_file none conf ≡ (sub_fail, conf))
unfolding read_conf_file
read_conf_file-write_entry es conf h = rw (conf_lines-write_entry es conf h) (refl, refl)
