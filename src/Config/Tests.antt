-- ===== src/Config/Tests.antt =====
-- Runs of config/config.cpp and config/strategy_conf.cpp.
use sunet.Base.{
  ◌≡◌, refl, [], ◌∷◌, none, some, false, codes, arith, map, put_all, Bytes, bytes_order,
}
use sunet.Base.Int.{pos}
use sunet.Config.{sub_ok, sub_fail, Reader, read_conf_file, read_strategy_file, is_section}
use sunet.Config.Reading.{IsEntry, write_entry, read_conf_file-write_entry}
use sunet.Config.Strategies.{
  Section, IsSection, write_sections, store_sections, read_strategy_file-write_sections,
}
use sunet.Util.{last_byte}
use sunet.Base.{All}

abbrev conf_entry : Bytes × Bytes
conf_entry = (codes "cnt", codes "5")

conf_entry-IsEntry : All IsEntry (conf_entry ∷ [])
unfolding last_byte
conf_entry-IsEntry = ground arith

read_conf_file-write_entry_example :
    (read_conf_file (some (map write_entry (conf_entry ∷ []))) []
      ≡ (sub_ok, put_all (conf_entry ∷ []) []))
    × (read_conf_file none [] ≡ (sub_fail, []))
read_conf_file-write_entry_example =
    read_conf_file-write_entry (conf_entry ∷ []) [] conf_entry-IsEntry

abbrev search_section : Section
search_section = (codes "/s", record { strategy_name = codes "se"; strategy_level = pos 1 } ∷ [])

search_section-IsSection : All IsSection (search_section ∷ [])
unfolding is_section
search_section-IsSection = ground arith

read_strategy_file-write_sections_example :
    read_strategy_file (some (write_sections (search_section ∷ []))) []
    ≡ some (none, store_sections search_section [] [])
read_strategy_file-write_sections_example =
    read_strategy_file-write_sections search_section [] [] search_section-IsSection

abbrev no_section : Reader
no_section = record { dict = []; cur_uri = []; strategies = [] }

plain_line : is_section (codes "ab") ≡ false
unfolding is_section
plain_line = refl
