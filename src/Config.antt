-- ===== src/Config.antt =====
-- config/config.cpp and config/strategy_conf.cpp. A file is the list of its lines, as `getline`
-- gives them, and `none` is a file that cannot be opened.
pub mod Reading
pub mod Strategies
mod Tests
use sunet.Base.{
  ℕ, ◌-◌, Bool, true, false, not, List, [], ◌∷◌, ◌++◌, Option, none, some, length, ◌==◌,
  if◌then◌else◌, Bytes, codes, take, drop, find, put, insert, bytes_order, same,
}
use sunet.Base.Int.{ℤ, pos}
use sunet.Base.Number.{atoi}
use sunet.Util.{split, substr}

abbrev pub File : Type 0
File = Option (List Bytes)

-- util/define.h: `SUB_OK` and `SUB_FAIL`.
pub data Status : Type 0 where
  sub_ok sub_fail : Status

abbrev pub ConfDict : Type 0
ConfDict = List (Bytes × Bytes)

-- What `conf_val` is set to.
unfoldable pub get_conf_val : Bytes → ConfDict → Bytes
get_conf_val key conf = elim (find key conf) [ none ↦ [] | some v ↦ v ]

-- What `default_val` is afterwards.
unfoldable pub get_conf_int_val : Bytes → ℤ → ConfDict → ℤ
get_conf_int_val key default_val conf =
    let conf_val = get_conf_val key conf in if same [] conf_val then default_val else atoi conf_val

unfoldable pub conf_line : Bytes → ConfDict → ConfDict
conf_line line conf = elim (split line (codes ":")) [
  | [] ↦ conf
  | key ∷ [] ↦ conf
  | key ∷ value ∷ [] ↦ put key value conf
  | key ∷ value ∷ other ∷ more ↦ conf
]

unfoldable pub conf_lines : List Bytes → ConfDict → ConfDict
conf_lines [] conf = conf
conf_lines (line ∷ lines) conf = conf_lines lines (conf_line line conf)

unfoldable pub read_conf_file : File → ConfDict → Status × ConfDict
read_conf_file none conf = (sub_fail, conf)
read_conf_file (some lines) conf = (sub_ok, conf_lines lines conf)

unfoldable pub get_thread_cnt : ConfDict → ℤ
get_thread_cnt conf = get_conf_int_val (codes "thread_cnt") (pos 5) conf

-- config/strategy_conf.h: `STRATEGYTYPE` and `SubStrategyConfig`.
pub record StrategyConf : Type 0 where
  pub strategy_name : Bytes
  pub strategy_level : ℤ

abbrev pub StrategyDict : Type 0
StrategyDict = List (Bytes × List StrategyConf)

-- `line.find("[") == 0`
unfoldable pub is_section : Bytes → Bool
is_section [] = false
is_section (c ∷ line) = c == b'['

-- The dictionary, `cur_uri` and `uri_strategy_vec`.
pub record Reader : Type 0 where
  pub dict : StrategyDict
  pub cur_uri : Bytes
  pub strategies : List StrategyConf

unfoldable pub open_section : Bytes → Reader → Reader
open_section line r = record {
  dict = if not (length r.strategies == 0) then insert r.cur_uri r.strategies r.dict else r.dict;
  cur_uri = substr line 1 (length line - 2);
  strategies = [];
}

-- `none` is a read of `split_res[0]` or `split_res[1]` that is not there.
unfoldable pub add_strategy : List Bytes → Reader → Option Reader
add_strategy [] r = none
add_strategy (name ∷ []) r = none
add_strategy (name ∷ level ∷ rest) r = some (record r {
  strategies = r.strategies ++ record { strategy_name = name; strategy_level = atoi level } ∷ [];
})

unfoldable pub strategy_line : Bytes → Reader → Option Reader
strategy_line line r =
    if is_section line then some (open_section line r) else add_strategy (split line (codes ":")) r

unfoldable pub strategy_lines : List Bytes → Reader → Option Reader
strategy_lines [] r = some r
strategy_lines (line ∷ lines) r = elim (strategy_line line r) [
  | none ↦ none
  | some r' ↦ strategy_lines lines r'
]

unfoldable pub strategy_end : Reader → StrategyDict
strategy_end r =
    if not (length r.strategies == 0) then put r.cur_uri r.strategies r.dict else r.dict

-- `SubStrategyConfig::_read_conf_file`. The inner `none` is the end of the function with no
-- `return`, whose value is not defined.
unfoldable pub read_strategy_file : File → StrategyDict → Option (Option Status × StrategyDict)
read_strategy_file none dict = some (some sub_fail, dict)
read_strategy_file (some lines) dict =
    elim (strategy_lines lines (record { dict = dict; cur_uri = []; strategies = [] })) [
      | none ↦ none
      | some r ↦ some (none, strategy_end r)
    ]

-- The vector of the caller is left as it is when the uri is not there.
unfoldable pub get_uri_strategies :
    Bytes → List StrategyConf → StrategyDict → Status × List StrategyConf
get_uri_strategies uri vec dict = elim (find uri dict) [
  | none ↦ (sub_fail, vec)
  | some v ↦ (sub_ok, v)
]
