-- ===== src/Plugin.antt =====
-- plugin/strategy_mgr.h and plugin/strategy_mgr.cpp: `SubStrategyMgr`. What a strategy does to
-- the JSON value of the reply is a parameter; the value is of any type.
pub mod Manager
pub mod Search
pub mod Suggest
pub mod Text
mod Tests
use sunet.Base.{
  ℕ, Bool, true, false, List, [], ◌∷◌, ◌++◌, Option, none, some, Bytes, codes, put, find,
  bytes_order, same, if◌then◌else◌,
}
use sunet.Base.Int.{ℤ}
use sunet.Http.{Request}
use sunet.Config.{Status, sub_ok, sub_fail, StrategyConf, StrategyDict}

-- The classes that `_produce` can make an object of.
pub data Strategy : Type 0 where
  text rewrite search suggest : Strategy

-- `none` is the null pointer.
unfoldable pub produce : Bytes → Option Strategy
produce name =
    if same name (codes "TextStrategy")
    then some text
    else if same name (codes "RewriteStrategy")
    then some rewrite
    else if same name (codes "SearchStrategy")
    then some search
    else if same name (codes "SuggestStrategy")
    then some suggest
    else none

-- `STRATEGY_TYPE_MGR`: the strategy and its level.
abbrev pub Leveled : Type 0
Leveled = Strategy × ℤ

abbrev pub UriMap : Type 0
UriMap = List (Bytes × List Leveled)

-- The object for a name, and `sub_strategy_map` with it: made once, and found afterwards.
unfoldable pub instance_of :
    Bytes → List (Bytes × Strategy) → Option (Strategy × List (Bytes × Strategy))
instance_of name made = elim (find name made) [
  | some s ↦ some (s, made)
  | none ↦ elim (produce name) [ none ↦ none | some s ↦ some (s, put name s made) ]
]

-- The loop over the strategies of one uri; `none` is `return SUB_FAIL`.
unfoldable pub init_uri :
    List StrategyConf
    → List (Bytes × Strategy)
    → List Leveled
    → Option (List Leveled × List (Bytes × Strategy))
init_uri [] made vec = some (vec, made)
init_uri (c ∷ cs) made vec = elim (instance_of c.strategy_name made) [
  | none ↦ none
  | some (s, made') ↦ init_uri cs made' (vec ++ (s, c.strategy_level) ∷ [])
]

-- The loop over the uris. The uris before the failing one stay in the map.
unfoldable pub init_uris : StrategyDict → List (Bytes × Strategy) → UriMap → Status × UriMap
init_uris [] made uris = (sub_ok, uris)
init_uris ((uri, cs) ∷ dict) made uris = elim (init_uri cs made []) [
  | none ↦ (sub_fail, uris)
  | some (vec, made') ↦ init_uris dict made' (put uri vec uris)
]

unfoldable pub init_strategies : StrategyDict → UriMap → Status × UriMap
init_strategies dict uris = init_uris dict [] uris

module _ {ℓ} {Json : Type ℓ} (process : Strategy → Request → ℤ → Json → Status × Json) where
  -- What `_process` returns is not looked at.
  unfoldable pub run_strategies : List Leveled → Request → Json → Json
  run_strategies [] req root = root
  run_strategies ((s, level) ∷ vec) req root = run_strategies vec req (process s req level root).1

  unfoldable pub run_uri : Bytes → Request → UriMap → Json → Status × Json
  run_uri uri req uris root = elim (find uri uris) [
    | none ↦ (sub_fail, root)
    | some vec ↦ (sub_ok, run_strategies vec req root)
  ]
