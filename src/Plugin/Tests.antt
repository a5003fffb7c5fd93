-- ===== src/Plugin/Tests.antt =====
-- Runs of plugin/strategy_mgr.cpp and plugin/search_strategy.cpp.
use sunet.Base.{ℕ, ◌≡◌, refl, List, [], ◌∷◌, ◌++◌, some, none, codes, bytes_order}
use sunet.Base.Int.{ℤ, pos}
use sunet.Http.{Request}
use sunet.Config.{Status, sub_ok, StrategyDict}
use sunet.Plugin.{Strategy, init_strategies}
use sunet.Plugin.Manager.{resolve_all, init_strategies-resolve_all}
use sunet.Plugin.Search.{page_of, records}
use sunet.Plugin.Search.Paging.{page_count, all_records, records-page_of_below, all_records-whole}

-- A strategy that notes itself in the reply.
abbrev note : Strategy → Request → ℤ → List Strategy → Status × List Strategy
note s req level root = (sub_ok, root ++ s ∷ [])

abbrev search_conf : StrategyDict
search_conf =
    (
      codes "/s",
      record { strategy_name = codes "TextStrategy"; strategy_level = pos 1 }
          ∷ record { strategy_name = codes "Unknown"; strategy_level = pos 1 }
          ∷ [],
    )
    ∷ []

init_strategies-resolve_all_example : init_strategies search_conf [] ≡ resolve_all search_conf []
init_strategies-resolve_all_example = init_strategies-resolve_all search_conf []

abbrev three : List ℕ
three = 5 ∷ 6 ∷ 7 ∷ []

records-page_of_below_example :
    records (page_of (pos 0) 3).begin_record_index (page_of (pos 0) 3).end_record_index three ≡ none
records-page_of_below_example = records-page_of_below (pos 0) three refl refl

all_records-whole_example : all_records (page_count 3) 0 three ≡ some three
all_records-whole_example = all_records-whole three
