-- ===== src/Plugin/Suggest.antt =====
-- plugin/suggest_strategy.cpp: `SuggestStrategy::_process`, with the list that is put under
-- `suggest` in place of the JSON.
mod Tests
use sunet.Base.{List, [], ◌∷◌, Option, none, some, Bytes, map, take}
use sunet.Base.Int.{ℤ}
use sunet.Http.{Request, get_query}
use sunet.Trie.{Node, cn_string, search}

-- The id and the title of at most `MAX_SUGGEST_CNT` results.
unfoldable pub suggestions : List (Bytes × ℤ) → List (ℤ × Bytes)
suggestions ret = map (λ (r : Bytes × ℤ). (r.1, r.0)) (take 20 ret)

-- `none` is a request without the parameter `q`.
unfoldable pub suggest_process : Node ℤ → Request → Option (List (ℤ × Bytes))
suggest_process suggest_dict req = elim (get_query req) [
  | none ↦ none
  | some q ↦ elim (cn_string q) [
    | none ↦ none
    | some str ↦ some (suggestions (search suggest_dict str))
  ]
]
