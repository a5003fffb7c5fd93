-- ===== src/Plugin/Text.antt =====
-- plugin/text_strategy.cpp and plugin/rewrite_strategy.cpp. What they do to the JSON reply is a
-- parameter, and so are the segmentation and the creation of its tagger.
mod Tests
use sunet.Base.{Bool, true, false, List, [], ◌∷◌, Option, none, some, Bytes, codes}
use sunet.Http.{Request, get_query}
use sunet.Config.{Status, sub_ok, sub_fail, ConfDict, get_conf_val}

-- `root[key] = value` and `root[key].append(value)`.
module _ {ℓ} {Json : Type ℓ} (set_string : Bytes → Bytes → Json → Json)
    (append_string : Bytes → Bytes → Json → Json) where
  unfoldable pub append_loop : List Bytes → Json → Json
  append_loop [] root = root
  append_loop (seg ∷ seg_res) root = append_loop seg_res (append_string (codes "seg") seg root)

  -- `TextStrategy::_process`; `none` is a request without the parameter `q`.
  unfoldable pub text_process : (Bytes → List Bytes) → Request → Json → Option (Status × Json)
  text_process segment req root = elim (get_query req) [
    | none ↦ none
    | some q ↦ some (sub_ok, append_loop (segment q) (set_string (codes "text") (codes "yes") root))
  ]

  -- `RewriteStrategy::_process`.
  unfoldable pub rewrite_process : Request → Json → Status × Json
  rewrite_process req root = (sub_ok, set_string (codes "rewrite") (codes "yes") root)

-- `TextStrategy::_init`: whether there is an instance, and what `_init_tagger` returns for a path.
unfoldable pub text_init : Bool → (Bytes → Bool) → ConfDict → Status
text_init false init_tagger conf = sub_fail
text_init true init_tagger conf = elim (init_tagger (get_conf_val (codes "crf_model") conf)) [
  | true ↦ sub_ok
  | false ↦ sub_fail
]
