-- ===== src/Plugin/Suggest/Tests.antt =====
-- A run of plugin/suggest_strategy.cpp.
use sunet.Base.{◌≡◌, refl, [], ◌∷◌, some, none, codes, put, find, bytes_order}
use sunet.Base.Int.{ℤ, pos}
use sunet.Util.{util_code}
use sunet.Http.{new_request, get_query}
use sunet.Trie.{
  Node, node, nil, edge, cn_string, search, extract_search, follow, find_edge, dfs_search,
  dfs_edges,
}
use sunet.Plugin.Suggest.{suggest_process, suggestions}

abbrev one_key : Node ℤ
one_key =
    node none (edge (codes "a") (node none (edge (codes "b") (node (some (pos 7)) nil) nil)) nil)

suggest_a :
    suggest_process one_key (record new_request { params = put (codes "q") (codes "a") [] })
    ≡ some ((pos 7, codes "ab") ∷ [])
unfolding suggest_process suggestions get_query new_request find put cn_string search extract_search
    follow find_edge dfs_search dfs_edges util_code
suggest_a = refl
