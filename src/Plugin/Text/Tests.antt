-- ===== src/Plugin/Text/Tests.antt =====
-- Runs of the text and the rewrite strategy, on a reply that is a list of members.
use sunet.Base.{◌≡◌, refl, true, false, List, [], ◌∷◌, some, Bytes, codes, find, bytes_order}
use sunet.Http.{Request, new_request, get_query}
use sunet.Config.{sub_ok, sub_fail, get_conf_val}
use sunet.Plugin.Text.{append_loop, text_process, rewrite_process, text_init}

abbrev member : Bytes → Bytes → List (Bytes × Bytes) → List (Bytes × Bytes)
member k v root = (k, v) ∷ root

abbrev request : Request
request = record new_request { params = (codes "q", codes "ab") ∷ [] }

text_of_ab :
    text_process member member (λ q. codes "a" ∷ codes "b" ∷ []) request []
    ≡ some (
      sub_ok,
      (codes "seg", codes "b") ∷ (codes "seg", codes "a") ∷ (codes "text", codes "yes") ∷ [],
    )
unfolding text_process append_loop get_query find
text_of_ab = refl

rewritten : rewrite_process member member request [] ≡ (sub_ok, (codes "rewrite", codes "yes") ∷ [])
unfolding rewrite_process
rewritten = refl

no_model : text_init true (λ path. elim path [ [] ↦ false | c ∷ cs ↦ true ]) [] ≡ sub_fail
unfolding text_init get_conf_val find
no_model = refl
