-- ===== src/Plugin/Manager.antt =====
-- `_init_strategies` against a reading of the configuration that shares no objects, and `_run_uri`
-- behind it.
use sunet.Base.{
  ◌≡◌, refl, ap, ◌∙◌, ◌⊎◌, inl, inr, List, [], ◌∷◌, ◌++◌, Option, none, some, Bytes, put, find,
  bytes_order, find-put, same, same→eq, if◌then◌else◌, Bool-cases, Option-cases, arith,
  append_assoc, append-nil,
}
use sunet.Base.Int.{ℤ}
use sunet.Http.{Request}
use sunet.Config.{Status, sub_ok, sub_fail, StrategyConf, StrategyDict}
use sunet.Plugin.{
  Strategy, Leveled, UriMap, produce, instance_of, init_uri, init_uris, init_strategies,
  run_strategies, run_uri,
}

-- The strategies of a uri, each produced by its name.
unfoldable pub resolve : List StrategyConf → Option (List Leveled)
resolve [] = some []
resolve (c ∷ cs) = elim (produce c.strategy_name) [
  | none ↦ none
  | some s ↦ elim (resolve cs) [ none ↦ none | some vec ↦ some ((s, c.strategy_level) ∷ vec) ]
]

-- Every uri with its strategies, up to the first name that is unknown.
unfoldable pub resolve_all : StrategyDict → UriMap → Status × UriMap
resolve_all [] uris = (sub_ok, uris)
resolve_all ((uri, cs) ∷ dict) uris = elim (resolve cs) [
  | none ↦ (sub_fail, uris)
  | some vec ↦ resolve_all dict (put uri vec uris)
]

-- What was made is what `_produce` makes.
abbrev Made : List (Bytes × Strategy) → Type 0
Made made = (name : Bytes) (s : Strategy) → find name made ≡ some s → produce name ≡ some s

Made-put :
    (name : Bytes) (s : Strategy) (made : List (Bytes × Strategy))
    → Made made
    → produce name ≡ some s
    → Made (put name s made)
Made-put name s made h p other t e = elim (Bool-cases (same other name)) [
  | inl q ↦ rw (same→eq other name q) ground (arith, find-put other name s made, e, q, p)
  | inr q ↦ h other t (ground (arith, find-put other name s made, e, q))
]

-- How an object is found: it is made, or the name is unknown.
instance_of_cases :
    (name : Bytes) (made : List (Bytes × Strategy))
    → Made made
    → ((instance_of name made ≡ none) × (produce name ≡ none))
      ⊎ ((s : Strategy) × (made' : List (Bytes × Strategy)) × (instance_of name made
            ≡ some (s, made'))
          × (produce name ≡ some s)
          × Made made')
unfolding instance_of
instance_of_cases name made h = elim (Option-cases (find name made)) [
  | inl e ↦ elim (Option-cases (produce name)) [
    | inl p ↦ inl (rw (instance_of, e, p) refl, p)
    | inr (s, p) ↦
        inr (s, put name s made, rw (instance_of, e, p) refl, p, Made-put name s made h p)
  ]
  | inr (s, e) ↦ inr (s, made, rw (instance_of, e) refl, h name s e, h)
]

init_uri_cases :
    (cs : List StrategyConf) (made : List (Bytes × Strategy)) (vec : List Leveled)
    → Made made
    → ((init_uri cs made vec ≡ none) × (resolve cs ≡ none))
      ⊎ ((rest : List Leveled) × (made' : List (Bytes × Strategy)) × (init_uri cs made vec
            ≡ some (vec ++ rest, made'))
          × (resolve cs ≡ some rest)
          × Made made')
unfolding init_uri resolve
init_uri_cases [] made vec h = inr ([], made, rw append-nil refl, refl, h)
init_uri_cases (c ∷ cs) made vec h = elim (instance_of_cases c.strategy_name made h) [
  | inl (e, p) ↦ inl (rw (e, init_uri) refl, rw (p, resolve) refl)
  | inr (s, made', e, p, h') ↦
      elim (init_uri_cases cs made' (vec ++ (s, c.strategy_level) ∷ []) h') [
        | inl (f, q) ↦ inl (rw (e, init_uri) f, rw (p, resolve, q) refl)
        | inr (rest, made'', f, q, h'') ↦ inr (
          (s, c.strategy_level) ∷ rest,
          made'',
          rw (e, init_uri)
              (f
                ∙ ap (λ (l : List Leveled). some (l, made''))
                    (append_assoc vec ((s, c.strategy_level) ∷ []) rest)),
          rw (p, resolve, q) refl,
          h'',
        )
      ]
]

init_uris_lem :
    (dict : StrategyDict) (made : List (Bytes × Strategy)) (uris : UriMap)
    → Made made
    → init_uris dict made uris ≡ resolve_all dict uris
unfolding init_uris resolve_all
init_uris_lem [] made uris h = refl
init_uris_lem ((uri, cs) ∷ dict) made uris h = elim (init_uri_cases cs made [] h) [
  | inl (e, p) ↦ rw (e, p, init_uris, resolve_all) refl
  | inr (rest, made', e, p, h') ↦
      rw (e, p, init_uris, resolve_all) (init_uris_lem dict made' (put uri rest uris) h')
]

-- Sharing one object for every use of a name makes no difference: each uri of the configuration
-- gets the strategies of its names, in order and with their levels, and an unknown name ends the
-- loop with a failure and the uris before it.
pub init_strategies-resolve_all :
    (dict : StrategyDict) (uris : UriMap) → init_strategies dict uris ≡ resolve_all dict uris
unfolding init_strategies find
init_strategies-resolve_all dict uris = init_uris_lem dict [] uris (λ name s e. cc e)

module _ {ℓ} {Json : Type ℓ} (process : Strategy → Request → ℤ → Json → Status × Json) where
  -- Once strategies are stored for a uri, a request for it runs exactly these in order, and a
  -- request for another uri does what it did before.
  pub run_uri-put :
      (uri other : Bytes) (vec : List Leveled) (uris : UriMap) (req : Request) (root : Json)
      → run_uri process other req (put uri vec uris) root ≡ (
          if same other uri
          then (sub_ok, run_strategies process vec req root)
          else run_uri process other req uris root)
  unfolding run_uri
  run_uri-put uri other vec uris req root = elim (Bool-cases (same other uri)) [
    | inl e ↦ rw (find-put other uri vec uris, e, run_uri) refl
    | inr e ↦ rw (find-put other uri vec uris, e, run_uri) refl
  ]
