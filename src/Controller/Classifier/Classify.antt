-- ===== src/Controller/Classifier/Classify.antt =====
-- pkg/controller/classifier.go: Classify and ClassifyByGroupID, from a pod to its staggering group.
use straggler.Base.{
  ℕ, List, [], ◌∷◌, ◌++◌, String, ◌<>◌, Option, none, some, not, ◌&&◌, ◌||◌, length, eqb, map, join,
  ◌==◌, string_eq, if◌then◌else◌,
}
use straggler.Base.Dict.{lookup}
use straggler.Base.Int.{ℤ, pos, ltb_ℤ, eqb_ℤ}
use straggler.Base.Result.{Result, ok, panic}
use straggler.Base.State.{M, continue}
use straggler.Kube.{ObjectMeta, PodSpec}
use straggler.Pacer.{Pacer}
use straggler.Pacer.Composite.{new_composite}
use straggler.Controller.Types.{PodClassification, StaggeringGroupPolicies}
use straggler.Controller.Classifier.External.{Libraries}
use straggler.Controller.Classifier.{ConfigEntry as Entry, GroupEntry as Group, Classifier as State}

-- The body of the loop of calculateAggregateGroupPolicy.
unfoldable pub shorter : ℤ → ℤ → ℤ
shorter least d = if ltb_ℤ (pos 0) d && (eqb_ℤ least (pos 0) || ltb_ℤ d least) then d else least

module _ (L : Libraries) where
  open L use {matches, is_empty, get, print_value, cache_get, cache_set, md5_hex}

  abbrev ConfigEntry : Type 0
  ConfigEntry = Entry L

  abbrev GroupEntry : Type 0
  GroupEntry = Group L

  abbrev Classifier : Type 0
  Classifier = State L

  unfoldable pub concat_values : List L.Value → String
  concat_values [] = ""
  concat_values (v ∷ vs) = print_value v <> concat_values vs

  -- The guards of the loop of Classify: the grouping key of the pod under a config that applies.
  unfoldable pub grouping_key : ConfigEntry → ObjectMeta → PodSpec → Option String
  unfolding concat_values
  grouping_key config meta spec =
      if not (matches config.selector meta.labels)
      then none
      else (if not (is_empty config.bypass_selector) && matches config.bypass_selector meta.labels
          then none
          else (let results = get config.grouping_json_path meta spec in
              let key = concat_values results in
              if eqb (length results) 0 then none else (if key == "" then none else some key)))

  -- The pacer of a key: the one in the cache, whichever config made it, or a new one.
  unfoldable pub pacer_for : ConfigEntry → String → Option Pacer → Pacer
  pacer_for config key none = config.pacer_factory.new key
  pacer_for config key (some pacer) = pacer

  abbrev pub Matched : Type 0
  Matched = List (Pacer × ConfigEntry)

  unfoldable pub match_keyed :
      ℕ → ConfigEntry → Option String → Matched → Classifier → Result Matched × Classifier
  unfolding pacer_for
  match_keyed now config none matched c = (ok matched, c)
  match_keyed now config (some key) matched c =
      let pacer = pacer_for config key (cache_get now key c.pacers_by_key) in
      (
        ok (matched ++ (pacer, config) ∷ []),
        record c { pacers_by_key = cache_set now key pacer c.pacers_by_key },
      )

  -- A round of the loop. A name without a config leaves a nil selector, whose call panics.
  unfoldable pub match_name :
      ℕ → ObjectMeta → PodSpec → String → Matched → Classifier → Result Matched × Classifier
  unfolding grouping_key match_keyed lookup
  match_name now meta spec name matched c = elim (lookup name c.configs) [
    | none ↦ (panic, c)
    | some config ↦ match_keyed now config (grouping_key config meta spec) matched c
  ]

  unfoldable pub match_names :
      ℕ → ObjectMeta → PodSpec → List String → Matched → Classifier → Result Matched × Classifier
  unfolding match_name
  match_names now meta spec [] matched c = (ok matched, c)
  match_names now meta spec (name ∷ names) matched c =
      continue (match_name now meta spec name matched c) (match_names now meta spec names)

  unfoldable pub calculate_group_id : Matched → String
  unfolding join
  calculate_group_id matched = md5_hex (
      "["
      <> join "," (map (λ m. m.0.id) matched)
      <> "]("
      <> join "," (map (λ m. m.1.name) matched)
      <> ")")

  -- The least positive maximum duration, by a loop from `least`, where 0 stands for none.
  unfoldable pub least_duration : ℤ → List ConfigEntry → ℤ
  unfolding shorter
  least_duration least [] = least
  least_duration least (config ∷ configs) =
      least_duration (shorter least config.max_blocked_duration) configs

  unfoldable pub calculate_aggregate_group_policy : List ConfigEntry → StaggeringGroupPolicies
  unfolding least_duration
  calculate_aggregate_group_policy configs = record {
    max_blocked_duration = least_duration (pos 0) configs;
  }

  -- The end of Classify, for a pod that some config applies to: the group is taken from the cache,
  -- or made and put there.
  unfoldable pub find_group :
      ℕ → Matched → Option GroupEntry → Classifier → Result (Option PodClassification) × Classifier
  unfolding calculate_group_id calculate_aggregate_group_policy
  find_group now matched (some group) c = (
    ok (
        some (record {
          id = group.id;
          pacer = group.composite_pacer;
          group_policies = calculate_aggregate_group_policy (map (λ m. m.1) matched);
        })),
    c,
  )
  find_group now matched none c =
      let id = calculate_group_id matched in
      let group : GroupEntry = record {
        id = id;
        configs = map (λ m. m.1) matched;
        composite_pacer = new_composite id (map (λ m. m.0) matched);
      } in
      (
        ok (
            some (record {
              id = group.id;
              pacer = group.composite_pacer;
              group_policies = calculate_aggregate_group_policy (map (λ m. m.1) matched);
            })),
        record c { groups_by_id = cache_set now id group c.groups_by_id },
      )

  unfoldable pub group_matched : ℕ → Matched → M Classifier (Option PodClassification)
  unfolding find_group
  group_matched now [] c = (ok none, c)
  group_matched now (m ∷ matched) c =
      find_group now (m ∷ matched) (cache_get now (calculate_group_id (m ∷ matched)) c.groups_by_id)
        c

  unfoldable pub classify : ℕ → ObjectMeta → PodSpec → M Classifier (Option PodClassification)
  unfolding match_names group_matched
  classify now meta spec c =
      continue (match_names now meta spec c.config_names [] c) (group_matched now)

  unfoldable pub found_group : Option GroupEntry → Option PodClassification
  found_group none = none
  found_group (some group) = some (record {
    id = group.id;
    pacer = group.composite_pacer;
    group_policies = record { max_blocked_duration = pos 0 };
  })

  -- The literal of ClassifyByGroupID leaves the policies at their zero values.
  unfoldable pub classify_by_group_id : ℕ → String → M Classifier (Option PodClassification)
  unfolding found_group
  classify_by_group_id now group_id c =
      (ok (found_group (cache_get now group_id c.groups_by_id)), c)
