-- ===== src/Tests/Groups.antt =====
-- The classifier over simple libraries: a path gives the namespace, and a cache is a list.
use straggler.Base.{
  ℕ, ◌+◌, ◌≡◌, ◌⊎◌, refl, List, [], ◌∷◌, String, Option, none, some, Bool, true, false, ◌&&◌, leb,
  eqb, All, arith, ◌==◌, string_eq, string_dec, if◌then◌else◌,
}
use straggler.Base.Dict.{Dict, GoMap, lookup, insert, entries, get_key, len_map, lookup-insert}
use straggler.Base.Float.{whole_floats}
use straggler.Base.Int.{pos}
use straggler.Base.Result.{ok, err, failed}
use straggler.Base.Sorting.{insertion_sort}
use straggler.Pacer.{Pacer}
use straggler.Pacer.Exponential.{new_factory}
use straggler.Controller.Types.{PodClassification}
use straggler.Controller.Classifier.External.{Libraries, IsCache, expiration}
use straggler.Controller.Classifier.{ConfigEntry, Classifier, new_pod_classifier, add_config}
use straggler.Controller.Classifier.Classify.{
  match_names, calculate_aggregate_group_policy, classify, classify_by_group_id,
}
use straggler.Controller.Classifier.Groups.{
  HasDuration, Covers, calculate_aggregate_group_policy_lem, classify_by_group_id-classify,
}
use straggler.Tests.{second}

abbrev matches_all : Dict String String → GoMap → Bool
matches_all [] labels = true
matches_all ((k, v) ∷ d) labels =
    let rest = matches_all d labels in
    elim (get_key k labels) [ none ↦ false | some w ↦ w == v && rest ]

abbrev unexpired : {V : Type 0} → ℕ → Option (ℕ × V) → Option V
unexpired now none = none
unexpired now (some (t, v)) = if leb now t then some v else none

abbrev pub libraries : Libraries
libraries = record {
  Expr = String;
  Value = String;
  parse = λ s. if s == "{" then err (failed "brace") else ok s;
  get = λ _ meta _. meta.namespace ∷ [];
  print_value = λ v. v;
  Selector = GoMap;
  selector_from_set = λ m. m;
  matches = λ s labels. matches_all (entries s) labels;
  is_empty = λ s. eqb (len_map s) 0;
  Cache = λ V. Dict String (ℕ × V);
  new_cache = λ V. [];
  cache_get = λ now k c. unexpired now (lookup k c);
  cache_set = λ now k v c. insert k (now + expiration, v) c;
  md5_hex = λ s. s;
}

pub libraries-IsCache : IsCache libraries
unfolding lookup
libraries-IsCache = record {
  get-new = λ V now k. refl;
  get-set_self = λ V now later k v c. ground (arith, lookup-insert k k (now + expiration, v) c);
  get-set_ne =
      λ V now later j k v c ne. ground (arith, lookup-insert j k (now + expiration, v) c, ne);
}

abbrev pub config : ℕ → ConfigEntry libraries
config d = record {
  group = record {
    name = "by namespace";
    label_selector = none;
    bypass_label_selector = none;
    grouping_expression = "metadata.namespace";
    max_blocked_duration = pos d;
    pacer_factory =
        new_factory whole_floats insertion_sort
          (record { min_initial = pos 1; max_stagger = pos 8; multiplier = pos 2 });
  };
  grouping_json_path = "metadata.namespace";
  selector = none;
  bypass_selector = none;
}

-- A classifier with one configuration.
abbrev pub classifier : Classifier libraries
classifier = record {
  configs = ("by namespace", config 600) ∷ [];
  config_names = "by namespace" ∷ [];
  groups_by_id = [];
  pacers_by_key = [];
}

pub added :
    add_config libraries (config 600).group (new_pod_classifier libraries) ≡ (ok tt, classifier)
unfolding add_config new_pod_classifier string_dec insert
added = refl

abbrev pub pacer : Pacer
pacer = (config 600).pacer_factory.new "default"

abbrev matched_state : Classifier libraries
matched_state = record classifier { pacers_by_key = ("default", (7 + expiration, pacer)) ∷ [] }

matched :
    match_names libraries 7 second.meta second.spec classifier.config_names [] classifier
    ≡ (ok ((pacer, config 600) ∷ []), matched_state)
unfolding match_names string_dec insert
matched = refl

calculate_aggregate_group_policy_lem_example :
    let configs : List (ConfigEntry libraries) = config 600 ∷ config 0 ∷ config 300 ∷ [] in
    let d = (calculate_aggregate_group_policy libraries configs).max_blocked_duration in
    ((d ≡ pos 0) ⊎ HasDuration configs d) × All (Covers d) configs
calculate_aggregate_group_policy_lem_example =
    calculate_aggregate_group_policy_lem (config 600 ∷ config 0 ∷ config 300 ∷ [])

classify_by_group_id-classify_example :
    (group : PodClassification) × (c : Classifier libraries) × (classify libraries 7 second.meta
        second.spec classifier
      ≡ (ok (some group), c))
    × (group.group_policies ≡ calculate_aggregate_group_policy libraries (config 600 ∷ []))
    × ((later : ℕ)
        → classify_by_group_id libraries later group.id c ≡ (
          ok (
              if leb later (7 + expiration)
              then some (record group { group_policies = record { max_blocked_duration = pos 0 } })
              else none),
          c,
        ))
unfolding lookup
classify_by_group_id-classify_example =
    classify_by_group_id-classify libraries-IsCache 7 second.meta second.spec classifier
      matched_state (pacer, config 600) [] matched refl
