-- ===== src/Tests/Setup.antt =====
-- A configuration of two policies.
use straggler.Base.{◌≡◌, refl, [], ◌∷◌, String, none, some, false, string_dec}
use straggler.Base.Dict.{Dict, lookup, insert}
use straggler.Base.Float.{whole_floats}
use straggler.Base.Int.{pos}
use straggler.Base.Result.{ok}
use straggler.Base.Sorting.{insertion_sort}
use straggler.Controller.Admission.{default_enable_label}
use straggler.Controller.Classifier.{Classifier}
use straggler.Pacer.Linear.{new_factory}
use straggler.Setup.{StaggeringPolicy, match_labels, new_group_classifier}
use straggler.Setup.Laws.{match_labels_missing}
use straggler.Tests.{pod_at}
use straggler.Tests.Groups.{libraries}

abbrev pub policy : String → Dict String String → StaggeringPolicy whole_floats
policy name labels = record {
  name = name;
  label_selector = some labels;
  bypass_label_selector = none;
  grouping_expression = name;
  max_blocked_duration = pos 0;
  pacer = record {
    exponential = none;
    linear = some (record { max_stagger = some (pos 8); step = some (pos 4) });
  };
}

-- The first policy applies to the pod, which has no label of the second.
match_labels_missing_example :
    match_labels whole_floats default_enable_label
      (policy "web" (("app", "web") ∷ []) ∷ policy "db" (("tier", "db") ∷ []) ∷ [])
      (pod_at "web-1" ((default_enable_label, "1") ∷ ("app", "web") ∷ []) 5)
    ≡ false
unfolding lookup string_dec
match_labels_missing_example =
    match_labels_missing whole_floats default_enable_label (policy "web" (("app", "web") ∷ []) ∷ [])
      (policy "db" (("tier", "db") ∷ [])) [] "tier" "db"
      (pod_at "web-1" ((default_enable_label, "1") ∷ ("app", "web") ∷ []) 5) refl refl

abbrev made : Classifier libraries
made = record {
  configs =
      (
        "web",
        record {
          group = record {
            name = "web";
            label_selector = some [];
            bypass_label_selector = none;
            grouping_expression = "web";
            max_blocked_duration = pos 0;
            pacer_factory = new_factory whole_floats (record { max_stagger = pos 8; step = pos 4 });
          };
          grouping_json_path = "web";
          selector = some [];
          bypass_selector = none;
        },
      )
      ∷ [];
  config_names = "web" ∷ [];
  groups_by_id = [];
  pacers_by_key = [];
}

set_up : new_group_classifier whole_floats insertion_sort libraries (policy "web" [] ∷ []) ≡ ok made
unfolding new_group_classifier string_dec insert
set_up = refl
