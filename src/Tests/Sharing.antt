-- ===== src/Tests/Sharing.antt =====
-- A classifier with a group in its cache, with two configurations that share a key, and with an update
-- of a name that is not there.
use straggler.Base.{ℕ, ◌+◌, ◌≡◌, refl, [], ◌∷◌, String, ◌<>◌, none, some, string_dec, string_eq}
use straggler.Base.Dict.{lookup, insert}
use straggler.Base.Result.{ok, err, errorf}
use straggler.Kube.{ObjectMeta, PodSpec}
use straggler.Pacer.Composite.{new_composite}
use straggler.Pacer.Exponential.{new_factory, new}
use straggler.Controller.Types.{PodClassification}
use straggler.Controller.Classifier.External.{expiration}
use straggler.Controller.Classifier.{
  StaggerGroup, ConfigEntry, GroupEntry, Classifier, add_config, update_config,
}
use straggler.Controller.Classifier.Classify.{
  grouping_key, pacer_for, match_names, calculate_group_id, classify, classify_by_group_id,
}
use straggler.Controller.Classifier.Expiry.{classify_by_group_id-classify_cached}
use straggler.Controller.Classifier.Sharing.{match_names_same_key}
use straggler.Controller.Classifier.Configs.Unknown.{classify-update_config_unknown}
use straggler.Tests.{second}
use straggler.Tests.Configs.{classifier-IsConsistent}
use straggler.Tests.Groups.{libraries, libraries-IsCache, config, classifier, pacer}

abbrev id : String
id = calculate_group_id libraries ((pacer, config 600) ∷ [])

abbrev cached_group : GroupEntry libraries
cached_group = record {
  id = id;
  configs = config 600 ∷ [];
  composite_pacer = new_composite id (pacer ∷ []);
}

abbrev with_group : Classifier libraries
with_group = record classifier { groups_by_id = (id, (9, cached_group)) ∷ [] }

abbrev with_pacer : Classifier libraries
with_pacer = record with_group { pacers_by_key = ("default", (7 + expiration, pacer)) ∷ [] }

matched :
    match_names libraries 7 second.meta second.spec with_group.config_names [] with_group
    ≡ (ok ((pacer, config 600) ∷ []), with_pacer)
unfolding match_names string_dec insert
matched = refl

found : libraries.cache_get 7 id with_pacer.groups_by_id ≡ some cached_group
unfolding calculate_group_id lookup string_dec new_factory new
found = refl

-- The group was made at an earlier time, and expires at 9.
classify_by_group_id-classify_cached_example :
    (group : PodClassification) × (classify libraries 7 second.meta second.spec with_group
      ≡ (ok (some group), with_pacer))
    × (group.id ≡ id)
    × ((later : ℕ) (id : String)
        → (classify_by_group_id libraries later id with_pacer).0
          ≡ (classify_by_group_id libraries later id with_group).0)
classify_by_group_id-classify_cached_example =
    classify_by_group_id-classify_cached 7 second.meta second.spec with_group with_pacer
      (pacer, config 600) [] cached_group matched found

abbrev named : String → String → StaggerGroup
named name expression = record ((config 300).group) {
  name = name;
  grouping_expression = expression;
}

-- Another path that gives the namespace, too.
abbrev other : ConfigEntry libraries
other = record (config 300) {
  group = named "other" "metadata['namespace']";
  grouping_json_path = "metadata['namespace']";
}

abbrev two_configs : Classifier libraries
two_configs = record classifier {
  configs = ("by namespace", config 600) ∷ ("other", other) ∷ [];
  config_names = "by namespace" ∷ "other" ∷ [];
}

found_first : lookup "by namespace" two_configs.configs ≡ some (config 600)
unfolding lookup string_dec
found_first = refl

found_other : lookup "other" two_configs.configs ≡ some other
unfolding lookup string_dec
found_other = refl

first_keyed : grouping_key libraries (config 600) second.meta second.spec ≡ some "default"
unfolding grouping_key string_dec
first_keyed = refl

other_keyed : grouping_key libraries other second.meta second.spec ≡ some "default"
unfolding grouping_key string_dec
other_keyed = refl

match_names_same_key_example :
    (match_names libraries 7 second.meta second.spec
      ("by namespace" ∷ "other" ∷ [])
      []
      two_configs).0
    ≡ ok ((pacer, config 600) ∷ (pacer, other) ∷ [])
unfolding lookup new_factory pacer_for
match_names_same_key_example =
    match_names_same_key libraries-IsCache 7 second.meta second.spec two_configs "by namespace"
      "other" "default" (config 600) other found_first found_other first_keyed other_keyed

abbrev updated : Classifier libraries
updated = (update_config libraries (named "other" "metadata.name") classifier).1

unknown : lookup "other" classifier.configs ≡ none
unfolding lookup string_dec
unknown = refl

accepted : update_config libraries (named "other" "metadata.name") classifier ≡ (ok tt, updated)
unfolding update_config string_dec
accepted = refl

classify-update_config_unknown_example :
    ((now : ℕ) (meta : ObjectMeta) (spec : PodSpec)
      → (classify libraries now meta spec updated).0
        ≡ (classify libraries now meta spec classifier).0)
    × (add_config libraries (named "other" "metadata.name") updated
        ≡ (err (errorf ("duplicate config name: " <> "other")), updated))
classify-update_config_unknown_example =
    classify-update_config_unknown (named "other" "metadata.name") classifier updated
      classifier-IsConsistent unknown accepted
