-- ===== src/Controller/Classifier/Applying.antt =====
-- Which configurations apply to a pod: what the loop of Classify in pkg/controller/classifier.go is
-- meant to pick.
use straggler.Base.{
  ◌≡◌, refl, List, [], ◌∷◌, ◌++◌, String, Option, none, some, Bool, true, not, ◌&&◌, eqb, length,
  map, ◌==◌, string_eq, if◌then◌else◌, arith,
}
use straggler.Base.Dict.{Dict, lookup}
use straggler.Kube.{ObjectMeta, PodSpec}
use straggler.Controller.Types.{PodClassification}
use straggler.Controller.Classifier.External.{Libraries}
use straggler.Controller.Classifier.{ConfigEntry}
use straggler.Controller.Classifier.Classify.{
  Matched, concat_values, grouping_key, calculate_aggregate_group_policy,
}

-- Without a value the key is empty.
concat_values_empty :
    (L : Libraries) (values : List L.Value)
    → eqb (length values) 0 ≡ true
    → concat_values L values ≡ ""
unfolding concat_values
concat_values_empty L [] h = refl
concat_values_empty L (v ∷ vs) h = absurd (ground (arith, h))

module _ (L : Libraries) (meta : ObjectMeta) (spec : PodSpec) where
  -- The pod has the labels of the configuration, it does not have those that bypass it, and its
  -- values under the grouping expression are not empty.
  abbrev pub applies : ConfigEntry L → Bool
  applies config =
      L.matches config.selector meta.labels
      && not
          (not (L.is_empty config.bypass_selector) && L.matches config.bypass_selector meta.labels)
      && not (concat_values L (L.get config.grouping_json_path meta spec) == "")

  abbrev pub applying_entry : Option (ConfigEntry L) → List (ConfigEntry L)
  applying_entry none = []
  applying_entry (some config) = if applies config then config ∷ [] else []

  -- The configurations that apply, in the order of their names.
  abbrev pub applying : Dict String (ConfigEntry L) → List String → List (ConfigEntry L)
  applying configs [] = []
  applying configs (name ∷ names) = applying_entry (lookup name configs) ++ applying configs names

module _ {L : Libraries} where
  -- A pod that no configuration applies to has no group; any other has one, with the aggregate policy
  -- of those that do.
  abbrev pub IsGroupOf : List (ConfigEntry L) → Option PodClassification → Type 0
  IsGroupOf [] o = o ≡ none
  IsGroupOf (config ∷ configs) o =
      (group : PodClassification) × (o ≡ some group)
      × (group.group_policies ≡ calculate_aggregate_group_policy L (config ∷ configs))

  abbrev pub configs_of : Matched L → List (ConfigEntry L)
  configs_of matched = map (λ m. m.1) matched

  abbrev pub keyed_entry : ConfigEntry L → Option String → List (ConfigEntry L)
  keyed_entry config none = []
  keyed_entry config (some key) = config ∷ []

  -- The loop has a key for a configuration that applies, and for no other.
  pub grouping_key-applies :
      (config : ConfigEntry L) (meta : ObjectMeta) (spec : PodSpec)
      → keyed_entry config (grouping_key L config meta spec)
        ≡ applying_entry L meta spec (some config)
  unfolding grouping_key
  grouping_key-applies config meta spec =
      ground (arith, concat_values_empty L (L.get config.grouping_json_path meta spec))
