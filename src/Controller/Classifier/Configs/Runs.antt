-- ===== src/Controller/Classifier/Configs/Runs.antt =====
-- Classify over consistent configurations: it never panics, and which configurations it picks.
use mathlib.Core.List.{append-nil, append_assoc, map-append}
use straggler.Base.{
  ◌++◌, ap, ℕ, ◌≡◌, ◌∙◌, refl, sym, subst, List, [], ◌∷◌, String, Option, none, some, All, arith,
  string_eq,
}
use straggler.Base.Dict.{Dict, lookup}
use straggler.Base.Result.{ok}
use straggler.Kube.{ObjectMeta, PodSpec}
use straggler.Controller.Types.{PodClassification}
use straggler.Controller.Classifier.External.{Libraries}
use straggler.Controller.Classifier.{ConfigEntry, GroupEntry, Classifier}
use straggler.Controller.Classifier.Classify.{
  Matched, grouping_key, match_keyed, match_name, match_names, calculate_group_id, find_group,
  group_matched, classify,
}
use straggler.Pacer.{Pacer}
use straggler.Controller.Classifier.Applying.{
  IsGroupOf, applying, applying_entry, configs_of, keyed_entry, grouping_key-applies,
}
use straggler.Controller.Classifier.Configs.{IsKnown, IsConsistent}

module _ {L : Libraries} where
  -- The two classifiers have the same configurations.
  abbrev Same : Classifier L → Classifier L → Type 0
  Same c' c = (c'.configs ≡ c.configs) × (c'.config_names ≡ c.config_names)

  match_keyed_total :
      (now : ℕ) (config : ConfigEntry L) (key : Option String) (matched : Matched L)
      (c : Classifier L)
      → (ms : Matched L) × (c' : Classifier L) × (match_keyed L now config key matched c
          ≡ (ok ms, c'))
        × Same c' c
        × (configs_of ms ≡ configs_of matched ++ keyed_entry config key)
  unfolding match_keyed
  match_keyed_total now config none matched c =
      (_, _, refl, (refl, refl), sym (append-nil (configs_of matched)))
  match_keyed_total now config (some key) matched c =
      (_, _, refl, (refl, refl), map-append (λ m. m.1) matched (_ ∷ []))

  match_name_known :
      (now : ℕ) (meta : ObjectMeta) (spec : PodSpec) (name : String) (matched : Matched L)
      (c : Classifier L) (config : ConfigEntry L)
      → lookup name c.configs ≡ some config
      → match_name L now meta spec name matched c
        ≡ match_keyed L now config (grouping_key L config meta spec) matched c
  unfolding match_name
  match_name_known now meta spec name matched c config h = ground (arith, h)

  -- The entries of the first name and of the others, as one list.
  applying-cons :
      (meta : ObjectMeta) (spec : PodSpec) (name : String) (names : List String)
      (configs configs' : Dict String (ConfigEntry L)) (config : ConfigEntry L)
      (before after whole : List (ConfigEntry L))
      → lookup name configs ≡ some config
      → configs' ≡ configs
      → after ≡ before ++ keyed_entry config (grouping_key L config meta spec)
      → whole ≡ after ++ applying L meta spec configs' names
      → whole ≡ before ++ applying L meta spec configs (name ∷ names)
  applying-cons meta spec name names configs configs' config before after whole h same e e' =
      e'
      ∙ ap (λ d. after ++ applying L meta spec d names) same
      ∙ ap (◌++ applying L meta spec configs names)
          (e ∙ ap (before ++◌) (grouping_key-applies config meta spec))
      ∙ append_assoc before (applying_entry L meta spec (some config))
          (applying L meta spec configs names)
      ∙ ap (λ o. before ++ (applying_entry L meta spec o ++ applying L meta spec configs names))
          (sym h)

  match_names_total :
      (now : ℕ) (meta : ObjectMeta) (spec : PodSpec) (names : List String) (matched : Matched L)
      (c : Classifier L)
      → All (IsKnown c.configs) names
      → (ms : Matched L) × (c' : Classifier L) × (match_names L now meta spec names matched c
          ≡ (ok ms, c'))
        × Same c' c
        × (configs_of ms ≡ configs_of matched ++ applying L meta spec c.configs names)
  unfolding match_names
  match_names_total now meta spec [] matched c known =
      (matched, c, refl, (refl, refl), sym (append-nil (configs_of matched)))
  match_names_total now meta spec (name ∷ names) matched c ((config, h), known) =
      let (ms, c₁, e, (same, same_names), picked) =
        match_keyed_total now config (grouping_key L config meta spec) matched c in
      let (ms', c₂, e', (again, again_names), rest) =
        match_names_total now meta spec names ms c₁
          (subst (λ d. All (IsKnown d) names) (sym same) known) in
      (
        ms',
        c₂,
        rw (match_name_known now meta spec name matched c config h, e) e',
        (again ∙ same, again_names ∙ same_names),
        applying-cons meta spec name names c.configs c₁.configs config _ _ _ h same picked rest,
      )

  find_group_total :
      (now : ℕ) (m : Pacer × ConfigEntry L) (ms : Matched L) (found : Option (GroupEntry L))
      (c : Classifier L)
      → (o : Option PodClassification) × (c' : Classifier L) × (find_group L now (m ∷ ms) found c
          ≡ (ok o, c'))
        × Same c' c
        × IsGroupOf (configs_of (m ∷ ms)) o
  unfolding find_group
  find_group_total now m ms none c = (_, _, refl, (refl, refl), (_, refl, refl))
  find_group_total now m ms (some group) c = (_, _, refl, (refl, refl), (_, refl, refl))

  group_matched_total :
      (now : ℕ) (ms : Matched L) (c : Classifier L)
      → (o : Option PodClassification) × (c' : Classifier L) × (group_matched L now ms c
          ≡ (ok o, c'))
        × Same c' c
        × IsGroupOf (configs_of ms) o
  unfolding group_matched
  group_matched_total now [] c = (_, _, refl, (refl, refl), refl)
  group_matched_total now (m ∷ ms) c =
      find_group_total now m ms (L.cache_get now (calculate_group_id L (m ∷ ms)) c.groups_by_id) c

  -- Over consistent configurations, which it does not change, Classify returns without an error or a
  -- panic. It finds no group
  -- for a pod that no configuration applies to. Any other pod gets a group with the aggregate policy
  -- of the configurations that apply: those whose labels it has, without the ones that bypass them, and
  -- whose grouping expression gives it a text that is not empty.
  pub classify-decides :
      (now : ℕ) (meta : ObjectMeta) (spec : PodSpec) (c : Classifier L)
      → IsConsistent c
      → (o : Option PodClassification) × (c' : Classifier L) × (classify L now meta spec c
          ≡ (ok o, c'))
        × Same c' c
        × IsGroupOf (applying L meta spec c.configs c.config_names) o
  unfolding classify
  classify-decides now meta spec c i =
      let (ms, c₁, e, (same, same_names), picked) =
        match_names_total now meta spec c.config_names [] c i.names_known in
      let (o, c₂, e', (again, again_names), group) = group_matched_total now ms c₁ in
      (
        o,
        c₂,
        rw e e',
        (again ∙ same, again_names ∙ same_names),
        subst (λ xs. IsGroupOf xs o) picked group,
      )
