-- ===== src/Tests/Configs.antt =====
-- The configurations of a classifier.
use straggler.Base.{List, [], ◌∷◌, ◌≡◌, refl, subst, Option, string_dec}
use straggler.Base.Dict.{lookup, insert, erase}
use straggler.Base.Result.{Error, ok, err}
use straggler.Controller.Types.{PodClassification}
use straggler.Controller.Classifier.{
  Classifier, new_pod_classifier, add_config, remove_config, update_config, new_config_entry,
  expression_owner, entry_of, store_new, store_update,
}
use straggler.Controller.Classifier.Configurator.{
  Change, add, remove, update, configurator, run_all, successes, effects, view,
}
use straggler.Controller.Classifier.Configurator.Laws.{
  configurator-effects, configurator-IsConsistent,
}
use straggler.Controller.Classifier.Classify.{classify, concat_values}
use straggler.Controller.Classifier.Applying.{IsGroupOf, applying}
use straggler.Controller.Classifier.Configs.{
  IsConsistent, new_pod_classifier-IsConsistent, add_config-IsConsistent,
}
use straggler.Controller.Classifier.Configs.Updates.{update_config_same_expression}
use straggler.Controller.Classifier.Configs.Runs.{classify-decides}
use straggler.Tests.{second}
use straggler.Tests.Groups.{libraries, config, classifier, added}

pub classifier-IsConsistent : IsConsistent classifier
classifier-IsConsistent =
    subst (λ s. IsConsistent s.1) added
      (add_config-IsConsistent (config 600).group (new_pod_classifier libraries)
        new_pod_classifier-IsConsistent)

-- A configuration is added twice, changed and removed: the second addition and the change fail.
abbrev changes : List Change
changes =
    add (config 600).group
    ∷ add (config 600).group
    ∷ update (config 300).group
    ∷ remove "by namespace"
    ∷ add (config 300).group
    ∷ []

configurator-IsConsistent_example :
    IsConsistent (run_all configurator changes (new_pod_classifier libraries))
configurator-IsConsistent_example =
    configurator-IsConsistent changes (new_pod_classifier libraries) new_pod_classifier-IsConsistent

configurator-effects_example :
    view (run_all configurator changes (new_pod_classifier libraries)) "by namespace"
    ≡ effects
        (successes configurator changes (new_pod_classifier libraries))
        (view (new_pod_classifier libraries))
        "by namespace"
configurator-effects_example =
    configurator-effects changes (new_pod_classifier libraries) "by namespace"

-- The three changes that succeed leave the last configuration.
changes_succeed :
    successes configurator changes (new_pod_classifier libraries)
    ≡ add (config 600).group ∷ remove "by namespace" ∷ add (config 300).group ∷ []
unfolding configurator add_config remove_config update_config store_new store_update
    new_config_entry expression_owner entry_of new_pod_classifier lookup insert erase string_dec
changes_succeed = refl

-- The update to another maximum duration is refused.
update_config_same_expression_example :
    (x : Error) × (update_config libraries (config 300).group classifier ≡ (err x, classifier))
unfolding lookup string_dec
update_config_same_expression_example =
    update_config_same_expression (config 300).group classifier (config 600) refl refl

classify-decides_example :
    (o : Option PodClassification) × (c : Classifier libraries) × (classify libraries 7 second.meta
        second.spec classifier
      ≡ (ok o, c))
    × ((c.configs ≡ classifier.configs) × (c.config_names ≡ classifier.config_names))
    × IsGroupOf
        (applying libraries second.meta second.spec classifier.configs classifier.config_names)
        o
classify-decides_example =
    classify-decides 7 second.meta second.spec classifier classifier-IsConsistent

-- The configuration applies to the pod.
second_applies :
    applying libraries second.meta second.spec classifier.configs classifier.config_names
    ≡ config 600 ∷ []
unfolding lookup string_dec concat_values
second_applies = refl
