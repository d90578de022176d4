-- ===== src/Controller/Classifier.antt =====
-- pkg/controller/classifier.go and pkg/config/types/types.go: the state of the classifier, and the
-- operations that configure it. Classify itself is in the child module Classify.
pub mod External
pub mod Classify
pub mod Groups
pub mod Expiry
pub mod Sharing
pub mod Configs
pub mod Configurator
pub mod Applying
use straggler.Base.{
  ℕ, List, [], ◌∷◌, ◌++◌, String, ◌<>◌, Option, none, some, Bool, true, false, not, ◌&&◌, ◌||◌,
  length, eqb, map, filter_by, join, ◌==◌, string_eq, if◌then◌else◌,
}
use straggler.Base.Dict.{Dict, GoMap, lookup, insert, erase}
use straggler.Base.Int.{ℤ, pos, ltb_ℤ, eqb_ℤ}
use straggler.Base.Result.{Result, ok, err, panic, errorf, wrap_error, ◌>>=◌}
use straggler.Base.State.{M, continue, pure}
use straggler.Kube.{ObjectMeta, PodSpec}
use straggler.Pacer.{Pacer, PacerFactory}
use straggler.Pacer.Composite.{new_composite}
use straggler.Controller.Types.{PodClassification, StaggeringGroupPolicies}
use External.{Libraries}

pub record StaggerGroup : Type 0 where
  pub name : String
  pub label_selector : GoMap
  pub bypass_label_selector : GoMap
  pub grouping_expression : String
  pub max_blocked_duration : ℤ
  pub pacer_factory : PacerFactory

module _ (L : Libraries) where
  open L use {
    Expr, Selector, Cache, parse, get, print_value, selector_from_set, matches, is_empty, new_cache,
    cache_get, cache_set, md5_hex,
  }

  pub record ConfigEntry : Type 0 where
    pub group : StaggerGroup
    pub open group use *
    pub grouping_json_path : Expr
    pub selector : Selector
    pub bypass_selector : Selector

  pub record GroupEntry : Type 0 where
    pub id : String
    pub configs : List ConfigEntry
    pub composite_pacer : Pacer

  pub record Classifier : Type 0 where
    pub configs : Dict String ConfigEntry
    pub config_names : List String
    pub groups_by_id : Cache GroupEntry
    pub pacers_by_key : Cache Pacer

  -- NewPodClassifier
  unfoldable pub new_pod_classifier : Classifier
  new_pod_classifier = record {
    configs = [];
    config_names = [];
    groups_by_id = new_cache GroupEntry;
    pacers_by_key = new_cache Pacer;
  }

  -- The loop of newConfigEntryLocked over the configs that are there.
  unfoldable pub expression_owner : String → Dict String ConfigEntry → Option String
  expression_owner expression [] = none
  expression_owner expression ((name, entry) ∷ rest) =
      if expression == entry.grouping_expression
      then some name
      else expression_owner expression rest

  -- The end of newConfigEntryLocked, from the parsed expression on.
  unfoldable pub entry_of : StaggerGroup → Result Expr → Result ConfigEntry
  entry_of config parsed = do
    expr ← wrap_error ("failed to parse jsonpath " <> config.grouping_expression) parsed
    ok (record {
      group = config;
      grouping_json_path = expr;
      selector = selector_from_set config.label_selector;
      bypass_selector = selector_from_set config.bypass_label_selector;
    })

  unfoldable pub new_config_entry : Dict String ConfigEntry → StaggerGroup → Result ConfigEntry
  unfolding expression_owner entry_of
  new_config_entry configs config =
      if config.grouping_expression == ""
      then err (errorf "empty grouping expression")
      else elim (expression_owner config.grouping_expression configs) [
        | some name ↦ err (errorf ("grouping expression already exists: " <> name))
        | none ↦ entry_of config (parse config.grouping_expression)
      ]

  -- What AddConfig and UpdateConfig do with the new entry.
  unfoldable pub store_new : Classifier → Result ConfigEntry → Result (Unit {0}) × Classifier
  store_new c (ok entry) = (
    ok tt,
    record c {
      configs = insert entry.name entry c.configs;
      config_names = c.config_names ++ entry.name ∷ [];
    },
  )
  store_new c (err e) = (err e, c)
  store_new c panic = (panic, c)

  unfoldable pub store_update :
      StaggerGroup → Classifier → Result ConfigEntry → Result (Unit {0}) × Classifier
  store_update config c (ok entry) =
      (ok tt, record c { configs = insert entry.name entry (erase config.name c.configs) })
  store_update config c (err e) = (err e, c)
  store_update config c panic = (panic, c)

  unfoldable pub add_config : StaggerGroup → M Classifier (Unit {0})
  unfolding new_config_entry store_new lookup
  add_config config c = elim (lookup config.name c.configs) [
    | some _ ↦ (err (errorf ("duplicate config name: " <> config.name)), c)
    | none ↦ store_new c (new_config_entry c.configs config)
  ]

  unfoldable pub remove_config : String → M Classifier (Unit {0})
  unfolding lookup erase
  remove_config name c = elim (lookup name c.configs) [
    | none ↦ (err (errorf ("config not found: " <> name)), c)
    | some _ ↦ (
      ok tt,
      record c {
        configs = erase name c.configs;
        config_names = filter_by (λ n. not (n == name)) c.config_names;
      },
    )
  ]

  unfoldable pub update_config : StaggerGroup → M Classifier (Unit {0})
  unfolding new_config_entry store_update
  update_config config c = store_update config c (new_config_entry c.configs config)
