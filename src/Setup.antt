-- ===== src/Setup.antt =====
-- pkg/cmd/config.go and factories.go: from the configuration to the classifier, the blocker, the
-- webhook, the reconciler and the labels that select the pods which the controllers see.
pub mod Laws
pub mod Labels
pub mod Options
pub mod Startup
use straggler.Base.{
  List, [], ◌∷◌, ◌++◌, String, ◌<>◌, Option, none, some, Bool, true, false, ◌&&◌, map, ◌==◌,
  string_eq, if◌then◌else◌,
}
use straggler.Base.Dict.{GoMap, entries, get_key}
use straggler.Base.Float.{FloatOps}
use straggler.Base.Int.{ℤ, pos}
use straggler.Base.Result.{Result, ok, err, panic, errorf, wrap_error, ◌>>=◌}
use straggler.Kube.{Pod}
use straggler.Pacer.{PacerFactory}
use straggler.Pacer.Exponential as Exponential
use straggler.Pacer.Linear as Linear
use straggler.Blocker.{PodBlocker}
use straggler.Blocker.StubPod.{new_stub_pod}
use straggler.Controller.Types.{
  Client, PodClassifier, PodGroupStandingClassifier, AdmissionFlightTracker,
}
use straggler.Controller.Admission.{
  Admission, has_key, default_enable_label, default_stagger_group_id_label, default_job_pod_label,
}
use straggler.Controller.Reconciler.{Reconciler}
use straggler.Controller.Classifier.External.{Libraries}
use straggler.Controller.Classifier.{StaggerGroup, Classifier, new_pod_classifier, add_config}

-- `*p` of a pointer that may be nil.
abbrev pub deref {ℓ} : {A : Type ℓ} → Option A → Result A
deref none = panic
deref (some a) = ok a

pub record LinearPacer : Type 0 where
  pub max_stagger : Option ℤ
  pub step : Option ℤ

-- NewAdmission and NewReconciler, and the label that each takes for the enabled pods.
unfoldable pub new_admission :
    {W : Type 0}
    → PodClassifier W
    → PodGroupStandingClassifier W
    → PodBlocker
    → AdmissionFlightTracker W
    → Bool
    → String
    → Admission W
new_admission classifier pod_group_classifier pod_blocker flight_tracker bypass_failures
      enable_label =
    record {
      classifier = classifier;
      pod_group_classifier = pod_group_classifier;
      pod_blocker = pod_blocker;
      flight_tracker = flight_tracker;
      enable_label = enable_label;
      stagger_group_id_label = default_stagger_group_id_label;
      job_pod_label = default_job_pod_label;
      bypass_failures = bypass_failures;
    }

unfoldable pub new_reconciler :
    {W : Type 0} → Client W → PodClassifier W → PodGroupStandingClassifier W → Reconciler W
new_reconciler client classifier pod_group_classifier = record {
  client = client;
  classifier = classifier;
  pod_group_classifier = pod_group_classifier;
  blocked_pod_resync_duration = pos 60_000_000_000;
  enable_label = default_enable_label;
  stagger_group_id_label = default_stagger_group_id_label;
}

unfoldable pub new_blocker : String → Result PodBlocker
new_blocker stagger_container_image =
    if stagger_container_image == ""
    then err (errorf "straggler container image must be specified")
    else ok (new_stub_pod stagger_container_image)

module _ (F : FloatOps) where
  pub record ExponentialPacer : Type 0 where
    pub min_initial : Option ℤ
    pub max_stagger : Option ℤ
    pub multiplier : Option F.Float64

  pub record PacerConfig : Type 0 where
    pub exponential : Option ExponentialPacer
    pub linear : Option LinearPacer

  pub record StaggeringPolicy : Type 0 where
    pub name : String
    pub label_selector : GoMap
    pub bypass_label_selector : GoMap
    pub grouping_expression : String
    pub max_blocked_duration : ℤ
    pub pacer : PacerConfig

  -- The keys that the predicate of the controllers asks for.
  unfoldable pub policy_labels : List StaggeringPolicy → List String
  policy_labels [] = []
  policy_labels (policy ∷ policies) =
      map (λ e. e.0) (entries policy.label_selector) ++ policy_labels policies

  -- `labels.Selector` of requirements is their conjunction.
  unfoldable pub has_all : List String → GoMap → Bool
  has_all [] labels = true
  has_all (k ∷ ks) labels = has_key k labels && has_all ks labels

  unfoldable pub match_labels : String → List StaggeringPolicy → Pod → Bool
  unfolding policy_labels has_all
  match_labels enable_label policies pod =
      has_all (enable_label ∷ policy_labels policies) pod.labels

  module _ (sort : (Pod → Pod → Bool) → List Pod → List Pod) where
    unfoldable pub new_pacer_factory : StaggeringPolicy → Result PacerFactory
    new_pacer_factory policy = elim policy.pacer.exponential [
      | some p ↦ do
        min_initial ← deref p.min_initial
        max_stagger ← deref p.max_stagger
        multiplier ← deref p.multiplier
        ok (
            Exponential.new_factory F sort (record {
              min_initial = min_initial;
              max_stagger = max_stagger;
              multiplier = multiplier;
            }))
      | none ↦ elim policy.pacer.linear [
        | some p ↦ do
          max_stagger ← deref p.max_stagger
          step ← deref p.step
          ok (Linear.new_factory F (record { max_stagger = max_stagger; step = step }))
        | none ↦ err (errorf "no pacer configuration specified")
      ]
    ]

    abbrev group_of : StaggeringPolicy → PacerFactory → StaggerGroup
    group_of policy pacer_factory = record {
      name = policy.name;
      label_selector = policy.label_selector;
      bypass_label_selector = policy.bypass_label_selector;
      grouping_expression = policy.grouping_expression;
      max_blocked_duration = policy.max_blocked_duration;
      pacer_factory = pacer_factory;
    }

    module _ (L : Libraries) where
      -- The loop of NewGroupClassifier.
      unfoldable pub add_policies : List StaggeringPolicy → Classifier L → Result (Classifier L)
      unfolding new_pacer_factory add_config
      add_policies [] c = ok c
      add_policies (policy ∷ policies) c = do
        factory ←
            wrap_error ("failed to create pacer for " <> policy.name) (new_pacer_factory policy)
        _ ←
            wrap_error ("failed to create pod group classifer for " <> policy.name)
              (add_config L (group_of policy factory) c).0
        add_policies policies (add_config L (group_of policy factory) c).1

      unfoldable pub new_group_classifier : List StaggeringPolicy → Result (Classifier L)
      unfolding add_policies new_pod_classifier
      new_group_classifier policies = add_policies policies (new_pod_classifier L)
