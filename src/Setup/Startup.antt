-- ===== src/Setup/Startup.antt =====
-- pkg/cmd/cmd.go, and the rest of factories.go and config.go: how the service is put together.
pub mod Register
pub mod Laws
use straggler.Base.{List, [], ◌∷◌, ◌++◌, String, Option, none, some, Bool, true, false}
use straggler.Base.Float.{FloatOps}
use straggler.Base.Int.{ℤ}
use straggler.Base.Result.{Result, ok, err, panic, errorf, wrap_error, ◌>>=◌}
use straggler.Base.State.{M}
use straggler.Kube.{Pod}
use straggler.Blocker.{PodBlocker}
use straggler.Controller.Types.{
  Client, PodClassifier, PodGroupStandingClassifier, AdmissionFlightTracker,
}
use straggler.Controller.Admission.{Admission, default_stagger_group_id_label}
use straggler.Controller.Standing.{new_pod_group_standing_classifier}
use straggler.Controller.Reconciler.{Reconciler}
use straggler.Controller.Flights.{FlightTracker, new_flight_tracker}
use straggler.Controller.Classifier.External.{Libraries}
use straggler.Controller.Classifier.{Classifier}
use straggler.Setup.{
  StaggeringPolicy, new_admission, new_reconciler, new_blocker, policy_labels, match_labels,
  new_group_classifier,
}
use straggler.Setup.Options.{KubernetesOptions, Options}

-- What is registered with the manager as a controller of pods.
pub data Handler (W : Type 0) : Type 0 where
  reconciler : Reconciler W → Handler W
  flight_tracker : FlightTracker → Handler W

-- `webhook.Options` and `manager.Options`, as far as they are set.
pub record WebhookOptions : Type 0 where
  pub cert_dir : String
  pub key_name : String
  pub cert_name : String
  pub port : ℤ

pub record ManagerOptions : Type 0 where
  pub leader_election : Bool
  pub leader_election_id : String
  pub metrics_bind_address : String
  pub webhook_server : WebhookOptions
  pub health_probe_bind_address : String

-- What a receive from `mgr.Elected()` finds: a value, the channel closed, or nothing.
pub data Elected : Type 0 where
  received : Elected
  closed : Elected
  nothing : Elected

-- The readiness check.
unfoldable pub check_elected : Elected → Result (Unit {0})
check_elected closed = ok tt
check_elected received = err (errorf "not a leader")
check_elected nothing = err (errorf "not a leader")

-- The calls of client-go, controller-runtime, os and yaml, over managers `Mgr`, configurations `R` of
-- the API client, and a world `W`. `classifies` and `tracks` are the classifier and the tracker as the
-- controllers see them, with their state in the world.
pub record Platform (F : FloatOps) (L : Libraries) (W R Mgr : Type 0) : Type 0 where
  pub read_file : String → Result String
  pub unmarshal : String → Result (List (StaggeringPolicy F))
  pub in_cluster_config : Result R
  pub build_config_from_flags : String → String → Result R
  pub new_manager : Option R → ManagerOptions → Result Mgr
  pub add_readyz_check : String → (Elected → Result (Unit {0})) → Mgr → Mgr
  pub add_healthz_check : String → Mgr → Mgr
  pub client : Mgr → Client W
  pub check_requirements : List String → Result (Unit {0})
  pub complete_controller : Mgr → String → (Pod → Bool) → Handler W → M W (Unit {0})
  pub complete_webhook : Mgr → String → Admission W → M W (Unit {0})
  pub classifies : Classifier L → PodClassifier W
  pub tracks : FlightTracker → AdmissionFlightTracker W

pub record Cmd (R Mgr : Type 0) : Type 0 where
  pub options : Options R
  pub mgr : Mgr

module _ {F : FloatOps} {L : Libraries} {W R Mgr : Type 0} (P : Platform F L W R Mgr) where
  unfoldable pub load_config_from_string : String → Result (List (StaggeringPolicy F))
  load_config_from_string config_string = P.unmarshal config_string

  unfoldable pub load_config : String → Result (List (StaggeringPolicy F))
  unfolding load_config_from_string
  load_config path = P.read_file path >>= load_config_from_string

  unfoldable pub create_kubernetes_config : KubernetesOptions R → Result R
  create_kubernetes_config opts = elim P.in_cluster_config [
    | ok config ↦ ok config
    | err _ ↦
        wrap_error "error building kubeconfig"
          (P.build_config_from_flags opts.master_url opts.kube_config_path)
    | panic ↦ panic
  ]

  unfoldable pub new_controller_manager : Options R → Result Mgr
  unfolding check_elected
  new_controller_manager options = do
    mgr ← P.new_manager options.kubernetes_options.config (record {
      leader_election = options.kubernetes_options.leader_election_options.leader_election;
      leader_election_id = options.kubernetes_options.leader_election_options.leader_election_id;
      metrics_bind_address = "0";
      webhook_server = record {
        cert_dir = options.tls_dir;
        key_name = options.tls_key_filename;
        cert_name = options.tls_cert_filename;
        port = options.tls_listen_port;
      };
      health_probe_bind_address = options.health_probe_bind_address;
    })
    ok (P.add_healthz_check "healthz" (P.add_readyz_check "healthz" check_elected mgr))

  unfoldable pub new_podgroup_classifier : Mgr → PodBlocker → PodGroupStandingClassifier W
  unfolding new_pod_group_standing_classifier
  new_podgroup_classifier mgr blocker =
      new_pod_group_standing_classifier (P.client mgr) blocker default_stagger_group_id_label

  -- The requirements are checked when the predicate is made.
  unfoldable pub get_match_labels_predicate :
      Options R → List (StaggeringPolicy F) → Result (Pod → Bool)
  unfolding match_labels policy_labels
  get_match_labels_predicate options policies = do
    _ ← P.check_requirements (options.enable_label ∷ policy_labels F policies)
    ok (match_labels F options.enable_label policies)

  -- What NewCMDWithManager makes before it registers anything.
  pub record Prepared : Type 0 where
    pub classifier : Classifier L
    pub pod_blocker : PodBlocker
    pub match_predicate : Pod → Bool

  module _ (sort : (Pod → Pod → Bool) → List Pod → List Pod) (options : Options R) where
    unfoldable pub prepare_predicate :
        List (StaggeringPolicy F) → Classifier L → PodBlocker → Result Prepared
    unfolding get_match_labels_predicate
    prepare_predicate policies classifier blocker = do
      match_predicate ←
          wrap_error "failed to get match predicates for reconciler"
            (get_match_labels_predicate options policies)
      ok (record {
        classifier = classifier;
        pod_blocker = blocker;
        match_predicate = match_predicate;
      })

    unfoldable pub prepare_blocker : List (StaggeringPolicy F) → Classifier L → Result Prepared
    unfolding new_blocker prepare_predicate
    prepare_blocker policies classifier = do
      blocker ← new_blocker options.stagger_container_image
      prepare_predicate policies classifier blocker

    unfoldable pub prepare_classifier : List (StaggeringPolicy F) → Result Prepared
    unfolding new_group_classifier prepare_blocker
    prepare_classifier policies = do
      classifier ← new_group_classifier F sort L policies
      prepare_blocker policies classifier

    unfoldable pub prepare : Result Prepared
    unfolding load_config prepare_classifier
    prepare = do
      policies ← wrap_error "failed to load configs" (load_config options.staggering_config_path)
      prepare_classifier policies
