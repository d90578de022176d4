-- ===== src/Setup/Options.antt =====
-- pkg/cmd/options.go: the options of the service. `R` is `rest.Config`.
use straggler.Base.{String, Option, none, Bool, true, false}
use straggler.Base.Int.{ℤ, pos}
use straggler.Controller.Admission.{default_enable_label}

pub record LeaderElectionOptions : Type 0 where
  pub leader_election : Bool
  pub leader_election_id : String

pub record KubernetesOptions (R : Type 0) : Type 0 where
  pub leader_election_options : LeaderElectionOptions
  pub kube_config_path : String
  pub master_url : String
  pub register_health_checks : Bool
  pub health_probe_bind_address : String
  pub config : Option R

-- A selector of the embedded options finds the outer `health_probe_bind_address` first.
pub record Options (R : Type 0) : Type 0 where
  pub kubernetes_options : KubernetesOptions R
  pub staggering_config_path : String
  pub stagger_container_image : String
  pub bypass_failure : Bool
  pub enable_label : String
  pub max_flight_duration : ℤ
  pub tls_dir : String
  pub tls_key_filename : String
  pub tls_cert_filename : String
  pub tls_listen_port : ℤ
  pub health_probe_bind_address : String

unfoldable pub new_leader_election_options : LeaderElectionOptions
new_leader_election_options = record { leader_election = true; leader_election_id = "stagger" }

-- `os.Getenv` is a parameter.
unfoldable pub new_kubernetes_options : {R : Type 0} → (String → String) → KubernetesOptions R
unfolding new_leader_election_options
new_kubernetes_options getenv = record {
  leader_election_options = new_leader_election_options;
  kube_config_path = getenv "KUBECONFIG";
  master_url = "";
  register_health_checks = false;
  health_probe_bind_address = "";
  config = none;
}

unfoldable pub new_options : {R : Type 0} → (String → String) → Options R
unfolding new_kubernetes_options
new_options getenv = record {
  kubernetes_options = new_kubernetes_options getenv;
  staggering_config_path = "";
  stagger_container_image = "technicianted/stagger";
  bypass_failure = true;
  enable_label = default_enable_label;
  max_flight_duration = pos 1_000_000_000;
  tls_dir = ".";
  tls_key_filename = "tls.key";
  tls_cert_filename = "tls.crt";
  tls_listen_port = pos 9443;
  health_probe_bind_address = ":9444";
}
