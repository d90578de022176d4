-- ===== src/Cli/Flags/Service.antt =====
-- The flags of the options of pkg/cmd/options.go, which service.go adds to its command.
use straggler.Base.{
  ◌≡◌, refl, List, [], ◌∷◌, String, Bool, false, ◌||◌, ◌==◌, string_eq, string_dec, if◌then◌else◌,
}
use straggler.Base.Result.{ok, panic}
use straggler.Setup.Options.{LeaderElectionOptions, KubernetesOptions, Options}
use straggler.Cli.Flags.{
  FlagValue, Tag, Fields, FlagSet, string, int, bool, duration, struct, value, other, no_fields,
  field, do_add_command_flags,
}

abbrev tagged : String → String → String → Tag
tagged name description group = record {
  cli_arg_name = name;
  cli_arg_description = description;
  cli_arg_group = group;
}

abbrev untagged : Tag
untagged = tagged "" "" ""

unfoldable pub leader_election_fields : LeaderElectionOptions → Fields
leader_election_fields o =
    field (tagged "kubernetes-leader-election" "enable leader election" "Kubernetes")
      (value (bool o.leader_election))
      (field
        (tagged "kubernetes-leader-election-id" "id to use for kubernetes leader election"
          "Kubernetes")
        (value (string o.leader_election_id)) no_fields)

unfoldable pub kubernetes_fields : {R : Type 0} → KubernetesOptions R → Fields
unfolding leader_election_fields
kubernetes_fields o = field untagged (struct (leader_election_fields o.leader_election_options)) (
    field (tagged "kubernetes-kubeconfig" "path to kubeconfig file" "Kubernetes")
      (value (string o.kube_config_path))
      (field (tagged "kubernetes-master-url" "api server url" "Kubernetes")
        (value (string o.master_url))
        (field untagged (value (bool o.register_health_checks)) (
          field untagged (value (string o.health_probe_bind_address))
            (field untagged (other "*rest.Config") no_fields)))))

unfoldable pub option_fields : {R : Type 0} → Options R → Fields
unfolding kubernetes_fields
option_fields o = field untagged (struct (kubernetes_fields o.kubernetes_options)) (
    field (tagged "staggering-config-path" "path to staggering config yaml file" "Staggering")
      (value (string o.staggering_config_path))
      (field
        (tagged "staggering-container-image" "straggler container image to use for stub pods"
          "Staggering")
        (value (string o.stagger_container_image))
        (field (tagged "staggering-bypass-errors" "do not block admission on errors" "Staggering")
          (value (bool o.bypass_failure))
          (field
            (tagged "staggering-enable-label" "pod label to enable staggering behavior"
              "Staggering")
            (value (string o.enable_label))
            (field
              (tagged "staggering-max-pod-flight-duration"
                "maximum time to wait for a pod from admission to reconciliation after which it is assumed committed"
                "Staggering")
              (value (duration o.max_flight_duration))
              (field (tagged "tls-dir" "dir to look for tls pem files" "TLS")
                (value (string o.tls_dir))
                (field (tagged "tls-key-filename" "path to tls key pem" "TLS")
                  (value (string o.tls_key_filename))
                  (field (tagged "tls-cert-filename" "path to tls certificate pem" "TLS")
                    (value (string o.tls_cert_filename))
                    (field
                      (tagged "tls-port" "port to listen on for webhook admission requests" "TLS")
                      (value (int o.tls_listen_port))
                      (field
                        (tagged "health-probe-bind-address"
                          "address to bind on for http health server" "Health")
                        (value (string o.health_probe_bind_address)) no_fields))))))))))

-- A flag set that keeps what is added. As with pflag, a name that is added twice is a panic.
pub record Flag : Type 0 where
  pub name : String
  pub default : FlagValue

abbrev has_flag : String → List Flag → Bool
has_flag name [] = false
has_flag name (f ∷ flags) = f.name == name || has_flag name flags

abbrev pub kept_flags : FlagSet (List Flag)
kept_flags = record {
  var = λ name v usage flags.
      if has_flag name flags
      then (panic, flags)
      else (ok tt, record { name = name; default = v } ∷ flags);
  set_group = λ name group flags. (ok tt, flags);
}

-- The flags of the options, the latest first.
abbrev pub flags_of : {R : Type 0} → Options R → List Flag
flags_of o =
    record { name = "health-probe-bind-address"; default = string o.health_probe_bind_address }
    ∷ record { name = "tls-port"; default = int o.tls_listen_port }
    ∷ record { name = "tls-cert-filename"; default = string o.tls_cert_filename }
    ∷ record { name = "tls-key-filename"; default = string o.tls_key_filename }
    ∷ record { name = "tls-dir"; default = string o.tls_dir }
    ∷ record {
      name = "staggering-max-pod-flight-duration";
      default = duration o.max_flight_duration;
    }
    ∷ record { name = "staggering-enable-label"; default = string o.enable_label }
    ∷ record { name = "staggering-bypass-errors"; default = bool o.bypass_failure }
    ∷ record { name = "staggering-container-image"; default = string o.stagger_container_image }
    ∷ record { name = "staggering-config-path"; default = string o.staggering_config_path }
    ∷ record { name = "kubernetes-master-url"; default = string o.kubernetes_options.master_url }
    ∷ record {
      name = "kubernetes-kubeconfig";
      default = string o.kubernetes_options.kube_config_path;
    }
    ∷ record {
      name = "kubernetes-leader-election-id";
      default = string o.kubernetes_options.leader_election_options.leader_election_id;
    }
    ∷ record {
      name = "kubernetes-leader-election";
      default = bool o.kubernetes_options.leader_election_options.leader_election;
    }
    ∷ []

-- Whatever the options, the start of the program adds their fourteen flags without a panic: no name is
-- there twice, and each flag has the option's value as its default.
pub option_fields-added :
    {R : Type 0} (o : Options R)
    → do_add_command_flags kept_flags (option_fields o) [] ≡ (ok tt, flags_of o)
unfolding do_add_command_flags option_fields string_dec
option_fields-added o = refl
