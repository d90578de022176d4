-- ===== src/Tests.antt =====
-- Pods, groups and classifiers of a small cluster, on which the theorems are applied.
mod Pacers
mod Blockers
mod Webhook
mod Rollout
mod Rounds
mod Stall
mod Cluster
mod Groups
mod Configs
mod Runs
mod Flights
mod Timed
mod Sharing
mod Setup
mod Labels
mod Startup
mod Telemetry
use straggler.Base.{ℕ, List, [], ◌∷◌, String, none, some, arith}
use straggler.Base.Dict.{Dict, GoMap}
use straggler.Base.Int.{pos}
use straggler.Kube.{Condition, Container, ObjectMeta, Pod, PodSpec}
use straggler.Pacer.{PodClassification, Fits}

abbrev pub container : Container
container = record {
  name = "main";
  image = "web:1";
  command = "serve" ∷ [];
  args = [];
  volume_mounts = [];
  resources = "1 CPU";
}

abbrev pub spec : PodSpec
spec = record { node_selector = none; init_containers = []; containers = container ∷ [] }

abbrev pub labelled_meta : String → Dict String String → ℕ → ObjectMeta
labelled_meta name labels t = record {
  name = name;
  generate_name = "web-";
  namespace = "default";
  uid = name;
  labels = some labels;
  creation_timestamp = t;
}

abbrev pub pod_at : String → Dict String String → ℕ → Pod
pod_at name labels t = record { meta = labelled_meta name labels t; spec = spec; conditions = [] }

abbrev pub ready_condition : Condition
ready_condition = record { kind = "Ready"; status = "True" }

abbrev pub first : Pod
first = record (pod_at "first" [] 10) { conditions = ready_condition ∷ [] }

abbrev pub second : Pod
second = pod_at "second" [] 20

abbrev pub third : Pod
third = pod_at "third" [] 30

abbrev pub fourth : Pod
fourth = pod_at "fourth" [] 40

-- One pod is ready, one is starting, and two are blocked, the younger one first.
abbrev pub standing : PodClassification
standing = record { ready = first ∷ []; starting = second ∷ []; blocked = fourth ∷ third ∷ [] }

pub standing-Fits : Fits standing
standing-Fits = record {
  ready_fits = omega arith;
  starting_fits = omega arith;
  blocked_fits = omega arith;
}
