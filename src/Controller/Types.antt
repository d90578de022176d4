-- ===== src/Controller/Types.antt =====
-- pkg/controller/types/types.go: what a classification of a pod holds, and the interfaces through
-- which the controllers meet. Every call may change the world `W`: the API server, the caches and
-- what other goroutines do meanwhile.
use straggler.Base.{List, String, Option}
use straggler.Base.Int.{ℤ}
use straggler.Base.State.{M}
use straggler.Kube.{NamespacedName, ObjectMeta, Pod, PodSpec}
use straggler.Pacer.{Pacer}

pub record StaggeringGroupPolicies : Type 0 where
  pub max_blocked_duration : ℤ

pub record PodClassification : Type 0 where
  pub id : String
  pub pacer : Pacer
  pub group_policies : StaggeringGroupPolicies

module _ (W : Type 0) where
  pub record PodClassifier : Type 0 where
    pub classify : ObjectMeta → PodSpec → M W (Option PodClassification)
    pub classify_by_group_id : String → M W (Option PodClassification)

  -- The ready, the starting and the blocked pods of a group.
  pub record PodGroupStandingClassifier : Type 0 where
    pub classify_pod_group : String → M W (List Pod × List Pod × List Pod)

  pub record AdmissionFlightTracker : Type 0 where
    pub wait_one : String → ObjectMeta → M W (Unit {0})

  -- The calls of the API server's client: Get, List by one label, and the creation of an eviction.
  pub record Client : Type 0 where
    pub get : NamespacedName → M W Pod
    pub list : String → String → M W (List Pod)
    pub evict : Pod → M W (Unit {0})
