-- ===== src/Controller/Rollout/Rounds.antt =====
-- A staggered group in rounds: the reconciler of pkg/controller/reconciler.go runs for a blocked pod, the
-- owners of the pods that it evicts make as many anew, the webhook of pkg/controller/admission.go sees
-- these one after the other, and then all pods that are starting become ready.
pub mod Evictions
pub mod Admissions
pub mod Laws
pub mod Settling
pub mod Held
pub mod Stall
use mathlib.Core.List.{Perm, Nodup}
use straggler.Base.{
  ℕ, suc, ◌+◌, ◌<◌, ◌≡◌, ◌≢◌, List, [], ◌∷◌, ◌++◌, String, none, some, Bool, true, false, ◌&&◌, not,
  ltb, ◌==◌, string_eq, length, filter_by, All, map, if◌then◌else◌,
}
use straggler.Base.Dict.{get_key}
use straggler.Base.Float.{FloatOps}
use straggler.Base.Int.{pos}
use straggler.Base.Result.{Result, ok, err, panic}
use straggler.Kube.{NamespacedName, Pod}
use straggler.Blocker.{PodBlocker}
use straggler.Controller.Types.{Client, PodClassification}
use straggler.Controller.Standing.Laws.{is_blocked_pod, is_starting_pod, is_ready_pod}
use straggler.Controller.Admission.{
  Admission, check_enabled, has_key, handle_pod_admission, default_staggered_pod_label,
}
use straggler.Controller.Reconciler.{Reconciler, reconcile}
use straggler.Controller.Rollout.{World, IsCluster, starting_pods}
use straggler.Pacer.Composite.Counting.{uids}

abbrev pub blocked_pods : PodBlocker → World → ℕ
blocked_pods blocker pods = length (filter_by (is_blocked_pod blocker) pods)

-- What the reconciler relies on besides the parts that a cluster is made of: an eviction removes the
-- pod and no other, a group is found by its identity and without a maximum duration, and both
-- controllers go by the same labels, which differ from each other.
pub record IsPrompt (a : Admission World) (r : Reconciler World) (group : PodClassification)
    : Type 0 where
  pub evicts_one :
      (p : Pod) (pods rest : World)
      → Nodup (uids pods)
      → Perm pods (p ∷ rest)
      → Perm (r.client.evict p pods).1 rest
  pub evicts_calmly : (p : Pod) (pods : World) → (r.client.evict p pods).0 ≢ panic
  pub finds :
      (pods : World) → r.classifier.classify_by_group_id group.id pods ≡ (ok (some group), pods)
  pub no_maximum : group.group_policies.max_blocked_duration ≡ pos 0
  pub same_standing : r.pod_group_classifier ≡ a.pod_group_classifier
  pub same_enable : a.enable_label ≡ r.enable_label
  pub same_group : a.stagger_group_id_label ≡ r.stagger_group_id_label
  pub enable_group : r.stagger_group_id_label ≢ r.enable_label
  pub enable_mark : default_staggered_pod_label ≢ r.enable_label
  pub group_mark : default_staggered_pod_label ≢ r.stagger_group_id_label
  pub named : group.id ≢ ""

module _ (a : Admission World) (r : Reconciler World) (group : PodClassification) where
  -- The label of a group.
  abbrev pub is_member : Pod → Bool
  is_member p = elim (get_key r.stagger_group_id_label p.labels) [
    | none ↦ false
    | some id ↦ id == group.id
  ]

  -- The reconciler looks at the pod, as one of the group, and the pod has been stored.
  abbrev pub is_tracked : Pod → Bool
  is_tracked p =
      check_enabled r.enable_label p.meta
      && (has_key default_staggered_pod_label p.labels
          && (is_member p && ltb 0 p.creation_timestamp))

  -- A blocked pod that the reconciler skips.
  abbrev pub is_astray : Pod → Bool
  is_astray p = is_blocked_pod a.pod_blocker p && not (is_tracked p)

  -- A pod as its owner makes it, of the group, and not stored yet.
  pub record IsFresh (p : Pod) : Type 0 where
    pub enabled : check_enabled a.enable_label p.meta ≡ true
    pub no_job : has_key a.job_pod_label p.labels ≡ false
    pub in_group :
        (pods : World) → a.classifier.classify p.meta p.spec pods ≡ (ok (some group), pods)
    pub unblocked : a.pod_blocker.is_blocked p.spec ≡ false
    pub unstored : p.creation_timestamp ≡ 0

  -- The API server asks the webhook and then stores the pod, with the time of its creation.
  abbrev pub stored : ℕ → Pod → Pod
  stored now p = record p { meta = record (p.meta) { creation_timestamp = suc now } }

  abbrev pub store : ℕ → Result (Unit {0}) × (Pod × World) → World
  store now (ok _, (p, pods)) = stored now p ∷ pods
  store now (err _, (p, pods)) = pods
  store now (panic, (p, pods)) = pods

  pub admit_all : ℕ → List Pod → World → World
  admit_all now [] pods = pods
  admit_all now (p ∷ ps) pods = admit_all now ps (store now (handle_pod_admission a (p, pods)))

  abbrev pub settle : (Pod → Pod) → Pod → Pod
  settle start_up p = if is_starting_pod a.pod_blocker p then start_up p else p

  module _ (F : FloatOps) where
    -- A round, for a blocked pod, with the pods that the owners make.
    pub round : ℕ → NamespacedName → List Pod → (Pod → Pod) → World → World
    round now request news start_up pods =
        map (settle start_up) (admit_all now news (reconcile F r now request pods).1)

    -- What the environment does in a round: the pod of the request is a blocked one of the group, the owners
    -- make as many pods as were evicted, with UIDs of their own, and what was starting becomes
    -- ready.
    pub record Plays (now : ℕ) (request : NamespacedName) (news : List Pod) (start_up : Pod → Pod)
        (pods : World) : Type 0 where
      pub front : World
      pub pod : Pod
      pub back : World
      pub listed : pods ≡ front ++ pod ∷ back
      pub waits : a.pod_blocker.is_blocked pod.spec ≡ true
      pub reads : r.client.get request pods ≡ (ok pod, pods)
      pub fresh : All IsFresh news
      pub as_many : length news + length (reconcile F r now request pods).1 ≡ length pods
      pub own_uids : Nodup (uids (news ++ (reconcile F r now request pods).1))
      pub becomes_ready :
          (p : Pod)
          → is_starting_pod a.pod_blocker p ≡ true
          → is_ready_pod a.pod_blocker (start_up p) ≡ true
      pub same_uid : (p : Pod) → (start_up p).uid ≡ p.uid

    -- A round, which is idle where no pod is blocked.
    pub data Round (pods : World) : World → Type 0 where
      idle : blocked_pods a.pod_blocker pods ≡ 0 → Round pods pods
      play :
          (now : ℕ) (request : NamespacedName) (news : List Pod) (start_up : Pod → Pod)
          → Plays now request news start_up pods
          → Round pods (round now request news start_up pods)

    pub data Rounds (pods : World) : ℕ → World → Type 0 where
      begin : Rounds pods 0 pods
      next :
          (n : ℕ) (pods' pods'' : World)
          → Rounds pods n pods'
          → Round pods' pods''
          → Rounds pods (suc n) pods''

  -- The pods have UIDs of their own and can be counted, none is starting, and no blocked one is
  -- astray.
  pub record IsSteady (pods : World) : Type 0 where
    pub distinct : Nodup (uids pods)
    pub room : length pods < 0x20_0000_0000_0000
    pub none_starting : starting_pods a.pod_blocker pods ≡ 0
    pub none_astray : length (filter_by is_astray pods) ≡ 0
