-- ===== src/Controller/Rollout.antt =====
-- A staggered group over time: pods come in through the webhook of pkg/controller/admission.go, become
-- ready or are deleted, and the reconciler of pkg/controller/reconciler.go evicts blocked pods. The
-- world is the list of the pods of one group that the API server stores.
pub mod Laws
pub mod Rounds
use mathlib.Core.List.{Perm, Sublist, Nodup}
use straggler.Base.{
  ◌+◌, ℕ, ◌<◌, ◌≡◌, ◌≢◌, List, ◌∷◌, String, some, Bool, true, false, length, filter_by,
}
use straggler.Base.Float.{FloatOps}
use straggler.Base.Result.{Result, ok, panic}
use straggler.Kube.{NamespacedName, ObjectMeta, Pod}
use straggler.Blocker.{Blocks, PodBlocker}
use straggler.Controller.Types.{Client, PodClassification}
use straggler.Controller.Standing.{new_pod_group_standing_classifier}
use straggler.Controller.Standing.Laws.{is_ready_pod, is_starting_pod}
use straggler.Controller.Admission.{Admission, check_enabled, has_key, handle_pod_admission}
use straggler.Controller.Reconciler.{Reconciler, reconcile}
use straggler.Controller.Reconciler.Keeping.{Kept}
use straggler.Pacer.Composite.Counting.{uids}

abbrev pub World : Type 0
World = List Pod

-- The parts that the handlers of one group are made of. The blocker blocks; the tracker's wait ends
-- with the world as it was, and with it the client's list shows all pods of the group; an
-- eviction leaves a part of the pods, and what else the reconciler calls only reads.
pub record IsCluster (a : Admission World) (r : Reconciler World) (group : PodClassification)
    (client : Client World) (group_label : String) : Type 0 where
  pub blocks : Blocks a.pod_blocker
  pub waits :
      (meta : ObjectMeta) (pods : World)
      → (waited : Result (Unit {0})) × (a.flight_tracker.wait_one group.id meta pods
          ≡ (waited, pods))
        × (waited ≢ panic)
  pub standing :
      a.pod_group_classifier ≡ new_pod_group_standing_classifier client a.pod_blocker group_label
  pub lists : (pods : World) → client.list group_label group.id pods ≡ (ok pods, pods)
  pub evicts : (pod : Pod) (pods : World) → Sublist (r.client.evict pod pods).1 pods
  pub gets : (request : NamespacedName) (pods : World) → (r.client.get request pods).1 ≡ pods
  pub classifies :
      (id : String) (pods : World) → (r.classifier.classify_by_group_id id pods).1 ≡ pods
  pub reads :
      (id : String) (pods : World) → (r.pod_group_classifier.classify_pod_group id pods).1 ≡ pods

abbrev pub ready_pods : PodBlocker → World → ℕ
ready_pods blocker pods = length (filter_by (is_ready_pod blocker) pods)

abbrev pub starting_pods : PodBlocker → World → ℕ
starting_pods blocker pods = length (filter_by (is_starting_pod blocker) pods)

module _ (F : FloatOps) (a : Admission World) (r : Reconciler World) (group : PodClassification)
    (cut_off : ℕ) where
  -- A new pod of the group, while fewer than `cut_off` pods are ready.
  pub record IsNew (p : Pod) (pods : World) : Type 0 where
    pub enabled : check_enabled a.enable_label p.meta ≡ true
    pub no_job : has_key a.job_pod_label p.labels ≡ false
    pub in_group : a.classifier.classify p.meta p.spec pods ≡ (ok (some group), pods)
    pub own_uid : Nodup (uids (p ∷ pods))
    pub below : ready_pods a.pod_blocker pods < cut_off
    pub room : length pods < 0x20_0000_0000_0000

  -- What happens to the pods of the group, with how many pods start again by it.
  pub data Step : ℕ → World → World → Type 0 where
    -- The API server asks the webhook for one pod after the other.
    create :
        (p p' : Pod) (pods pods' : World)
        → IsNew p pods
        → handle_pod_admission a (p, pods) ≡ (ok tt, (p', pods'))
        → Step 0 pods (p' ∷ pods')
    -- The status of a pod changes; one that was not starting does not start again.
    settle :
        (p p' : Pod) (pods : World)
        → (is_starting_pod a.pod_blocker p ≡ false → is_starting_pod a.pod_blocker p' ≡ false)
        → Step 0 (p ∷ pods) (p' ∷ pods)
    -- The status of a pod changes in any way: it may lose its readiness.
    relapse : (p p' : Pod) (pods : World) → Step 1 (p ∷ pods) (p' ∷ pods)
    delete : (p : Pod) (pods : World) → Step 0 (p ∷ pods) pods
    run_reconciler :
        (now : ℕ) (request : NamespacedName) (pods : World)
        → Step 0 pods (reconcile F r now request pods).1
    -- The order of the list is of no importance.
    reorder : (pods pods' : World) → Perm pods' pods → Step 0 pods pods'

  -- Any number of steps, with the number of relapses.
  pub data Reach : ℕ → World → World → Type 0 where
    start : (pods : World) → Reach 0 pods pods
    step :
        (n k : ℕ) (pods pods' pods'' : World)
        → Reach n pods pods'
        → Step k pods' pods''
        → Reach (n + k) pods pods''
