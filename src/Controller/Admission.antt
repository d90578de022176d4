-- ===== src/Controller/Admission.antt =====
-- pkg/controller/admission.go: the webhook that sees every pod and every job before it is stored.
pub mod Job
pub mod Laws
pub mod Decision
use straggler.Base.{
  List, [], ◌∷◌, ◌++◌, String, Option, none, some, Bool, true, false, not, ◌&&◌, length, eqb, ◌==◌,
  string_eq, if◌then◌else◌,
}
use straggler.Base.Dict.{GoMap, get_key, set_key, make_if_nil, len_map}
use straggler.Base.Result.{Result, ok, err, panic}
use straggler.Base.State.{M, ◌>>=◌, ◌>>◌, pure, from_result, or_wrap, ignore_error}
use straggler.Kube.{ObjectMeta, Pod, PodSpec}
use straggler.Blocker.{PodBlocker}
use straggler.Controller.Types.{
  PodClassification, PodClassifier, PodGroupStandingClassifier, AdmissionFlightTracker,
}

abbrev pub default_enable_label : String
default_enable_label = "v1.straggler.technicianted/enable"

abbrev pub default_stagger_group_id_label : String
default_stagger_group_id_label = "v1.straggler.technicianted/group"

abbrev pub default_staggered_pod_label : String
default_staggered_pod_label = "v1.straggler.technicianted/staggered"

abbrev pub default_job_pod_label : String
default_job_pod_label = "v1.straggler.technicianted/jobPod"

-- checkEnabled, of the admission handler and of the reconciler alike.
unfoldable pub check_enabled : String → ObjectMeta → Bool
check_enabled enable_label meta =
    if eqb (len_map meta.labels) 0 then false else elim (get_key enable_label meta.labels) [
      | none ↦ false
      | some value ↦ if not (value == "1") then false else true
    ]

abbrev pub has_key : String → GoMap → Bool
has_key k m = elim (get_key k m) [ none ↦ false | some v ↦ true ]

with_labels : Pod → Result GoMap → Result Pod
with_labels pod (ok labels) = ok (record pod { meta = record (pod.meta) { labels = labels } })
with_labels pod (err e) = err e
with_labels pod panic = panic

with_spec : Pod → Result PodSpec → Result Pod
with_spec pod (ok spec) = ok (record pod { spec = spec })
with_spec pod (err e) = err e
with_spec pod panic = panic

-- `pod.Labels[k] = v`
unfoldable pub set_label : String → String → Pod → Result Pod
unfolding with_labels
set_label k v pod = with_labels pod (set_key k v pod.labels)

-- `if pod.Labels == nil { pod.Labels = make(map[string]string) }`
unfoldable pub make_labels : Pod → Pod
make_labels pod = record pod { meta = record (pod.meta) { labels = make_if_nil pod.labels } }

module _ (W : Type 0) where
  pub record Admission : Type 0 where
    pub classifier : PodClassifier W
    pub pod_group_classifier : PodGroupStandingClassifier W
    pub pod_blocker : PodBlocker
    pub flight_tracker : AdmissionFlightTracker W
    pub enable_label : String
    pub stagger_group_id_label : String
    pub job_pod_label : String
    pub bypass_failures : Bool

-- The entry of the returned pods that the admitted pod is recognised by.
unfoldable pub is_same_pod : Pod → Pod → Bool
is_same_pod pod other =
    other.name == pod.name
    && (other.namespace == pod.namespace && other.generate_name == pod.generate_name)

-- The loop over the unblocked pods.
unfoldable pub lets_through : Pod → List Pod → Bool
unfolding is_same_pod
lets_through pod [] = false
lets_through pod (other ∷ rest) = if is_same_pod pod other then true else lets_through pod rest

module _ {W : Type 0} where
  -- The handler changes the pod that it is given, also where it then fails.
  abbrev pub in_world : {A : Type 0} → M W A → M (Pod × W) A
  in_world m (pod, w) = let (r, w') = m w in (r, (pod, w'))

  abbrev pub get_pod : M (Pod × W) Pod
  get_pod (pod, w) = (ok pod, (pod, w))

  put_pod : Pod × W → Result Pod → Result (Unit {0}) × (Pod × W)
  put_pod (pod, w) (ok pod') = (ok tt, (pod', w))
  put_pod (pod, w) (err e) = (err e, (pod, w))
  put_pod (pod, w) panic = (panic, (pod, w))

  unfoldable pub change_pod : (Pod → Result Pod) → M (Pod × W) (Unit {0})
  unfolding put_pod
  change_pod f (pod, w) = put_pod (pod, w) (f pod)

  unfoldable pub block_pod : Admission W → M (Pod × W) (Unit {0})
  unfolding change_pod with_spec
  block_pod a = change_pod (λ pod. with_spec pod (a.pod_blocker.block pod.spec))

  -- The end of handlePodAdmission: the pod is let through, or marked and blocked.
  unfoldable pub block_unless_allowed : Admission W → List Pod → M (Pod × W) (Unit {0})
  unfolding lets_through set_label block_pod
  block_unless_allowed a unblocked = do
    pod ← get_pod
    if lets_through pod unblocked
        then pure tt
        else (do change_pod (set_label default_staggered_pod_label "1"); block_pod a)

  -- The part of handlePodAdmission for a pod that belongs to a group. The pacer sees the pod behind
  -- the blocked pods of the group.
  unfoldable pub admit_to_group : Admission W → PodClassification → M (Pod × W) (Unit {0})
  unfolding block_unless_allowed make_labels
  admit_to_group a group = do
    change_pod (λ pod. set_label a.stagger_group_id_label group.id (make_labels pod))
    pod ← get_pod
    ignore_error (in_world (a.flight_tracker.wait_one group.id pod.meta))
    (ready, starting, blocked) ←
        or_wrap "failed to classify pod group"
          (in_world (a.pod_group_classifier.classify_pod_group group.id))
    (unblocked, _) ← or_wrap "failed to pace pod" (
        from_result (
          group.pacer.pace
            (record { ready = ready; starting = starting; blocked = blocked ++ pod ∷ [] })))
    block_unless_allowed a unblocked

  unfoldable pub admit_if_classified :
      Admission W → Option PodClassification → M (Pod × W) (Unit {0})
  unfolding admit_to_group
  admit_if_classified a none = pure tt
  admit_if_classified a (some group) = admit_to_group a group

  unfoldable pub classify_and_admit : Admission W → Pod → M (Pod × W) (Unit {0})
  unfolding admit_if_classified
  classify_and_admit a pod = do
    group ← or_wrap "failed to classify group" (in_world (a.classifier.classify pod.meta pod.spec))
    admit_if_classified a group

  -- A pod of a job is blocked at once, and not classified.
  unfoldable pub handle_pod_admission : Admission W → M (Pod × W) (Unit {0})
  unfolding check_enabled classify_and_admit
  handle_pod_admission a = do
    pod ← get_pod
    if not (check_enabled a.enable_label pod.meta)
        then pure tt
        else (if not (eqb (len_map pod.labels) 0) && has_key a.job_pod_label pod.labels
            then block_pod a
            else classify_and_admit a pod)
