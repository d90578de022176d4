-- ===== src/Controller/Standing.antt =====
-- pkg/controller/podgroupstandingclassifier.go.
pub mod Laws
use straggler.Base.{
  List, [], ◌∷◌, ◌++◌, String, Bool, true, false, ◌&&◌, ◌==◌, string_eq, if◌then◌else◌,
}
use straggler.Base.State.{M, ◌>>=◌, pure}
use straggler.Kube.{Condition, Pod}
use straggler.Blocker.{PodBlocker}
use straggler.Controller.Types.{Client, PodGroupStandingClassifier}

-- The loop of isPodReady over the conditions.
unfoldable pub has_ready_condition : List Condition → Bool
has_ready_condition [] = false
has_ready_condition (condition ∷ rest) =
    if condition.kind == "Ready" && condition.status == "True"
    then true
    else has_ready_condition rest

unfoldable pub is_pod_ready : Pod → Bool
is_pod_ready pod = has_ready_condition pod.conditions

-- The loop of ClassifyPodGroup, with the three slices that it appends to.
unfoldable pub classify_pods :
    PodBlocker → List Pod → List Pod → List Pod → List Pod → List Pod × List Pod × List Pod
classify_pods blocker [] ready starting blocked = (ready, starting, blocked)
classify_pods blocker (pod ∷ pods) ready starting blocked =
    let as_blocked = classify_pods blocker pods ready starting (blocked ++ pod ∷ []) in
    let as_ready = classify_pods blocker pods (ready ++ pod ∷ []) starting blocked in
    let as_starting = classify_pods blocker pods ready (starting ++ pod ∷ []) blocked in
    if blocker.is_blocked pod.spec
    then as_blocked
    else (if is_pod_ready pod then as_ready else as_starting)

module _ {W : Type 0} (client : Client W) (blocker : PodBlocker) (group_label : String) where
  unfoldable pub classify_pod_group : String → M W (List Pod × List Pod × List Pod)
  classify_pod_group group_id = do
    items ← client.list group_label group_id
    pure (classify_pods blocker items [] [] [])

  -- NewPodGroupStandingClassifier
  unfoldable pub new_pod_group_standing_classifier : PodGroupStandingClassifier W
  new_pod_group_standing_classifier = record { classify_pod_group = classify_pod_group }
