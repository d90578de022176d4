-- ===== src/Tests/Runs.antt =====
-- Runs of the reconciler, and of the webhook before it.
use straggler.Base.{◌≡◌, ◌≢◌, refl, [], ◌∷◌, none, true, string_dec, if◌then◌else◌}
use straggler.Base.Dict.{lookup}
use straggler.Base.Float.{whole_floats}
use straggler.Base.Int.{pos, sub64}
use straggler.Base.Result.{ok, panic}
use straggler.Base.Sorting.{insertion_sort}
use straggler.Kube.{Pod}
use straggler.Pacer.Slice.{slice_to}
use straggler.Pacer.Exponential.{new, pace, calculate_allowed_count, min, max}
use straggler.Blocker.StubPod.{new_stub_pod}
use straggler.Blocker.StubPod.Laws.{new_stub_pod-Blocks}
use straggler.Controller.Admission.{check_enabled, handle_pod_admission}
use straggler.Controller.Reconciler.{Reconciler, done, key_of, apply_policy, reconcile}
use straggler.Controller.Reconciler.Decision.{was_evicted, reconcile-decides}
use straggler.Controller.Jobs.{reconcile-handle_pod_admission_job}
use straggler.Tests.{first}
use straggler.Tests.Cluster.{World, staggered, client, group, reconciler}
use straggler.Tests.Webhook.{webhook, job_pod, job_pod_enabled, job_pod_labelled}

abbrev reading : Pod → Reconciler World
reading pod = record reconciler { client = record client { get = λ _ w. (ok pod, w) } }

staggered_enabled : check_enabled reconciler.enable_label staggered.meta ≡ true
unfolding check_enabled string_dec lookup
staggered_enabled = refl

group_id_nonempty : group.id ≢ ""
group_id_nonempty e = cc

evict_calm : (p : Pod) (w : World) → (client.evict p w).0 ≢ panic
evict_calm p w e = cc

paced :
    group.pacer.pace (record { ready = first ∷ []; starting = []; blocked = staggered ∷ [] })
    ≡ ok (staggered ∷ [], staggered ∷ [])
unfolding new pace insertion_sort slice_to calculate_allowed_count min max sub64
paced = refl

reconcile-decides_example : reconcile whole_floats reconciler 100 (key_of staggered) [] ≡ (
    if was_evicted client (key_of staggered) (staggered ∷ []) []
    then (ok done, "staggered" ∷ [])
    else apply_policy whole_floats reconciler 100 (pos 0) staggered ("staggered" ∷ []))
unfolding string_dec lookup
reconcile-decides_example =
    reconcile-decides whole_floats reconciler 100 (key_of staggered) [] [] staggered refl
      staggered_enabled refl "g" refl group_id_nonempty group [] refl (first ∷ []) []
      (staggered ∷ []) [] refl evict_calm (staggered ∷ []) (staggered ∷ []) paced

abbrev blocked_job_pod : Pod
blocked_job_pod = (handle_pod_admission (webhook none) (job_pod, tt)).1.0

reconcile-handle_pod_admission_job_example :
    ((new_stub_pod "stub:1").is_blocked blocked_job_pod.spec ≡ true)
    × (reconcile whole_floats (reading blocked_job_pod) 100 (key_of job_pod) [] ≡ (ok done, []))
unfolding string_dec lookup
reconcile-handle_pod_admission_job_example =
    reconcile-handle_pod_admission_job (webhook none) (new_stub_pod-Blocks "stub:1") job_pod tt
      job_pod_enabled job_pod_labelled whole_floats (reading blocked_job_pod) 100 (key_of job_pod)
      [] [] blocked_job_pod refl refl refl
