-- ===== src/Tests/Labels.antt =====
-- A webhook with a label of its own for the enabled pods.
use straggler.Base.{◌≡◌, ◌≢◌, refl, [], ◌∷◌, ◌++◌, some, true, false, All, string_dec, String}
use straggler.Base.Dict.{lookup, insert, get_key}
use straggler.Base.Float.{whole_floats}
use straggler.Base.Result.{ok}
use straggler.Base.Int.{sub64}
use straggler.Base.Sorting.{insertion_sort}
use straggler.Pacer.Slice.{slice_to}
use straggler.Pacer.Exponential.{new, pace, calculate_allowed_count, min, max}
use straggler.Kube.{Pod}
use straggler.Blocker.StubPod.{new_stub_pod, block}
use straggler.Blocker.StubPod.Laws.{new_stub_pod-Blocks}
use straggler.Controller.Admission.{
  Admission, check_enabled, has_key, is_same_pod, handle_pod_admission, default_enable_label,
  default_stagger_group_id_label, default_job_pod_label,
}
use straggler.Controller.Admission.Decision.{HasNamesOf, is_same_pod-false, labelled}
use straggler.Controller.Reconciler.{done, key_of, reconcile}
use straggler.Controller.Types.{Client}
use straggler.Setup.{new_admission, new_reconciler}
use straggler.Setup.Labels.{new_reconciler-new_admission}
use straggler.Tests.{first, second, third, fourth, pod_at}
use straggler.Tests.Webhook.{webhook, pacer, group_of, calm, waited}

abbrev own_label : String
own_label = "staggered.example/enable"

abbrev sixth : Pod
sixth = pod_at "sixth" ((own_label, "1") ∷ []) 60

abbrev grouped_sixth : Pod
grouped_sixth = labelled default_stagger_group_id_label "g" sixth

abbrev labelled_webhook : Admission (Unit {0})
labelled_webhook =
    new_admission (webhook (some pacer)).classifier (webhook (some pacer)).pod_group_classifier
      (new_stub_pod "stub:1") (webhook (some pacer)).flight_tracker true own_label

abbrev after : Pod
after = (handle_pod_admission labelled_webhook (sixth, tt)).1.0

handled : handle_pod_admission labelled_webhook (sixth, tt) ≡ (ok tt, (after, tt))
unfolding new_admission handle_pod_admission check_enabled string_dec lookup insert new pace
    insertion_sort slice_to calculate_allowed_count min max sub64 new_stub_pod block
handled = refl

own_enabled : get_key own_label sixth.labels ≡ some "1"
unfolding string_dec lookup
own_enabled = refl

not_default : get_key default_enable_label sixth.labels ≢ some "1"
unfolding string_dec lookup
not_default e = cc

no_job : has_key default_job_pod_label sixth.labels ≡ false
unfolding string_dec lookup
no_job = refl

abbrev client : Client (Unit {0})
client = record {
  get = λ _ w. (ok after, w);
  list = λ _ _ w. (ok [], w);
  evict = λ _ w. (ok tt, w);
}

paced :
    pacer.pace (record {
      ready = first ∷ [];
      starting = second ∷ [];
      blocked = (fourth ∷ third ∷ []) ++ grouped_sixth ∷ [];
    })
    ≡ ok (third ∷ [], third ∷ fourth ∷ grouped_sixth ∷ [])
unfolding new pace insertion_sort slice_to calculate_allowed_count min max sub64
paced = refl

third_differs : is_same_pod grouped_sixth third ≡ false
unfolding is_same_pod string_dec
third_differs = refl

other_names : All (λ x. ¬ HasNamesOf grouped_sixth x) (third ∷ [])
other_names = (is_same_pod-false grouped_sixth third third_differs, tt)

new_reconciler-new_admission_example :
    ((new_stub_pod "stub:1").is_blocked after.spec ≡ true)
    × (reconcile whole_floats
          (new_reconciler client
            (webhook (some pacer)).classifier
            (webhook (some pacer)).pod_group_classifier)
          100
          (key_of after)
          tt
        ≡ (ok done, tt))
new_reconciler-new_admission_example =
    new_reconciler-new_admission whole_floats client (webhook (some pacer)).classifier
      (webhook (some pacer)).pod_group_classifier (new_stub_pod "stub:1")
      (webhook (some pacer)).flight_tracker true own_label (new_stub_pod-Blocks "stub:1") sixth
      after tt tt handled own_enabled not_default no_job (group_of pacer) tt refl waited tt refl
      calm (first ∷ []) (second ∷ []) (fourth ∷ third ∷ []) tt refl (third ∷ [])
      (third ∷ fourth ∷ grouped_sixth ∷ []) paced other_names 100 (key_of after) tt tt after refl
      refl
