-- ===== src/Tests/Webhook.antt =====
-- The webhook in a world without state, on a group that is full.
use straggler.Base.{
  All, Any, Option, ◌≡◌, ◌≢◌, ◌⊎◌, refl, List, [], ◌∷◌, ◌++◌, Option, none, some, true, false,
  string_dec,
}
use straggler.Base.Dict.{lookup}
use straggler.Base.Float.{whole_floats}
use straggler.Base.Int.{pos, sub64}
use straggler.Base.Result.{Result, ok, err, panic, failed, wrapped}
use straggler.Base.Sorting.{insertion_sort}
use straggler.Kube.{Pod, PodSpec}
use straggler.Pacer.{Pacer}
use straggler.Pacer.Slice.{slice_to}
use straggler.Pacer.Exponential.{new, pace, calculate_allowed_count, min, max, Config}
use straggler.Blocker.StubPod.{new_stub_pod}
use straggler.Blocker.StubPod.Laws.{new_stub_pod-Blocks}
use straggler.Controller.Types.{PodClassification}
use straggler.Controller.Admission.{
  Admission, check_enabled, has_key, classify_and_admit, handle_pod_admission, default_enable_label,
  default_stagger_group_id_label, default_job_pod_label, default_staggered_pod_label,
}
use straggler.Controller.Admission.Laws.{SpecIsSafe, handle_pod_admission-SpecIsSafe}
use straggler.Controller.Admission.Decision.{
  HasNamesOf, labelled, handle_pod_admission-decides, default_fails_open,
}
use straggler.Controller.Admission.Job.{
  pod, Job, PodFailurePolicyRule, default, handle_job_admission, rules_of,
}
use straggler.Controller.Admission.Job.Laws.{
  IsFirstDisruption, or_ignore, handle_job_admission-decides,
}
use straggler.Tests.{first, second, third, fourth, pod_at, labelled_meta}

abbrev doubling : Config whole_floats
doubling = record { min_initial = pos 1; max_stagger = pos 8; multiplier = pos 2 }

abbrev pub group_of : Pacer → PodClassification
group_of pacer = record {
  id = "g";
  pacer = pacer;
  group_policies = record { max_blocked_duration = pos 0 };
}

-- The webhook where every enabled pod belongs to a group with the pacer, if there is one, and no pod
-- can be classified otherwise.
abbrev classified_by : Option Pacer → Result (Option PodClassification)
classified_by none = err (failed "down")
classified_by (some pacer) = ok (some (group_of pacer))

abbrev pub webhook : Option Pacer → Admission (Unit {0})
webhook pacer = record {
  classifier = record {
    classify = λ _ _ w. (classified_by pacer, w);
    classify_by_group_id = λ _ w. (classified_by pacer, w);
  };
  pod_group_classifier = record {
    classify_pod_group = λ _ w. (ok (first ∷ [], second ∷ [], fourth ∷ third ∷ []), w);
  };
  pod_blocker = new_stub_pod "stub:1";
  flight_tracker = record { wait_one = λ _ _ w. (ok tt, w) };
  enable_label = default_enable_label;
  stagger_group_id_label = default_stagger_group_id_label;
  job_pod_label = default_job_pod_label;
  bypass_failures = true;
}

abbrev pub pacer : Pacer
pacer = new whole_floats insertion_sort "web" doubling

abbrev fifth : Pod
fifth = pod_at "fifth" ((default_enable_label, "1") ∷ []) 50

abbrev grouped_fifth : Pod
grouped_fifth = labelled default_stagger_group_id_label "g" fifth

abbrev pub job_pod : Pod
job_pod = pod_at "job" ((default_enable_label, "1") ∷ (default_job_pod_label, "") ∷ []) 50

abbrev a_job : Job
a_job = record {
  template = labelled_meta "job" ((default_enable_label, "1") ∷ []) 50;
  pod_failure_policy = none;
}

fifth_enabled : check_enabled default_enable_label fifth.meta ≡ true
unfolding check_enabled string_dec lookup
fifth_enabled = refl

fifth_no_job : has_key default_job_pod_label fifth.labels ≡ false
unfolding string_dec lookup
fifth_no_job = refl

pub job_pod_enabled : check_enabled default_enable_label job_pod.meta ≡ true
unfolding check_enabled string_dec lookup
job_pod_enabled = refl

pub job_pod_labelled : has_key default_job_pod_label job_pod.labels ≡ true
unfolding string_dec lookup
job_pod_labelled = refl

abbrev pub waited : Result (Unit {0})
waited = ok tt

pub calm : waited ≢ panic
calm e = cc

paced :
    pacer.pace (record {
      ready = first ∷ [];
      starting = second ∷ [];
      blocked = (fourth ∷ third ∷ []) ++ grouped_fifth ∷ [];
    })
    ≡ ok (third ∷ [], third ∷ fourth ∷ grouped_fifth ∷ [])
unfolding new pace insertion_sort slice_to calculate_allowed_count min max sub64
paced = refl

handle_pod_admission-SpecIsSafe_example :
    SpecIsSafe
      (webhook (some pacer))
      (new_stub_pod-Blocks "stub:1")
      fifth.spec
      (handle_pod_admission (webhook (some pacer)) (fifth, tt))
handle_pod_admission-SpecIsSafe_example =
    handle_pod_admission-SpecIsSafe (webhook (some pacer)) (new_stub_pod-Blocks "stub:1") fifth tt

handle_pod_admission-decides_example :
    (Any (HasNamesOf grouped_fifth) (third ∷ [])
      × (handle_pod_admission (webhook (some pacer)) (fifth, tt) ≡ (ok tt, (grouped_fifth, tt))))
    ⊎ (All (λ x. ¬ HasNamesOf grouped_fifth x) (third ∷ [])
        × ((spec : PodSpec) × ((new_stub_pod "stub:1").is_blocked spec ≡ true)
            × (handle_pod_admission (webhook (some pacer)) (fifth, tt) ≡ (
              ok tt,
              (record (labelled default_staggered_pod_label "1" grouped_fifth) { spec = spec }, tt),
            ))))
handle_pod_admission-decides_example =
    handle_pod_admission-decides (webhook (some pacer)) fifth tt fifth_enabled fifth_no_job
      (group_of pacer) tt refl (ok tt) tt refl calm (first ∷ []) (second ∷ []) (fourth ∷ third ∷ [])
      tt refl (new_stub_pod-Blocks "stub:1") (third ∷ []) (third ∷ fourth ∷ grouped_fifth ∷ [])
      paced

unclassified :
    handle_pod_admission (webhook none) (fifth, tt)
    ≡ (err (wrapped "failed to classify group" (failed "down")), (fifth, tt))
unfolding handle_pod_admission check_enabled classify_and_admit string_dec lookup
unclassified = refl

default_fails_open_example :
    (default (webhook none) (pod fifth) tt ≡ (ok tt, pod fifth, tt)) × (fifth.spec ≡ fifth.spec)
default_fails_open_example =
    default_fails_open (webhook none) tt refl (new_stub_pod-Blocks "stub:1") fifth fifth
      (wrapped "failed to classify group" (failed "down")) tt unclassified

a_job_enabled : check_enabled default_enable_label a_job.template ≡ true
unfolding check_enabled string_dec lookup
a_job_enabled = refl

handle_job_admission-decides_example :
    (j' : Job) × (handle_job_admission default_enable_label a_job ≡ (ok tt, j'))
    × ((o : Option PodFailurePolicyRule) × IsFirstDisruption (rules_of a_job.pod_failure_policy) o
        × IsFirstDisruption (rules_of j'.pod_failure_policy) (some (or_ignore o)))
    × ((rs : List PodFailurePolicyRule) × (rules_of j'.pod_failure_policy ≡ [] ++ rs))
    × (j'.template ≡ a_job.template)
handle_job_admission-decides_example =
    handle_job_admission-decides default_enable_label a_job a_job_enabled
