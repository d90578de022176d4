-- ===== src/Tests/Rollout.antt =====
-- A group that starts with no pod, paced in steps of four by a composite of one pacer, over a world that is the list of its pods.
use mathlib.Core.List.{Nodup-cons, Nodup-nil, not-mem-nil}
use straggler.Base.{
  ◌+◌, ◌≤◌, ◌≡◌, ◌≢◌, refl, [], ◌∷◌, String, some, true, false, not, ◌==◌, string_eq, arith,
  filter_by, filter_by-sublist, string_dec,
}
use straggler.Base.Dict.{lookup, insert}
use straggler.Base.Float.{whole_floats, whole_floats-IsIeee}
use straggler.Base.Int.{pos, sub64, rem64}
use straggler.Base.Result.{Result, ok, panic}
use straggler.Base.Sorting.{insertion_sort, insertion_sort-IsSort}
use straggler.Kube.{Pod}
use straggler.Pacer.{Pacer, IsLawful}
use straggler.Pacer.Slice.{slice_to}
use straggler.Pacer.Linear.{new, pace, Config}
use straggler.Pacer.Linear.Laws.{new_linear-IsLawful}
use straggler.Pacer.Exponential.{new as new_exponential}
use straggler.Pacer.Exponential.Laws.{new_exponential-IsLawful}
use straggler.Pacer.Composite as Composite
use straggler.Pacer.Composite.{new_composite, run_pacers, count_results, count_of, allowed_by_all}
use straggler.Pacer.Composite.Laws.{new_composite-IsLawful}
use straggler.Pacer.Limits.{IsCapped, new_linear-IsCapped, new_composite-IsCapped}
use straggler.Blocker.StubPod.{new_stub_pod, is_blocked, has_stagger_container}
use straggler.Blocker.StubPod.Laws.{new_stub_pod-Blocks}
use straggler.Controller.Types.{Client, PodClassification}
use straggler.Controller.Standing.{
  new_pod_group_standing_classifier, classify_pods, classify_pod_group, is_pod_ready,
  has_ready_condition,
}
use straggler.Controller.Admission.{
  Admission, check_enabled, has_key, handle_pod_admission, default_enable_label,
  default_stagger_group_id_label, default_job_pod_label,
}
use straggler.Controller.Admission.Decision.{labelled}
use straggler.Controller.Reconciler.{Reconciler}
use straggler.Controller.Rollout.{
  World, IsCluster, IsNew, create, settle, relapse, Reach, start, step, starting_pods,
}
use straggler.Controller.Rollout.Laws.{Reach-limit}
use straggler.Tests.{first, pod_at, ready_condition}

abbrev in_fours : Config
in_fours = record { max_stagger = pos 8; step = pos 4 }

abbrev linear : Pacer
linear = new whole_floats "web" in_fours

abbrev pub exponential : Pacer
exponential =
    new_exponential whole_floats insertion_sort "web"
      (record { min_initial = pos 1; max_stagger = pos 8; multiplier = pos 2 })

four_nonzero : in_fours.step ≢ pos 0
four_nonzero e = ground (arith, e)

linear-IsLawful : IsLawful linear
linear-IsLawful = new_linear-IsLawful whole_floats-IsIeee "web" in_fours four_nonzero

pub exponential-IsLawful : IsLawful exponential
exponential-IsLawful = new_exponential-IsLawful whole_floats insertion_sort-IsSort "web" _

linear-IsCapped : IsCapped linear 8 4
linear-IsCapped = new_linear-IsCapped whole_floats-IsIeee "web" in_fours 8 3 refl refl (omega arith)

-- The limit of the linear pacer holds for both pacers together.
new_composite-IsCapped_example : IsCapped (new_composite "both" (exponential ∷ linear ∷ [])) 8 4
new_composite-IsCapped_example =
    new_composite-IsCapped "both" (exponential ∷ []) linear [] 8 4
      (exponential-IsLawful, (linear-IsLawful, tt)) linear-IsCapped

-- The pacer of a group to which one configuration applies.
abbrev composed : Pacer
composed = new_composite "g" (linear ∷ [])

composed-IsLawful : IsLawful composed
composed-IsLawful c fits = new_composite-IsLawful "g" (linear ∷ []) c (linear-IsLawful, tt) fits

composed-IsCapped : IsCapped composed 8 4
composed-IsCapped =
    new_composite-IsCapped "g" [] linear [] 8 4 (linear-IsLawful, tt) linear-IsCapped

abbrev group : PodClassification
group = record {
  id = "g";
  pacer = composed;
  group_policies = record { max_blocked_duration = pos 0 };
}

abbrev pub client : Client World
client = record {
  get = λ _ pods. (ok first, pods);
  list = λ _ _ pods. (ok pods, pods);
  evict = λ p pods. (ok tt, filter_by (λ q. not (q.uid == p.uid)) pods);
}

abbrev pub webhook : Admission World
webhook = record {
  classifier = record {
    classify = λ _ _ pods. (ok (some group), pods);
    classify_by_group_id = λ _ pods. (ok (some group), pods);
  };
  pod_group_classifier =
      new_pod_group_standing_classifier client (new_stub_pod "stub:1")
        default_stagger_group_id_label;
  pod_blocker = new_stub_pod "stub:1";
  flight_tracker = record { wait_one = λ _ _ pods. (ok tt, pods) };
  enable_label = default_enable_label;
  stagger_group_id_label = default_stagger_group_id_label;
  job_pod_label = default_job_pod_label;
  bypass_failures = true;
}

abbrev pub reconciler : Reconciler World
reconciler = record {
  client = client;
  classifier = webhook.classifier;
  pod_group_classifier = webhook.pod_group_classifier;
  blocked_pod_resync_duration = pos 60;
  enable_label = default_enable_label;
  stagger_group_id_label = default_stagger_group_id_label;
}

abbrev pub waited : Result (Unit {0})
waited = ok tt

pub calm : waited ≢ panic
calm e = cc

pub reads :
    (id : String) (pods : World)
    → (webhook.pod_group_classifier.classify_pod_group id pods).1 ≡ pods
unfolding new_pod_group_standing_classifier classify_pod_group
reads id pods = refl

cluster : IsCluster webhook reconciler group client default_stagger_group_id_label
cluster = record {
  blocks = new_stub_pod-Blocks "stub:1";
  waits = λ meta pods. (waited, refl, calm);
  standing = refl;
  lists = λ pods. refl;
  evicts = λ p pods. filter_by-sublist _ pods;
  gets = λ request pods. refl;
  classifies = λ id pods. refl;
  reads = reads;
}

abbrev newcomer : Pod
newcomer = pod_at "newcomer" ((default_enable_label, "1") ∷ []) 50

abbrev started : Pod
started = labelled default_stagger_group_id_label "g" newcomer

-- With no other pod in the group, the new one is let through.
admitted : handle_pod_admission webhook (newcomer, []) ≡ (ok tt, (started, []))
unfolding new_composite Composite.pace run_pacers count_results count_of allowed_by_all insert
    handle_pod_admission check_enabled string_dec lookup new pace sub64 rem64 slice_to
    new_pod_group_standing_classifier classify_pod_group classify_pods
admitted = refl

newcomer_enabled : check_enabled default_enable_label newcomer.meta ≡ true
unfolding check_enabled string_dec lookup
newcomer_enabled = refl

newcomer_no_job : has_key default_job_pod_label newcomer.labels ≡ false
unfolding string_dec lookup
newcomer_no_job = refl

newcomer-IsNew : IsNew whole_floats webhook reconciler group 8 newcomer []
newcomer-IsNew = record {
  enabled = newcomer_enabled;
  no_job = newcomer_no_job;
  in_group = refl;
  own_uid = Nodup-cons.1 (not-mem-nil, Nodup-nil);
  below = omega arith;
  room = omega arith;
}

-- The new pod is let through, becomes ready, and starts again.
abbrev became_ready : Pod
became_ready = record started { conditions = ready_condition ∷ [] }

three_steps : Reach whole_floats webhook reconciler group 8 1 [] (started ∷ [])
unfolding is_pod_ready has_ready_condition string_dec new_stub_pod is_blocked has_stagger_container
three_steps =
    step 0 1 [] (became_ready ∷ []) (started ∷ [])
      (step 0 0 [] (started ∷ []) (became_ready ∷ [])
        (step 0 0 [] [] (started ∷ []) (start [])
          (create newcomer started [] [] newcomer-IsNew admitted))
        (settle started became_ready [] (λ h. refl)))
      (relapse became_ready started [])

Reach-limit_example : starting_pods (new_stub_pod "stub:1") (started ∷ []) ≤ 4 + 1
Reach-limit_example =
    Reach-limit cluster whole_floats composed-IsLawful 8 4 composed-IsCapped 1 [] (started ∷ [])
      three_steps (omega arith)
