-- ===== src/Tests/Rounds.antt =====
-- A group with one blocked pod and the composite of an exponential pacer, which starts in one round.
use mathlib.Core.List.{
  Perm, Nodup, Nodup-cons, Nodup-nil, not-mem-nil, mem-cons_self, mem-cons_of_mem,
}
use mathlib.Core.List.Perm
use straggler.Base.{
  ℕ, zero, suc, ◌*◌, ◌++◌, ◌<◌, ◌≡◌, ◌≢◌, refl, ap, subst, [], ◌∷◌, some, none, true, false, not,
  ◌==◌, string_eq, arith, filter_by, filter_by-sublist, string_dec, length,
}
use straggler.Base.Dict.{lookup, insert}
use straggler.Base.Float.{whole_floats}
use straggler.Base.Int.{pos, leb_ℤ, sub64}
use straggler.Base.Result.{ok}
use straggler.Base.Sorting.{insertion_sort, insertion_sort-IsSort, filter_by-Perm}
use straggler.Kube.{Pod, NamespacedName-discrete}
use straggler.Pacer.{Pacer, IsLawful}
use straggler.Pacer.Exponential as Exponential
use straggler.Pacer.Exponential.{Config, calculate_allowed_count, max, min}
use straggler.Pacer.Slice.{slice_to}
use straggler.Pacer.Exponential.Laws.{target}
use straggler.Pacer.Progress.{
  IsProgressive, new_exponential-IsProgressive, new_composite-IsProgressive,
}
use straggler.Pacer.Composite as Composite
use straggler.Pacer.Composite.{new_composite, run_pacers, count_results, count_of, allowed_by_all}
use straggler.Pacer.Composite.Laws.{new_composite-IsLawful}
use straggler.Pacer.Composite.Counting.{uids}
use straggler.Blocker.StubPod.{new_stub_pod, stagger_container, is_blocked, has_stagger_container}
use straggler.Blocker.StubPod.Laws.{new_stub_pod-Blocks}
use straggler.Controller.Types.{PodClassification, PodClassifier}
use straggler.Controller.Admission.{
  Admission, check_enabled, default_enable_label, default_stagger_group_id_label,
  default_staggered_pod_label,
}
use straggler.Controller.Standing.{
  new_pod_group_standing_classifier, classify_pod_group, classify_pods, is_pod_ready,
  has_ready_condition,
}
use straggler.Controller.Standing.Laws.{is_starting_pod, is_ready_pod}
use straggler.Controller.Reconciler.{Reconciler, key_of, reconcile}
use straggler.Controller.Rollout.{World, IsCluster, ready_pods}
use straggler.Controller.Rollout.Rounds.{
  IsPrompt, IsFresh, IsSteady, Plays, Rounds, begin, next, play, round, blocked_pods,
}
use straggler.Controller.Rollout.Rounds.Laws.{Rounds-complete}
use straggler.Tests.{pod_at, ready_condition}
use straggler.Tests.Rollout as Rollout
use straggler.Tests.Rollout.{client, exponential, exponential-IsLawful, waited, calm, reads}

abbrev pub group : Pacer → PodClassification
group pacer = record {
  id = "g";
  pacer = pacer;
  group_policies = record { max_blocked_duration = pos 0 };
}

abbrev classifier : Pacer → PodClassifier World
classifier pacer = record {
  classify = λ _ _ pods. (ok (some (group pacer)), pods);
  classify_by_group_id = λ _ pods. (ok (some (group pacer)), pods);
}

abbrev pub webhook : Pacer → Admission World
webhook pacer = record Rollout.webhook { classifier = classifier pacer }

-- The pod that the reconciler is asked about.
abbrev pub held : Pod
held =
    record (pod_at "held"
      ((default_enable_label, "1")
        ∷ (default_stagger_group_id_label, "g")
        ∷ (default_staggered_pod_label, "1")
        ∷ [])
      10) {
        spec = record {
          node_selector = none;
          init_containers = stagger_container "stub:1" ∷ [];
          containers = [];
        };
      }

abbrev pub reconciler : Pacer → Reconciler World
reconciler pacer = record Rollout.reconciler {
  classifier = classifier pacer;
  client = record client { get = λ _ pods. (ok held, pods) };
}

pub cluster :
    (pacer : Pacer)
    → IsCluster
        (webhook pacer)
        (reconciler pacer)
        (group pacer)
        client
        default_stagger_group_id_label
cluster pacer = record {
  blocks = new_stub_pod-Blocks "stub:1";
  waits = λ meta pods. (waited, refl, calm);
  standing = refl;
  lists = λ pods. refl;
  evicts = λ p pods. filter_by-sublist _ pods;
  gets = λ request pods. refl;
  classifies = λ id pods. refl;
  reads = reads;
}

without_fresh :
    (p : Pod) (rest : World)
    → Nodup (uids (p ∷ rest))
    → filter_by (λ q. not (q.uid == p.uid)) rest ≡ rest
without_fresh p [] distinct = refl
without_fresh p (q ∷ rest) distinct =
    let (alone, apart) = Nodup-cons.0 distinct in
    let later =
      without_fresh p rest
        (Nodup-cons.1 (λ m. alone (mem-cons_of_mem q.uid m), (Nodup-cons.0 apart).1)) in
    let differ : q.uid ≢ p.uid = λ e. alone (rw e mem-cons_self) in ground (arith, later, differ)

evicts_one :
    (p : Pod) (pods rest : World)
    → Nodup (uids pods)
    → Perm pods (p ∷ rest)
    → Perm (filter_by (λ q. not (q.uid == p.uid)) pods) rest
evicts_one p pods rest distinct perm =
    let distinct' = Perm.nodup (Perm.map (λ q. q.uid) perm) distinct in
    let others : filter_by (λ q. not (q.uid == p.uid)) (p ∷ rest) ≡ rest =
      ground (arith, without_fresh p rest distinct') in
    subst (λ w. Perm (filter_by (λ q. not (q.uid == p.uid)) pods) w) others (filter_by-Perm _ perm)

pub prompt : (pacer : Pacer) → IsPrompt (webhook pacer) (reconciler pacer) (group pacer)
prompt pacer = record {
  evicts_one = evicts_one;
  evicts_calmly = λ p pods. calm;
  finds = λ pods. refl;
  no_maximum = refl;
  same_standing = refl;
  same_enable = refl;
  same_group = refl;
  enable_group = λ e. cc;
  enable_mark = λ e. cc;
  group_mark = λ e. cc;
  named = λ e. cc;
}

abbrev doubling : Config whole_floats
doubling = record { min_initial = pos 1; max_stagger = pos 8; multiplier = pos 2 }

targets :
    (r : ℕ)
    → leb_ℤ doubling.max_stagger (pos r) ≡ false
    → (t : ℕ) × (target whole_floats doubling r ≡ pos t) × (0 < t) × (t < 0x8000_0000_0000_0000)
targets zero h = (1, refl, omega arith, omega arith)
targets (suc r) h = (suc r * 2, refl, omega arith, ground arith)

progressive : IsProgressive exponential
progressive =
    new_exponential-IsProgressive whole_floats insertion_sort-IsSort "web" doubling targets

-- The pacer of a group to which one configuration applies.
abbrev composed : Pacer
composed = new_composite "g" (exponential ∷ [])

composed-IsLawful : IsLawful composed
composed-IsLawful c fits =
    new_composite-IsLawful "g" (exponential ∷ []) c (exponential-IsLawful, tt) fits

composed-IsProgressive : IsProgressive composed
composed-IsProgressive =
    new_composite-IsProgressive "g" exponential exponential-IsLawful progressive

abbrev pub again : Pod
again = pod_at "again" ((default_enable_label, "1") ∷ []) 0

pub again-IsFresh : (pacer : Pacer) → IsFresh (webhook pacer) (reconciler pacer) (group pacer) again
unfolding check_enabled string_dec lookup is_blocked new_stub_pod has_stagger_container
again-IsFresh pacer = record {
  enabled = refl;
  no_job = refl;
  in_group = λ pods. refl;
  unblocked = refl;
  unstored = refl;
}

abbrev pub start_up : Pod → Pod
start_up p = record p { conditions = ready_condition ∷ [] }

pub starts :
    (pacer : Pacer) (p : Pod)
    → is_starting_pod (webhook pacer).pod_blocker p ≡ true
    → is_ready_pod (webhook pacer).pod_blocker (start_up p) ≡ true
unfolding is_pod_ready has_ready_condition string_dec
starts pacer p h = ground (arith, h)

evicted_all : (reconcile whole_floats (reconciler composed) 100 (key_of held) (held ∷ [])).1 ≡ []
unfolding reconcile check_enabled string_dec lookup Exponential.new Exponential.pace sub64 slice_to
    new_composite Composite.pace run_pacers count_results count_of allowed_by_all insert
    insertion_sort calculate_allowed_count max min new_pod_group_standing_classifier
    classify_pod_group classify_pods is_blocked new_stub_pod has_stagger_container
    NamespacedName-discrete
evicted_all = refl

held_listed : held ∷ [] ≡ [] ++ held ∷ []
held_listed = refl

plays :
    Plays
      (webhook composed)
      (reconciler composed)
      (group composed)
      whole_floats
      100
      (key_of held)
      (again ∷ [])
      start_up
      (held ∷ [])
unfolding is_blocked string_dec new_stub_pod has_stagger_container
plays = record {
  front = [];
  pod = held;
  back = [];
  listed = held_listed;
  waits = refl;
  reads = refl;
  fresh = (again-IsFresh composed, tt);
  as_many = omega (arith, ap (λ (w : World). length w) evicted_all);
  own_uids = rw evicted_all (Nodup-cons.1 (not-mem-nil, Nodup-nil));
  becomes_ready = starts composed;
  same_uid = λ p. refl;
}

steady : IsSteady (webhook composed) (reconciler composed) (group composed) (held ∷ [])
unfolding check_enabled string_dec lookup is_blocked new_stub_pod has_stagger_container
steady = record {
  distinct = Nodup-cons.1 (not-mem-nil, Nodup-nil);
  room = omega arith;
  none_starting = refl;
  none_astray = refl;
}

abbrev after : World
after =
    round (webhook composed) (reconciler composed) (group composed) whole_floats 100 (key_of held)
      (again ∷ []) start_up (held ∷ [])

one_blocked : blocked_pods (webhook composed).pod_blocker (held ∷ []) ≡ 1
unfolding is_blocked string_dec new_stub_pod has_stagger_container
one_blocked = refl

one_round :
    Rounds
      (webhook composed)
      (reconciler composed)
      (group composed)
      whole_floats
      (held ∷ [])
      (blocked_pods (webhook composed).pod_blocker (held ∷ []))
      after
one_round =
    rw one_blocked
      (next 0 (held ∷ []) after begin (play 100 (key_of held) (again ∷ []) start_up plays))

Rounds-complete_example :
    (length after ≡ 1) × (ready_pods (webhook composed).pod_blocker after ≡ length after)
Rounds-complete_example =
    Rounds-complete (cluster composed) (prompt composed) composed-IsLawful composed-IsProgressive
      whole_floats (held ∷ []) after steady one_round
