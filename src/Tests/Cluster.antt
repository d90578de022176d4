-- ===== src/Tests/Cluster.antt =====
-- The standing of a group, and the reconciler over a world that records the evicted pods.
use mathlib.Core.HLevel.{hedberg}
use mathlib.Core.Logic.{∥∥₁_elim, inl, inr}
use mathlib.Core.List.{Perm, Mem, eq-or-mem_of_mem-cons, not-mem-nil}
use straggler.Base.{
  ◌≡◌, refl, ap, subst, string_dec, Option, List, [], ◌∷◌, ◌++◌, String, some, filter_by, All,
  arith,
}
use straggler.Base.Dict.{lookup}
use straggler.Base.Float.{whole_floats}
use straggler.Base.Int.{pos, sub64}
use straggler.Base.Result.{Result, ok}
use straggler.Base.Sorting.{insertion_sort, insertion_sort-IsSort}
use straggler.Kube.{NamespacedName-discrete, Pod}
use straggler.Pacer.{Fits, IsLawful}
use straggler.Pacer.Slice.{slice_to}
use straggler.Pacer.Exponential.{new, pace, calculate_allowed_count, min, max}
use straggler.Pacer.Exponential.Laws.{new_exponential-IsLawful}
use straggler.Blocker.StubPod.{new_stub_pod}
use straggler.Controller.Types.{Client, PodClassification}
use straggler.Controller.Admission.{
  default_enable_label, default_stagger_group_id_label, default_staggered_pod_label,
}
use straggler.Controller.Standing.{classify_pod_group}
use straggler.Controller.Standing.Laws.{
  is_ready_pod, is_starting_pod, is_blocked_pod, classify_pod_group-partition,
}
use straggler.Controller.Reconciler.{Reconciler, done, key_of, reconcile}
use straggler.Controller.Reconciler.Evictions.{Trusted, reconcile-Preserves}
use straggler.Tests.{first, second, third, pod_at}

-- The world is the list of the names of the evicted pods.
abbrev pub World : Type 0
World = List String

abbrev pub staggered : Pod
staggered =
    pod_at "staggered"
      ((default_enable_label, "1")
        ∷ (default_stagger_group_id_label, "g")
        ∷ (default_staggered_pod_label, "1")
        ∷ [])
      40

abbrev pub client : Client World
client = record {
  get = λ _ w. (ok staggered, w);
  list = λ _ _ w. (ok (first ∷ second ∷ third ∷ []), w);
  evict = λ p w. (ok tt, p.name ∷ w);
}

abbrev pub group : PodClassification
group = record {
  id = "g";
  pacer =
      new whole_floats insertion_sort "web"
        (record { min_initial = pos 1; max_stagger = pos 8; multiplier = pos 2 });
  group_policies = record { max_blocked_duration = pos 0 };
}

abbrev pub reconciler : Reconciler World
reconciler = record {
  client = client;
  classifier = record {
    classify = λ _ _ w. (ok (some group), w);
    classify_by_group_id = λ _ w. (ok (some group), w);
  };
  pod_group_classifier = record {
    classify_pod_group = λ _ w. (ok (first ∷ [], [], staggered ∷ []), w);
  };
  blocked_pod_resync_duration = pos 60;
  enable_label = default_enable_label;
  stagger_group_id_label = default_stagger_group_id_label;
}

classify_pod_group-partition_example :
    (ready : List Pod) × (starting : List Pod) × (blocked : List Pod) × (classify_pod_group client
        (new_stub_pod "stub:1")
        "group"
        "g"
        []
      ≡ (ok (ready, starting, blocked), []))
    × (ready ≡ filter_by (is_ready_pod (new_stub_pod "stub:1")) (first ∷ second ∷ third ∷ []))
    × (starting ≡ filter_by (is_starting_pod (new_stub_pod "stub:1")) (first ∷ second ∷ third ∷ []))
    × (blocked ≡ filter_by (is_blocked_pod (new_stub_pod "stub:1")) (first ∷ second ∷ third ∷ []))
    × Perm (first ∷ second ∷ third ∷ []) (blocked ++ (ready ++ starting))
classify_pod_group-partition_example =
    classify_pod_group-partition (new_stub_pod "stub:1") client "group" "g" [] []
      (first ∷ second ∷ third ∷ []) refl

-- Only the staggered pod may be evicted.
abbrev OnlyStaggered : World → Type 0
OnlyStaggered w = All (λ name. name ≡ staggered.name) w

abbrev IsStaggered : Pod → Type 0
IsStaggered p = p.name ≡ staggered.name

abbrev found : Result (Option PodClassification) → PodClassification
found (ok (some g)) = g
found _ = group

abbrev blocked_of : Result (List Pod × List Pod × List Pod) → List Pod × List Pod × List Pod
blocked_of (ok s) = s
blocked_of _ = ([], [], [])

group-IsLawful : IsLawful group.pacer
group-IsLawful = new_exponential-IsLawful whole_floats insertion_sort-IsSort "web" _

small-Fits : Fits (record { ready = first ∷ []; starting = []; blocked = staggered ∷ [] })
small-Fits = record {
  ready_fits = omega arith;
  starting_fits = omega arith;
  blocked_fits = omega arith;
}

only : (p : Pod) → Mem p (staggered ∷ []) → IsStaggered p
only p m = ∥∥₁_elim (eq-or-mem_of_mem-cons m) (hedberg string_dec _ _) (λ either. elim either [
  | inl same ↦ ap (λ (q : Pod). q.name) same
  | inr other ↦ absurd (not-mem-nil other)
])

reconciler-Trusted : Trusted OnlyStaggered IsStaggered reconciler
reconciler-Trusted = record {
  evict_keeps = λ p e. record { keeps = λ w i. (e, i) };
  get_keeps = λ _. record { keeps = λ w i. i };
  classify_keeps = λ _. record { keeps = λ w i. i };
  standing_keeps = λ _. record { keeps = λ w i. i };
  group_lawful = λ id w g e.
      subst
        (λ (g : PodClassification).
          IsLawful g.pacer × (g.group_policies.max_blocked_duration ≡ pos 0))
        (ap found e) (group-IsLawful, refl);
  blocked_evictable = λ id w ready starting blocked e.
      subst
        (λ (s : List Pod × List Pod × List Pod).
          Fits (record { ready = s.0; starting = s.1; blocked = s.2 })
          × ((p : Pod) → Mem p s.2 → IsStaggered p))
        (ap blocked_of e) (small-Fits, λ p m. only p m);
}

-- The run does evict the pod.
reconciled :
    reconcile whole_floats reconciler 100 (key_of staggered) [] ≡ (ok done, "staggered" ∷ [])
unfolding reconcile lookup string_dec new pace slice_to calculate_allowed_count min max sub64
    insertion_sort NamespacedName-discrete
reconciled = refl

reconcile-Preserves_example :
    OnlyStaggered (reconcile whole_floats reconciler 100 (key_of staggered) []).1
reconcile-Preserves_example =
    reconcile-Preserves OnlyStaggered whole_floats reconciler 100 IsStaggered reconciler-Trusted
      (key_of staggered) [] tt
