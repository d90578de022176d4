-- ===== src/Tests/Stall.antt =====
-- A group with two blocked pods and the composite of a linear pacer of step 1, which stays as it is.
use mathlib.Core.List.{Nodup, Nodup-cons, Nodup-nil, not-mem-nil, mem-singleton}
use mathlib.Core.HLevel.{hedberg}
use straggler.Base.{◌≡◌, ◌≢◌, refl, ap, [], ◌∷◌, ◌++◌, String, string_dec, length, arith}
use straggler.Base.Dict.{lookup, insert}
use straggler.Base.Float.{whole_floats, whole_floats-IsIeee}
use straggler.Base.Int.{pos, sub64, rem64}
use straggler.Kube.{Pod, NamespacedName-discrete}
use straggler.Pacer.{Pacer}
use straggler.Pacer.Slice.{slice_to}
use straggler.Pacer.Linear as Linear
use straggler.Pacer.Composite as Composite
use straggler.Pacer.Composite.{new_composite, run_pacers, count_results, count_of, allowed_by_all}
use straggler.Blocker.StubPod.{new_stub_pod, is_blocked, has_stagger_container}
use straggler.Controller.Admission.{check_enabled, is_same_pod}
use straggler.Controller.Standing.{
  new_pod_group_standing_classifier, classify_pod_group, classify_pods,
}
use straggler.Controller.Reconciler.{key_of, reconcile}
use straggler.Controller.Rollout.{World, ready_pods, starting_pods}
use straggler.Controller.Rollout.Rounds.{IsSteady, Plays, round, blocked_pods}
use straggler.Controller.Rollout.Rounds.Held.{AreStrangers}
use straggler.Controller.Rollout.Rounds.Stall.{round_stalls}
use straggler.Tests.Rounds.{
  group, webhook, reconciler, cluster, prompt, held, again, again-IsFresh, start_up, starts,
}

abbrev in_ones : Linear.Config
in_ones = record { max_stagger = pos 8; step = pos 1 }

abbrev linear : Pacer
linear = Linear.new whole_floats "web" in_ones

-- The pacer of a group to which one configuration applies.
abbrev composed : Pacer
composed = new_composite "g" (linear ∷ [])

abbrev waiting : Pod
waiting = record held { meta = record (held.meta) { name = "waiting"; uid = "waiting" } }

abbrev two : World
two = held ∷ waiting ∷ []

one_left : (reconcile whole_floats (reconciler composed) 100 (key_of held) two).1 ≡ waiting ∷ []
unfolding new_composite Composite.pace run_pacers count_results count_of allowed_by_all insert
    reconcile check_enabled string_dec lookup Linear.new Linear.pace sub64 rem64 slice_to
    new_pod_group_standing_classifier classify_pod_group classify_pods is_blocked new_stub_pod
    has_stagger_container NamespacedName-discrete
one_left = refl

waiting_differs : again.uid ≢ waiting.uid
waiting_differs e = cc

held_differs : held.uid ≢ waiting.uid
held_differs e = cc

pair_distinct : (a b : String) → a ≢ b → Nodup (a ∷ b ∷ [])
pair_distinct a b apart =
    Nodup-cons.1
      (λ m. apart ((mem-singleton (hedberg string_dec)).0 m), Nodup-cons.1 (not-mem-nil, Nodup-nil))

two_listed : two ≡ [] ++ held ∷ waiting ∷ []
two_listed = refl

plays :
    Plays
      (webhook composed)
      (reconciler composed)
      (group composed)
      whole_floats
      100
      (key_of held)
      (again ∷ [])
      start_up
      two
unfolding is_blocked string_dec new_stub_pod has_stagger_container
plays = record {
  front = [];
  pod = held;
  back = waiting ∷ [];
  listed = two_listed;
  waits = refl;
  reads = refl;
  fresh = (again-IsFresh composed, tt);
  as_many = omega (arith, ap (λ (w : World). length w) one_left);
  own_uids = rw one_left (pair_distinct again.uid waiting.uid waiting_differs);
  becomes_ready = starts composed;
  same_uid = λ p. refl;
}

steady : IsSteady (webhook composed) (reconciler composed) (group composed) two
unfolding check_enabled string_dec lookup is_blocked new_stub_pod has_stagger_container
steady = record {
  distinct = pair_distinct held.uid waiting.uid held_differs;
  room = omega arith;
  none_starting = refl;
  none_astray = refl;
}

strange : AreStrangers (again ∷ []) two
unfolding is_same_pod string_dec
strange = (refl, tt, tt)

none_ready : ready_pods (webhook composed).pod_blocker two ≡ 0
unfolding is_blocked string_dec new_stub_pod has_stagger_container
none_ready = refl

two_blocked : blocked_pods (webhook composed).pod_blocker two ≡ 2
unfolding is_blocked string_dec new_stub_pod has_stagger_container
two_blocked = refl

abbrev after : World
after =
    round (webhook composed) (reconciler composed) (group composed) whole_floats 100 (key_of held)
      (again ∷ []) start_up two

round_stalls_example :
    (ready_pods (webhook composed).pod_blocker after
      ≡ ready_pods (webhook composed).pod_blocker two)
    × (blocked_pods (webhook composed).pod_blocker after
        ≡ blocked_pods (webhook composed).pod_blocker two)
    × (starting_pods (webhook composed).pod_blocker after ≡ 0)
round_stalls_example =
    round_stalls (cluster composed) whole_floats-IsIeee "g" "web" in_ones 0 refl refl (omega arith)
      (prompt composed) 100 (key_of held) (again ∷ []) start_up two steady plays strange
      (rw none_ready (ground arith)) (rw none_ready (omega (arith, two_blocked)))
