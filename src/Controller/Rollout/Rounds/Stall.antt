-- ===== src/Controller/Rollout/Rounds/Stall.antt =====
-- A group with a linear pacer that does not move: a new pod stands behind the blocked ones, of which
-- the pacer takes the first.
use mathlib.Core.List.{append-nil, Nodup}
use mathlib.Core.List.Perm
use straggler.Base.{
  ℕ, suc, ◌+◌, ◌≤◌, ◌<◌, ◌≡◌, ◌∙◌, sym, List, [], ◌∷◌, subst, String, Bool, false, length,
  length-take, filter_by, take, take-sublist, map, arith,
}
use straggler.Base.Float.{FloatOps, IsIeee}
use straggler.Base.Int.{pos, leb_ℤ}
use straggler.Kube.{NamespacedName, Pod}
use straggler.Pacer.{PodClassification as Standing, Serves}
use straggler.Pacer.Linear as Linear
use straggler.Pacer.Composite.{new_composite}
use straggler.Controller.Types.{Client, PodClassification}
use straggler.Controller.Admission.{Admission}
use straggler.Controller.Reconciler.{Reconciler, reconcile}
use straggler.Controller.Standing.Laws.{is_ready_pod, is_starting_pod, is_blocked_pod}
use straggler.Controller.Rollout.{World, IsCluster, starting_pods, ready_pods}
use straggler.Controller.Rollout.Rounds.{
  IsPrompt, blocked_pods, admit_all, settle, round, Plays, IsSteady,
}
use straggler.Controller.Rollout.Rounds.Evictions.{evicts_each, evicts_only_blocked, evicts_only}
use straggler.Controller.Rollout.Rounds.Settling.{
  Plays-tracked, uids-append, blocked_distinct, three_kinds, standing-Fits, settle_blocked,
  settle_starting,
}
use straggler.Base.Counts.{length-map, filter_by-map, filter_by-map_none}
use straggler.Controller.Rollout.Rounds.Held.{
  missing, AreStrangers, AreStrangers-fewer, asks, admit_all-Holds,
}

module _ {a : Admission World} {r : Reconciler World} {group : PodClassification}
    {client : Client World} {group_label : String}
    (cluster : IsCluster a r group client group_label) {F : FloatOps} (I : IsIeee F)
    (id key : String) (config : Linear.Config) (k : ℕ)
    (linear : group.pacer ≡ new_composite id (Linear.new F key config ∷ []))
    (step : config.step ≡ pos (suc k)) (small : suc k < 0x8000_0000_0000_0000) where
  module _ (prompt : IsPrompt a r group) where
    -- The reconciler takes away as many pods as are missing, all of them blocked.
    record Removes (pods left : World) : Type 0 where
      fewer : length left + missing k (ready_pods a.pod_blocker pods) ≡ length pods
      nothing_new : (f : Pod → Bool) → length (filter_by f left) ≤ length (filter_by f pods)
      same_ready : ready_pods a.pod_blocker left ≡ ready_pods a.pod_blocker pods
      only_blocked :
          blocked_pods a.pod_blocker left + missing k (ready_pods a.pod_blocker pods)
          ≡ blocked_pods a.pod_blocker pods

    reconcile-Removes :
        (now : ℕ) (request : NamespacedName) (news : List Pod) (start_up : Pod → Pod) (pods : World)
        → IsSteady a r group pods
        → Plays a r group F now request news start_up pods
        → leb_ℤ config.max_stagger (pos (ready_pods a.pod_blocker pods)) ≡ false
        → missing k (ready_pods a.pod_blocker pods) ≤ blocked_pods a.pod_blocker pods
        → Removes pods (reconcile F r now request pods).1
    reconcile-Removes now request news start_up pods steady plays below enough =
        let tracked = Plays-tracked steady plays in
        let blocked = filter_by (is_blocked_pod a.pod_blocker) pods in
        let n = missing k (ready_pods a.pod_blocker pods) in
        let c : Standing = record {
          ready = filter_by (is_ready_pod a.pod_blocker) pods;
          starting = filter_by (is_starting_pod a.pod_blocker) pods;
          blocked = blocked;
        } in
        let answer =
          asks cluster I id key config k linear step small c blocked []
            (standing-Fits a.pod_blocker pods steady.room)
            (blocked_distinct a.pod_blocker pods steady.distinct) below steady.none_starting
            (sym (append-nil blocked)) enough in
        let serves : Serves c (take n blocked) blocked = record {
          same_pods = Perm.refl blocked;
          from_blocked = take-sublist n blocked;
        } in
        let counted =
          evicts_each cluster prompt F now request pods plays.pod plays.reads tracked
            (take n blocked) blocked answer steady.distinct serves in
        let less =
          evicts_only cluster prompt F now request pods plays.pod plays.reads tracked
            (take n blocked) blocked answer steady.distinct serves in
        let only =
          evicts_only_blocked cluster prompt F now request pods plays.pod plays.reads tracked
            (take n blocked) blocked answer steady.distinct serves in
        let left = (reconcile F r now request pods).1 in
        let taken = length-take n blocked enough in
        record {
          fewer = omega (arith, counted, taken);
          nothing_new = less;
          only_blocked = omega (arith, counted, taken, only);
          same_ready = omega (
            arith,
            counted,
            taken,
            less (is_ready_pod a.pod_blocker),
            less (is_starting_pod a.pod_blocker),
            steady.none_starting,
            only,
            three_kinds a.pod_blocker pods,
            three_kinds a.pod_blocker left,
          );
        }

    -- A group whose pacer is the composite of one linear pacer of a positive step, with none
    -- starting, fewer than `max_stagger` ready, and twice as many blocked as are missing to the next
    -- multiple of the step. In a round, the owners make as many pods as were evicted, and no new pod
    -- has the name, namespace and generated name of a stored or of another new one. After it, as
    -- many pods are ready and as many blocked as before, and none is starting: the pods that the
    -- reconciler evicts are all blocked again when they are made anew.
    pub round_stalls :
        (now : ℕ) (request : NamespacedName) (news : List Pod) (start_up : Pod → Pod) (pods : World)
        → IsSteady a r group pods
        → Plays a r group F now request news start_up pods
        → AreStrangers news pods
        → leb_ℤ config.max_stagger (pos (ready_pods a.pod_blocker pods)) ≡ false
        → missing k (ready_pods a.pod_blocker pods) + missing k (ready_pods a.pod_blocker pods)
          ≤ blocked_pods a.pod_blocker pods
        → let after = round a r group F now request news start_up pods in
          (ready_pods a.pod_blocker after ≡ ready_pods a.pod_blocker pods)
          × (blocked_pods a.pod_blocker after ≡ blocked_pods a.pod_blocker pods)
          × (starting_pods a.pod_blocker after ≡ 0)
    unfolding round
    round_stalls now request news start_up pods steady plays strange below enough =
        let left = (reconcile F r now request pods).1 in
        let w = admit_all a r group now news left in
        let g = settle a r group start_up in
        let removes =
          reconcile-Removes now request news start_up pods steady plays below
            (omega (arith, enough)) in
        let none : starting_pods a.pod_blocker left ≡ 0 =
          omega
            (arith, removes.nothing_new (is_starting_pod a.pod_blocker), steady.none_starting) in
        let holds =
          admit_all-Holds cluster I id key config k linear step small now news left plays.fresh
            (omega (arith, plays.as_many, steady.room))
            (subst Nodup (uids-append news left) plays.own_uids) (rw removes.same_ready below) none
            (rw removes.same_ready (omega (arith, enough, removes.only_blocked)))
            (AreStrangers-fewer news left pods removes.nothing_new strange) in
        let same_blocked =
          filter_by-map (is_blocked_pod a.pod_blocker) g w
            (settle_blocked a r group start_up plays.becomes_ready) in
        let same_starting =
          filter_by-map_none (is_starting_pod a.pod_blocker) g w
            (settle_starting a r group start_up plays.becomes_ready) in
        let held : blocked_pods a.pod_blocker w ≡ blocked_pods a.pod_blocker pods =
          omega (arith, holds.held, removes.only_blocked, removes.fewer, plays.as_many) in
        (
          omega (
            arith,
            same_blocked,
            same_starting,
            length-map g w,
            three_kinds a.pod_blocker (map g w),
            three_kinds a.pod_blocker w,
            holds.same_ready,
            holds.same_starting,
            none,
            removes.same_ready,
          ),
          same_blocked ∙ held,
          same_starting,
        )
