-- ===== src/Controller/Reconciler.antt =====
-- pkg/controller/reconciler.go: the controller that evicts blocked pods when their pacer allows them.
-- `now` is the time that `time.Since` reads; times are nanoseconds.
pub mod Evictions
pub mod Keeping
pub mod Policy
pub mod Decision
use straggler.Base.{
  ℕ, List, [], ◌∷◌, String, ◌<>◌, Option, none, some, Bool, true, false, not, ◌&&◌, eqb, ◌==◌,
  string_eq, if◌then◌else◌,
}
use straggler.Base.Dict.{Dict, lookup, insert, get_key}
use straggler.Base.Float.{FloatOps}
use straggler.Base.Int.{ℤ, pos, negsuc, ◌-ℤ◌, sub64, leb_ℤ, ltb_ℤ}
use straggler.Base.Result.{Result, Error, ok, err, panic, errorf, is_not_found}
use straggler.Base.State.{M, ◌>>=◌, pure, from_result, or_wrap}
use straggler.Kube.{NamespacedName, NamespacedName_eq, Pod}
use straggler.Controller.Types.{
  PodClassification, PodClassifier, PodGroupStandingClassifier, Client,
}
use straggler.Controller.Admission.{check_enabled, has_key, default_staggered_pod_label}
use straggler.Controller.Standing.{is_pod_ready}

pub record Reconciler (W : Type 0) : Type 0 where
  pub client : Client W
  pub classifier : PodClassifier W
  pub pod_group_classifier : PodGroupStandingClassifier W
  pub blocked_pod_resync_duration : ℤ
  pub enable_label : String
  pub stagger_group_id_label : String

-- `reconcile.Result`; a pod that is not to be seen again has 0.
pub record Requeue : Type 0 where
  pub requeue_after : ℤ

abbrev pub done : Requeue
done = record { requeue_after = pos 0 }

abbrev pub key_of : Pod → NamespacedName
key_of pod = record { name = pod.name; namespace = pod.namespace }

-- `time.Since(t)`, which stops at the greatest and at the least duration.
unfoldable pub time_since : ℕ → ℕ → ℤ
unfolding ◌-ℤ◌
time_since now t =
    let d = pos now -ℤ pos t in
    if leb_ℤ (pos 0x8000_0000_0000_0000) d
    then pos 0x7fff_ffff_ffff_ffff
    else (if ltb_ℤ d (negsuc 0x7fff_ffff_ffff_ffff) then negsuc 0x7fff_ffff_ffff_ffff else d)

-- `client.IgnoreNotFound(err) == nil`
abbrev pub evicted : Result (Unit {0}) → Bool
evicted (ok _) = true
evicted (err e) = is_not_found e
evicted panic = false

-- The loop over the unblocked pods, with the map of those that were evicted or gone already.
module _ {W : Type 0} where
  -- A call that panics ends the run; after any other the run goes on.
  abbrev pub unless_panic : {A : Type 0} → Result (Unit {0}) → W → Result A × W → Result A × W
  unless_panic panic w next = (panic, w)
  unless_panic (ok _) w next = next
  unless_panic (err _) w next = next

  unfoldable pub evict_pods :
      Client W → List Pod → Dict NamespacedName Bool → M W (Dict NamespacedName Bool)
  unfolding insert
  evict_pods client [] unblocked w = (ok unblocked, w)
  evict_pods client (pod ∷ pods) unblocked w =
      let (r, w') = client.evict pod w in
      let rest =
        evict_pods client pods (if evicted r then insert (key_of pod) true unblocked else unblocked)
          w' in
      unless_panic r w' rest

  module _ (F : FloatOps) (r : Reconciler W) (now : ℕ) where
    open F use {of_int, to_int, fmin}

    -- The end of Reconcile: when to look at the pod again.
    unfoldable pub resync_after : ℤ → ℤ → ℤ
    resync_after policy_max_duration duration_until_unblock =
        if ltb_ℤ (pos 0) policy_max_duration && ltb_ℤ (pos 0) duration_until_unblock
        then to_int (fmin (of_int r.blocked_pod_resync_duration) (of_int duration_until_unblock))
        else r.blocked_pod_resync_duration

    unfoldable pub evict_overdue : ℤ → ℤ → Pod → M W Requeue
    evict_overdue policy_max_duration duration_until_unblock pod w =
        let (e, w') = r.client.evict pod w in
        let later : Requeue = record {
          requeue_after = resync_after policy_max_duration duration_until_unblock;
        } in
        unless_panic e w' (ok (if evicted e then done else later), w')

    -- The part of Reconcile behind the pacing, for a pod that was not unblocked.
    unfoldable pub apply_policy : ℤ → Pod → M W Requeue
    apply_policy policy_max_duration pod =
        if ltb_ℤ (pos 0) policy_max_duration && not (eqb pod.creation_timestamp 0)
        then (let left = sub64 policy_max_duration (time_since now pod.creation_timestamp) in
            if leb_ℤ left (pos 0)
            then evict_overdue policy_max_duration left pod
            else pure (record { requeue_after = resync_after policy_max_duration left }))
        else pure (record { requeue_after = resync_after policy_max_duration (pos 0) })

    unfoldable pub evict_and_requeue :
        NamespacedName → Pod → PodClassification → List Pod → M W Requeue
    unfolding evict_pods apply_policy
    evict_and_requeue request pod group unblocked = do
      unblocked_pods ← evict_pods r.client unblocked []
      elim (lookup request unblocked_pods) [
        | none ↦ apply_policy group.group_policies.max_blocked_duration pod
        | some _ ↦ pure done
      ]

    unfoldable pub pace_standing :
        NamespacedName → Pod → PodClassification → List Pod × List Pod × List Pod → M W Requeue
    unfolding evict_and_requeue
    pace_standing request pod group (ready, starting, blocked) = do
      (unblocked, _) ← or_wrap "failed to pace pod" (
          from_result
            (group.pacer.pace (record { ready = ready; starting = starting; blocked = blocked })))
      evict_and_requeue request pod group unblocked

    unfoldable pub pace_group : NamespacedName → Pod → PodClassification → M W Requeue
    unfolding pace_standing
    pace_group request pod group = do
      standing ←
          or_wrap "failed to classify pod group"
            (r.pod_group_classifier.classify_pod_group group.id)
      pace_standing request pod group standing

    unfoldable pub reconcile_classified :
        NamespacedName → Pod → String → Option PodClassification → M W Requeue
    unfolding pace_group
    reconcile_classified request pod group_id none =
        from_result (err (errorf ("pod group ID not found: " <> group_id)))
    reconcile_classified request pod group_id (some group) = pace_group request pod group

    unfoldable pub reconcile_group : NamespacedName → Pod → String → M W Requeue
    unfolding reconcile_classified
    reconcile_group request pod group_id = do
      group ← r.classifier.classify_by_group_id group_id
      reconcile_classified request pod group_id group

    -- Reconcile of a pod that was read: a pod that is neither marked as staggered nor ready is
    -- skipped, and so is one without a group.
    unfoldable pub reconcile_pod : NamespacedName → Pod → M W Requeue
    unfolding reconcile_group check_enabled
    reconcile_pod request pod =
        if not (check_enabled r.enable_label pod.meta)
        then pure done
        else (if not (has_key default_staggered_pod_label pod.labels) && not (is_pod_ready pod)
            then pure done
            else elim (get_key r.stagger_group_id_label pod.labels) [
              | none ↦ pure done
              | some group_id ↦
                  if group_id == "" then pure done else reconcile_group request pod group_id
            ])

    unfoldable pub reconcile : NamespacedName → M W Requeue
    unfolding reconcile_pod
    reconcile request w =
        let (got, w') = r.client.get request w in
        elim got [
          | ok pod ↦ reconcile_pod request pod w'
          | err e ↦ if is_not_found e then (ok done, w') else (err e, w')
          | panic ↦ (panic, w')
        ]
