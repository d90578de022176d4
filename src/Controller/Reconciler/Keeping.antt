-- ===== src/Controller/Reconciler/Keeping.antt =====
-- A property of the world that survives every call survives the reconciler: all that it changes, it
-- changes by the calls of its client, its classifier and its standing classifier.
use straggler.Base.{
  ℕ, List, [], String, Option, none, some, Bool, not, ◌&&◌, eqb, if◌then◌else◌, inl, inr,
  Bool-cases, ◌==◌, string_eq,
}
use straggler.Base.Dict.{lookup, get_key}
use straggler.Base.Float.{FloatOps}
use straggler.Base.Int.{ℤ, pos, sub64, leb_ℤ, ltb_ℤ}
use straggler.Base.Result.{Result, ok, err, panic, is_not_found}
use straggler.Base.State.{M, pure}
use straggler.Kube.{NamespacedName, NamespacedName_eq, Pod}
use straggler.Controller.Types.{PodClassification}
use straggler.Controller.Standing.{is_pod_ready}
use straggler.Controller.Admission.{check_enabled, has_key, default_staggered_pod_label}
use straggler.Controller.Reconciler.{
  Reconciler, Requeue, evict_pods, done, time_since, resync_after, evict_overdue, apply_policy,
  evict_and_requeue, pace_standing, pace_group, reconcile_classified, reconcile_group,
  reconcile_pod, reconcile,
}
use straggler.Controller.Reconciler.Evictions.{
  Preserves, continue-keeps, wrapped-keeps, unless_panic-keeps, Preserves-pure, Preserves-if,
  evict_pods-Preserves,
}

-- Every call leaves the property alone, whichever pod is evicted.
pub record Kept {W : Type 0} (Inv : W → Type 0) (r : Reconciler W) : Type 0 where
  pub evict_keeps : (pod : Pod) → Preserves Inv (r.client.evict pod)
  pub get_keeps : (request : NamespacedName) → Preserves Inv (r.client.get request)
  pub classify_keeps : (id : String) → Preserves Inv (r.classifier.classify_by_group_id id)
  pub standing_keeps : (id : String) → Preserves Inv (r.pod_group_classifier.classify_pod_group id)

module _ {W : Type 0} (Inv : W → Type 0) (F : FloatOps) (r : Reconciler W) (now : ℕ)
    (k : Kept Inv r) where
  evict_overdue-keeps : (d left : ℤ) (pod : Pod) → Preserves Inv (evict_overdue F r now d left pod)
  unfolding evict_overdue
  evict_overdue-keeps d left pod = record {
    keeps = λ w i.
        let (e, w') = r.client.evict pod w in
        let kept = (k.evict_keeps pod).keeps w i in unless_panic-keeps Inv e w' _ kept kept;
  }

  apply_policy-keeps : (d : ℤ) (pod : Pod) → Preserves Inv (apply_policy F r now d pod)
  unfolding apply_policy
  apply_policy-keeps d pod =
      let left = sub64 d (time_since now pod.creation_timestamp) in
      Preserves-if Inv (ltb_ℤ (pos 0) d && not (eqb pod.creation_timestamp 0))
        (Preserves-if Inv (leb_ℤ left (pos 0)) (evict_overdue-keeps d left pod)
          (λ _. Preserves-pure Inv (record { requeue_after = resync_after F r now d left })))
        (λ _. Preserves-pure Inv (record { requeue_after = resync_after F r now d (pos 0) }))

  evict_and_requeue-keeps :
      (request : NamespacedName) (pod : Pod) (group : PodClassification) (unblocked : List Pod)
      → Preserves Inv (evict_and_requeue F r now request pod group unblocked)
  unfolding evict_and_requeue
  evict_and_requeue-keeps request pod group unblocked = record {
    keeps = λ w i.
        continue-keeps Inv (evict_pods r.client unblocked [] w) _
          ((evict_pods-Preserves Inv F r now (λ _. Unit) (λ p _. k.evict_keeps p) unblocked []
              (λ _ _. tt)).keeps
            w i)
          λ d _. finish (lookup request d);
  }
    where
      finish :
          (o : Option Bool)
          → Preserves Inv (elim o as (λ _. M W Requeue) [
            | none ↦ apply_policy F r now group.group_policies.max_blocked_duration pod
            | some _ ↦ pure done
          ])
      finish none = apply_policy-keeps _ pod
      finish (some _) = Preserves-pure Inv done

  pace_standing-keeps :
      (request : NamespacedName) (pod : Pod) (group : PodClassification)
      (standing : List Pod × List Pod × List Pod)
      → Preserves Inv (pace_standing F r now request pod group standing)
  unfolding pace_standing
  pace_standing-keeps request pod group (ready, starting, blocked) = record {
    keeps = λ w i.
        wrapped-keeps Inv "failed to pace pod" (group.pacer.pace _, w) _ i
          λ answer _. evict_and_requeue-keeps request pod group answer.0;
  }

  pace_group-keeps :
      (request : NamespacedName) (pod : Pod) (group : PodClassification)
      → Preserves Inv (pace_group F r now request pod group)
  unfolding pace_group
  pace_group-keeps request pod group = record {
    keeps = λ w i.
        wrapped-keeps Inv "failed to classify pod group"
          (r.pod_group_classifier.classify_pod_group group.id w)
          (pace_standing F r now request pod group) ((k.standing_keeps group.id).keeps w i)
          λ standing _. pace_standing-keeps request pod group standing;
  }

  classified-keeps :
      (request : NamespacedName) (pod : Pod) (id : String) (group : Option PodClassification)
      → Preserves Inv (reconcile_classified F r now request pod id group)
  unfolding reconcile_classified
  classified-keeps request pod id none = record { keeps = λ w i. i }
  classified-keeps request pod id (some group) = pace_group-keeps request pod group

  reconcile_group-keeps :
      (request : NamespacedName) (pod : Pod) (id : String)
      → Preserves Inv (reconcile_group F r now request pod id)
  unfolding reconcile_group
  reconcile_group-keeps request pod id = record {
    keeps = λ w i.
        continue-keeps Inv (r.classifier.classify_by_group_id id w)
          (reconcile_classified F r now request pod id) ((k.classify_keeps id).keeps w i)
          (λ group _. classified-keeps request pod id group);
  }

  reconcile_pod-keeps :
      (request : NamespacedName) (pod : Pod) → Preserves Inv (reconcile_pod F r now request pod)
  unfolding reconcile_pod
  reconcile_pod-keeps request pod =
      Preserves-if Inv (not (check_enabled r.enable_label pod.meta)) (Preserves-pure Inv done) λ _.
        Preserves-if Inv
          (not (has_key default_staggered_pod_label pod.labels) && not (is_pod_ready pod))
          (Preserves-pure Inv done) λ _. grouped (get_key r.stagger_group_id_label pod.labels)
    where
      grouped :
          (label : Option String)
          → Preserves Inv (elim label as (λ _. M W Requeue) [
            | none ↦ pure done
            | some group_id ↦
                if group_id == "" then pure done else reconcile_group F r now request pod group_id
          ])
      grouped none = Preserves-pure Inv done
      grouped (some id) =
          Preserves-if Inv (id == "") (Preserves-pure Inv done)
            (λ _. reconcile_group-keeps request pod id)

  pub reconcile-keeps :
      (request : NamespacedName) (w : W) → Inv w → Inv (reconcile F r now request w).1
  unfolding reconcile
  reconcile-keeps request w i = read (r.client.get request w) ((k.get_keeps request).keeps w i)
    where
      read :
          (s : Result Pod × W)
          → Inv s.1
          → Inv
              (elim s.0 as (λ _. Result Requeue × W) [
                | ok pod ↦ reconcile_pod F r now request pod s.1
                | err e ↦ if is_not_found e then (ok done, s.1) else (err e, s.1)
                | panic ↦ (panic, s.1)
              ]).1
      read (ok pod, w) i = (reconcile_pod-keeps request pod).keeps w i
      read (err e, w) i = elim (Bool-cases (is_not_found e)) [
        | inl gone ↦ rw gone i
        | inr other ↦ rw other i
      ]
      read (panic, w) i = i
