-- ===== src/Controller/Reconciler/Evictions.antt =====
-- Which pods the reconciler evicts. A property of the world that survives every other call, and
-- every eviction of a blocked pod, survives the reconciler.
use mathlib.Core.List.{Mem, mem-cons_self, mem-cons_of_mem}
use mathlib.Core.List.Sublist
use mathlib.Core.List.Perm
use straggler.Base.{
  ℕ, ◌≡◌, refl, List, [], ◌∷◌, String, Option, none, some, Bool, true, false, not, ◌&&◌,
  if◌then◌else◌, inl, inr, Bool-cases, ◌==◌, string_eq,
}
use straggler.Base.Dict.{Dict, lookup, get_key}
use straggler.Base.Float.{FloatOps}
use straggler.Base.Int.{ℤ, pos}
use straggler.Base.Result.{Result, ok, err, panic, wrap_error, is_not_found}
use straggler.Base.State.{M, continue, pure}
use straggler.Kube.{NamespacedName, NamespacedName_eq, Pod}
use straggler.Pacer.{Fits, IsLawful}
use straggler.Controller.Types.{PodClassification}
use straggler.Controller.Standing.{is_pod_ready}
use straggler.Controller.Admission.{check_enabled, has_key, default_staggered_pod_label}
use straggler.Controller.Reconciler.{
  Reconciler, Requeue, evict_pods, unless_panic, done, apply_policy, evict_and_requeue,
  pace_standing, pace_group, reconcile_classified, reconcile_group, reconcile_pod, reconcile,
}

-- `m` keeps `Inv`, whatever it returns.
pub record Preserves {W A : Type 0} (Inv : W → Type 0) (m : M W A) : Type 0 where
  pub keeps : (w : W) → Inv w → Inv (m w).1

-- What the reconciler relies on: the calls that read leave the property alone, and so does the
-- eviction of an evictable pod. A group that is found has a lawful pacer and no maximum duration,
-- and the blocked pods of a group are evictable, and not too many to be counted.
pub record Trusted {W : Type 0} (Inv : W → Type 0) (Evictable : Pod → Type 0) (r : Reconciler W)
    : Type 0 where
  pub evict_keeps : (pod : Pod) → Evictable pod → Preserves Inv (r.client.evict pod)
  pub get_keeps : (request : NamespacedName) → Preserves Inv (r.client.get request)
  pub classify_keeps : (id : String) → Preserves Inv (r.classifier.classify_by_group_id id)
  pub standing_keeps : (id : String) → Preserves Inv (r.pod_group_classifier.classify_pod_group id)
  pub group_lawful :
      (id : String) (w : W) (group : PodClassification)
      → (r.classifier.classify_by_group_id id w).0 ≡ ok (some group)
      → IsLawful group.pacer × (group.group_policies.max_blocked_duration ≡ pos 0)
  pub blocked_evictable :
      (id : String) (w : W) (ready starting blocked : List Pod)
      → (r.pod_group_classifier.classify_pod_group id w).0 ≡ ok (ready, starting, blocked)
      → Fits (record { ready = ready; starting = starting; blocked = blocked })
        × ((p : Pod) → Mem p blocked → Evictable p)

module _ {W : Type 0} (Inv : W → Type 0) where
  pub continue-keeps :
      {A B : Type 0} (s : Result A × W) (f : A → M W B)
      → Inv s.1
      → ((a : A) → s.0 ≡ ok a → Preserves Inv (f a))
      → Inv (continue s f).1
  continue-keeps (ok a, w) f i h = (h a refl).keeps w i
  continue-keeps (err e, w) f i h = i
  continue-keeps (panic, w) f i h = i

  pub wrapped-keeps :
      {A B : Type 0} (text : String) (s : Result A × W) (f : A → M W B)
      → Inv s.1
      → ((a : A) → s.0 ≡ ok a → Preserves Inv (f a))
      → Inv (continue (wrap_error text s.0, s.1) f).1
  wrapped-keeps text (ok a, w) f i h = (h a refl).keeps w i
  wrapped-keeps text (err e, w) f i h = i
  wrapped-keeps text (panic, w) f i h = i

  pub unless_panic-keeps :
      {A : Type 0} (r : Result (Unit {0})) (w : W) (next : Result A × W)
      → Inv w
      → Inv next.1
      → Inv (unless_panic r w next).1
  unless_panic-keeps panic w next i j = i
  unless_panic-keeps (ok _) w next i j = j
  unless_panic-keeps (err _) w next i j = j

  pub Preserves-pure : {A : Type 0} (a : A) → Preserves Inv (pure {S = W} a)
  Preserves-pure a = record { keeps = λ w i. i }

  pub Preserves-if :
      {A : Type 0} (b : Bool) {m n : M W A}
      → Preserves Inv m
      → (b ≡ false → Preserves Inv n)
      → Preserves Inv (if b then m else n)
  Preserves-if true h k = h
  Preserves-if false h k = k refl

  module _ (F : FloatOps) (r : Reconciler W) (now : ℕ) (Evictable : Pod → Type 0)
      (evict : (pod : Pod) → Evictable pod → Preserves Inv (r.client.evict pod)) where
    pub evict_pods-Preserves :
        (pods : List Pod) (d : Dict NamespacedName Bool)
        → ((p : Pod) → Mem p pods → Evictable p)
        → Preserves Inv (evict_pods r.client pods d)
    unfolding evict_pods
    evict_pods-Preserves [] d h = record { keeps = λ w i. i }
    evict_pods-Preserves (p ∷ pods) d h = record {
      keeps = λ w i.
          let (e, w') = r.client.evict p w in
          let kept = (evict p (h p mem-cons_self)).keeps w i in
          unless_panic-keeps e w' _ kept
            ((evict_pods-Preserves pods _ (λ q m. h q (mem-cons_of_mem p m))).keeps w' kept);
    }

    -- Without a maximum duration nothing is evicted but what the pacer allows.
    apply_policy-Preserves :
        (d : ℤ) (pod : Pod) → d ≡ pos 0 → Preserves Inv (apply_policy F r now d pod)
    unfolding apply_policy
    apply_policy-Preserves d pod e = record { keeps = λ w i. rw e i }

    evict_and_requeue-Preserves :
        (request : NamespacedName) (pod : Pod) (group : PodClassification) (unblocked : List Pod)
        → group.group_policies.max_blocked_duration ≡ pos 0
        → ((p : Pod) → Mem p unblocked → Evictable p)
        → Preserves Inv (evict_and_requeue F r now request pod group unblocked)
    unfolding evict_and_requeue
    evict_and_requeue-Preserves request pod group unblocked no_policy h = record {
      keeps = λ w i.
          continue-keeps (evict_pods r.client unblocked [] w) _
            ((evict_pods-Preserves unblocked [] h).keeps w i) λ d _. finish d (lookup request d);
    }
      where
        finish :
            (d : Dict NamespacedName Bool) (o : Option Bool)
            → Preserves Inv (elim o as (λ _. M W Requeue) [
              | none ↦ apply_policy F r now group.group_policies.max_blocked_duration pod
              | some _ ↦ pure done
            ])
        finish d none = apply_policy-Preserves _ pod no_policy
        finish d (some _) = Preserves-pure done

    pace_standing-Preserves :
        (request : NamespacedName) (pod : Pod) (group : PodClassification)
        (ready starting blocked : List Pod)
        → group.group_policies.max_blocked_duration ≡ pos 0
        → IsLawful group.pacer
        → Fits (record { ready = ready; starting = starting; blocked = blocked })
        → ((p : Pod) → Mem p blocked → Evictable p)
        → Preserves Inv (pace_standing F r now request pod group (ready, starting, blocked))
    unfolding pace_standing
    pace_standing-Preserves request pod group ready starting blocked no_policy lawful fits h =
        let (allowed, left, e, s) = lawful _ fits in
        rw e (
          evict_and_requeue-Preserves request pod group allowed no_policy
            (λ p m. h p (Perm.subset s.same_pods p (Sublist.subset s.from_blocked p m))))

  module _ (F : FloatOps) (r : Reconciler W) (now : ℕ) (Evictable : Pod → Type 0)
      (t : Trusted Inv Evictable r) where
    pace_group-Preserves :
        (request : NamespacedName) (pod : Pod) (group : PodClassification)
        → IsLawful group.pacer
        → group.group_policies.max_blocked_duration ≡ pos 0
        → Preserves Inv (pace_group F r now request pod group)
    unfolding pace_group
    pace_group-Preserves request pod group lawful no_policy = record {
      keeps = λ w i.
          wrapped-keeps "failed to classify pod group"
            (r.pod_group_classifier.classify_pod_group group.id w)
            (pace_standing F r now request pod group) ((t.standing_keeps group.id).keeps w i)
            λ standing e.
              let (fits, evictable) =
                t.blocked_evictable group.id w standing.0 standing.1 standing.2 e in
              pace_standing-Preserves F r now Evictable t.evict_keeps request pod group standing.0
                standing.1 standing.2 no_policy lawful fits evictable;
    }

    reconcile_group-Preserves :
        (request : NamespacedName) (pod : Pod) (id : String)
        → Preserves Inv (reconcile_group F r now request pod id)
    unfolding reconcile_group
    reconcile_group-Preserves request pod id = record {
      keeps = λ w i.
          continue-keeps (r.classifier.classify_by_group_id id w)
            (reconcile_classified F r now request pod id) ((t.classify_keeps id).keeps w i)
            (λ group e. classified w group e);
    }
      where
        classified :
            (w : W) (group : Option PodClassification)
            → (r.classifier.classify_by_group_id id w).0 ≡ ok group
            → Preserves Inv (reconcile_classified F r now request pod id group)
        classified w none e = unfold reconcile_classified in record { keeps = λ w i. i }
        classified w (some group) e =
            let (lawful, no_policy) = t.group_lawful id w group e in
            unfold reconcile_classified in pace_group-Preserves request pod group lawful no_policy

    reconcile_pod-Preserves :
        (request : NamespacedName) (pod : Pod) → Preserves Inv (reconcile_pod F r now request pod)
    unfolding reconcile_pod
    reconcile_pod-Preserves request pod =
        Preserves-if (not (check_enabled r.enable_label pod.meta)) (Preserves-pure done) λ _.
          Preserves-if
            (not (has_key default_staggered_pod_label pod.labels) && not (is_pod_ready pod))
            (Preserves-pure done) λ _. grouped (get_key r.stagger_group_id_label pod.labels)
      where
        grouped :
            (label : Option String)
            → Preserves Inv (elim label as (λ _. M W Requeue) [
              | none ↦ pure done
              | some group_id ↦
                  if group_id == "" then pure done else reconcile_group F r now request pod group_id
            ])
        grouped none = Preserves-pure done
        grouped (some id) =
            Preserves-if (id == "") (Preserves-pure done)
              (λ _. reconcile_group-Preserves request pod id)

    -- Whatever is read, and whichever calls fail: a property of the world that survives the calls
    -- which read, and the eviction of every evictable pod, survives a run of the reconciler, where
    -- the groups that are found have lawful pacers and no maximum blocked duration, and their
    -- blocked pods are evictable.
    pub reconcile-Preserves :
        (request : NamespacedName) (w : W) → Inv w → Inv (reconcile F r now request w).1
    unfolding reconcile
    reconcile-Preserves request w i =
        read (r.client.get request w) ((t.get_keeps request).keeps w i)
      where
        read :
            (s : Result Pod × W)
            → Inv s.1
            → Inv
                (elim s.0 as (λ _. Result Requeue × W) [
                  | ok pod ↦ reconcile_pod F r now request pod s.1
                  | err e ↦ if is_not_found e then (ok done, s.1) else (err e, s.1)
                  | panic ↦ (panic, s.1)
                ]).1
        read (ok pod, w) i = (reconcile_pod-Preserves request pod).keeps w i
        read (err e, w) i = elim (Bool-cases (is_not_found e)) [
          | inl gone ↦ rw gone i
          | inr other ↦ rw other i
        ]
        read (panic, w) i = i
