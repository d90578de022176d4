-- ===== src/Controller/Reconciler/Decision.antt =====
-- The decision of the reconciler about a pod: which pods are evicted, and when it is seen again.
use straggler.Base.{
  ℕ, ◌≡◌, ◌≢◌, ◌∙◌, refl, ap, List, [], ◌∷◌, String, Option, none, some, Bool, true, false, ◌&&◌,
  ◌||◌, arith, if◌then◌else◌, inl, inr, Bool-cases, ◌==◌, string_eq,
}
use straggler.Base.Dict.{Dict, insert, lookup, lookup-insert, get_key}
use straggler.Base.Float.{FloatOps}
use straggler.Base.Result.{Result, ok, err, panic}
use straggler.Base.State.{M, continue, pure}
use straggler.Kube.{NamespacedName, NamespacedName_eq, Pod}
use straggler.Controller.Types.{Client, PodClassification}
use straggler.Controller.Standing.{is_pod_ready}
use straggler.Controller.Admission.{check_enabled, has_key, default_staggered_pod_label}
use straggler.Controller.Reconciler.{
  Reconciler, Requeue, evict_pods, evicted, unless_panic, key_of, done, apply_policy,
  evict_and_requeue, pace_standing, pace_group, reconcile_classified, reconcile_group,
  reconcile_pod, reconcile,
}

module _ {W : Type 0} (client : Client W) where
  -- The world after an attempt to evict each of the pods.
  abbrev pub evict_all : List Pod → W → W
  evict_all [] w = w
  evict_all (p ∷ ps) w = evict_all ps (client.evict p w).1

  -- A pod with the key is among them, and its eviction succeeds or it is gone.
  abbrev pub was_evicted : NamespacedName → List Pod → W → Bool
  was_evicted key [] w = false
  was_evicted key (p ∷ ps) w =
      (evicted (client.evict p w).0 && key_of p == key) || was_evicted key ps (client.evict p w).1

  unless_panic_lem :
      {A : Type 0} (r : Result (Unit {0})) (w : W) (next : Result A × W)
      → r ≢ panic
      → unless_panic r w next ≡ next
  unless_panic_lem panic w next h = absurd (h refl)
  unless_panic_lem (ok _) w next h = refl
  unless_panic_lem (err _) w next h = refl

  evict_pods_lem :
      (key : NamespacedName) (ps : List Pod) (d : Dict NamespacedName Bool) (w : W)
      → ((p : Pod) (w : W) → (client.evict p w).0 ≢ panic)
      → (d' : Dict NamespacedName Bool) × (evict_pods client ps d w ≡ (ok d', evict_all ps w))
        × (lookup key d' ≡ (if was_evicted key ps w then some true else lookup key d))
  unfolding evict_pods
  evict_pods_lem key [] d w calm = (d, refl, refl)
  evict_pods_lem key (p ∷ ps) d w calm =
      let s = client.evict p w in
      let d₁ = if evicted s.0 then insert (key_of p) true d else d in
      let (d', e, l) = evict_pods_lem key ps d₁ s.1 calm in
      (
        d',
        unless_panic_lem s.0 s.1 _ (calm p w) ∙ e,
        ground (arith, l, lookup-insert key (key_of p) true d),
      )

module _ {W : Type 0} (F : FloatOps) (r : Reconciler W) (now : ℕ) (request : NamespacedName)
    (w w₁ : W) (pod : Pod) (read : r.client.get request w ≡ (ok pod, w₁)) where
  evict_and_requeue_lem :
      (group : PodClassification) (unblocked : List Pod) (w₃ : W)
      → ((p : Pod) (w : W) → (r.client.evict p w).0 ≢ panic)
      → evict_and_requeue F r now request pod group unblocked w₃ ≡ (
          let w₄ = evict_all r.client unblocked w₃ in
          if was_evicted r.client request unblocked w₃
          then (ok done, w₄)
          else apply_policy F r now group.group_policies.max_blocked_duration pod w₄)
  unfolding evict_and_requeue lookup
  evict_and_requeue_lem group unblocked w₃ calm =
      let (d, e, l) = evict_pods_lem r.client request unblocked [] w₃ calm in
      elim (Bool-cases (was_evicted r.client request unblocked w₃)) [
        | inl gone ↦
            rw gone (ap (λ s. continue s after) e ∙ ap (λ o. decide o w₄) (l ∙ ap found gone))
        | inr here ↦
            rw here (ap (λ s. continue s after) e ∙ ap (λ o. decide o w₄) (l ∙ ap found here))
      ]
    where
      w₄ : W
      w₄ = evict_all r.client unblocked w₃

      found : Bool → Option Bool
      found b = if b then some true else none

      decide : Option Bool → M W Requeue
      decide o = elim o [
        | none ↦ apply_policy F r now group.group_policies.max_blocked_duration pod
        | some _ ↦ pure done
      ]

      after : Dict NamespacedName Bool → M W Requeue
      after d = decide (lookup request d)

  reconcile_read : reconcile F r now request w ≡ reconcile_pod F r now request pod w₁
  unfolding reconcile
  reconcile_read = ground (arith, read)

  -- A pod that is read but is not enabled, or is neither marked as staggered nor ready, or has no
  -- group label, is skipped: the world stays as the read left it, and no later look is asked for.
  pub reconcile_skips :
      (check_enabled r.enable_label pod.meta
          && ((has_key default_staggered_pod_label pod.labels || is_pod_ready pod)
              && has_key r.stagger_group_id_label pod.labels))
        ≡ false
      → reconcile F r now request w ≡ (ok done, w₁)
  unfolding reconcile_pod
  reconcile_skips h = rw reconcile_read (ground (arith, h))

  module _ (on : check_enabled r.enable_label pod.meta ≡ true)
      (relevant : (has_key default_staggered_pod_label pod.labels || is_pod_ready pod) ≡ true)
      (id : String) (labelled : get_key r.stagger_group_id_label pod.labels ≡ some id)
      (nonempty : id ≢ "") (group : PodClassification) (w₂ : W)
      (found : r.classifier.classify_by_group_id id w₁ ≡ (ok (some group), w₂))
      (ready starting blocked : List Pod) (w₃ : W)
      (standing : r.pod_group_classifier.classify_pod_group group.id w₂
        ≡ (ok (ready, starting, blocked), w₃)) where
    reconcile_grouped :
        reconcile_pod F r now request pod w₁ ≡ reconcile_group F r now request pod id w₁
    unfolding reconcile_pod
    reconcile_grouped = ground (arith, on, relevant, labelled, nonempty)

    reconcile_found :
        reconcile F r now request w
        ≡ pace_standing F r now request pod group (ready, starting, blocked) w₃
    unfolding reconcile_group reconcile_classified pace_group
    reconcile_found = rw (reconcile_read, reconcile_grouped, found, standing) refl

    -- For an enabled pod with a group label that is staggered or ready, whose group is found and whose
    -- standing is read, where no eviction panics, the reconciler tries to evict every pod that the
    -- pacer allows, in turn, also after one whose eviction fails. If the pod's own key is among those
    -- that are evicted or gone, no later look is asked for; otherwise the policy of the group decides.
    pub reconcile-decides :
        ((p : Pod) (w : W) → (r.client.evict p w).0 ≢ panic)
        → (unblocked left : List Pod)
        → group.pacer.pace (record { ready = ready; starting = starting; blocked = blocked })
          ≡ ok (unblocked, left)
        → reconcile F r now request w ≡ (
            let w₄ = evict_all r.client unblocked w₃ in
            if was_evicted r.client request unblocked w₃
            then (ok done, w₄)
            else apply_policy F r now group.group_policies.max_blocked_duration pod w₄)
    unfolding pace_standing
    reconcile-decides calm unblocked left answer =
        rw (reconcile_found, answer) (evict_and_requeue_lem group unblocked w₃ calm)
