-- ===== src/Controller/Rollout/Rounds/Evictions.antt =====
-- The first half of a round: which pods are left when the reconciler has run for a blocked pod.
use mathlib.Core.List.{Perm, Nodup, Nodup-cons, append_assoc}
use mathlib.Core.List.Perm
use straggler.Base.{
  ℕ, ◌+◌, ◌≤◌, ◌≡◌, ◌∙◌, refl, sym, ap, subst, List, [], ◌∷◌, ◌++◌, String, some, Bool, true, false,
  ◌||◌, not, length, filter_by, filter_by-append, length-append, arith, Option-cases, inl, inr,
  string_eq, if◌then◌else◌,
}
use straggler.Base.Dict.{get_key}
use straggler.Base.Float.{FloatOps}
use straggler.Base.Int.{ℤ, pos}
use straggler.Base.Result.{ok}
use straggler.Kube.{NamespacedName, Pod}
use straggler.Controller.Types.{Client, PodClassification}
use straggler.Controller.Admission.{Admission, check_enabled, has_key, default_staggered_pod_label}
use straggler.Controller.Reconciler.{Reconciler, done, apply_policy, reconcile}
use straggler.Controller.Reconciler.Decision.{reconcile-decides, evict_all, was_evicted}
use straggler.Controller.Standing.{is_pod_ready}
use straggler.Controller.Standing.Laws.{is_ready_pod, is_starting_pod, is_blocked_pod, filters-perm}
use straggler.Controller.Rollout.{World, IsCluster}
use straggler.Controller.Rollout.Laws.{standing_of}
use straggler.Controller.Rollout.Rounds.{IsPrompt, is_tracked}
use straggler.Pacer.{Serves}
use mathlib.Core.Logic.{∥∥₁_elim}
use native.Mathlib.Bridge.{le_prop}
use native.Mathlib.Nat.{ℕ_set}
use straggler.Base.Sorting.{filter_by-perm, filter_by_sublist-le, length-perm}
use mathlib.Core.List.Sublist
use straggler.Pacer.Composite.Counting.{uids}
use straggler.Base.Counts.{filter_by-not, filter_by_none}

-- Without a maximum duration the policy leaves the world alone.
apply_policy_none :
    {W : Type 0} (F : FloatOps) (r : Reconciler W) (now : ℕ) (d : ℤ) (pod : Pod) (w : W)
    → d ≡ pos 0
    → (apply_policy F r now d pod w).1 ≡ w
unfolding apply_policy
apply_policy_none F r now d pod w e = rw e refl

module _ {a : Admission World} {r : Reconciler World} {group : PodClassification}
    {client : Client World} {group_label : String}
    (cluster : IsCluster a r group client group_label) (prompt : IsPrompt a r group) where
  tracked_parts :
      (p : Pod)
      → is_tracked a r group p ≡ true
      → (check_enabled r.enable_label p.meta ≡ true)
        × (has_key default_staggered_pod_label p.labels ≡ true)
        × (get_key r.stagger_group_id_label p.labels ≡ some group.id)
  tracked_parts p h = elim (Option-cases (get_key r.stagger_group_id_label p.labels)) [
    | inl none_there ↦ absurd (ground (arith, h, none_there))
    | inr (id, there) ↦ ground (arith, h, there)
  ]

  -- What is left when pods that are stored are evicted one by one.
  evict_all-Perm :
      (ps rest pods : World)
      → Nodup (uids pods)
      → Perm pods (ps ++ rest)
      → Perm (evict_all r.client ps pods) rest
  evict_all-Perm [] rest pods distinct perm = perm
  evict_all-Perm (p ∷ ps) rest pods distinct perm =
      let left = prompt.evicts_one p pods (ps ++ rest) distinct perm in
      let fewer : Nodup (uids (ps ++ rest)) =
        (Nodup-cons.0 (Perm.nodup (Perm.map (λ q. q.uid) perm) distinct)).1 in
      evict_all-Perm ps rest (r.client.evict p pods).1
        (Perm.nodup (Perm.symm (Perm.map (λ q. q.uid) left)) fewer) left

  module _ (F : FloatOps) (now : ℕ) (request : NamespacedName) (pods : World) (pod : Pod)
      (reads : r.client.get request pods ≡ (ok pod, pods))
      (tracked : is_tracked a r group pod ≡ true) (allowed left : List Pod)
      (answer : group.pacer.pace (record {
        ready = filter_by (is_ready_pod a.pod_blocker) pods;
        starting = filter_by (is_starting_pod a.pod_blocker) pods;
        blocked = filter_by (is_blocked_pod a.pod_blocker) pods;
      })
        ≡ ok (allowed, left)) where
    -- The reconciler evicts what the pacer allows, and nothing else.
    pub reconcile_evicts : (reconcile F r now request pods).1 ≡ evict_all r.client allowed pods
    reconcile_evicts =
        let (on, marked, labelled) = tracked_parts pod tracked in
        let ready = filter_by (is_ready_pod a.pod_blocker) pods in
        let starting = filter_by (is_starting_pod a.pod_blocker) pods in
        let blocked = filter_by (is_blocked_pod a.pod_blocker) pods in
        let relevant : (has_key default_staggered_pod_label pod.labels || is_pod_ready pod) ≡ true =
          rw marked refl in
        let standing : r.pod_group_classifier.classify_pod_group group.id pods
            ≡ (ok (ready, starting, blocked), pods) =
          ap (λ s. s.classify_pod_group group.id pods) prompt.same_standing
          ∙ standing_of cluster pods in
        ap (λ s. s.1)
          (reconcile-decides F r now request pods pods pod reads on relevant group.id labelled
            prompt.named group pods (prompt.finds pods) ready starting blocked pods standing
            prompt.evicts_calmly allowed left answer)
        ∙ either (was_evicted r.client request allowed pods)
      where
        either :
            (b : Bool)
            → (if b
                then (ok done, evict_all r.client allowed pods)
                else apply_policy F r now group.group_policies.max_blocked_duration pod
                    (evict_all r.client allowed pods)).1
              ≡ evict_all r.client allowed pods
        either true = refl
        either false = apply_policy_none F r now _ pod _ prompt.no_maximum

    -- Pods that are listed in some order, the allowed ones in front, leave the others.
    left_over :
        (rest : World)
        → Nodup (uids pods)
        → Perm pods (allowed ++ rest)
        → Perm (reconcile F r now request pods).1 rest
    left_over rest distinct perm =
        subst (λ w. Perm w rest) (sym reconcile_evicts)
          (evict_all-Perm allowed rest pods distinct perm)

    module _ (distinct : Nodup (uids pods))
        (serves : Serves
          (record {
            ready = filter_by (is_ready_pod a.pod_blocker) pods;
            starting = filter_by (is_starting_pod a.pod_blocker) pods;
            blocked = filter_by (is_blocked_pod a.pod_blocker) pods;
          })
          allowed
          left) where
      -- The allowed pods and the others, to prove a proposition about them.
      split : {P : Type 0} → IsProp P → ((rest : World) → Perm pods (allowed ++ rest) → P) → P
      split prop f = ∥∥₁_elim (Sublist.exists_perm_append serves.from_blocked) prop λ s.
          let rest =
            filter_by (is_ready_pod a.pod_blocker) pods
            ++ filter_by (is_starting_pod a.pod_blocker) pods in
          let first : Perm (filter_by (is_blocked_pod a.pod_blocker) pods) (allowed ++ s.0) =
            Perm.trans (Perm.symm serves.same_pods) s.1 in
          let whole : Perm pods ((allowed ++ s.0) ++ rest) =
            Perm.trans (filters-perm a.pod_blocker pods) (Perm.append_right rest first) in
          f (s.0 ++ rest) (subst (λ xs. Perm pods xs) (append_assoc allowed s.0 rest) whole)

      -- All allowed pods are blocked.
      allowed_blocked : length (filter_by (is_blocked_pod a.pod_blocker) allowed) ≡ length allowed
      allowed_blocked =
          let is_b = is_blocked_pod a.pod_blocker in
          let kept : length (filter_by (λ p. not (is_b p)) allowed)
              ≤ length (filter_by (λ p. not (is_b p)) (filter_by is_b pods)) =
            subst (λ n. length (filter_by (λ p. not (is_b p)) allowed) ≤ n)
              (filter_by-perm (λ p. not (is_b p)) serves.same_pods)
              (filter_by_sublist-le (λ p. not (is_b p)) serves.from_blocked) in
          omega (arith, kept, filter_by-not is_b allowed, filter_by_none is_b pods)

      -- Each allowed pod is taken away.
      pub evicts_each : length (reconcile F r now request pods).1 + length allowed ≡ length pods
      evicts_each = split (ℕ_set _ _) (λ rest perm. omega (
        arith,
        length-perm perm,
        length-append allowed rest,
        length-perm (left_over rest distinct perm),
      ))

      -- All that is taken away was blocked.
      pub evicts_only_blocked :
          length (filter_by (is_blocked_pod a.pod_blocker) (reconcile F r now request pods).1)
            + length pods
          ≡ length (filter_by (is_blocked_pod a.pod_blocker) pods)
            + length (reconcile F r now request pods).1
      evicts_only_blocked = split (ℕ_set _ _) (λ rest perm. omega (
        arith,
        length-perm perm,
        length-append allowed rest,
        length-perm (left_over rest distinct perm),
        allowed_blocked,
        filter_by-perm (is_blocked_pod a.pod_blocker) perm,
        filter_by-perm (is_blocked_pod a.pod_blocker) (left_over rest distinct perm),
        ap (λ (xs : World). length xs)
            (filter_by-append (is_blocked_pod a.pod_blocker) allowed rest),
        length-append (filter_by (is_blocked_pod a.pod_blocker) allowed)
            (filter_by (is_blocked_pod a.pod_blocker) rest),
      ))

      -- Nothing is added.
      pub evicts_only :
          (f : Pod → Bool)
          → length (filter_by f (reconcile F r now request pods).1) ≤ length (filter_by f pods)
      evicts_only f = split le_prop (λ rest perm. omega (
        arith,
        filter_by-perm f perm,
        filter_by-perm f (left_over rest distinct perm),
        ap (λ (xs : World). length xs) (filter_by-append f allowed rest),
        length-append (filter_by f allowed) (filter_by f rest),
      ))
