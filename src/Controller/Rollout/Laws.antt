-- ===== src/Controller/Rollout/Laws.antt =====
-- The bound on the pods of a group that are starting at the same time.
use mathlib.Core.List.{Perm, Sublist, perm_middle, append-nil, Nodup}
use mathlib.Core.List.Perm
use mathlib.Core.List.Nodup
use mathlib.Core.List.Sublist
use straggler.Base.{
  ◌+◌, ℕ, suc, ◌≤◌, ◌<◌, ◌≡◌, ◌≢◌, ◌∙◌, refl, sym, ap, subst, List, [], ◌∷◌, ◌++◌, String, true,
  false, length, filter_by, filter_by-sublist, filter_by-le, length-append, map-sublist, arith, inl,
  inr, Bool-cases,
}
use straggler.Base.Float.{FloatOps}
use straggler.Base.Result.{ok}
use straggler.Base.Sorting.{filter_by-perm, filter_by_sublist-le}
use straggler.Base.State.{M}
use straggler.Blocker.{PodBlocker}
use straggler.Kube.{Pod}
use straggler.Pacer.{Fits, IsLawful}
use straggler.Pacer.Limits.{IsCapped}
use straggler.Pacer.Composite.Counting.{uids}
use straggler.Controller.Types.{Client, PodClassification}
use straggler.Controller.Standing.{new_pod_group_standing_classifier}
use straggler.Controller.Standing.Laws.{
  is_ready_pod, is_starting_pod, is_blocked_pod, classify_pod_group-partition,
}
use straggler.Controller.Admission.{Admission, lets_through, handle_pod_admission}
use straggler.Controller.Admission.Decision.{labelled, handle_pod_admission-lets_through}
use straggler.Controller.Reconciler.{Reconciler}
use straggler.Controller.Reconciler.Evictions.{Preserves}
use straggler.Controller.Reconciler.Keeping.{Kept, reconcile-keeps}
use straggler.Controller.Rollout.{
  World, IsCluster, starting_pods, IsNew, Step, create, settle, relapse, delete, run_reconciler,
  reorder, Reach, start, step,
}

starting_one :
    (blocker : PodBlocker) (p : Pod) (pods : World)
    → starting_pods blocker (p ∷ pods) ≤ suc (starting_pods blocker pods)
starting_one blocker p pods = ground arith

starting_grows :
    (blocker : PodBlocker) (p : Pod) (pods : World)
    → starting_pods blocker pods ≤ starting_pods blocker (p ∷ pods)
starting_grows blocker p pods = ground arith

starting_none :
    (blocker : PodBlocker) (p : Pod) (pods : World)
    → is_starting_pod blocker p ≡ false
    → starting_pods blocker (p ∷ pods) ≡ starting_pods blocker pods
starting_none blocker p pods h = rw h refl

blocked_not_starting :
    (blocker : PodBlocker) (p : Pod)
    → is_blocked_pod blocker p ≡ true
    → is_starting_pod blocker p ≡ false
blocked_not_starting blocker p h = rw h refl

settle-le :
    (blocker : PodBlocker) (p p' : Pod) (pods : World)
    → (is_starting_pod blocker p ≡ false → is_starting_pod blocker p' ≡ false)
    → starting_pods blocker (p' ∷ pods) ≤ starting_pods blocker (p ∷ pods)
settle-le blocker p p' pods h = elim (Bool-cases (is_starting_pod blocker p)) [
  | inl was ↦ rw was (starting_one blocker p' pods)
  | inr was_not ↦ rw (was_not, h was_not) (omega arith)
]

lets_through_nonempty :
    (p : Pod) (unblocked : List Pod) → lets_through p unblocked ≡ true → unblocked ≢ []
unfolding lets_through
lets_through_nonempty p [] h e = cc
lets_through_nonempty p (x ∷ xs) h e = cc

-- The UIDs of the blocked pods and of a new one are distinct.
pub distinct_blocked :
    (q : Pod) (blocked pods : World)
    → Sublist blocked pods
    → Nodup (uids (q ∷ pods))
    → Nodup (uids (blocked ++ q ∷ []))
distinct_blocked q blocked pods sub d =
    let small : Nodup (uids (q ∷ blocked)) =
      Nodup.sublist (Sublist.cons-cons q.uid (map-sublist (λ p. p.uid) sub)) d in
    let moved : Perm (q ∷ blocked) (blocked ++ q ∷ []) =
      subst (λ xs. Perm (q ∷ xs) (blocked ++ q ∷ [])) (append-nil blocked)
        (Perm.symm (perm_middle blocked [])) in
    Perm.nodup (Perm.map (λ p. p.uid) moved) small

module _ {a : Admission World} {r : Reconciler World} {group : PodClassification}
    {client : Client World} {group_label : String}
    (cluster : IsCluster a r group client group_label) where
  pub group-Fits :
      (q : Pod) (pods : World)
      → length pods < 0x20_0000_0000_0000
      → Fits (record {
        ready = filter_by (is_ready_pod a.pod_blocker) pods;
        starting = filter_by (is_starting_pod a.pod_blocker) pods;
        blocked = filter_by (is_blocked_pod a.pod_blocker) pods ++ q ∷ [];
      })
  group-Fits q pods room =
      let b = filter_by-le (is_blocked_pod a.pod_blocker) pods in
      let n = length-append (filter_by (is_blocked_pod a.pod_blocker) pods) (q ∷ []) in
      record {
        ready_fits = omega (arith, room, filter_by-le (is_ready_pod a.pod_blocker) pods);
        starting_fits = omega (arith, room, filter_by-le (is_starting_pod a.pod_blocker) pods);
        blocked_fits = omega (arith, room, b, n);
      }

  pub standing_of :
      (pods : World)
      → a.pod_group_classifier.classify_pod_group group.id pods ≡ (
        ok (
          filter_by (is_ready_pod a.pod_blocker) pods,
          filter_by (is_starting_pod a.pod_blocker) pods,
          filter_by (is_blocked_pod a.pod_blocker) pods,
        ),
        pods,
      )
  unfolding new_pod_group_standing_classifier
  standing_of pods =
      let (_, _, _, e, is_r, is_s, is_b, _) =
        classify_pod_group-partition a.pod_blocker client group_label group.id pods pods pods
          (cluster.lists pods) in
      ap (λ c. c.classify_pod_group group.id pods) cluster.standing
      ∙ e
      ∙ (λ i. (ok (is_r i, is_s i, is_b i), pods))

  module _ (F : FloatOps) (lawful : IsLawful group.pacer) (cut_off limit : ℕ)
      (capped : IsCapped group.pacer cut_off limit) where
    create-limit :
        (n : ℕ) (p p' : Pod) (pods pods' : World)
        → IsNew F a r group cut_off p pods
        → handle_pod_admission a (p, pods) ≡ (ok tt, (p', pods'))
        → starting_pods a.pod_blocker pods ≤ limit + n
        → starting_pods a.pod_blocker (p' ∷ pods') ≤ limit + n
    create-limit n p p' pods pods' new e h =
        let q = labelled a.stagger_group_id_label group.id p in
        let (waited, wait, calm) = cluster.waits q.meta pods in
        let ready = filter_by (is_ready_pod a.pod_blocker) pods in
        let starting = filter_by (is_starting_pod a.pod_blocker) pods in
        let blocked = filter_by (is_blocked_pod a.pod_blocker) pods in
        let fits : Fits
            (record { ready = ready; starting = starting; blocked = blocked ++ q ∷ [] }) =
          group-Fits q pods new.room in
        let distinct = distinct_blocked q blocked pods (filter_by-sublist _ pods) new.own_uid in
        let (unblocked, left, answer, _) =
          lawful (record { ready = ready; starting = starting; blocked = blocked ++ q ∷ [] })
            fits in
        elim (handle_pod_admission-lets_through a p pods new.enabled new.no_job group pods
          new.in_group waited pods wait calm ready starting blocked pods (standing_of pods)
          cluster.blocks unblocked left answer) [
            | inl (through, e') ↦
                let fewer =
                  capped.caps _ fits distinct new.below unblocked left answer
                    (lets_through_nonempty q unblocked through) in
                subst (λ (s : Pod × World). starting_pods a.pod_blocker (s.0 ∷ s.1) ≤ limit + n)
                  (ap (λ s. s.1) (sym e' ∙ e)) (omega (arith, starting_one a.pod_blocker q pods))
            | inr (held, (spec, is_blocked, e')) ↦
                subst (λ (s : Pod × World). starting_pods a.pod_blocker (s.0 ∷ s.1) ≤ limit + n)
                  (ap (λ s. s.1) (sym e' ∙ e))
                  (omega (
                    arith,
                    starting_none a.pod_blocker _ pods
                        (blocked_not_starting a.pod_blocker _ is_blocked),
                  ))
          ]

    abbrev Within : ℕ → World → Type 0
    Within n pods = starting_pods a.pod_blocker pods ≤ limit + n

    Within-reader :
        (n : ℕ) {A : Type 0} (m : M World A)
        → ((pods : World) → (m pods).1 ≡ pods)
        → Preserves (Within n) m
    Within-reader n m same = record { keeps = λ pods h. subst (Within n) (sym (same pods)) h }

    cluster-Kept : (n : ℕ) → Kept (Within n) r
    cluster-Kept n = record {
      evict_keeps = λ pod. record {
        keeps = λ pods h. omega (
          arith,
          h,
          filter_by_sublist-le (is_starting_pod a.pod_blocker) (cluster.evicts pod pods),
        );
      };
      get_keeps = λ request. Within-reader n _ (cluster.gets request);
      classify_keeps = λ id. Within-reader n _ (cluster.classifies id);
      standing_keeps = λ id. Within-reader n _ (cluster.reads id);
    }

    step-limit :
        (n k : ℕ) (pods pods' : World)
        → Step F a r group cut_off k pods pods'
        → Within n pods
        → Within (n + k) pods'
    step-limit n _ _ _ (create p p' pods pods' new e) h =
        omega (arith, create-limit n p p' pods pods' new e h)
    step-limit n _ _ _ (settle p p' pods still) h =
        omega (arith, h, settle-le a.pod_blocker p p' pods still)
    step-limit n _ _ _ (relapse p p' pods) h =
        omega (arith, h, starting_one a.pod_blocker p' pods, starting_grows a.pod_blocker p pods)
    step-limit n _ _ _ (delete p pods) h = omega (arith, h, starting_grows a.pod_blocker p pods)
    step-limit n _ _ _ (run_reconciler now request pods) h =
        omega (arith, reconcile-keeps (Within n) F r now (cluster-Kept n) request pods h)
    step-limit n _ _ _ (reorder pods pods' perm) h =
        omega (arith, h, filter_by-perm (is_starting_pod a.pod_blocker) perm)

    -- The pacer of the group is lawful and has a limit below a cut-off, and the handlers work over one
    -- list of the group's pods, whole in each of their calls. New pods are admitted one at a time,
    -- while fewer than the cut-off are ready. In between, pods settle or are deleted, the
    -- reconciler runs, and pods relapse, from ready or blocked to starting. If no more than the
    -- limit were starting at first, then at the end no more are than the limit and one for each
    -- relapse.
    pub Reach-limit :
        (n : ℕ) (pods pods' : World)
        → Reach F a r group cut_off n pods pods'
        → starting_pods a.pod_blocker pods ≤ limit
        → starting_pods a.pod_blocker pods' ≤ limit + n
    Reach-limit _ _ _ (start pods) h = omega (arith, h)
    Reach-limit _ _ _ (step n k pods pods' pods'' before last) h =
        omega (arith, step-limit n k pods' pods'' last (Reach-limit n pods pods' before h))
