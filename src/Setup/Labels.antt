-- ===== src/Setup/Labels.antt =====
-- NewAdmission and NewReconciler together: with a label of its own for the enabled pods, which only the
-- webhook takes, the reconciler does not come back to what the webhook blocks.
use straggler.Base.{
  ℕ, Any, ◌≡◌, ◌≢◌, ◌∙◌, refl, sym, ap, subst, List, [], ◌∷◌, ◌++◌, String, some, Bool, true, false,
  All, arith, eqb, length, string_eq, inl, inr,
}
use straggler.Base.Dict.{Dict, lookup, lookup-insert, get_key, entries}
use straggler.Base.Float.{FloatOps}
use straggler.Base.Result.{Result, ok, panic}
use straggler.Kube.{NamespacedName, ObjectMeta, Pod}
use straggler.Blocker.{PodBlocker, Blocks}
use straggler.Controller.Types.{
  Client, PodClassification, PodClassifier, PodGroupStandingClassifier, AdmissionFlightTracker,
}
use straggler.Controller.Admission.{
  has_key, check_enabled, handle_pod_admission, default_enable_label,
  default_stagger_group_id_label, default_staggered_pod_label, default_job_pod_label,
}
use straggler.Controller.Admission.Decision.{HasNamesOf, labelled, handle_pod_admission-decides}
use straggler.Controller.Reconciler.{done, reconcile}
use straggler.Controller.Reconciler.Decision.{reconcile_skips}
use straggler.Setup.{new_admission, new_reconciler}

length-lookup :
    (k v : String) (d : Dict String String) → lookup k d ≡ some v → eqb (length d) 0 ≡ false
unfolding lookup
length-lookup k v [] h = absurd (cc h)
length-lookup k v (e ∷ d) h = ground arith

check_enabled-some :
    (k : String) (meta : ObjectMeta)
    → get_key k meta.labels ≡ some "1"
    → check_enabled k meta ≡ true
unfolding check_enabled
check_enabled-some k meta h = ground (arith, h, length-lookup k "1" (entries meta.labels) h)

check_enabled-other :
    (k : String) (meta : ObjectMeta)
    → get_key k meta.labels ≢ some "1"
    → check_enabled k meta ≡ false
unfolding check_enabled
check_enabled-other k meta h = ground (arith, h)

get_key-labelled :
    (k v label : String) (p : Pod)
    → k ≢ label
    → get_key label (labelled k v p).labels ≡ get_key label p.labels
get_key-labelled k v label p differ =
    ground (arith, lookup-insert label k v (entries p.labels), differ)

not-Any : (P : Pod → Type 0) (xs : List Pod) → All (λ x. ¬ P x) xs → ¬ Any P xs
not-Any P [] h none_there = none_there
not-Any P (x ∷ xs) h (inl here) = h.0 here
not-Any P (x ∷ xs) h (inr later) = not-Any P xs h.1 later

group_differs : default_stagger_group_id_label ≢ default_enable_label
group_differs e = cc

mark_differs : default_staggered_pod_label ≢ default_enable_label
mark_differs e = cc

module _ {W : Type 0} (F : FloatOps) (client : Client W) (classifier : PodClassifier W)
    (standing : PodGroupStandingClassifier W) (blocker : PodBlocker)
    (tracker : AdmissionFlightTracker W) (bypass_failures : Bool) (enable_label : String)
    (blocks : Blocks blocker) where
  -- The webhook is made with a label and the reconciler without it. A pod without the label for jobs is
  -- enabled by that label and not by the default one. Its group is found, the group's standing is read,
  -- the tracker does not panic, and none of the pods that the pacer allows has the names of the pod.
  -- Then the webhook blocks the pod, and the reconciler, when it reads a pod with the labels that the
  -- webhook gave it, does nothing and asks for no later look: the pod stays blocked.
  pub new_reconciler-new_admission :
      (p p' : Pod) (w w' : W)
      → let a = new_admission classifier standing blocker tracker bypass_failures enable_label in
        handle_pod_admission a (p, w) ≡ (ok tt, (p', w'))
        → get_key enable_label p.labels ≡ some "1"
        → get_key default_enable_label p.labels ≢ some "1"
        → has_key default_job_pod_label p.labels ≡ false
        → (group : PodClassification) (w₁ : W)
        → classifier.classify p.meta p.spec w ≡ (ok (some group), w₁)
        → let q = labelled default_stagger_group_id_label group.id p in
          (waited : Result (Unit {0})) (w₂ : W)
          → tracker.wait_one group.id q.meta w₁ ≡ (waited, w₂)
          → waited ≢ panic
          → (ready starting blocked : List Pod) (w₃ : W)
          → standing.classify_pod_group group.id w₂ ≡ (ok (ready, starting, blocked), w₃)
          → (unblocked left : List Pod)
          → group.pacer.pace
              (record { ready = ready; starting = starting; blocked = blocked ++ q ∷ [] })
            ≡ ok (unblocked, left)
          → All (λ x. ¬ HasNamesOf q x) unblocked
          → (now : ℕ) (request : NamespacedName) (w₄ w₅ : W) (pod : Pod)
          → client.get request w₄ ≡ (ok pod, w₅)
          → pod.labels ≡ p'.labels
          → (blocker.is_blocked p'.spec ≡ true)
            × (reconcile F (new_reconciler client classifier standing) now request w₄
                ≡ (ok done, w₅))
  unfolding new_admission new_reconciler
  new_reconciler-new_admission p p' w w' handled on off nojob group w₁ found waited w₂ wait calm
        ready starting blocked w₃ stands unblocked left answer held now request w₄ w₅ pod read
        same =
      let a = new_admission classifier standing blocker tracker bypass_failures enable_label in
      let q = labelled default_stagger_group_id_label group.id p in
      elim (handle_pod_admission-decides a p w (check_enabled-some enable_label p.meta on) nojob
        group w₁ found waited w₂ wait calm ready starting blocked w₃ stands blocks unblocked left
        answer) [
          | inl (there, _) ↦ absurd (not-Any (HasNamesOf q) unblocked held there)
          | inr (_, (spec, is_blocked, e)) ↦
              let as_held : p'
                  ≡ record (labelled default_staggered_pod_label "1" q) { spec = spec } =
                ap (λ s. s.1.0) (sym handled ∙ e) in
              let kept : get_key default_enable_label pod.labels
                  ≡ get_key default_enable_label p.labels =
                ap (get_key default_enable_label) (same ∙ ap (λ s. s.labels) as_held)
                ∙ get_key-labelled default_staggered_pod_label "1" default_enable_label q
                    mark_differs
                ∙ get_key-labelled default_stagger_group_id_label group.id default_enable_label p
                    group_differs in
              (
                subst (λ s. blocker.is_blocked s.spec ≡ true) (sym as_held) is_blocked,
                reconcile_skips F (new_reconciler client classifier standing) now request w₄ w₅ pod
                    read
                    (rw
                      (check_enabled-other default_enable_label pod.meta
                        (λ on_too. off (sym kept ∙ on_too)))
                      refl),
              )
        ]
