-- ===== src/Controller/Admission/Decision.antt =====
-- The decision of the webhook about a pod that belongs to a group, and what a failure does.
use straggler.Base.{
  All, Any, ◌≡◌, ◌≢◌, ◌⊎◌, inl, inr, refl, ap, ◌∙◌, subst, List, [], ◌∷◌, ◌++◌, String, some, true,
  false, arith, eqb, Bool-cases, string_eq,
}
use straggler.Base.Dict.{entries, insert, len_map}
use straggler.Base.Result.{Result, Error, ok, err, panic, wrapped, wrap_error}
use straggler.Base.State.{continue, drop_error_calm}
use straggler.Kube.{ObjectMeta, Pod, PodSpec}
use straggler.Blocker.{Blocks}
use straggler.Controller.Types.{PodClassification}
use straggler.Controller.Admission.{
  Admission, check_enabled, has_key, set_label, make_labels, is_same_pod, lets_through, change_pod,
  block_pod, block_unless_allowed, admit_to_group, admit_if_classified, classify_and_admit,
  handle_pod_admission, default_staggered_pod_label,
}
use straggler.Controller.Admission.Laws.{SpecIsSafe, handle_pod_admission-SpecIsSafe}
use straggler.Controller.Admission.Job.{Object, pod, default, dispatch, bypass}

-- The pod with one more label.
abbrev pub labelled : String → String → Pod → Pod
labelled k v p = record p {
  meta = record (p.meta) { labels = some (insert k v (entries p.labels)) };
}

set_label-make_labels :
    (k v : String) (p : Pod) → set_label k v (make_labels p) ≡ ok (labelled k v p)
unfolding set_label make_labels
set_label-make_labels k v p = ground arith

check_enabled_nonempty :
    (k : String) (meta : ObjectMeta)
    → check_enabled k meta ≡ true
    → eqb (len_map meta.labels) 0 ≡ false
unfolding check_enabled
check_enabled_nonempty k meta h = ground arith

-- The pod has the names of the admitted one, which is not stored yet, so that it has no UID.
abbrev pub HasNamesOf : Pod → Pod → Type 0
HasNamesOf q x =
    (x.name ≡ q.name) × (x.namespace ≡ q.namespace) × (x.generate_name ≡ q.generate_name)

is_same_pod-true : (q x : Pod) → is_same_pod q x ≡ true → HasNamesOf q x
unfolding is_same_pod
is_same_pod-true q x h = (ground (arith, h), ground (arith, h), ground (arith, h))

pub is_same_pod-false : (q x : Pod) → is_same_pod q x ≡ false → ¬ HasNamesOf q x
unfolding is_same_pod
is_same_pod-false q x h (e, f, g) = ground (arith, h, e, f, g)

lets_through-true : (q : Pod) (xs : List Pod) → lets_through q xs ≡ true → Any (HasNamesOf q) xs
unfolding lets_through
lets_through-true q [] h = absurd (cc h)
lets_through-true q (x ∷ xs) h = elim (Bool-cases (is_same_pod q x)) [
  | inl same ↦ inl (is_same_pod-true q x same)
  | inr other ↦ inr (lets_through-true q xs (ground (arith, h, other)))
]

lets_through-false :
    (q : Pod) (xs : List Pod) → lets_through q xs ≡ false → All (λ x. ¬ HasNamesOf q x) xs
unfolding lets_through
lets_through-false q [] h = tt
lets_through-false q (x ∷ xs) h = elim (Bool-cases (is_same_pod q x)) [
  | inl same ↦ absurd (ground (arith, h, same))
  | inr other ↦ (is_same_pod-false q x other, lets_through-false q xs (ground (arith, h, other)))
]

module _ {W : Type 0} (a : Admission W) (p : Pod) (w : W) where
  -- With a blocker that blocks, an enabled pod with the label for jobs is blocked at once, with its
  -- metadata unchanged, so it gets neither a group nor the mark of a staggered pod.
  pub handle_pod_admission_job :
      Blocks a.pod_blocker
      → check_enabled a.enable_label p.meta ≡ true
      → has_key a.job_pod_label p.labels ≡ true
      → (spec : PodSpec) × (handle_pod_admission a (p, w) ≡ (ok tt, (record p { spec = spec }, w)))
        × (a.pod_blocker.is_blocked spec ≡ true)
  unfolding handle_pod_admission block_pod
  handle_pod_admission_job blocks on job =
      let (spec, e, blocked) = blocks.block_succeeds p.spec in
      (spec, ground (arith, e, on, job, check_enabled_nonempty a.enable_label p.meta on), blocked)

  -- An enabled pod without the label for jobs is classified.
  handle_classified :
      check_enabled a.enable_label p.meta ≡ true
      → has_key a.job_pod_label p.labels ≡ false
      → handle_pod_admission a (p, w) ≡ classify_and_admit a p (p, w)
  unfolding handle_pod_admission
  handle_classified on nojob = ground (arith, on, nojob)

  module _ (on : check_enabled a.enable_label p.meta ≡ true)
      (nojob : has_key a.job_pod_label p.labels ≡ false) (group : PodClassification) (w₁ : W)
      (classified : a.classifier.classify p.meta p.spec w ≡ (ok (some group), w₁)) where
    abbrev q : Pod
    q = labelled a.stagger_group_id_label group.id p

    handle_grouped : handle_pod_admission a (p, w) ≡ admit_to_group a group (p, w₁)
    unfolding classify_and_admit admit_if_classified
    handle_grouped = rw (handle_classified on nojob, classified) refl

    module _ (waited : Result (Unit {0})) (w₂ : W)
        (wait : a.flight_tracker.wait_one group.id q.meta w₁ ≡ (waited, w₂)) (calm : waited ≢ panic)
        (ready starting blocked : List Pod) (w₃ : W)
        (standing : a.pod_group_classifier.classify_pod_group group.id w₂
          ≡ (ok (ready, starting, blocked), w₃)) where
      abbrev asked : Result (List Pod × List Pod)
      asked =
          group.pacer.pace
            (record { ready = ready; starting = starting; blocked = blocked ++ q ∷ [] })

      admit_asked :
          admit_to_group a group (p, w₁)
          ≡ continue
              (wrap_error "failed to pace pod" asked, (q, w₃))
              (λ x. block_unless_allowed a x.0)
      unfolding admit_to_group change_pod
      admit_asked = rw (
        set_label-make_labels a.stagger_group_id_label group.id p,
        wait,
        drop_error_calm {S = Pod × W} waited (q, w₂) calm,
        standing,
      )

      -- The same, by the webhook's own test.
      pub handle_pod_admission-lets_through :
          Blocks a.pod_blocker
          → (unblocked left : List Pod) → asked ≡ ok (unblocked, left)
          → ((lets_through q unblocked ≡ true) × (handle_pod_admission a (p, w) ≡ (ok tt, (q, w₃))))
            ⊎ ((lets_through q unblocked ≡ false)
                × ((spec : PodSpec) × (a.pod_blocker.is_blocked spec ≡ true)
                    × (handle_pod_admission a (p, w) ≡ (
                      ok tt,
                      (record (labelled default_staggered_pod_label "1" q) { spec = spec }, w₃),
                    ))))
      unfolding block_unless_allowed change_pod set_label block_pod
      handle_pod_admission-lets_through blocks unblocked left answer =
          let (spec, e, blocked) = blocks.block_succeeds p.spec in
          elim (Bool-cases (lets_through q unblocked)) [
            | inl through ↦ inl (through, rw (handle_grouped, admit_asked, answer, through) refl)
            | inr held ↦
                inr (held, (spec, blocked, rw (handle_grouped, admit_asked, answer, held, e) refl))
          ]

      -- An enabled pod without the label for jobs, whose group is found and whose standing is read, is
      -- let through, with only its group written on it, when one of the pods that the pacer allows
      -- has its name, its namespace and its generated name. When each of them differs in one of the
      -- three, it is marked as staggered, and its spec is blocked. An error of the flight tracker,
      -- but for a panic, changes nothing of this.
      pub handle_pod_admission-decides :
          Blocks a.pod_blocker
          → (unblocked left : List Pod) → asked ≡ ok (unblocked, left)
          → (Any (HasNamesOf q) unblocked × (handle_pod_admission a (p, w) ≡ (ok tt, (q, w₃))))
            ⊎ (All (λ x. ¬ HasNamesOf q x) unblocked
                × ((spec : PodSpec) × (a.pod_blocker.is_blocked spec ≡ true)
                    × (handle_pod_admission a (p, w) ≡ (
                      ok tt,
                      (record (labelled default_staggered_pod_label "1" q) { spec = spec }, w₃),
                    ))))
      handle_pod_admission-decides blocks unblocked left answer =
          elim (handle_pod_admission-lets_through blocks unblocked left answer) [
            | inl (through, e) ↦ inl (lets_through-true q unblocked through, e)
            | inr (held, rest) ↦ inr (lets_through-false q unblocked held, rest)
          ]

      -- When the pacer fails for an enabled pod without the label for jobs, whose group is found
      -- and whose standing is read, the webhook fails with the pacer's error wrapped, and the pod
      -- has its group on it already.
      pub handle_pod_admission-pace_err :
          (e : Error)
          → asked ≡ err e
          → handle_pod_admission a (p, w) ≡ (err (wrapped "failed to pace pod" e), (q, w₃))
      handle_pod_admission-pace_err e failed = rw (handle_grouped, admit_asked, failed) refl

bypass_ne_err : (r : Result (Unit {0})) (e : Error) → bypass true r ≢ err e
unfolding bypass
bypass_ne_err (ok tt) e h = cc
bypass_ne_err (err e') e h = cc
bypass_ne_err panic e h = cc

module _ {W : Type 0} (a : Admission W) (w : W) (on : a.bypass_failures ≡ true) where
  -- With `bypass_failures` the webhook reports no error, whatever fails inside.
  pub default_bypass : (o : Object) (e : Error) → (default a o w).0 ≢ err e
  unfolding default
  default_bypass o e h =
      bypass_ne_err (dispatch a o w).0 e (subst (λ b. bypass b (dispatch a o w).0 ≡ err e) on h)

  -- With `bypass_failures` and a blocker that blocks, a pod about which the handler of pods fails
  -- is admitted, with its spec as it was.
  pub default_fails_open :
      Blocks a.pod_blocker
      → (p p' : Pod) (e : Error) (w' : W) → handle_pod_admission a (p, w) ≡ (err e, (p', w'))
      → (default a (pod p) w ≡ (ok tt, pod p', w')) × (p'.spec ≡ p.spec)
  unfolding default dispatch bypass
  default_fails_open blocks p p' e w' failed = (
    ap (λ (s : Result (Unit {0}) × (Pod × W)). (bypass a.bypass_failures s.0, pod s.1.0, s.1.1))
          failed
        ∙ ap (λ b. (bypass b (err e), pod p', w')) on,
    spec_of_err
        (subst (SpecIsSafe a blocks p.spec) failed (handle_pod_admission-SpecIsSafe a blocks p w)),
  )
    where
      spec_of_err : SpecIsSafe a blocks p.spec (err e, (p', w')) → p'.spec ≡ p.spec
      spec_of_err (inl same) = same
      spec_of_err (inr wrong) = absurd (cc wrong.0)
