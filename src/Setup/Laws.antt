-- ===== src/Setup/Laws.antt =====
-- What the configuration gives: consistent classifiers, and which pods the controllers see.
use straggler.Base.{
  ◌≡◌, refl, ap, subst, string_dec, List, [], ◌∷◌, ◌++◌, String, some, Bool, false, ◌&&◌, map,
  arith, ◌<>◌, string_eq,
}
use straggler.Base.Dict.{Dict, GoMap, lookup, entries}
use straggler.Base.Float.{FloatOps}
use straggler.Base.Result.{Result, ok, err, panic, ◌>>=◌, wrap_error}
use straggler.Kube.{Pod}
use straggler.Pacer.{PacerFactory}
use straggler.Controller.Admission.{has_key}
use straggler.Controller.Classifier.External.{Libraries}
use straggler.Controller.Classifier.{Classifier, add_config, new_pod_classifier}
use straggler.Controller.Classifier.Configs.{
  IsConsistent, add_config-IsConsistent, new_pod_classifier-IsConsistent,
}
use straggler.Setup.{
  StaggeringPolicy, policy_labels, has_all, match_labels, new_pacer_factory, group_of, add_policies,
  new_group_classifier,
}

pub bind_ok :
    {A B : Type 0} (m : Result A) (f : A → Result B) (b : B)
    → (m >>= f) ≡ ok b
    → (a : A) × (m ≡ ok a) × (f a ≡ ok b)
bind_ok (ok a) f b h = (a, refl, h)
bind_ok (err e) f b h = absurd (cc h)
bind_ok panic f b h = absurd (cc h)

module _ (F : FloatOps) where
  has_all-append :
      (xs ys : List String) (labels : GoMap)
      → has_all F (xs ++ ys) labels ≡ has_all F xs labels && has_all F ys labels
  unfolding has_all
  has_all-append [] ys labels = refl
  has_all-append (x ∷ xs) ys labels = ground (arith, has_all-append xs ys labels)

  has_all-keys :
      (k v : String) (d : Dict String String) (labels : GoMap)
      → lookup k d ≡ some v
      → has_key k labels ≡ false
      → has_all F (map (λ e. e.0) d) labels ≡ false
  unfolding has_all lookup
  has_all-keys k v [] labels h missing = absurd (cc h)
  has_all-keys k v ((j, w) ∷ d) labels h missing = elim (string_dec j k) [
    | yes same ↦ ground (arith, ap (λ x. has_key x labels) same, missing)
    | no differ ↦ ground (arith, has_all-keys k v d labels, h, missing, differ)
  ]

  policy_labels_missing :
      (ps : List (StaggeringPolicy F)) (p : StaggeringPolicy F) (qs : List (StaggeringPolicy F))
      (k v : String) (labels : GoMap)
      → lookup k (entries p.label_selector) ≡ some v
      → has_key k labels ≡ false
      → has_all F (policy_labels F (ps ++ p ∷ qs)) labels ≡ false
  unfolding policy_labels
  policy_labels_missing [] p qs k v labels h missing = ground (
    arith,
    has_all-append (map (λ e. e.0) (entries p.label_selector)) (policy_labels F qs) labels,
    has_all-keys k v (entries p.label_selector) labels h missing,
  )
  policy_labels_missing (q ∷ ps) p qs k v labels h missing = ground (
    arith,
    has_all-append (map (λ e. e.0) (entries q.label_selector)) (policy_labels F (ps ++ p ∷ qs))
        labels,
    policy_labels_missing ps p qs k v labels h missing,
  )

  -- The controllers do not see a pod that lacks a label of the selector of any one policy, even where
  -- another policy applies to the pod.
  pub match_labels_missing :
      (enable_label : String) (ps : List (StaggeringPolicy F)) (p : StaggeringPolicy F)
      (qs : List (StaggeringPolicy F)) (k v : String) (pod : Pod)
      → lookup k (entries p.label_selector) ≡ some v
      → has_key k pod.labels ≡ false
      → match_labels F enable_label (ps ++ p ∷ qs) pod ≡ false
  unfolding match_labels has_all
  match_labels_missing enable_label ps p qs k v pod h missing =
      ground (arith, policy_labels_missing ps p qs k v pod.labels h missing)

  module _ (sort : (Pod → Pod → Bool) → List Pod → List Pod) {L : Libraries} where
    add_policies-IsConsistent :
        (policies : List (StaggeringPolicy F)) (c c' : Classifier L)
        → IsConsistent c
        → add_policies F sort L policies c ≡ ok c'
        → IsConsistent c'
    unfolding add_policies
    add_policies-IsConsistent [] c c' i h = subst IsConsistent (ground (arith, h)) i
    add_policies-IsConsistent (policy ∷ policies) c c' i h =
        let (factory, _, rest) =
          bind_ok
            (wrap_error ("failed to create pacer for " <> policy.name)
              (new_pacer_factory F sort policy))
            (λ factory. added factory >>= λ _. after factory) c' h in
        let (_, _, rest') = bind_ok (added factory) (λ _. after factory) c' rest in
        add_policies-IsConsistent policies (add_config L (group_of F sort policy factory) c).1 c'
          (add_config-IsConsistent (group_of F sort policy factory) c i) rest'
      where
        added : PacerFactory → Result (Unit {0})
        added factory =
            wrap_error ("failed to create pod group classifer for " <> policy.name)
              (add_config L (group_of F sort policy factory) c).0

        after : PacerFactory → Result (Classifier L)
        after factory =
            add_policies F sort L policies (add_config L (group_of F sort policy factory) c).1

    -- A classifier that is made from a configuration is consistent.
    pub new_group_classifier-IsConsistent :
        (policies : List (StaggeringPolicy F)) (c : Classifier L)
        → new_group_classifier F sort L policies ≡ ok c
        → IsConsistent c
    unfolding new_group_classifier
    new_group_classifier-IsConsistent policies c h =
        add_policies-IsConsistent policies (new_pod_classifier L) c new_pod_classifier-IsConsistent
          h
