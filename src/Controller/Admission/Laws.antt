-- ===== src/Controller/Admission/Laws.antt =====
-- What the webhook does to a pod.
use straggler.Base.{
  ◌≡◌, ◌⊎◌, inl, inr, refl, ap, subst, List, [], ◌∷◌, ◌++◌, String, Option, none, some, Bool, true,
  false, not, ◌&&◌, arith, eqb, if◌then◌else◌, string_eq,
}
use straggler.Base.Dict.{len_map}
use straggler.Base.Result.{Result, ok, err, panic}
use straggler.Base.State.{
  ◌>>=◌, ◌>>◌, continue, drop_error-state, or_wrap, M, pure, from_result, ignore_error,
}
use straggler.Kube.{Pod, PodSpec}
use straggler.Blocker.{Blocks}
use straggler.Controller.Types.{PodClassification}
use straggler.Controller.Admission.{
  Admission, check_enabled, has_key, set_label, make_labels, lets_through, change_pod, block_pod,
  block_unless_allowed, admit_to_group, admit_if_classified, classify_and_admit,
  handle_pod_admission, default_staggered_pod_label, get_pod, in_world,
}

-- A step that leaves the spec of the pod alone.
record Keeps {W A : Type 0} (m : M (Pod × W) A) : Type 0 where
  keeps : (pod : Pod) (w : W) → (m (pod, w)).1.0.spec ≡ pod.spec

module _ {W : Type 0} where
  Keeps-change_label :
      (f : Pod → Pod) (k v : String)
      → ((pod : Pod) → (f pod).spec ≡ pod.spec)
      → Keeps {W = W} (change_pod (λ p. set_label k v (f p)))
  unfolding change_pod set_label
  Keeps-change_label f k v e = record { keeps = λ pod w. ground (arith, e pod) }

  Keeps-get_pod : Keeps {W = W} get_pod
  Keeps-get_pod = record { keeps = λ pod w. refl }

  Keeps-in_world :
      {A : Type 0} (text : String) (m : M W A) → Keeps {W = W} (or_wrap text (in_world m))
  Keeps-in_world text m = record { keeps = λ pod w. refl }

  Keeps-from_result :
      {A : Type 0} (text : String) (r : Result A) → Keeps {W = W} (or_wrap text (from_result r))
  Keeps-from_result text r = record { keeps = λ pod w. refl }

  Keeps-ignore_error : (m : M W (Unit {0})) → Keeps {W = W} (ignore_error (in_world m))
  Keeps-ignore_error m = record {
    keeps = λ pod w. ap (λ (s : Pod × W). s.0.spec) (drop_error-state (in_world m (pod, w)));
  }

module _ {W : Type 0} (a : Admission W) (blocks : Blocks a.pod_blocker) where
  -- The spec of the pod is as before, or the call has succeeded and the spec is blocked.
  abbrev pub SpecIsSafe : PodSpec → Result (Unit {0}) × (Pod × W) → Type 0
  SpecIsSafe spec s =
      (s.1.0.spec ≡ spec) ⊎ ((s.0 ≡ ok tt) × (a.pod_blocker.is_blocked s.1.0.spec ≡ true))

  record IsSafe (m : M (Pod × W) (Unit {0})) : Type 0 where
    safe : (pod : Pod) (w : W) → SpecIsSafe pod.spec (m (pod, w))

  continue-SpecIsSafe :
      {A : Type 0} (spec : PodSpec) (s : Result A × (Pod × W)) (f : A → M (Pod × W) (Unit {0}))
      → s.1.0.spec ≡ spec
      → ((x : A) → IsSafe (f x))
      → SpecIsSafe spec (continue s f)
  continue-SpecIsSafe spec (ok x, (pod, w)) f e h =
      subst (λ spec. SpecIsSafe spec (f x (pod, w))) e ((h x).safe pod w)
  continue-SpecIsSafe spec (err x, (pod, w)) f e h = inl e
  continue-SpecIsSafe spec (panic, (pod, w)) f e h = inl e

  IsSafe-bind :
      {A : Type 0} (m : M (Pod × W) A) (f : A → M (Pod × W) (Unit {0}))
      → Keeps m
      → ((x : A) → IsSafe (f x))
      → IsSafe (m >>= f)
  IsSafe-bind m f k h = record {
    safe = λ pod w. continue-SpecIsSafe pod.spec (m (pod, w)) f (k.keeps pod w) h;
  }

  IsSafe-then : (m n : M (Pod × W) (Unit {0})) → Keeps m → IsSafe n → IsSafe (m >> n)
  IsSafe-then m n k h = record {
    safe = λ pod w. continue-SpecIsSafe pod.spec (m (pod, w)) (λ _. n) (k.keeps pod w) (λ _. h);
  }

  IsSafe-pure : IsSafe (pure tt)
  IsSafe-pure = record { safe = λ pod w. inl refl }

  IsSafe-if :
      (b : Bool) {m n : M (Pod × W) (Unit {0})} → IsSafe m → IsSafe n → IsSafe (if b then m else n)
  IsSafe-if true h k = h
  IsSafe-if false h k = k

  block_pod_lem :
      (pod : Pod) (w : W)
      → (spec : PodSpec) × (a.pod_blocker.block pod.spec ≡ ok spec)
        × (a.pod_blocker.is_blocked spec ≡ true)
        × (block_pod a (pod, w) ≡ (ok tt, (record pod { spec = spec }, w)))
  unfolding block_pod
  block_pod_lem pod w =
      let (spec, e, blocked) = blocks.block_succeeds pod.spec in (spec, e, blocked, rw e refl)

  block_pod-IsSafe : IsSafe (block_pod a)
  block_pod-IsSafe = record {
    safe = λ pod w. let (_, _, blocked, e) = block_pod_lem pod w in rw e (inr (refl, blocked));
  }

  block_unless_allowed-IsSafe : (unblocked : List Pod) → IsSafe (block_unless_allowed a unblocked)
  unfolding block_unless_allowed
  block_unless_allowed-IsSafe unblocked = IsSafe-bind _ _ Keeps-get_pod λ pod.
      IsSafe-if (lets_through pod unblocked) IsSafe-pure (
        IsSafe-then _ _ (Keeps-change_label (λ p. p) default_staggered_pod_label "1" (λ _. refl))
          block_pod-IsSafe)

  admit_to_group-IsSafe : (group : PodClassification) → IsSafe (admit_to_group a group)
  unfolding admit_to_group make_labels
  admit_to_group-IsSafe group =
      IsSafe-then _ _ (Keeps-change_label make_labels a.stagger_group_id_label group.id (λ _. refl))
        (IsSafe-bind _ _ Keeps-get_pod λ pod.
          IsSafe-then _ _ (Keeps-ignore_error (a.flight_tracker.wait_one group.id pod.meta)) (
            IsSafe-bind _ _
              (Keeps-in_world "failed to classify pod group"
                (a.pod_group_classifier.classify_pod_group group.id))
              λ standing.
                IsSafe-bind _ _
                  (Keeps-from_result "failed to pace pod" (
                    group.pacer.pace (record {
                      ready = standing.0;
                      starting = standing.1;
                      blocked = standing.2 ++ pod ∷ [];
                    })))
                  λ paced. block_unless_allowed-IsSafe paced.0))

  admit_if_classified-IsSafe :
      (group : Option PodClassification) → IsSafe (admit_if_classified a group)
  unfolding admit_if_classified
  admit_if_classified-IsSafe none = IsSafe-pure
  admit_if_classified-IsSafe (some group) = admit_to_group-IsSafe group

  classify_and_admit-IsSafe : (pod : Pod) → IsSafe (classify_and_admit a pod)
  unfolding classify_and_admit
  classify_and_admit-IsSafe pod =
      IsSafe-bind _ _
        (Keeps-in_world "failed to classify group" (a.classifier.classify pod.meta pod.spec))
        λ group. admit_if_classified-IsSafe group

  handle_pod_admission-IsSafe : IsSafe (handle_pod_admission a)
  unfolding handle_pod_admission
  handle_pod_admission-IsSafe = IsSafe-bind _ _ Keeps-get_pod λ pod.
      IsSafe-if (not (check_enabled a.enable_label pod.meta)) IsSafe-pure (
        IsSafe-if (not (eqb (len_map pod.labels) 0) && has_key a.job_pod_label pod.labels)
          block_pod-IsSafe (classify_and_admit-IsSafe pod))

  -- However the classifiers, the tracker and the pacer answer: with a blocker that blocks, the
  -- webhook leaves the spec of the pod as it was, or it succeeds and the spec is blocked.
  pub handle_pod_admission-SpecIsSafe :
      (pod : Pod) (w : W) → SpecIsSafe pod.spec (handle_pod_admission a (pod, w))
  handle_pod_admission-SpecIsSafe pod w = handle_pod_admission-IsSafe.safe pod w
