-- ===== src/Setup/Startup/Laws.antt =====
-- A service that starts: what NewCMDWithManager has registered when it succeeds, and that it registers
-- nothing when it fails before.
use straggler.Base.{
  ◌≡◌, refl, ap, ◌∙◌, subst, List, ◌∷◌, String, Bool, Bool-cases, inl, inr, ◌==◌, string_eq, arith,
}
use straggler.Base.Float.{FloatOps}
use straggler.Base.Result.{Result, Error, ok, err, panic, wrap_error}
use straggler.Base.State.{M, continue, from_result, or_wrap, pure, ◌>>◌}
use straggler.Kube.{Pod}
use straggler.Blocker.{PodBlocker, Blocks}
use straggler.Blocker.StubPod.{new_stub_pod}
use straggler.Blocker.StubPod.Laws.{new_stub_pod-Blocks}
use straggler.Controller.Classifier.External.{Libraries}
use straggler.Controller.Classifier.Configs.{IsConsistent}
use straggler.Setup.{
  StaggeringPolicy, new_reconciler, new_blocker, new_group_classifier, match_labels, policy_labels,
}
use straggler.Setup.Laws.{new_group_classifier-IsConsistent, bind_ok}
use straggler.Setup.Options.{Options}
use straggler.Setup.Startup.{
  Platform, Cmd, reconciler, flight_tracker, load_config, new_podgroup_classifier,
  get_match_labels_predicate, Prepared, prepare_predicate, prepare_blocker, prepare_classifier,
  prepare,
}
use straggler.Setup.Startup.Register.{
  tracker_of, admission_of, register_reconciler, register_admission_controller, register_all,
  new_cmd_with_manager,
}

wrap_error_ok :
    {A : Type 0} (text : String) (r : Result A) (a : A) → wrap_error text r ≡ ok a → r ≡ ok a
wrap_error_ok text (ok x) a h = h
wrap_error_ok text (err e) a h = absurd (cc h)
wrap_error_ok text panic a h = absurd (cc h)

module _ {W : Type 0} where
  continue_ok :
      {A B : Type 0} (s : Result A × W) (f : A → M W B) (b : B) (w' : W)
      → continue s f ≡ (ok b, w')
      → (a : A) × (w₁ : W) × (s ≡ (ok a, w₁)) × (f a w₁ ≡ (ok b, w'))
  continue_ok (ok a, w₁) f b w' h = (a, w₁, refl, h)
  continue_ok (err e, w₁) f b w' h = absurd (cc h)
  continue_ok (panic, w₁) f b w' h = absurd (cc h)

  wrapped_ok :
      {A : Type 0} (text : String) (m : M W A) (w : W) (a : A) (w₁ : W)
      → or_wrap text m w ≡ (ok a, w₁)
      → m w ≡ (ok a, w₁)
  wrapped_ok text m w a w₁ h = λ i. (wrap_error_ok text (m w).0 a (λ j. (h j).0) i, (h i).1)

new_blocker_ok : (image : String) (b : PodBlocker) → new_blocker image ≡ ok b → Blocks b
unfolding new_blocker
new_blocker_ok image b h = elim (Bool-cases (image == "")) [
  | inl empty ↦ absurd (ground (arith, h, empty))
  | inr some_image ↦
      let same : new_stub_pod image ≡ b = ground (arith, h, some_image) in
      subst Blocks same (new_stub_pod-Blocks image)
]

module _ {F : FloatOps} {L : Libraries} {W R Mgr : Type 0} (P : Platform F L W R Mgr)
    (sort : (Pod → Pod → Bool) → List Pod → List Pod) (mgr : Mgr) (options : Options R) where
  predicate_ok :
      (policies : List (StaggeringPolicy F)) (p : Pod → Bool)
      → get_match_labels_predicate P options policies ≡ ok p
      → p ≡ match_labels F options.enable_label policies
  unfolding get_match_labels_predicate
  predicate_ok policies p h =
      let (_, _, e) =
        bind_ok (P.check_requirements (options.enable_label ∷ policy_labels F policies))
          (λ _. ok (match_labels F options.enable_label policies)) p h in
      ground (arith, e)

  -- What is prepared follows the configuration.
  pub record IsPrepared (prepared : Prepared P) : Type 0 where
    pub policies : List (StaggeringPolicy F)
    pub loaded : load_config P options.staggering_config_path ≡ ok policies
    pub consistent : IsConsistent prepared.classifier
    pub blocks : Blocks prepared.pod_blocker
    pub matches : prepared.match_predicate ≡ match_labels F options.enable_label policies

  prepare_ok : (prepared : Prepared P) → prepare P sort options ≡ ok prepared → IsPrepared prepared
  unfolding prepare prepare_classifier prepare_blocker prepare_predicate
  prepare_ok prepared h =
      let (policies, loaded, h₁) =
        bind_ok (wrap_error "failed to load configs" (load_config P options.staggering_config_path))
          (prepare_classifier P sort options) prepared h in
      let (classifier, classified, h₂) =
        bind_ok (new_group_classifier F sort L policies) (prepare_blocker P sort options policies)
          prepared h₁ in
      let (blocker, blocked, h₃) =
        bind_ok (new_blocker options.stagger_container_image)
          (prepare_predicate P sort options policies classifier) prepared h₂ in
      let (predicate, matched, h₄) =
        bind_ok
          (wrap_error "failed to get match predicates for reconciler"
            (get_match_labels_predicate P options policies))
          (λ p. ok (record { classifier = classifier; pod_blocker = blocker; match_predicate = p }))
          prepared h₃ in
      let made : record {
        classifier = classifier;
        pod_blocker = blocker;
        match_predicate = predicate;
      }
          ≡ prepared =
        ground (arith, h₄) in
      subst IsPrepared made (record {
        policies = policies;
        loaded = wrap_error_ok "failed to load configs" _ policies loaded;
        consistent = new_group_classifier-IsConsistent F sort policies classifier classified;
        blocks = new_blocker_ok options.stagger_container_image blocker blocked;
        matches =
            predicate_ok policies predicate
              (wrap_error_ok "failed to get match predicates for reconciler" _ predicate matched);
      })

  -- The four registrations, in their order, with what they are given.
  pub record Registered (prepared : Prepared P) (w w' : W) : Type 0 where
    pub after_reconciler : W
    pub after_tracker : W
    pub after_pods : W
    pub reconciles :
        P.complete_controller mgr "reconciler" prepared.match_predicate
          (reconciler (
            new_reconciler
              (P.client mgr)
              (P.classifies prepared.classifier)
              (new_podgroup_classifier P mgr prepared.pod_blocker)))
          w
        ≡ (ok tt, after_reconciler)
    pub tracks :
        P.complete_controller mgr "flight-tracker" prepared.match_predicate
          (flight_tracker (tracker_of P options))
          after_reconciler
        ≡ (ok tt, after_tracker)
    pub admits_pods :
        P.complete_webhook mgr "Pod"
          (admission_of P options prepared.pod_blocker
            (P.classifies prepared.classifier)
            (new_podgroup_classifier P mgr prepared.pod_blocker))
          after_tracker
        ≡ (ok tt, after_pods)
    pub admits_jobs :
        P.complete_webhook mgr "Job"
          (admission_of P options prepared.pod_blocker
            (P.classifies prepared.classifier)
            (new_podgroup_classifier P mgr prepared.pod_blocker))
          after_pods
        ≡ (ok tt, w')

  register_all_ok :
      (prepared : Prepared P) (w w' : W)
      → register_all P sort mgr options prepared w ≡ (ok tt, w')
      → Registered prepared w w'
  unfolding register_all register_reconciler register_admission_controller
  register_all_ok prepared w w' h =
      let classifier = P.classifies prepared.classifier in
      let standing = new_podgroup_classifier P mgr prepared.pod_blocker in
      let admission = admission_of P options prepared.pod_blocker classifier standing in
      let reconciles =
        P.complete_controller mgr "reconciler" prepared.match_predicate
          (reconciler (new_reconciler (P.client mgr) classifier standing)) in
      let tracks =
        P.complete_controller mgr "flight-tracker" prepared.match_predicate
          (flight_tracker (tracker_of P options)) in
      let admits_jobs =
        or_wrap "failed to register pod admission" (P.complete_webhook mgr "Job" admission) in
      let admits_pods =
        or_wrap "failed to register pod admission" (P.complete_webhook mgr "Pod" admission) in
      let (_, w₁, e₁, h₁) =
        continue_ok (or_wrap "failed to watch for pods" reconciles w)
          (λ _.
            register_admission_controller P options prepared.match_predicate mgr
              prepared.pod_blocker classifier standing)
          tt w' h in
      let (_, w₂, e₂, h₂) =
        continue_ok (or_wrap "failed to watch for pods" tracks w₁) (λ _. admits_pods >> admits_jobs)
          tt w' h₁ in
      let (_, w₃, e₃, h₃) = continue_ok (admits_pods w₂) (λ _. admits_jobs) tt w' h₂ in
      record {
        after_reconciler = w₁;
        after_tracker = w₂;
        after_pods = w₃;
        reconciles = wrapped_ok "failed to watch for pods" reconciles w tt w₁ e₁;
        tracks = wrapped_ok "failed to watch for pods" tracks w₁ tt w₂ e₂;
        admits_pods =
            wrapped_ok "failed to register pod admission" (P.complete_webhook mgr "Pod" admission)
              w₂ tt w₃ e₃;
        admits_jobs =
            wrapped_ok "failed to register pod admission" (P.complete_webhook mgr "Job" admission)
              w₃ tt w' h₃;
      }

  -- If the service is put together without an error, then its configuration was read, its classifier
  -- is consistent, its blocker blocks, its predicate is that of the configuration, and the reconciler,
  -- the flight tracker and the webhook for pods and for jobs were registered in this order, all with
  -- this classifier, this blocker and this predicate.
  pub new_cmd_with_manager-Registered :
      (w w' : W) (cmd : Cmd R Mgr)
      → new_cmd_with_manager P sort mgr options w ≡ (ok cmd, w')
      → (prepared : Prepared P) × IsPrepared prepared × Registered prepared w w'
  unfolding new_cmd_with_manager
  new_cmd_with_manager-Registered w w' cmd h =
      let made : Cmd R Mgr = record { options = options; mgr = mgr } in
      let (prepared, w₁, ready, h₁) =
        continue_ok (from_result (prepare P sort options) w)
          (λ prepared. register_all P sort mgr options prepared >> pure made) cmd w' h in
      let (_, w₂, registered, h₂) =
        continue_ok (register_all P sort mgr options prepared w₁) (λ _. pure made) cmd w' h₁ in
      let same : w ≡ w₁ = ap (λ s. s.1) ready in
      let last : w₂ ≡ w' = ap (λ s. s.1) h₂ in
      (
        prepared,
        prepare_ok prepared (ap (λ s. s.0) ready),
        register_all_ok prepared w w' (
            ap (register_all P sort mgr options prepared) same
            ∙ registered
            ∙ ap (λ w. (ok tt, w)) last),
      )

  -- When a preparation fails, so does the service, with the same error, and nothing is registered.
  pub new_cmd_with_manager_unprepared :
      (w : W) (e : Error)
      → prepare P sort options ≡ err e
      → new_cmd_with_manager P sort mgr options w ≡ (err e, w)
  unfolding new_cmd_with_manager
  new_cmd_with_manager_unprepared w e h = rw h refl
