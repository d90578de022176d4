-- ===== src/Setup/Startup/Register.antt =====
-- RegisterReconciler and RegisterAdmissionController of pkg/cmd/factories.go, and NewCMDWithManager and
-- NewCMD of cmd.go. What is registered changes the world.
use straggler.Base.{List, some, Bool}
use straggler.Base.Float.{FloatOps}
use straggler.Base.State.{M, ◌>>=◌, ◌>>◌, pure, from_result, or_wrap}
use straggler.Kube.{Pod}
use straggler.Blocker.{PodBlocker}
use straggler.Controller.Types.{PodClassifier, PodGroupStandingClassifier}
use straggler.Controller.Admission.{Admission, default_stagger_group_id_label}
use straggler.Controller.Flights.{FlightTracker, new_flight_tracker}
use straggler.Controller.Classifier.External.{Libraries}
use straggler.Setup.{new_admission, new_reconciler}
use straggler.Setup.Options.{Options}
use straggler.Setup.Startup.{
  Platform, Cmd, reconciler, flight_tracker, create_kubernetes_config, new_controller_manager,
  new_podgroup_classifier, Prepared, prepare,
}

module _ {F : FloatOps} {L : Libraries} {W R Mgr : Type 0} (P : Platform F L W R Mgr) where
  unfoldable pub register_reconciler :
      (Pod → Bool) → Mgr → PodClassifier W → PodGroupStandingClassifier W → M W (Unit {0})
  unfolding new_reconciler
  register_reconciler match_predicate mgr classifier pod_group_classifier =
      or_wrap "failed to watch for pods" (
        P.complete_controller mgr "reconciler" match_predicate
          (reconciler (new_reconciler (P.client mgr) classifier pod_group_classifier)))

  unfoldable pub tracker_of : Options R → FlightTracker
  unfolding new_flight_tracker
  tracker_of options = new_flight_tracker options.max_flight_duration default_stagger_group_id_label

  unfoldable pub admission_of :
      Options R → PodBlocker → PodClassifier W → PodGroupStandingClassifier W → Admission W
  unfolding new_admission tracker_of
  admission_of options blocker classifier pod_group_classifier =
      new_admission classifier pod_group_classifier blocker (P.tracks (tracker_of options))
        options.bypass_failure options.enable_label

  unfoldable pub register_admission_controller :
      Options R
      → (Pod → Bool)
      → Mgr
      → PodBlocker
      → PodClassifier W
      → PodGroupStandingClassifier W
      → M W (Unit {0})
  unfolding tracker_of admission_of
  register_admission_controller options match_predicate mgr blocker classifier
        pod_group_classifier =
      do
        or_wrap "failed to watch for pods" (
            P.complete_controller mgr "flight-tracker" match_predicate
              (flight_tracker (tracker_of options)))
        or_wrap "failed to register pod admission" (
            P.complete_webhook mgr "Pod"
              (admission_of options blocker classifier pod_group_classifier))
        or_wrap "failed to register pod admission" (
            P.complete_webhook mgr "Job"
              (admission_of options blocker classifier pod_group_classifier))

  module _ (sort : (Pod → Pod → Bool) → List Pod → List Pod) where
    -- The registrations of NewCMDWithManager.
    unfoldable pub register_all : Mgr → Options R → Prepared P → M W (Unit {0})
    unfolding new_podgroup_classifier register_reconciler register_admission_controller
    register_all mgr options prepared = do
      register_reconciler prepared.match_predicate mgr (P.classifies prepared.classifier)
          (new_podgroup_classifier P mgr prepared.pod_blocker)
      register_admission_controller options prepared.match_predicate mgr prepared.pod_blocker
          (P.classifies prepared.classifier) (new_podgroup_classifier P mgr prepared.pod_blocker)

    unfoldable pub new_cmd_with_manager : Mgr → Options R → M W (Cmd R Mgr)
    unfolding prepare register_all
    new_cmd_with_manager mgr options = do
      prepared ← from_result (prepare P sort options)
      register_all mgr options prepared
      pure (record { options = options; mgr = mgr })

    -- The configuration of the API client is put into the options.
    abbrev pub with_config : Options R → R → Options R
    with_config options config = record options {
      kubernetes_options = record (options.kubernetes_options) { config = some config };
    }

    unfoldable pub new_cmd : Options R → M W (Cmd R Mgr)
    unfolding create_kubernetes_config new_controller_manager new_cmd_with_manager
    new_cmd options = do
      config ←
          or_wrap "failed to create kubernetes config"
            (from_result (create_kubernetes_config P options.kubernetes_options))
      mgr ←
          or_wrap "failed to create controller manager"
            (from_result (new_controller_manager P (with_config options config)))
      new_cmd_with_manager mgr (with_config options config)
