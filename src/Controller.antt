-- ===== src/Controller.antt =====
-- pkg/controller: the classifiers, the admission handler and the reconciler.
pub mod Types
pub mod Standing
pub mod Classifier
pub mod Admission
pub mod Reconciler
pub mod Jobs
pub mod Flights
pub mod Rollout
pub mod Recorder
