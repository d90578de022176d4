-- ===== src/Controller/Recorder.antt =====
-- pkg/controller/recorder.go: the recorder of the events of an object, and the interfaces of
-- pkg/controller/types that it is meant for.
use straggler.Base.{ℕ, List, String}
use straggler.Base.State.{M}

-- `record.EventRecorder` of client-go, over the objects `O`, the arguments `A` of a format, and what its
-- calls change, `E`. Its arguments are the object, the type of the event, its reason, the format and the
-- arguments.
pub record EventRecorder (O A E : Type 0) : Type 0 where
  pub eventf : O → String → String → String → List A → E → E

pub record Recorder (O A E : Type 0) : Type 0 where
  pub recorder : EventRecorder O A E
  pub object : O

module _ {O A E : Type 0} where
  unfoldable pub new_recorder_for_object : EventRecorder O A E → O → Recorder O A E
  new_recorder_for_object recorder object = record { recorder = recorder; object = object }

  -- `corev1.EventTypeNormal` and `corev1.EventTypeWarning` are "Normal" and "Warning".
  unfoldable pub normalf : Recorder O A E → String → String → List A → E → E
  normalf r reason format args = r.recorder.eventf r.object "Normal" reason format args

  unfoldable pub warnf : Recorder O A E → String → String → List A → E → E
  warnf r reason format args = r.recorder.eventf r.object "Warning" reason format args

  -- All of Logf is a comment.
  unfoldable pub logf : Recorder O A E → ℕ → String → String → List A → E → E
  logf r v reason format args e = e

-- The interface of a recorder: its calls change the events `E`.
pub record ObjectRecorder (A E : Type 0) : Type 0 where
  pub normalf : String → String → List A → E → E
  pub warnf : String → String → List A → E → E
  pub logf : ℕ → String → String → List A → E → E

-- The first function has no error path.
pub record ObjectRecorderFactory (O A E : Type 0) : Type 0 where
  pub recorder_for_root_controller_or_null : O → E → ObjectRecorder A E × E
  pub recorder_for_root_controller : O → M E (ObjectRecorder A E)

unfoldable pub object_recorder : {O A E : Type 0} → Recorder O A E → ObjectRecorder A E
object_recorder r = record { normalf = normalf r; warnf = warnf r; logf = logf r }
