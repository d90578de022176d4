-- ===== src/Controller/Admission/Job.antt =====
-- handleJobAdmission of pkg/controller/admission.go, and Default, which serves pods and jobs.
pub mod Laws
use straggler.Base.{
  List, [], ◌∷◌, ◌++◌, String, Option, none, some, Bool, true, false, not, ◌&&◌, ◌==◌, string_eq,
  if◌then◌else◌,
}
use straggler.Base.Result.{Result, ok, err, panic, errorf}
use straggler.Base.State.{M}
use straggler.Kube.{Condition, ObjectMeta, Pod}
use straggler.Controller.Admission.{Admission, check_enabled, handle_pod_admission}

-- The fields of `batchv1.PodFailurePolicyRule`, of the policy and of `batchv1.Job` that the handler
-- reads or writes. `template` is the metadata of the pods that the job makes.
pub record PodFailurePolicyRule : Type 0 where
  pub action : String
  pub on_pod_conditions : List Condition

pub record PodFailurePolicy : Type 0 where
  pub rules : List PodFailurePolicyRule

pub record Job : Type 0 where
  pub template : ObjectMeta
  pub pod_failure_policy : Option PodFailurePolicy

-- The inner loop: some condition is a disruption.
unfoldable pub has_disruption : List Condition → Bool
has_disruption [] = false
has_disruption (condition ∷ rest) =
    if condition.status == "True" && condition.kind == "DisruptionTarget"
    then true
    else has_disruption rest

-- The outer loop: whether a rule for disruptions exists, and the last action that was read. `action`
-- is the value of the variable before the loop.
unfoldable pub find_policy : String → List PodFailurePolicyRule → Bool × String
unfolding has_disruption
find_policy action [] = (false, action)
find_policy action (rule ∷ rest) =
    let further = find_policy rule.action rest in
    if has_disruption rule.on_pod_conditions then (true, rule.action) else further

abbrev pub rules_of : Option PodFailurePolicy → List PodFailurePolicyRule
rules_of none = []
rules_of (some policy) = policy.rules

abbrev pub ignore_rule : PodFailurePolicyRule
ignore_rule = record {
  action = "Ignore";
  on_pod_conditions = record { kind = "DisruptionTarget"; status = "True" } ∷ [];
}

unfoldable pub add_ignore_rule : Job → Job
add_ignore_rule job = record job {
  pod_failure_policy =
      some (record { rules = rules_of job.pod_failure_policy ++ ignore_rule ∷ [] });
}

patch_job : Job → Bool × String → Job
unfolding add_ignore_rule
patch_job job (exists, action) =
    if exists && not (action == "Ignore")
    then job
    else (if not exists then add_ignore_rule job else job)

-- The handler never fails.
unfoldable pub handle_job_admission : String → Job → Result (Unit {0}) × Job
unfolding check_enabled find_policy patch_job
handle_job_admission enable_label job =
    if not (check_enabled enable_label job.template)
    then (ok tt, job)
    else (ok tt, patch_job job (find_policy "" (rules_of job.pod_failure_policy)))

-- The objects that the webhook can be given.
pub data Object : Type 0 where
  pod : Pod → Object
  job : Job → Object
  other : Object

unfoldable pub bypass : Bool → Result (Unit {0}) → Result (Unit {0})
bypass true (err e) = ok tt
bypass _ r = r

module _ {W : Type 0} where
  unfoldable pub dispatch : Admission W → Object → W → Result (Unit {0}) × Object × W
  unfolding handle_pod_admission handle_job_admission
  dispatch a (pod p) w = let (r, (p', w')) = handle_pod_admission a (p, w) in (r, pod p', w')
  dispatch a (job j) w = let (r, j') = handle_job_admission a.enable_label j in (r, job j', w)
  dispatch a other w = (err (errorf "unexpected object type"), other, w)

  unfoldable pub default : Admission W → Object → W → Result (Unit {0}) × Object × W
  unfolding dispatch bypass
  default a object w =
      let (r, object', w') = dispatch a object w in (bypass a.bypass_failures r, object', w')
