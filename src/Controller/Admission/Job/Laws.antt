-- ===== src/Controller/Admission/Job/Laws.antt =====
-- What the webhook does to the pod failure policy of a job.
use mathlib.Core.List.{append-nil}
use straggler.Base.{
  Any, ◌⊎◌, ◌==◌, ◌&&◌, subst, ◌≡◌, inl, inr, refl, sym, List, [], ◌∷◌, ◌++◌, String, Option, none,
  some, Bool, true, false, arith, Bool-cases, Option-cases, if◌then◌else◌, string_eq,
}
use straggler.Base.Result.{ok}
use straggler.Kube.{Condition}
use straggler.Controller.Admission.{check_enabled}
use straggler.Controller.Admission.Job.{
  PodFailurePolicyRule, Job, has_disruption, find_policy, rules_of, ignore_rule, add_ignore_rule,
  patch_job, handle_job_admission,
}

-- The rule that decides about a disruption: the first with such a condition.
abbrev pub first_disruption : List PodFailurePolicyRule → Option PodFailurePolicyRule
first_disruption [] = none
first_disruption (rule ∷ rest) =
    if has_disruption rule.on_pod_conditions then some rule else first_disruption rest

abbrev pub deciding_rule : Job → Option PodFailurePolicyRule
deciding_rule j = first_disruption (rules_of j.pod_failure_policy)

-- The condition is the one that Kubernetes puts on a pod that it disrupts.
abbrev pub IsDisruption : Condition → Type 0
IsDisruption c = (c.status ≡ "True") × (c.kind ≡ "DisruptionTarget")

-- Some condition of the rule is a disruption.
abbrev pub AppliesToDisruption : PodFailurePolicyRule → Type 0
AppliesToDisruption rule = Any IsDisruption rule.on_pod_conditions

-- The rule, if there is one, is the first that applies to a disruption.
abbrev pub IsFirstDisruption : List PodFailurePolicyRule → Option PodFailurePolicyRule → Type 0
IsFirstDisruption [] o = o ≡ none
IsFirstDisruption (rule ∷ rest) o =
    (AppliesToDisruption rule × (o ≡ some rule))
    ⊎ ((¬ AppliesToDisruption rule) × IsFirstDisruption rest o)

is_disruption : Condition → Bool
is_disruption c = c.status == "True" && c.kind == "DisruptionTarget"

is_disruption-true : (c : Condition) → is_disruption c ≡ true → IsDisruption c
unfolding is_disruption
is_disruption-true c h = (ground (arith, h), ground (arith, h))

is_disruption-false : (c : Condition) → is_disruption c ≡ false → ¬ IsDisruption c
unfolding is_disruption
is_disruption-false c h (e, f) = ground (arith, h, e, f)

has_disruption-true : (cs : List Condition) → has_disruption cs ≡ true → Any IsDisruption cs
unfolding has_disruption is_disruption
has_disruption-true [] h = absurd (cc h)
has_disruption-true (c ∷ cs) h = elim (Bool-cases (is_disruption c)) [
  | inl same ↦ inl (is_disruption-true c same)
  | inr other ↦ inr (has_disruption-true cs (ground (arith, h, other)))
]

has_disruption-false : (cs : List Condition) → has_disruption cs ≡ false → ¬ Any IsDisruption cs
unfolding has_disruption is_disruption
has_disruption-false [] h none_there = none_there
has_disruption-false (c ∷ cs) h (inl same) = is_disruption-false c (ground (arith, h)) same
has_disruption-false (c ∷ cs) h (inr later) = has_disruption-false cs (ground (arith, h)) later

first_disruption-IsFirstDisruption :
    (rules : List PodFailurePolicyRule) → IsFirstDisruption rules (first_disruption rules)
first_disruption-IsFirstDisruption [] = refl
first_disruption-IsFirstDisruption (rule ∷ rest) =
    elim (Bool-cases (has_disruption rule.on_pod_conditions)) [
      | inl applies ↦ inl (has_disruption-true rule.on_pod_conditions applies, rw applies refl)
      | inr other ↦ inr (
        has_disruption-false rule.on_pod_conditions other,
        rw other (first_disruption-IsFirstDisruption rest),
      )
    ]

-- The rule that decides once the webhook has seen the job.
abbrev pub or_ignore : Option PodFailurePolicyRule → PodFailurePolicyRule
or_ignore none = ignore_rule
or_ignore (some rule) = rule

find_policy-some :
    (action : String) (rules : List PodFailurePolicyRule) (r : PodFailurePolicyRule)
    → first_disruption rules ≡ some r
    → find_policy action rules ≡ (true, r.action)
unfolding find_policy
find_policy-some action [] r h = cc
find_policy-some action (rule ∷ rest) r h = ground (arith, find_policy-some rule.action rest r)

find_policy-none :
    (action : String) (rules : List PodFailurePolicyRule)
    → first_disruption rules ≡ none
    → (find_policy action rules).0 ≡ false
unfolding find_policy
find_policy-none action [] h = refl
find_policy-none action (rule ∷ rest) h = ground (arith, find_policy-none rule.action rest)

first_disruption-append :
    (rules : List PodFailurePolicyRule)
    → first_disruption rules ≡ none
    → first_disruption (rules ++ ignore_rule ∷ []) ≡ some ignore_rule
unfolding has_disruption
first_disruption-append [] h = ground arith
first_disruption-append (rule ∷ rest) h = ground (arith, first_disruption-append rest)

patch_job_exists : (j : Job) (action : String) → patch_job j (true, action) ≡ j
unfolding patch_job
patch_job_exists j action = ground arith

patch_job_missing :
    (j : Job) (found : Bool × String) → found.0 ≡ false → patch_job j found ≡ add_ignore_rule j
unfolding patch_job
patch_job_missing j (exists, action) h = rw h

module _ (enable_label : String) (j : Job) (on : check_enabled enable_label j.template ≡ true) where
  handle_decided :
      (r : PodFailurePolicyRule)
      → deciding_rule j ≡ some r
      → handle_job_admission enable_label j ≡ (ok tt, j)
  unfolding handle_job_admission
  handle_decided r h =
      rw (on, find_policy-some "" (rules_of j.pod_failure_policy) r h, patch_job_exists)

  handle_undecided :
      deciding_rule j ≡ none → handle_job_admission enable_label j ≡ (ok tt, add_ignore_rule j)
  unfolding handle_job_admission
  handle_undecided h = rw (
    on,
    patch_job_missing j (find_policy "" (rules_of j.pod_failure_policy))
        (find_policy-none "" (rules_of j.pod_failure_policy) h),
  )

  handle_job_admission-keeps :
      (j' : Job) × (handle_job_admission enable_label j ≡ (ok tt, j'))
      × (deciding_rule j' ≡ some (or_ignore (deciding_rule j)))
      × ((rs : List PodFailurePolicyRule) × (rules_of j'.pod_failure_policy
            ≡ rules_of j.pod_failure_policy ++ rs))
      × (j'.template ≡ j.template)
  unfolding add_ignore_rule
  handle_job_admission-keeps = elim (Option-cases (deciding_rule j)) [
    | inl missing ↦ (
      add_ignore_rule j,
      handle_undecided missing,
      rw missing (first_disruption-append (rules_of j.pod_failure_policy) missing),
      (ignore_rule ∷ [], refl),
      refl,
    )
    | inr (r, found) ↦ (
      j,
      handle_decided r found,
      rw found refl,
      ([], sym (append-nil (rules_of j.pod_failure_policy))),
      refl,
    )
  ]

  -- For an enabled job the webhook succeeds. The rule that decides about a disruption afterwards, the
  -- first with a condition of the kind "DisruptionTarget" and the status "True", is the one that
  -- decided before, whatever its action; if there was none, it is the rule that ignores
  -- disruptions. The job's own rules stay in front, and its template stays.
  pub handle_job_admission-decides :
      (j' : Job) × (handle_job_admission enable_label j ≡ (ok tt, j'))
      × ((o : Option PodFailurePolicyRule) × IsFirstDisruption (rules_of j.pod_failure_policy) o
          × IsFirstDisruption (rules_of j'.pod_failure_policy) (some (or_ignore o)))
      × ((rs : List PodFailurePolicyRule) × (rules_of j'.pod_failure_policy
            ≡ rules_of j.pod_failure_policy ++ rs))
      × (j'.template ≡ j.template)
  handle_job_admission-decides =
      let (j', e, decides, more, same) = handle_job_admission-keeps in
      (
        j',
        e,
        (
          deciding_rule j,
          first_disruption-IsFirstDisruption (rules_of j.pod_failure_policy),
          subst (IsFirstDisruption (rules_of j'.pod_failure_policy)) decides
              (first_disruption-IsFirstDisruption (rules_of j'.pod_failure_policy)),
        ),
        more,
        same,
      )

-- A second call of the webhook for the same job succeeds and changes nothing more.
pub handle_job_admission_idem :
    (enable_label : String) (j : Job)
    → let j' = (handle_job_admission enable_label j).1 in
      handle_job_admission enable_label j' ≡ (ok tt, j')
handle_job_admission_idem enable_label j =
    elim (Bool-cases (check_enabled enable_label j.template)) [
      | inl on ↦
          let (j', e, decides, _, same) = handle_job_admission-keeps enable_label j on in
          rw e (handle_decided enable_label j' (rw same on) _ decides)
      | inr off ↦ rw (handle_off off) (handle_off off)
    ]
  where
    handle_off :
        check_enabled enable_label j.template ≡ false
        → handle_job_admission enable_label j ≡ (ok tt, j)
    handle_off off = unfold handle_job_admission in rw off
