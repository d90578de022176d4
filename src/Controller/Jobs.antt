-- ===== src/Controller/Jobs.antt =====
-- The webhook and the reconciler together: what becomes of a pod of a job.
use straggler.Base.{ℕ, ◌≡◌, sym, true, false, arith, ap, ◌∙◌}
use straggler.Base.Float.{FloatOps}
use straggler.Base.Result.{ok}
use straggler.Kube.{NamespacedName, Pod}
use straggler.Blocker.{Blocks}
use straggler.Controller.Admission.{Admission, check_enabled, has_key, handle_pod_admission}
use straggler.Controller.Admission.Decision.{handle_pod_admission_job}
use straggler.Controller.Reconciler.{Reconciler, done, reconcile}
use straggler.Controller.Reconciler.Decision.{reconcile_skips}

module _ {V W : Type 0} (a : Admission V) (blocks : Blocks a.pod_blocker) (p : Pod) (v : V)
    (on : check_enabled a.enable_label p.meta ≡ true)
    (job : has_key a.job_pod_label p.labels ≡ true) where
  -- An enabled pod with the label for jobs, and without a group label of its own, leaves the
  -- webhook blocked, and a run of a reconciler that reads it as the webhook left it skips it: the
  -- world stays as the read left it, and no later look is asked for.
  pub reconcile-handle_pod_admission_job :
      (F : FloatOps) (r : Reconciler W) (now : ℕ) (request : NamespacedName) (w w₁ : W) (p' : Pod)
      → has_key r.stagger_group_id_label p.labels ≡ false
      → (handle_pod_admission a (p, v)).1.0 ≡ p'
      → r.client.get request w ≡ (ok p', w₁)
      → (a.pod_blocker.is_blocked p'.spec ≡ true) × (reconcile F r now request w ≡ (ok done, w₁))
  reconcile-handle_pod_admission_job F r now request w w₁ p' nogroup left read =
      let (spec, e, blocked) = handle_pod_admission_job a p v blocks on job in
      let same : record p { spec = spec } ≡ p' = ap (λ s. s.1.0) (sym e) ∙ left in
      (
        rw (← same) blocked,
        reconcile_skips F r now request w w₁ p' read (rw (← same, nogroup) (ground arith)),
      )
