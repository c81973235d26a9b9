-- ===== src/Reconcile/Attempts.antt =====
-- What a pass does to the runs: bumps and conclusions, nothing else.
use hyperfixation_core.Prelude.{
  ℕ, String, ◌≡◌, refl, arith, Bool, Option, some, none, List, [], ◌∷◌,
}
use hyperfixation_core.State.{
  Db, RunStatus, Approval, ActionLog, Workflow, WorkflowStatus, Result, ok, err, is_paused,
  control_plane_in_workflow,
}
use hyperfixation_core.ControlPlane.{
  Env, BumpedAttempt, control_plane_tx, bump_and_enqueue_on, flow_for_run, enqueue_in_transaction,
}
use hyperfixation_core.Runs.Numbered.{bumps, concludes, elsewhere}
use hyperfixation_core.Ledger.{is_running}
use hyperfixation_core.Runs.Superseded.{Reach, here, next}
use hyperfixation_core.Runs.Reaching.{Reach-append, control_plane_tx-Reach}
use hyperfixation_core.Approvals.Decide.Attempts.{decide-Reach}
use hyperfixation_core.Approvals.Batch.{DecideResult}
use hyperfixation_core.Approvals.Decide.{decide}
use hyperfixation_core.Approvals.Decide.Verdicts.{either}
use hyperfixation_core.Reconcile.{
  ReconcileOptions, ReconcileReport, ReconcileStep, ReattemptReason, RunningRun, Pass,
  bump_and_enqueue, report_bump, reattempt, enqueue_current_attempt, report_anomaly, record_anomaly,
  conclude, after_cancel, reconcile_row, failed_with, cancel_and_reattempt, is_dead, reconcile_live,
  reconcile_workflow, reconcile_running_run,
}
use hyperfixation_core.Reconcile.Sweep.{hygiene}
use hyperfixation_core.Reconcile.Hygiene.{hygiene-Sweeps}
use hyperfixation_core.Reconcile.Round.{
  each, reconcile_running, resume_parked, expire_approval, expire_approvals, report_expiry,
  expiry_of, after_hygiene, with_hygiene, reconcile, empty_report, scan_runs, running_rows,
}

report_bump-db :
    (run_id : String) (step : ReconcileStep) (reason : ReattemptReason) (report : ReconcileReport)
    (t : Result BumpedAttempt × Db)
    → (report_bump run_id step reason report t).1 ≡ t.1
unfolding report_bump
report_bump-db run_id step reason report (ok b, db) = refl
report_bump-db run_id step reason report (err e, db) = refl

report_anomaly-db :
    (row : RunningRun) (report : ReconcileReport) (t : Result Bool × Db)
    → (report_anomaly row report t).1 ≡ t.1
unfolding report_anomaly
report_anomaly-db row report (ok b, db) = refl
report_anomaly-db row report (err e, db) = refl

report_expiry-db :
    (run_id : String) (report : ReconcileReport) (t : Result DecideResult × Db)
    → (report_expiry run_id report t).1 ≡ t.1
unfolding report_expiry
report_expiry-db run_id report (ok b, db) = refl
report_expiry-db run_id report (err e, db) = refl

enqueue_current_attempt-runs :
    (env : Env) (row : RunningRun) (db : Db) (b : Bool) (db' : Db)
    → enqueue_current_attempt env row db ≡ ok (b, db')
    → db'.runs ≡ db.runs
unfolding enqueue_current_attempt flow_for_run enqueue_in_transaction
enqueue_current_attempt-runs env row db b db' h = ground arith

module _ (env : Env) where
  reattempt-Reach :
      (run_id : String) (step : ReconcileStep) (reason : ReattemptReason) (p : ReconcileReport × Db)
      → Reach env p.1 (reattempt env run_id step reason p).1
  unfolding reattempt bump_and_enqueue
  reattempt-Reach run_id step reason (report, db) =
      rw (report_bump-db run_id step reason report (bump_and_enqueue env run_id db)) (
        control_plane_tx-Reach env "reconcile.bump" (bump_and_enqueue_on env run_id) db
          (λ b db' h. next here (bumps run_id b h)))

  record_anomaly-Reach :
      (row : RunningRun) (p : ReconcileReport × Db) → Reach env p.1 (record_anomaly env row p).1
  unfolding record_anomaly
  record_anomaly-Reach row (report, db) =
      rw
        (report_anomaly-db row report
          (control_plane_tx env "reconcile.anomaly" (enqueue_current_attempt env row) db))
        (control_plane_tx-Reach env "reconcile.anomaly" (enqueue_current_attempt env row) db
          (λ b db' h. next here (elsewhere (enqueue_current_attempt-runs env row db b db' h))))

  conclude-Reach :
      (row : RunningRun) (status : RunStatus) (dbos_status : WorkflowStatus) (error : Option String)
      (p : ReconcileReport × Db)
      → Reach env p.1 (conclude row status dbos_status error p).1
  unfolding conclude
  conclude-Reach row status dbos_status error (report, db) =
      next here (concludes row.run_id row.current_workflow_id status error refl)

  module _ (options : ReconcileOptions) (row : RunningRun) where
    after_cancel-Reach :
        (o : Option (List Workflow)) (p : ReconcileReport × Db)
        → Reach env p.1 (after_cancel o env options row p).1
    unfolding after_cancel
    after_cancel-Reach none (report, db) = here
    after_cancel-Reach (some ws) (report, db) = Reach-append env (next here (elsewhere refl)) (
        reattempt-Reach row.run_id ReconcileStep.reattempting ReattemptReason.dead_version
          (report, record db { workflows = ws }))

    cancel_and_reattempt-Reach :
        (p : ReconcileReport × Db) → Reach env p.1 (cancel_and_reattempt env options row p).1
    unfolding cancel_and_reattempt
    cancel_and_reattempt-Reach p =
        after_cancel-Reach (options.cancel row.current_workflow_id p.1.workflows) p

    reconcile_workflow-Reach :
        (s : WorkflowStatus) (w : Workflow) (p : ReconcileReport × Db)
        → Reach env p.1 (reconcile_workflow env options row s w p).1
    unfolding reconcile_workflow reconcile_live
    reconcile_workflow-Reach WorkflowStatus.success w p =
        conclude-Reach row RunStatus.done WorkflowStatus.success none p
    reconcile_workflow-Reach WorkflowStatus.error w p =
        conclude-Reach row RunStatus.failed WorkflowStatus.error (failed_with options w) p
    reconcile_workflow-Reach WorkflowStatus.max_recovery_attempts_exceeded w p =
        conclude-Reach row RunStatus.failed WorkflowStatus.max_recovery_attempts_exceeded
          (failed_with options w) p
    reconcile_workflow-Reach WorkflowStatus.cancelled w p =
        reattempt-Reach row.run_id ReconcileStep.reattempting ReattemptReason.cancelled p
    reconcile_workflow-Reach s w p =
        either {A = ReconcileReport × Db} (λ q. Reach env p.1 q.1)
          (is_dead options w.application_version) (cancel_and_reattempt env options row p) p
          (cancel_and_reattempt-Reach p) here

    reconcile_row-Reach :
        (o : Option Workflow) (p : ReconcileReport × Db)
        → Reach env p.1 (reconcile_row o env options row p).1
    unfolding reconcile_row
    reconcile_row-Reach none p = record_anomaly-Reach row p
    reconcile_row-Reach (some w) p = reconcile_workflow-Reach w.status w p

    reconcile_running_run-Reach :
        (p : ReconcileReport × Db) → Reach env p.1 (reconcile_running_run env options row p).1
    unfolding reconcile_running_run
    reconcile_running_run-Reach p = reconcile_row-Reach row.workflow p

  each-Reach :
      {A : Type 0} (f : A → Pass)
      → ((x : A) (p : ReconcileReport × Db) → Reach env p.1 (f x p).1)
      → (xs : List A) (p : ReconcileReport × Db) → Reach env p.1 (each f xs p).1
  unfolding each
  each-Reach f reaches [] p = here
  each-Reach f reaches (x ∷ xs) p = Reach-append env (reaches x p) (each-Reach f reaches xs (f x p))

  expire_approval-Reach :
      (a : Approval) (p : ReconcileReport × Db) → Reach env p.1 (expire_approval env a p).1
  unfolding expire_approval
  expire_approval-Reach a (report, db) =
      rw (report_expiry-db a.run_id report (decide env (expiry_of a.id) db db (λ d. d) db))
        (decide-Reach env (expiry_of a.id) db db db)

  after_hygiene-Reach :
      (report : ReconcileReport) (db : Db) (t : Result (ℕ × List ActionLog) × Db)
      → Reach env db t.1
      → Reach env db (after_hygiene env report t).1
  unfolding after_hygiene expire_approvals
  after_hygiene-Reach report db (err e, d) r = r
  after_hygiene-Reach report db (ok swept, d) r =
      Reach-append env r
        (each-Reach (expire_approval env) expire_approval-Reach _ (with_hygiene report swept, d))

  resume_parked-Reach : (p : ReconcileReport × Db) → Reach env p.1 (resume_parked env p).1
  unfolding resume_parked
  resume_parked-Reach p =
      either {A = ReconcileReport × Db} (λ q. Reach env p.1 q.1) (is_paused p.1) p _ here
        (each-Reach _ (λ id q. reattempt-Reach id ReconcileStep.resuming ReattemptReason.resumed q)
          _ p)

pub reconcile-Reach :
    (env : Env) (options : ReconcileOptions) (db : Db) → Reach env db (reconcile env options db).1
unfolding reconcile reconcile_running
reconcile-Reach env options db =
    either {A = Result ReconcileReport × Db} (λ t. Reach env db t.1) env.within_workflow
      (err (control_plane_in_workflow "reconcile"), db)
      (after_hygiene env parked.0 (control_plane_tx env "reconcile.hygiene" hygiene parked.1)) here
      (after_hygiene-Reach env parked.0 db
        (control_plane_tx env "reconcile.hygiene" hygiene parked.1)
        (Reach-append env
          (Reach-append env
            (each-Reach env (reconcile_running_run env options)
              (reconcile_running_run-Reach env options)
              (running_rows (scan_runs (λ r. is_running r.status) db) db) (empty_report, db))
            (resume_parked-Reach env (reconcile_running env options (empty_report, db))))
          (control_plane_tx-Reach env "reconcile.hygiene" hygiene parked.1
            (λ r db' h. next here (elsewhere (hygiene-Sweeps parked.1 r db' h).runs)))))
  where
    parked : ReconcileReport × Db
    parked = resume_parked env (reconcile_running env options (empty_report, db))
