-- ===== src/Reconcile.antt =====
-- packages/workflows/src/reconcile.ts: what a pass of the reconciler does to one run. What DBOS does on
-- a cancel is an argument.
pub mod Sweep
pub mod Hygiene
pub mod Round
pub mod Attempts
pub mod Redeploy
use Prim.Native.String.{◌++◌ as str_append}
use hyperfixation_core.Prelude.{
  ℕ, String, Bool, true, false, ◌+◌, ◌==◌, ◌&&◌, ◌||◌, not, Option, none, some, List, [], ◌∷◌, ◌++◌,
  map, select_where, leb, length, if◌then◌else◌, or_else, find_where, update_where, count_where,
  any_where,
}
use hyperfixation_core.Prelude.Decimal.{decimal}
use hyperfixation_core.State.{
  Db, Run, RunStatus, LlmCall, CallStatus, ActionLog, ActionLogStatus, Approval, ApprovalVia,
  TaskOrigin, Workflow, WorkflowStatus, Error, Result, ok, err, is_paused, find_run,
  control_plane_in_workflow,
}
use hyperfixation_core.State.Tx.{Tx, Exec, ◌>>=◌, ◌>>◌, pure, gets, modify}
use hyperfixation_core.ControlPlane.{
  Env, Flow, BumpedAttempt, control_plane_tx, bump_and_enqueue_on, flow_for_run,
  enqueue_in_transaction, workflow_id_taken,
}
use hyperfixation_core.Runs.{conclude_run}
use hyperfixation_core.Ledger.{is_started, is_running}
use hyperfixation_core.Actions.{open_task, title_of, uncertain_row, is_unaccounted, log_uncertain}
use hyperfixation_core.Approvals.{is_pending}
use hyperfixation_core.Approvals.Batch.{
  ApprovalDecisionKind, DecideOptions, DecideResult, DecidedApproval,
}
use hyperfixation_core.Approvals.Decide.{decide}

pub data ReattemptReason : Type 0 where
  dead_version cancelled resumed : ReattemptReason

pub data ReconcileStep : Type 0 where
  reattempting concluding resuming anomaly expiring : ReconcileStep

pub record ReattemptedRun : Type 0 where
  pub run_id : String
  pub attempt : ℕ
  pub workflow_id : String
  pub reason : ReattemptReason

pub record Concluded : Type 0 where
  pub run_id : String
  pub status : RunStatus
  pub dbos_status : WorkflowStatus

pub record ReconcileAnomaly : Type 0 where
  pub run_id : String
  pub workflow_id : String
  pub enqueued : Bool

pub record ReconcileFailure : Type 0 where
  pub run_id : String
  pub step : ReconcileStep
  pub error : Error

pub record ReconcileReport : Type 0 where
  pub reattempted : List ReattemptedRun
  pub concluded : List Concluded
  pub anomalies : List ReconcileAnomaly
  pub abandoned_llm_calls : ℕ
  pub uncertain_actions : ℕ
  pub expired : List DecidedApproval
  pub failures : List ReconcileFailure

-- The version of this worker, and what `cancelWorkflow` does: `none` where it throws.
pub record ReconcileOptions : Type 0 where
  pub application_version : String
  pub cancel : String → List Workflow → Option (List Workflow)
  pub cancel_error : Error
  -- The texts that a concluded run gets for how its workflow ended.
  pub ended_text : WorkflowStatus → String

-- A step of the pass: it never throws, it reports.
abbrev pub Pass : Type 0
Pass = ReconcileReport × Db → ReconcileReport × Db

abbrev pub record_failure : String → ReconcileStep → Error → ReconcileReport → ReconcileReport
record_failure run_id step e report = record report {
  failures = report.failures ++ record { run_id = run_id; step = step; error = e } ∷ [];
}

abbrev pub record_reattempt : BumpedAttempt → ReattemptReason → ReconcileReport → ReconcileReport
record_reattempt b reason report = record report {
  reattempted =
      report.reattempted
      ++ record {
        run_id = b.run_id;
        attempt = b.attempt;
        workflow_id = b.workflow_id;
        reason = reason;
      }
        ∷ [];
}

unfoldable pub bump_and_enqueue : Env → String → Exec BumpedAttempt
bump_and_enqueue env run_id = control_plane_tx env "reconcile.bump" (bump_and_enqueue_on env run_id)

unfoldable pub report_bump :
    String
    → ReconcileStep
    → ReattemptReason
    → ReconcileReport
    → Result BumpedAttempt × Db
    → ReconcileReport × Db
report_bump run_id step reason report (ok b, db) = (record_reattempt b reason report, db)
report_bump run_id step reason report (err e, db) = (record_failure run_id step e report, db)

unfoldable pub reattempt : Env → String → ReconcileStep → ReattemptReason → Pass
unfolding report_bump bump_and_enqueue
reattempt env run_id step reason (report, db) =
    report_bump run_id step reason report (bump_and_enqueue env run_id db)

-- A running run and the workflow of its current attempt, as the scan read them.
pub record RunningRun : Type 0 where
  pub run_id : String
  pub current_workflow_id : String
  pub workflow : Option Workflow

unfoldable pub enqueue_current_attempt : Env → RunningRun → Tx Bool
enqueue_current_attempt env row db = elim (find_run row.run_id db) [
  | none ↦ ok (false, db)
  | some r ↦
      if is_running r.status
        && (r.current_workflow_id == row.current_workflow_id)
        && not (workflow_id_taken row.current_workflow_id db)
      then (flow_for_run env row.run_id r.flow >>= λ flow.
            enqueue_in_transaction env (record {
              queue_name = flow.queue;
              workflow_name = flow.name;
              workflow_id = r.current_workflow_id;
              run_id = row.run_id;
              attempt = r.attempt;
              input = r.input;
            })
            >> pure true)
          db
      else ok (false, db)
]

unfoldable pub report_anomaly :
    RunningRun → ReconcileReport → Result Bool × Db → ReconcileReport × Db
report_anomaly row report (ok enqueued, db) = (
  record report {
    anomalies =
        report.anomalies
        ++ record {
          run_id = row.run_id;
          workflow_id = row.current_workflow_id;
          enqueued = enqueued;
        }
          ∷ [];
  },
  db,
)
report_anomaly row report (err e, db) = (
  record_failure row.run_id ReconcileStep.anomaly e (record report {
    anomalies =
        report.anomalies
        ++ record { run_id = row.run_id; workflow_id = row.current_workflow_id; enqueued = false }
          ∷ [];
  }),
  db,
)

unfoldable pub record_anomaly : Env → RunningRun → Pass
unfolding report_anomaly
record_anomaly env row (report, db) =
    report_anomaly row report
      (control_plane_tx env "reconcile.anomaly" (enqueue_current_attempt env row) db)

unfoldable pub conclude : RunningRun → RunStatus → WorkflowStatus → Option String → Pass
conclude row status dbos_status error (report, db) = (
  record report {
    concluded =
        report.concluded
        ++ record { run_id = row.run_id; status = status; dbos_status = dbos_status } ∷ [];
  },
  (conclude_run row.run_id row.current_workflow_id status error db).1,
)

-- Only a version that is present and another one is dead.
unfoldable pub is_dead : ReconcileOptions → Option String → Bool
is_dead options none = false
is_dead options (some version) = not (version == options.application_version)

-- A cancel that threw is a failure of the run's reattempt.
unfoldable pub after_cancel : Option (List Workflow) → Env → ReconcileOptions → RunningRun → Pass
unfolding reattempt
after_cancel none env options row (report, db) =
    (record_failure row.run_id ReconcileStep.reattempting options.cancel_error report, db)
after_cancel (some workflows) env options row (report, db) =
    reattempt env row.run_id ReconcileStep.reattempting ReattemptReason.dead_version
      (report, record db { workflows = workflows })

unfoldable pub cancel_and_reattempt : Env → ReconcileOptions → RunningRun → Pass
unfolding after_cancel
cancel_and_reattempt env options row p =
    after_cancel (options.cancel row.current_workflow_id p.1.workflows) env options row p

abbrev pub failed_with : ReconcileOptions → Workflow → Option String
failed_with options w = some (or_else w.error (options.ended_text w.status))

-- A live attempt of this version, or of none yet, is left alone.
unfoldable pub reconcile_live : Env → ReconcileOptions → RunningRun → Workflow → Pass
unfolding cancel_and_reattempt
reconcile_live env options row w p =
    if is_dead options w.application_version then cancel_and_reattempt env options row p else p

unfoldable pub reconcile_workflow :
    Env → ReconcileOptions → RunningRun → WorkflowStatus → Workflow → Pass
unfolding conclude reattempt reconcile_live
reconcile_workflow env options row WorkflowStatus.success w =
    conclude row RunStatus.done WorkflowStatus.success none
reconcile_workflow env options row WorkflowStatus.error w =
    conclude row RunStatus.failed WorkflowStatus.error (failed_with options w)
reconcile_workflow env options row WorkflowStatus.max_recovery_attempts_exceeded w =
    conclude row RunStatus.failed WorkflowStatus.max_recovery_attempts_exceeded
      (failed_with options w)
reconcile_workflow env options row WorkflowStatus.cancelled w =
    reattempt env row.run_id ReconcileStep.reattempting ReattemptReason.cancelled
reconcile_workflow env options row _ w = reconcile_live env options row w

-- A running run whose workflow has no row is an anomaly.
unfoldable pub reconcile_row : Option Workflow → Env → ReconcileOptions → RunningRun → Pass
unfolding record_anomaly reconcile_workflow
reconcile_row none env options row p = record_anomaly env row p
reconcile_row (some w) env options row p = reconcile_workflow env options row w.status w p

unfoldable pub reconcile_running_run : Env → ReconcileOptions → RunningRun → Pass
unfolding reconcile_row
reconcile_running_run env options row p = reconcile_row row.workflow env options row p
