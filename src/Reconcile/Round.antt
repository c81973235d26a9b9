-- ===== src/Reconcile/Round.antt =====
-- The whole pass, in the order of its steps. Between its statements nothing else is committed here;
-- the theorems on each operation are stated for any database that it may meet.
use Prim.Native.String.{◌++◌ as str_append, compare as compare_text}
use hyperfixation_core.Prelude.{
  ℕ, String, Bool, true, false, ◌==◌, ◌&&◌, none, some, List, [], ◌∷◌, ◌++◌, map, select_where, leb,
  length, if◌then◌else◌, find_where,
}
use hyperfixation_core.Prelude.Decimal.{decimal}
use hyperfixation_core.State.{
  Db, Run, RunStatus, ActionLog, Approval, ApprovalVia, Result, ok, err, is_paused, find_run,
  control_plane_in_workflow,
}
use hyperfixation_core.State.Tx.{Exec}
use hyperfixation_core.ControlPlane.{Env, control_plane_tx}
use hyperfixation_core.Ledger.{is_running}
use hyperfixation_core.Approvals.{is_pending}
use hyperfixation_core.Approvals.Batch.{
  ApprovalDecisionKind, DecideOptions, DecideResult, sort_unique,
}
use hyperfixation_core.Approvals.Decide.{decide}
use hyperfixation_core.Reconcile.{
  ReconcileOptions, ReconcileReport, RunningRun, Pass, ReconcileStep, ReattemptReason,
  record_failure, reattempt, reconcile_running_run,
}
use hyperfixation_core.Reconcile.Sweep.{hygiene}

abbrev pub empty_report : ReconcileReport
empty_report = record {
  reattempted = [];
  concluded = [];
  anomalies = [];
  abandoned_llm_calls = 0;
  uncertain_actions = 0;
  expired = [];
  failures = [];
}

-- A scan ORDER BY run_id.
unfoldable pub scan_runs : (Run → Bool) → Db → List String
scan_runs p db = sort_unique compare_text (map (λ r. r.run_id) (select_where p db.runs))

-- The LEFT JOIN with dbos.workflow_status.
unfoldable pub running_run : Db → Run → RunningRun
running_run db r = record {
  run_id = r.run_id;
  current_workflow_id = r.current_workflow_id;
  workflow = find_where (λ w. w.workflow_uuid == r.current_workflow_id) db.workflows;
}

unfoldable pub running_rows : List String → Db → List RunningRun
unfolding running_run
running_rows [] db = []
running_rows (id ∷ ids) db = elim (find_run id db) [
  | none ↦ running_rows ids db
  | some r ↦ running_run db r ∷ running_rows ids db
]

unfoldable pub each {ℓ} : {A : Type ℓ} → (A → Pass) → List A → Pass
each f [] p = p
each f (x ∷ xs) p = each f xs (f x p)

-- Step (1).
unfoldable pub reconcile_running : Env → ReconcileOptions → Pass
reconcile_running env options p =
    each (reconcile_running_run env options)
      (running_rows (scan_runs (λ r. is_running r.status) p.1) p.1) p

abbrev pub is_parked : RunStatus → Bool
is_parked RunStatus.paused = true
is_parked _ = false

-- Step (3): runs parked by a pause that the app has come out of.
unfoldable pub resume_parked : Env → Pass
resume_parked env p =
    if is_paused p.1
    then p
    else each (λ run_id. reattempt env run_id ReconcileStep.resuming ReattemptReason.resumed)
        (scan_runs (λ r. is_parked r.status) p.1) p

unfoldable pub is_expired : ℕ → Approval → Bool
is_expired now a = is_pending a.status && elim a.expires_at [ none ↦ false | some at ↦ leb at now ]

unfoldable pub sweep_decision_key : ℕ → String
sweep_decision_key id = str_append "sweep:" (decimal id)

unfoldable pub expiry_of : ℕ → DecideOptions
unfolding sweep_decision_key
expiry_of id = record {
  ids = id ∷ [];
  decision = ApprovalDecisionKind.expired;
  via = ApprovalVia.sweep;
  decision_key = sweep_decision_key id;
  user_id = none;
  edits = [];
  admin = false;
  schema_for = none;
}

unfoldable pub report_expiry :
    String → ReconcileReport → Result DecideResult × Db → ReconcileReport × Db
report_expiry run_id report (ok r, db) =
    (record report { expired = report.expired ++ r.decided }, db)
report_expiry run_id report (err e, db) =
    (record_failure run_id ReconcileStep.expiring e report, db)

-- One approval for each call of `decide()`.
unfoldable pub expire_approval : Env → Approval → Pass
unfolding report_expiry expiry_of
expire_approval env a (report, db) =
    report_expiry a.run_id report (decide env (expiry_of a.id) db db (λ d. d) db)

-- Step (5).
unfoldable pub expire_approvals : Env → Pass
unfolding is_expired
expire_approvals env p =
    each (expire_approval env) (select_where (is_expired p.1.now) p.1.approvals) p

-- What the swept rows add to the report.
abbrev pub with_hygiene : ReconcileReport → ℕ × List ActionLog → ReconcileReport
with_hygiene report swept = record report {
  abandoned_llm_calls = swept.0;
  uncertain_actions = length swept.1;
}

unfoldable pub after_hygiene :
    Env → ReconcileReport → Result (ℕ × List ActionLog) × Db → Result ReconcileReport × Db
after_hygiene env report (err e, db) = (err e, db)
after_hygiene env report (ok swept, db) =
    let (report', db') = expire_approvals env (with_hygiene report swept, db) in (ok report', db')

-- Steps (1), (3), (4) and (5). Step (6) touches no row of the database.
unfoldable pub reconcile : Env → ReconcileOptions → Exec ReconcileReport
unfolding after_hygiene
reconcile env options db =
    if env.within_workflow
    then (err (control_plane_in_workflow "reconcile"), db)
    else let (report, db') = resume_parked env (reconcile_running env options (empty_report, db)) in
      after_hygiene env report (control_plane_tx env "reconcile.hygiene" hygiene db')
