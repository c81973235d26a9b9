-- ===== src/Runs.antt =====
-- packages/workflows/src: run-status.ts, step.ts and the wrapper of define-flow.ts, which own
-- every status that an attempt writes to its run.
pub mod Numbered
pub mod Superseded
pub mod Reaching
pub mod Lifecycle
use hyperfixation_core.Prelude.{
  ℕ, String, Bool, true, false, ◌==◌, not, Option, none, some, eqb, if◌then◌else◌, update_where,
  count_where,
}
use hyperfixation_core.State.{
  Run, RunStatus, Db, is_paused, find_run, Error, Result, ok, err, stale_attempt, suspend,
}
use hyperfixation_core.State.Tx.{Exec}
use hyperfixation_core.Fence.{is_attempt}

abbrev pub claim_row : String → Run → Run
claim_row version r = record r { status = RunStatus.running; version = some version }

-- CLAIM_RUN_STATEMENT: whether one row was still on this attempt.
unfoldable pub claim_run : String → String → String → Db → Bool × Db
claim_run run_id workflow_id version db = (
  eqb (count_where (is_attempt run_id workflow_id) db.runs) 1,
  record db { runs = update_where (is_attempt run_id workflow_id) (claim_row version) db.runs },
)

abbrev pub finished_at_of : RunStatus → ℕ → Option ℕ
finished_at_of RunStatus.done now = some now
finished_at_of RunStatus.failed now = some now
finished_at_of _ now = none

abbrev pub conclude_row : RunStatus → Option String → ℕ → Run → Run
conclude_row status error now r = record r {
  status = status;
  error = error;
  finished_at = finished_at_of status now;
}

-- CONCLUDE_RUN_STATEMENT.
unfoldable pub conclude_run : String → String → RunStatus → Option String → Db → Bool × Db
conclude_run run_id workflow_id status error db = (
  eqb (count_where (is_attempt run_id workflow_id) db.runs) 1,
  record db {
    runs = update_where (is_attempt run_id workflow_id) (conclude_row status error db.now) db.runs;
  },
)

-- STEP_GATE_STATEMENT, its fencing half.
abbrev pub holds_token : String → Option Run → Bool
holds_token workflow_id none = false
holds_token workflow_id (some r) = r.current_workflow_id == workflow_id

-- `step()`: the gate, then the body. A paused app parks the run before the step.
unfoldable pub step : {A : Type 0} → String → String → Exec A → Exec A
unfolding conclude_run
step run_id workflow_id body db =
    if is_paused db
    then (
      err (suspend run_id RunStatus.paused),
      (conclude_run run_id workflow_id RunStatus.paused none db).1,
    )
    else if holds_token workflow_id (find_run run_id db)
    then body db
    else (err (stale_attempt run_id workflow_id), db)

module _ (message_of : Error → String) where
  -- How the wrapper ends an attempt whose body returned or threw.
  unfoldable pub end_attempt :
      {A : Type 0} → String → String → Result A × Db → Result (Option A) × Db
  unfolding conclude_run
  end_attempt run_id workflow_id (ok output, db) =
      (ok (some output), (conclude_run run_id workflow_id RunStatus.done none db).1)
  end_attempt run_id workflow_id (err (suspend id status), db) =
      (ok none, (conclude_run run_id workflow_id status none db).1)
  end_attempt run_id workflow_id (err e, db) =
      (err e, (conclude_run run_id workflow_id RunStatus.failed (some (message_of e)) db).1)

  -- The workflow that `defineFlow` registers, around the flow's own body.
  unfoldable pub run_flow : {A : Type 0} → String → String → String → Exec A → Exec (Option A)
  unfolding claim_run end_attempt
  run_flow run_id workflow_id version body db =
      let (claimed, db') = claim_run run_id workflow_id version db in
      if claimed then end_attempt run_id workflow_id (body db') else (ok none, db')
