-- ===== src/ControlPlane.antt =====
-- packages/db/src/control-plane.ts, and what bumps and starts runs on top of it:
-- packages/workflows/src/bump.ts and runs.ts.
mod Environment
pub mod Bump
pub mod Attempts
pub mod Atomic
pub use Environment.*
use hyperfixation_core.Prelude.{
  ℕ, String, Bool, ◌+◌, ◌==◌, not, ◌&&◌, Option, none, some, List, [], ◌∷◌, ◌++◌, eqb,
  if◌then◌else◌, find_where, update_where, count_where, any_where,
}
use Prim.Native.String.{◌++◌ as str_append}
use hyperfixation_core.Prelude.Decimal.{decimal}
use hyperfixation_core.State.{
  Run, Db, RunStatus, is_run, find_run, Error, Result, ok, err, control_plane_in_workflow,
  commit_lost, run_not_found, run_lock_timeout, concurrent_bump, workflow_id_collision,
  unknown_flow, unique_violation,
}
use hyperfixation_core.State.Tx.{Tx, Exec, ◌>>=◌, ◌>>◌, pure, gets, require, guard, modify, settle}

-- BEGIN, the work, COMMIT. An answer to COMMIT with another tag means that nothing is durable.
unfoldable pub control_plane_tx : {A : Type 0} → Env → String → Tx A → Exec A
control_plane_tx env operation work db =
    if env.within_workflow
    then (err (control_plane_in_workflow operation), db)
    else settle db ((work >>= λ a. guard env.commits (commit_lost operation) >> pure a) db)

-- Attempt 1 runs under the run's own id, attempt N under `${runId}:${N}`.
unfoldable pub attempt_workflow_id : String → ℕ → String
attempt_workflow_id run_id attempt =
    if eqb attempt 1 then run_id else str_append run_id (str_append ":" (decimal attempt))

pub record BumpedAttempt : Type 0 where
  pub run_id : String
  pub flow : String
  pub input : String
  pub previous_attempt : ℕ
  pub attempt : ℕ
  pub workflow_id : String

-- The rows that BUMP_STATEMENT's compare-and-set matches.
abbrev pub at_attempt : String → ℕ → Run → Bool
at_attempt run_id attempt r = (r.run_id == run_id) && eqb r.attempt attempt

abbrev pub bump_row : ℕ → String → Run → Run
bump_row attempt workflow_id r = record r {
  status = RunStatus.running;
  attempt = attempt;
  current_workflow_id = workflow_id;
}

unfoldable pub workflow_id_taken : String → Db → Bool
workflow_id_taken id db = any_where (λ w. w.workflow_uuid == id) db.workflows

-- The unique index on hf_run.current_workflow_id, asked for a write to one run.
unfoldable pub current_id_taken : String → String → Db → Bool
current_id_taken run_id id db =
    any_where (λ r. not (r.run_id == run_id) && (r.current_workflow_id == id)) db.runs

unfoldable pub bump_attempt : Env → String → Tx BumpedAttempt
bump_attempt env run_id = do
  guard (not (env.lock_timed_out run_id)) (run_lock_timeout run_id)
  r ← λ db. require (find_run run_id db) (run_not_found run_id) db
  let attempt = r.attempt + 1
  let workflow_id = attempt_workflow_id run_id attempt
  clash ← gets (current_id_taken run_id workflow_id)
  guard (not clash) (unique_violation workflow_id)
  matched ← gets (λ db. count_where (at_attempt run_id r.attempt) db.runs)
  modify λ db. record db {
    runs = update_where (at_attempt run_id r.attempt) (bump_row attempt workflow_id) db.runs;
  }
  guard (eqb matched 1) (concurrent_bump run_id r.attempt)
  taken ← gets (workflow_id_taken workflow_id)
  guard (not taken) (workflow_id_collision run_id workflow_id)
  pure (record {
    run_id = run_id;
    flow = r.flow;
    input = r.input;
    previous_attempt = r.attempt;
    attempt = attempt;
    workflow_id = workflow_id;
  })

-- The queue of an enqueue comes from the flow registry and from nowhere else.
unfoldable pub flow_for_run : Env → String → String → Tx Flow
flow_for_run env run_id name =
    require (find_where (λ f. f.name == name) env.flows) (unknown_flow run_id name)

unfoldable pub enqueue_in_transaction : Env → Enqueue → Tx Unit
enqueue_in_transaction env job = modify λ db. record db { workflows = env.enqueue job db.workflows }

unfoldable pub bump_and_enqueue_on : Env → String → Tx BumpedAttempt
unfolding flow_for_run enqueue_in_transaction
bump_and_enqueue_on env run_id = do
  bumped ← bump_attempt env run_id
  flow ← flow_for_run env run_id bumped.flow
  enqueue_in_transaction env (record {
    queue_name = flow.queue;
    workflow_name = flow.name;
    workflow_id = bumped.workflow_id;
    run_id = run_id;
    attempt = bumped.attempt;
    input = bumped.input;
  })
  pure bumped

pub record StartedRun : Type 0 where
  pub run_id : String
  pub workflow_id : String

unfoldable pub new_run : String → String → String → String → Run
new_run run_id flow input workflow_id = record {
  run_id = run_id;
  flow = flow;
  input = input;
  status = RunStatus.running;
  attempt = 1;
  current_workflow_id = workflow_id;
  version = none;
  error = none;
  finished_at = none;
}

-- The insert is refused by the primary key and by the unique index on the workflow id.
unfoldable pub start_run : Env → Flow → String → String → Tx StartedRun
unfolding attempt_workflow_id new_run enqueue_in_transaction
start_run env flow input run_id = do
  let workflow_id = attempt_workflow_id run_id 1
  known ← gets (λ db. any_where (is_run run_id) db.runs)
  guard (not known) (unique_violation run_id)
  clash ← gets (current_id_taken run_id workflow_id)
  guard (not clash) (unique_violation workflow_id)
  modify λ db. record db { runs = db.runs ++ new_run run_id flow.name input workflow_id ∷ [] }
  enqueue_in_transaction env (record {
    queue_name = flow.queue;
    workflow_name = flow.name;
    workflow_id = workflow_id;
    run_id = run_id;
    attempt = 1;
    input = input;
  })
  pure (record { run_id = run_id; workflow_id = workflow_id })

-- The caller's id, or a fresh one of the environment.
unfoldable pub runs_start : Env → Flow → String → Option String → Exec StartedRun
unfolding start_run
runs_start env flow input run_id =
    control_plane_tx env "runs.start"
      (start_run env flow input (elim run_id [ none ↦ env.fresh_id | some id ↦ id ]))
