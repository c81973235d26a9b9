-- ===== src/Reconcile/Sweep.antt =====
-- Step (4) of the pass: rows that no live attempt can finish any more.
use hyperfixation_core.Prelude.{
  ℕ, String, Bool, ◌==◌, ◌&&◌, ◌||◌, not, List, [], ◌∷◌, select_where, update_where, count_where,
  any_where, some,
}
use hyperfixation_core.State.{Run, LlmCall, CallStatus, ActionLog, TaskOrigin}
use hyperfixation_core.State.Tx.{Tx, ◌>>=◌, ◌>>◌, pure, gets, modify}
use hyperfixation_core.Ledger.{is_started, is_running}
use hyperfixation_core.Actions.{open_task, title_of, uncertain_row, is_unaccounted, log_uncertain}

-- The run left `running`, or it is on another attempt.
unfoldable pub is_gone : List Run → String → String → Bool
is_gone runs run_id workflow_id =
    any_where
      (λ r.
        (r.run_id == run_id)
        && (not (is_running r.status) || not (r.current_workflow_id == workflow_id)))
      runs

abbrev pub abandoned_row : ℕ → LlmCall → LlmCall
abandoned_row now c = record c { status = CallStatus.abandoned; finished_at = some now }

unfoldable pub is_abandoned : List Run → LlmCall → Bool
unfolding is_gone
is_abandoned runs c = is_started c.status && is_gone runs c.run_id c.workflow_id

-- ABANDON_LLM_CALLS_STATEMENT.
unfoldable pub abandon_calls : Tx ℕ
abandon_calls = do
  n ← gets (λ db. count_where (is_abandoned db.runs) db.llm_calls)
  modify λ db. record db {
    llm_calls = update_where (is_abandoned db.runs) (abandoned_row db.now) db.llm_calls;
  }
  pure n

unfoldable pub is_swept : List Run → ActionLog → Bool
unfolding is_gone
is_swept runs a = is_unaccounted a.status && is_gone runs a.run_id a.workflow_id

-- UNCERTAIN_ACTIONS_STATEMENT, with what it returns.
unfoldable pub sweep_actions : Tx (List ActionLog)
sweep_actions = do
  rows ← gets (λ db. select_where (is_swept db.runs) db.action_logs)
  modify λ db. record db {
    action_logs = update_where (is_swept db.runs) (uncertain_row db.now) db.action_logs;
  }
  pure rows

unfoldable pub open_uncertain_task : ActionLog → Tx (Unit {0})
open_uncertain_task row = do
  task ← open_task TaskOrigin.sweep row (title_of row.channel row.key row.run_id)
  log_uncertain row.run_id row

unfoldable pub open_uncertain_tasks : List ActionLog → Tx (Unit {0})
open_uncertain_tasks [] = pure tt
open_uncertain_tasks (row ∷ rows) = open_uncertain_task row >> open_uncertain_tasks rows

-- How many calls were abandoned, and the actions that went `uncertain`.
unfoldable pub hygiene : Tx (ℕ × List ActionLog)
hygiene = do
  calls ← abandon_calls
  rows ← sweep_actions
  open_uncertain_tasks rows
  pure (calls, rows)
