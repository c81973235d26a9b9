-- ===== src/Actions/Again.antt =====
-- `actions.perform` twice under one key: the second is answered from the row of the first.
use mathlib.Core.Option
use hyperfixation_core.Prelude.{◌≡◌, some, find_where}
use hyperfixation_core.State.{Db, ActionLog, ActionLogStatus, ok}
use hyperfixation_core.Ledger.{Ctx}
use hyperfixation_core.Actions.{ActionsPerformOptions, ActionResult, is_action}

-- The row that answers an action.
pub record Accounted (ctx : Ctx) (options : ActionsPerformOptions) (result : ActionResult) (db : Db)
    : Type 0 where
  pub row : ActionLog
  pub found : find_where (is_action ctx.run_id options.key) db.action_logs ≡ some row
  pub accepted : row.status ≡ ActionLogStatus.ok
  pub same_id : row.external_id ≡ result.external_id
  pub same_response : row.response ≡ result.response
