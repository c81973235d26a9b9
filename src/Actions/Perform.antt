-- ===== src/Actions/Perform.antt =====
-- packages/workflows/src/actions.ts: what is sent, the transaction after it, and `perform`.
use hyperfixation_core.Prelude.{ℕ, String, Option, none, some, update_where}
use hyperfixation_core.State.{Db, ActionLog, ActionLogStatus, Result, ok, err}
use hyperfixation_core.State.Tx.{Tx, modify}
use hyperfixation_core.Fence.{step_tx}
use hyperfixation_core.Ledger.{Ctx}
use hyperfixation_core.Actions.{
  ActionsPerformOptions, ActionResult, ActionDispatch, idempotency_key, is_action, Taken, answered,
  uncertain, send, take_action,
}

abbrev pub failed_row : ℕ → ActionLog → ActionLog
failed_row now a = record a { status = ActionLogStatus.failed; finished_at = some now }

abbrev pub ok_row : ActionResult → ℕ → ActionLog → ActionLog
ok_row result now a = record a {
  status = ActionLogStatus.ok;
  external_id = result.external_id;
  response = result.response;
  finished_at = some now;
}

-- The transaction after the send: `failed` where the channel threw, `ok` with its answer.
unfoldable pub finish_action : Ctx → String → Result ActionResult → Tx (Unit {0})
finish_action ctx key (err e) = modify λ db. record db {
  action_logs = update_where (is_action ctx.run_id key) (failed_row db.now) db.action_logs;
}
finish_action ctx key (ok result) = modify λ db. record db {
  action_logs = update_where (is_action ctx.run_id key) (ok_row result db.now) db.action_logs;
}

unfoldable pub dispatch_of : Ctx → ActionsPerformOptions → ActionDispatch
dispatch_of ctx options = record {
  idempotency_key = idempotency_key ctx.run_id options.key;
  run_id = ctx.run_id;
  key = options.key;
  request = options.request;
}

-- What went out, and what `perform` returns or throws.
pub record Performed : Type 0 where
  pub dispatched : Option ActionDispatch
  pub result : Result ActionResult

abbrev pub then_result : Result ActionResult → Result (Unit {0}) → Result ActionResult
then_result r (ok _) = r
then_result r (err e) = err e

-- `meanwhile` is what other transactions commit during the send.
unfoldable pub after_take :
    Ctx
    → ActionsPerformOptions
    → (ActionDispatch → Result ActionResult)
    → (Db → Db)
    → Result Taken × Db
    → Performed × Db
unfolding dispatch_of
after_take ctx options channel meanwhile (err e, db) =
    (record { dispatched = none; result = err e }, db)
after_take ctx options channel meanwhile (ok (uncertain e), db) =
    (record { dispatched = none; result = err e }, db)
after_take ctx options channel meanwhile (ok (answered r), db) =
    (record { dispatched = none; result = ok r }, db)
after_take ctx options channel meanwhile (ok send, db) =
    let dispatch = dispatch_of ctx options in
    let result = channel dispatch in
    let (done, db') =
      step_tx ctx.run_id ctx.workflow_id (finish_action ctx options.key result) (meanwhile db) in
    (record { dispatched = some dispatch; result = then_result result done }, db')

unfoldable pub perform :
    Ctx
    → ActionsPerformOptions
    → (ActionDispatch → Result ActionResult)
    → (Db → Db)
    → Db
    → Performed × Db
unfolding after_take
perform ctx options channel meanwhile db =
    after_take ctx options channel meanwhile
      (step_tx ctx.run_id ctx.workflow_id (take_action ctx options) db)
