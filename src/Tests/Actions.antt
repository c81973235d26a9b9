-- ===== src/Tests/Actions.antt =====
-- Witnesses for outbound actions.
use hyperfixation_core.Prelude.{
  ◌≡◌, ◌≤◌, refl, arith, false, none, some, [], ◌∷◌, find_where, any_where, count_where,
}
use hyperfixation_core.State.{Db, ActionLog, Error, ok, err}
use hyperfixation_core.Fence.{is_current}
use hyperfixation_core.Ledger.{Ctx}
use hyperfixation_core.Actions.{
  ActionsPerformOptions, ActionResult, send, new_action, insert_action, take_action, take_row,
  idempotency_key,
}
use hyperfixation_core.Actions.Perform.{dispatch_of, ok_row, perform}
use hyperfixation_core.Actions.Once.{sends, History, here, next, is_dispatch, at_most_one_send}
use hyperfixation_core.Actions.Review.{Asked, review_instead_of_send}
use hyperfixation_core.Tests.{second}

abbrev worker : Ctx
worker = record { run_id = "r1"; workflow_id = "r1:2" }

-- A mail server that knows no idempotency keys.
abbrev mail : ActionsPerformOptions
mail = record {
  key = "mail";
  channel = record { name = "smtp"; dedupes = false; dedupe_window_ms = none };
  request = some "{}";
  record_type = none;
  record_id = none;
}

abbrev mail_row : ActionLog
unfolding new_action
mail_row = new_action worker mail 7 5000

abbrev mailed : Db
unfolding mail_row
mailed = record second { action_logs = mail_row ∷ []; next_id = 8 }

takes_mail : take_action worker mail second ≡ ok (send, mailed)
unfolding take_action insert_action take_row mailed mail_row new_action find_where any_where
    idempotency_key
takes_mail = refl

-- The first transaction and the send, after which the process dies.
crash :
    History "r1" "mail"
      (record { db = second; sent = [] })
      (record { db = mailed; sent = dispatch_of worker mail ∷ [] })
crash = next here (sends worker mail mailed takes_mail (λ _. refl) refl)

at_most_one_send_example : count_where (is_dispatch "r1" "mail") (dispatch_of worker mail ∷ []) ≤ 1
unfolding count_where
at_most_one_send_example =
    at_most_one_send "r1" "mail" (record { db = second; sent = [] })
      (record { db = mailed; sent = dispatch_of worker mail ∷ [] }) refl crash

abbrev accepted : ActionResult
accepted = record { external_id = some "m1"; response = none }

abbrev mail_done : Db
unfolding mail_row
mail_done = record mailed { action_logs = ok_row accepted 5000 mail_row ∷ [] }

review_instead_of_send_example :
    (e : Error) × (db' : Db) × (perform worker mail (λ _. ok accepted) (λ db. db) mailed
      ≡ (record { dispatched = none; result = err e }, db'))
    × Asked worker mail mail_row 5000 e db'
unfolding is_current any_where mailed mail_row new_action find_where count_where
review_instead_of_send_example =
    review_instead_of_send worker mail (λ _. ok accepted) (λ db. db) mail_row mailed refl
      (record { found = refl; single = omega arith; open_status = refl; no_dedupe = refl })
