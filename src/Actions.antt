-- ===== src/Actions.antt =====
-- packages/workflows/src/actions.ts: `actions.perform`, one outbound side effect ledgered on
-- hf_action_log. The channel's `send` is an app's code, so its answer is an argument.
pub mod Entry
pub mod Once
pub mod Review
pub mod Again
pub mod Perform
use Prim.Native.String.{◌++◌ as str_append}
use hyperfixation_core.Prelude.{
  ℕ, String, Bool, true, false, ◌+◌, ◌-◌, ◌==◌, not, ◌&&◌, ◌||◌, Option, none, some, List, [], ◌∷◌,
  ◌++◌, leb, eqb, if◌then◌else◌, find_where, update_where, any_where, count_where,
}
use hyperfixation_core.Prelude.Decimal.{decimal}
use hyperfixation_core.State.{
  Db, ActionLog, ActionLogStatus, Task, TaskOrigin, Activity, Error, Result, ok, err,
  action_uncertain, missing_row,
}
use hyperfixation_core.State.Tx.{Tx, ◌>>=◌, ◌>>◌, pure, gets, require, modify}
use hyperfixation_core.Fence.{step_tx}
use hyperfixation_core.Ledger.{Ctx}

pub record ActionChannel : Type 0 where
  pub name : String
  pub dedupes : Bool
  pub dedupe_window_ms : Option ℕ

pub record ActionsPerformOptions : Type 0 where
  pub key : String
  pub channel : ActionChannel
  pub request : Option String
  pub record_type : Option String
  pub record_id : Option String

pub record ActionResult : Type 0 where
  pub external_id : Option String
  pub response : Option String

pub record ActionDispatch : Type 0 where
  pub idempotency_key : String
  pub run_id : String
  pub key : String
  pub request : Option String

unfoldable pub idempotency_key : String → String → String
idempotency_key run_id key = str_append run_id (str_append ":" key)

abbrev pub is_action : String → String → ActionLog → Bool
is_action run_id key a = (a.run_id == run_id) && (a.key == key)

-- What the first transaction tells `perform` to do.
pub data Taken : Type 0 where
  send : Taken
  answered : ActionResult → Taken
  uncertain : Error → Taken

unfoldable pub new_action : Ctx → ActionsPerformOptions → ℕ → ℕ → ActionLog
new_action ctx options id now = record {
  id = id;
  run_id = ctx.run_id;
  key = options.key;
  workflow_id = ctx.workflow_id;
  channel = options.channel.name;
  idempotency_key = idempotency_key ctx.run_id options.key;
  status = ActionLogStatus.started;
  external_id = none;
  request = options.request;
  response = none;
  record_type = options.record_type;
  record_id = options.record_id;
  started_at = now;
  finished_at = none;
}

-- ON CONFLICT (run_id, key) DO NOTHING.
unfoldable pub insert_action : Ctx → ActionsPerformOptions → Db → Db
unfolding new_action
insert_action ctx options db =
    if any_where (is_action ctx.run_id options.key) db.action_logs then db else record db {
      action_logs = db.action_logs ++ new_action ctx options db.next_id db.now ∷ [];
      next_id = db.next_id + 1;
    }

-- Either writer may own the task of a row. The table is in the order of its ids, so the first is
-- the one of `ORDER BY id LIMIT 1`.
abbrev pub is_task_of : String → Task → Bool
is_task_of origin_ref t = elim t.origin_ref [
  | none ↦ false
  | some r ↦ (r == origin_ref) && (elim t.origin [ TaskOrigin.manual ↦ false | _ ↦ true ])
]

unfoldable pub existing_task_id : ℕ → Db → Option ℕ
existing_task_id action_id db = elim (find_where (is_task_of (decimal action_id)) db.tasks) [
  | none ↦ none
  | some t ↦ some t.id
]

abbrev pub same_origin : TaskOrigin → TaskOrigin → Bool
same_origin TaskOrigin.flow TaskOrigin.flow = true
same_origin TaskOrigin.manual TaskOrigin.manual = true
same_origin TaskOrigin.sweep TaskOrigin.sweep = true
same_origin _ _ = false

-- The partial unique index on (origin, origin_ref).
abbrev pub conflicts : TaskOrigin → String → Task → Bool
conflicts origin origin_ref t = elim t.origin_ref [
  | none ↦ false
  | some r ↦ (r == origin_ref) && same_origin t.origin origin
]

unfoldable pub title_of : String → String → String → String
title_of channel key run_id =
    str_append "Confirm "
      (str_append channel (str_append " send " (str_append key (str_append " for run " run_id))))

unfoldable pub new_task : TaskOrigin → ActionLog → String → ℕ → Task
new_task origin row title id = record {
  id = id;
  record_type = row.record_type;
  record_id = row.record_id;
  title = title;
  due_at = none;
  owner_id = none;
  done_at = none;
  cancelled_at = none;
  origin = origin;
  origin_ref = some (decimal row.id);
}

-- ON CONFLICT DO NOTHING, and the id of the task that is there.
unfoldable pub open_task : TaskOrigin → ActionLog → String → Tx (Option ℕ)
unfolding existing_task_id new_task
open_task origin row title db =
    if any_where (conflicts origin (decimal row.id)) db.tasks
    then ok (existing_task_id row.id db, db)
    else ok (
      some db.next_id,
      record db {
        next_id = db.next_id + 1;
        tasks = db.tasks ++ new_task origin row title db.next_id ∷ [];
      },
    )

unfoldable pub within_dedupe_window : ActionChannel → ActionLog → ℕ → Bool
within_dedupe_window channel row now = elim channel.dedupe_window_ms [
  | none ↦ true
  | some window ↦ leb (now - row.started_at) window
]

abbrev pub is_unaccounted : ActionLogStatus → Bool
is_unaccounted ActionLogStatus.started = true
is_unaccounted ActionLogStatus.failed = true
is_unaccounted _ = false

abbrev pub resend_row : String → ActionLog → ActionLog
resend_row workflow_id a = record a {
  status = ActionLogStatus.started;
  workflow_id = workflow_id;
  finished_at = none;
}

abbrev pub uncertain_row : ℕ → ActionLog → ActionLog
uncertain_row now a = record a { status = ActionLogStatus.uncertain; finished_at = some now }

-- The rows that the transition to `uncertain` matches.
abbrev pub is_movable : String → String → ActionLog → Bool
is_movable run_id key a = is_action run_id key a && is_unaccounted a.status

unfoldable pub uncertain_of : Ctx → ActionsPerformOptions → ActionLog → Tx Taken
unfolding existing_task_id
uncertain_of ctx options row db =
    ok (uncertain (action_uncertain ctx.run_id options.key row.id (existing_task_id row.id db)), db)

unfoldable pub uncertain_activity : String → ActionLog → Activity
uncertain_activity run_id row = record {
  record_type = row.record_type;
  record_id = row.record_id;
  kind = "action.uncertain";
  actor_id = none;
  run_id = some run_id;
  key = none;
}

unfoldable pub log_uncertain : String → ActionLog → Tx (Unit {0})
unfolding uncertain_activity
log_uncertain run_id row =
    modify λ db. record db { activities = db.activities ++ uncertain_activity run_id row ∷ [] }

-- Whoever moves the row opens its task; a row that somebody else moved is only reported.
unfoldable pub report_uncertain : Bool → Ctx → ActionsPerformOptions → ActionLog → Tx Taken
unfolding log_uncertain uncertain_of
report_uncertain true ctx options row = do
  task_id ← open_task TaskOrigin.flow row (title_of options.channel.name options.key ctx.run_id)
  log_uncertain ctx.run_id row
  pure (uncertain (action_uncertain ctx.run_id options.key row.id task_id))
report_uncertain false ctx options row = uncertain_of ctx options row

-- Nothing is sent again.
unfoldable pub move_to_uncertain : Ctx → ActionsPerformOptions → ActionLog → Tx Taken
unfolding report_uncertain
move_to_uncertain ctx options row = do
  moved ← gets (λ db. count_where (is_movable ctx.run_id options.key) db.action_logs)
  modify λ db. record db {
    action_logs =
        update_where (is_movable ctx.run_id options.key) (uncertain_row db.now) db.action_logs;
  }
  report_uncertain (eqb moved 1) ctx options row

-- A row that this attempt did not insert.
unfoldable pub reenter : Ctx → ActionsPerformOptions → ActionLog → Tx Taken
reenter ctx options row db =
    if options.channel.dedupes && within_dedupe_window options.channel row db.now
    then ok (
      send,
      record db {
        action_logs =
            update_where (is_action ctx.run_id options.key) (resend_row ctx.workflow_id)
              db.action_logs;
      },
    )
    else move_to_uncertain ctx options row db

unfoldable pub take_row :
    ActionLogStatus → Ctx → ActionsPerformOptions → Bool → ActionLog → Tx Taken
unfolding uncertain_of
take_row ActionLogStatus.ok ctx options inserted row =
    pure (answered (record { external_id = row.external_id; response = row.response }))
take_row ActionLogStatus.uncertain ctx options inserted row = uncertain_of ctx options row
take_row _ ctx options inserted row = if inserted then pure send else reenter ctx options row

unfoldable pub take_action : Ctx → ActionsPerformOptions → Tx Taken
take_action ctx options = do
  known ← gets (λ db. any_where (is_action ctx.run_id options.key) db.action_logs)
  modify (insert_action ctx options)
  row ← λ db.
      require (find_where (is_action ctx.run_id options.key) db.action_logs)
        (missing_row options.key) db
  take_row row.status ctx options (not known) row
