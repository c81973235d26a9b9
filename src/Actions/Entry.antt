-- ===== src/Actions/Entry.antt =====
-- When the first transaction of `perform` lets the channel send.
use hyperfixation_core.Prelude.{
  Option, ap, eq_iff, Bool-cases, [], ◌∷◌, any_where-append, ◌∙◌, ◌||◌, ◌==◌, any_where-update, ℕ,
  String, ◌≡◌, refl, arith, Bool, true, false, not, ◌&&◌, some, find_where, any_where, update_where,
  Option-cases, inl, inr, ◌⊎◌,
}
use hyperfixation_core.State.{Db, ActionLog, ActionLogStatus, TaskOrigin, ok}
use hyperfixation_core.State.Tx.{>>=-eq-ok}
use hyperfixation_core.Ledger.{Ctx}
use hyperfixation_core.Actions.{
  ActionsPerformOptions, Taken, send, is_action, insert_action, new_action, take_action, take_row,
  reenter, move_to_uncertain, report_uncertain, uncertain_of, within_dedupe_window, resend_row,
  open_task, title_of, is_movable, uncertain_row,
}

-- A transaction that did not throw: the row that it read back.
pub record Reads (ctx : Ctx) (options : ActionsPerformOptions) (db : Db) (t : Taken) (db' : Db)
    : Type 0 where
  pub row : ActionLog
  pub found :
      find_where (is_action ctx.run_id options.key) (insert_action ctx options db).action_logs
      ≡ some row
  pub taken :
      take_row row.status ctx options
        (not (any_where (is_action ctx.run_id options.key) db.action_logs))
        row
        (insert_action ctx options db)
      ≡ ok (t, db')

pub take_action-Reads :
    (ctx : Ctx) (options : ActionsPerformOptions) (db : Db) (t : Taken) (db' : Db)
    → take_action ctx options db ≡ ok (t, db')
    → Reads ctx options db t db'
unfolding take_action
take_action-Reads ctx options db t db' h =
    elim (Option-cases
      (find_where (is_action ctx.run_id options.key) (insert_action ctx options db).action_logs)) [
        | inl e ↦ absurd (ground arith)
        | inr (row, e) ↦ record { row = row; found = e; taken = ground arith }
      ]

report_uncertain-no_send :
    (b : Bool) (ctx : Ctx) (options : ActionsPerformOptions) (row : ActionLog) (db db' : Db)
    → report_uncertain b ctx options row db ≡ ok (send, db')
    → ⊥
unfolding report_uncertain
report_uncertain-no_send true ctx options row db db' h = ground arith
report_uncertain-no_send false ctx options row db db' h = ground arith

move_to_uncertain-no_send :
    (ctx : Ctx) (options : ActionsPerformOptions) (row : ActionLog) (db db' : Db)
    → move_to_uncertain ctx options row db ≡ ok (send, db')
    → ⊥
unfolding move_to_uncertain
move_to_uncertain-no_send ctx options row db db' h =
    report_uncertain-no_send _ ctx options row _ db' h

-- A re-entry sends only while the provider still dedupes the key.
pub reenter-send :
    (ctx : Ctx) (options : ActionsPerformOptions) (row : ActionLog) (db db' : Db)
    → reenter ctx options row db ≡ ok (send, db')
    → (options.channel.dedupes ≡ true)
      × (within_dedupe_window options.channel row db.now ≡ true)
      × (db' ≡ record db {
        action_logs =
            update_where
              (is_action ctx.run_id options.key)
              (resend_row ctx.workflow_id)
              db.action_logs;
      })
unfolding reenter
reenter-send ctx options row db db' h =
    (ground (arith, again), ground (arith, again), ground (arith, again))
  where
    again : move_to_uncertain ctx options row db ≡ ok (send, db') → ⊥
    again = move_to_uncertain-no_send ctx options row db db'

pub take_row-send :
    (s : ActionLogStatus) (ctx : Ctx) (options : ActionsPerformOptions) (inserted : Bool)
    (row : ActionLog) (db db' : Db)
    → take_row s ctx options inserted row db ≡ ok (send, db')
    → ((inserted ≡ true) × (db' ≡ db)) ⊎ (reenter ctx options row db ≡ ok (send, db'))
unfolding take_row uncertain_of
take_row-send ActionLogStatus.ok ctx options inserted row db db' h = absurd (ground arith)
take_row-send ActionLogStatus.uncertain ctx options inserted row db db' h = absurd (ground arith)
take_row-send ActionLogStatus.started ctx options true row db db' h = inl (refl, ground arith)
take_row-send ActionLogStatus.failed ctx options true row db db' h = inl (refl, ground arith)
take_row-send ActionLogStatus.started ctx options false row db db' h = inr h
take_row-send ActionLogStatus.failed ctx options false row db db' h = inr h

open_task-logs :
    (o : TaskOrigin) (row : ActionLog) (title : String) (db : Db) (id : Option ℕ) (db' : Db)
    → open_task o row title db ≡ ok (id, db')
    → db'.action_logs ≡ db.action_logs
unfolding open_task
open_task-logs o row title db id db' h = ground arith

report_uncertain-logs :
    (b : Bool) (ctx : Ctx) (options : ActionsPerformOptions) (row : ActionLog) (db : Db) (t : Taken)
    (db' : Db)
    → report_uncertain b ctx options row db ≡ ok (t, db')
    → db'.action_logs ≡ db.action_logs
unfolding report_uncertain
report_uncertain-logs true ctx options row db t db' h =
    let (id, mid, opened, rest) =
      >>=-eq-ok
        (open_task TaskOrigin.flow row (title_of options.channel.name options.key ctx.run_id)) _ db
        t db' h in
    ground (arith, rest, open_task-logs TaskOrigin.flow row _ db id mid opened)
report_uncertain-logs false ctx options row db t db' h = ground arith

-- Whether the run has an action under a key.
abbrev pub has_action : String → String → Db → Bool
has_action run_id key db = any_where (is_action run_id key) db.action_logs

module _ (run_id key : String) where
  move_to_uncertain-has :
      (ctx : Ctx) (options : ActionsPerformOptions) (row : ActionLog) (db : Db) (t : Taken)
      (db' : Db)
      → move_to_uncertain ctx options row db ≡ ok (t, db')
      → has_action run_id key db' ≡ has_action run_id key db
  unfolding move_to_uncertain
  move_to_uncertain-has ctx options row db t db' h =
      ap (any_where (is_action run_id key)) (report_uncertain-logs _ ctx options row _ t db' h)
      ∙ any_where-update (is_action run_id key) (is_movable ctx.run_id options.key)
          (uncertain_row db.now) (λ a. refl) db.action_logs

  reenter-has :
      (ctx : Ctx) (options : ActionsPerformOptions) (row : ActionLog) (db : Db) (t : Taken)
      (db' : Db)
      → reenter ctx options row db ≡ ok (t, db')
      → has_action run_id key db' ≡ has_action run_id key db
  unfolding reenter
  reenter-has ctx options row db t db' h = ground (
    arith,
    move_to_uncertain-has ctx options row db t db',
    any_where-update (is_action run_id key) (is_action ctx.run_id options.key)
        (resend_row ctx.workflow_id) (λ a. refl) db.action_logs,
  )

  take_row-has :
      (s : ActionLogStatus) (ctx : Ctx) (options : ActionsPerformOptions) (inserted : Bool)
      (row : ActionLog) (db : Db) (t : Taken) (db' : Db)
      → take_row s ctx options inserted row db ≡ ok (t, db')
      → has_action run_id key db' ≡ has_action run_id key db
  unfolding take_row uncertain_of
  take_row-has ActionLogStatus.ok ctx options inserted row db t db' h = ground arith
  take_row-has ActionLogStatus.uncertain ctx options inserted row db t db' h = ground arith
  take_row-has ActionLogStatus.started ctx options true row db t db' h = ground arith
  take_row-has ActionLogStatus.failed ctx options true row db t db' h = ground arith
  take_row-has ActionLogStatus.started ctx options false row db t db' h =
      reenter-has ctx options row db t db' h
  take_row-has ActionLogStatus.failed ctx options false row db t db' h =
      reenter-has ctx options row db t db' h

  insert_action-has :
      (ctx : Ctx) (options : ActionsPerformOptions) (db : Db)
      → has_action run_id key (insert_action ctx options db)
        ≡ (has_action run_id key db || ((ctx.run_id == run_id) && (options.key == key)))
  unfolding insert_action any_where
  insert_action-has ctx options db = elim (Bool-cases (has_action ctx.run_id options.key db)) [
    | inl e ↦ rw e (elim (Bool-cases ((ctx.run_id == run_id) && (options.key == key))) [
      | inl same ↦ ground (arith, own same, e)
      | inr other ↦ ground arith
    ])
    | inr e ↦ rw e (
        any_where-append (is_action run_id key) db.action_logs
          (new_action ctx options db.next_id db.now ∷ [])
        ∙ ground arith)
  ]
    where
      own :
          ((ctx.run_id == run_id) && (options.key == key)) ≡ true
          → has_action run_id key db ≡ has_action ctx.run_id options.key db
      own same =
          cc
            ((eq_iff ctx.run_id run_id).0 (ground arith), (eq_iff options.key key).0 (ground arith))

  -- The first transaction leaves the rows that there were, and the row of its own key.
  pub take_action-has :
      (ctx : Ctx) (options : ActionsPerformOptions) (db : Db) (t : Taken) (db' : Db)
      → take_action ctx options db ≡ ok (t, db')
      → has_action run_id key db'
        ≡ (has_action run_id key db || ((ctx.run_id == run_id) && (options.key == key)))
  take_action-has ctx options db t db' h =
      let r = take_action-Reads ctx options db t db' h in
      take_row-has r.row.status ctx options _ r.row _ t db' r.taken
      ∙ insert_action-has ctx options db
