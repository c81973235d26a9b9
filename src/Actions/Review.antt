-- ===== src/Actions/Review.antt =====
-- A send that nobody can account for is asked about and not made again.
use hyperfixation_core.Prelude.{
  ℕ, String, ◌+◌, ◌≡◌, ◌≤◌, refl, ap, ◌∙◌, arith, Bool, true, false, ◌&&◌, eq_refl, some, none,
  List, [], ◌∷◌, ◌++◌, eqb, eqb_refl, find_where, update_where, count_where, any_where,
  any_where-find, find_where-none_any, any_where-append, find_where-update_unique,
  count_where_unique, Option-cases, Bool-cases, inl, inr,
}
use hyperfixation_core.Prelude.Decimal.{decimal}
use hyperfixation_core.State.{
  Db, ActionLog, Task, TaskOrigin, Error, Result, ok, err, action_uncertain,
}
use hyperfixation_core.State.Tx.{settle}
use hyperfixation_core.Fence.{is_current}
use hyperfixation_core.Fence.Stale.{step_tx-current}
use hyperfixation_core.Ledger.{Ctx}
use hyperfixation_core.Actions.{
  ActionsPerformOptions, ActionResult, ActionDispatch, uncertain, is_action, insert_action,
  take_action, take_row, reenter, move_to_uncertain, report_uncertain, log_uncertain, is_movable,
  is_unaccounted, uncertain_row, open_task, new_task, uncertain_activity, existing_task_id,
  is_task_of, conflicts, title_of, within_dedupe_window,
}
use hyperfixation_core.Actions.Perform.{after_take, perform}

-- The task that asks a human about an action row.
abbrev pub is_question : ℕ → ℕ → Task → Bool
is_question action_id task_id t = is_task_of (decimal action_id) t && eqb t.id task_id

module _ {ℓ} {A : Type ℓ} (p q : A → Bool) where
  find_where-both :
      (xs : List A) (x : A)
      → find_where p xs ≡ some x
      → q x ≡ true
      → any_where (λ y. p y && q y) xs ≡ true
  unfolding find_where any_where
  find_where-both [] x h k = ground arith
  find_where-both (y ∷ ys) x h k = ground (arith, find_where-both ys x)

  any_where-weaken :
      ((x : A) → p x ≡ true → q x ≡ true)
      → (xs : List A) → any_where p xs ≡ true
      → any_where q xs ≡ true
  unfolding any_where
  any_where-weaken w [] h = h
  any_where-weaken w (x ∷ xs) h = ground (arith, w x, any_where-weaken w xs)

-- Whoever opened it, the task is there afterwards, and it is the one that is named.
pub record Opens (row : ActionLog) (title : String) (db : Db) : Type 0 where
  pub id : ℕ
  pub db' : Db
  pub opened : open_task TaskOrigin.flow row title db ≡ ok (some id, db')
  pub asked : any_where (is_question row.id id) db'.tasks ≡ true
  pub kept : db'.action_logs ≡ db.action_logs

conflicts-is_task_of :
    (ref : String) (t : Task) → conflicts TaskOrigin.flow ref t ≡ true → is_task_of ref t ≡ true
conflicts-is_task_of ref t h = ground arith

open_task-Opens : (row : ActionLog) (title : String) (db : Db) → Opens row title db
unfolding open_task existing_task_id any_where
open_task-Opens row title db =
    elim (Bool-cases (any_where (conflicts TaskOrigin.flow (decimal row.id)) db.tasks)) [
      | inl known ↦ elim (Option-cases (find_where (is_task_of (decimal row.id)) db.tasks)) [
        | inl e ↦ absurd (
            ground (
              arith,
              find_where-none_any (is_task_of (decimal row.id)) db.tasks e,
              any_where-weaken (conflicts TaskOrigin.flow (decimal row.id))
                  (is_task_of (decimal row.id)) (conflicts-is_task_of (decimal row.id)) db.tasks
                  known,
            ))
        | inr (t, e) ↦ record {
          id = t.id;
          db' = db;
          opened = ground arith;
          asked =
              find_where-both (is_task_of (decimal row.id)) (λ u. eqb u.id t.id) db.tasks t e
                (eqb_refl t.id);
          kept = refl;
        }
      ]
      | inr new ↦ record {
        id = db.next_id;
        db' = record db {
          next_id = db.next_id + 1;
          tasks = db.tasks ++ new_task TaskOrigin.flow row title db.next_id ∷ [];
        };
        opened = ground arith;
        asked =
            any_where-append (is_question row.id db.next_id) db.tasks _
            ∙ ground (arith, eq_refl (decimal row.id), eqb_refl db.next_id);
        kept = refl;
      }
    ]

module _ (ctx : Ctx) (options : ActionsPerformOptions) where
  -- A row in flight, alone under its key, on a channel that cannot dedupe it any more.
  pub record InFlight (row : ActionLog) (db : Db) : Type 0 where
    pub found : find_where (is_action ctx.run_id options.key) db.action_logs ≡ some row
    pub single : count_where (is_action ctx.run_id options.key) db.action_logs ≤ 1
    pub open_status : is_unaccounted row.status ≡ true
    pub no_dedupe :
        (options.channel.dedupes && within_dedupe_window options.channel row db.now) ≡ false

  -- What is left behind, and the error that names it.
  pub record Asked (row : ActionLog) (now : ℕ) (e : Error) (db : Db) : Type 0 where
    pub id : ℕ
    pub names : e ≡ action_uncertain ctx.run_id options.key row.id (some id)
    pub asked : any_where (is_question row.id id) db.tasks ≡ true
    pub moved :
        find_where (is_action ctx.run_id options.key) db.action_logs ≡ some (uncertain_row now row)

  report_uncertain-Asked :
      (row : ActionLog) (now : ℕ) (db : Db)
      → find_where (is_action ctx.run_id options.key) db.action_logs ≡ some (uncertain_row now row)
      → (e : Error) × (db' : Db) × (report_uncertain true ctx options row db
          ≡ ok (uncertain e, db'))
        × Asked row now e db'
  unfolding report_uncertain log_uncertain
  report_uncertain-Asked row now db moved =
      let o = open_task-Opens row (title_of options.channel.name options.key ctx.run_id) db in
      (
        _,
        record o.db' { activities = o.db'.activities ++ uncertain_activity ctx.run_id row ∷ [] },
        ground (arith, o.opened),
        record {
          id = o.id;
          names = refl;
          asked = o.asked;
          moved = ap (find_where (is_action ctx.run_id options.key)) o.kept ∙ moved;
        },
      )

  take_action-Asked :
      (row : ActionLog) (db : Db)
      → InFlight row db
      → (e : Error) × (db' : Db) × (take_action ctx options db ≡ ok (uncertain e, db'))
        × Asked row db.now e db'
  unfolding take_action insert_action take_row reenter move_to_uncertain
  take_action-Asked row db f =
      let (e, db', taken, a) =
        report_uncertain-Asked row db.now
          (record db {
            action_logs =
                update_where (is_movable ctx.run_id options.key) (uncertain_row db.now)
                  db.action_logs;
          })
          (find_where-update_unique (is_action ctx.run_id options.key)
              (λ a. is_unaccounted a.status) (uncertain_row db.now) (λ a. refl) db.action_logs row
              f.found
            ∙ rw f.open_status refl) in
      (
        e,
        db',
        ground (
          arith,
          taken,
          f.found,
          f.open_status,
          f.no_dedupe,
          count_where_unique (is_action ctx.run_id options.key) (λ a. is_unaccounted a.status)
              db.action_logs row f.single f.found,
          any_where-find (is_action ctx.run_id options.key) db.action_logs row f.found,
        ),
        a,
      )

-- Where this run left an action in flight and its channel cannot dedupe it any more, performing
-- the action from a current attempt does not send. It always throws ActionUncertain, which names
-- a task that asks about the action's row, and the row is `uncertain` afterwards.
pub review_instead_of_send :
    (ctx : Ctx) (options : ActionsPerformOptions) (channel : ActionDispatch → Result ActionResult)
    (meanwhile : Db → Db) (row : ActionLog) (db : Db)
    → is_current ctx.run_id ctx.workflow_id db ≡ true
    → InFlight ctx options row db
    → (e : Error) × (db' : Db) × (perform ctx options channel meanwhile db
        ≡ (record { dispatched = none; result = err e }, db'))
      × Asked ctx options row db.now e db'
unfolding perform after_take
review_instead_of_send ctx options channel meanwhile row db current f =
    let (e, db', taken, a) = take_action-Asked ctx options row db f in
    (
      e,
      db',
      ap (after_take ctx options channel meanwhile) (
          step_tx-current ctx.run_id ctx.workflow_id (take_action ctx options) db current
          ∙ ap (settle db) taken),
      a,
    )
