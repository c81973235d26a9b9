-- ===== src/Tasks/Close.antt =====
-- packages/core/src/tasks.ts: closeTask, completeTask, cancelTask, cancelOpenTasksForRecord, and
-- what a second close makes of a task.
use hyperfixation_core.Prelude.{
  ℕ, String, Bool, true, false, not, Option, none, some, List, [], ◌∷◌, ◌&&◌, ◌≡◌, refl, sym, subst,
  arith, eqb, is_some, find_where, update_where, select_where, map, Option-cases, inl, inr,
}
use hyperfixation_core.State.{Db, Task, Activity, ok}
use hyperfixation_core.State.Tx.{Tx, Exec, ◌>>=◌, pure}
use hyperfixation_core.ControlPlane.{Env, control_plane_tx}
use hyperfixation_core.ControlPlane.Atomic.{control_plane_atomic, control_plane_commits}
use hyperfixation_core.Tasks.{insert_activity, same_text}

abbrev pub is_open : Task → Bool
is_open t = not (is_some t.done_at) && not (is_some t.cancelled_at)

abbrev pub is_open_task : ℕ → Task → Bool
is_open_task id t = eqb t.id id && is_open t

pub record TaskCloseOptions : Type 0 where
  pub id : ℕ
  pub user_id : Option String

pub record TaskClosed : Type 0 where
  pub id : ℕ
  pub changed : Bool

-- The column that CLOSE_TASK_STATEMENT sets.
pub data ClosedColumn : Type 0 where
  done_at cancelled_at : ClosedColumn

abbrev pub set_closed : ClosedColumn → ℕ → Task → Task
set_closed ClosedColumn.done_at now t = record t { done_at = some now }
set_closed ClosedColumn.cancelled_at now t = record t { cancelled_at = some now }

abbrev pub closed_activity : TaskCloseOptions → String → Task → Activity
closed_activity options kind t = record {
  record_type = t.record_type;
  record_id = t.record_id;
  kind = kind;
  actor_id = options.user_id;
  run_id = none;
  key = none;
}

abbrev pub closed_db : ℕ → ClosedColumn → Db → Db
closed_db id column db = record db {
  tasks = update_where (is_open_task id) (set_closed column db.now) db.tasks;
}

-- The transaction of closeTask.
unfoldable pub close_work : TaskCloseOptions → ClosedColumn → String → Tx TaskClosed
unfolding insert_activity
close_work options column kind db = elim (find_where (is_open_task options.id) db.tasks) [
  | none ↦ ok (record { id = options.id; changed = false }, db)
  | some t ↦
      (insert_activity (closed_activity options kind t) >>= λ _.
      pure (record { id = options.id; changed = true }))
        (closed_db options.id column db)
]

unfoldable pub close_task :
    Env → TaskCloseOptions → String → ClosedColumn → String → Exec TaskClosed
unfolding close_work
close_task env options operation column kind =
    control_plane_tx env operation (close_work options column kind)

unfoldable pub complete_task : Env → TaskCloseOptions → Exec TaskClosed
unfolding close_task
complete_task env options =
    close_task env options "tasks.complete" ClosedColumn.done_at "task.completed"

unfoldable pub cancel_task : Env → TaskCloseOptions → Exec TaskClosed
unfolding close_task
cancel_task env options =
    close_task env options "tasks.cancel" ClosedColumn.cancelled_at "task.cancelled"

abbrev pub is_open_on : String → String → Task → Bool
is_open_on record_type record_id t =
    (same_text t.record_type (some record_type) && same_text t.record_id (some record_id))
    && is_open t

unfoldable pub cancel_open_tasks_for_record : String → String → Tx (List ℕ)
cancel_open_tasks_for_record record_type record_id db = ok (
  map (λ (t : Task). t.id) (select_where (is_open_on record_type record_id) db.tasks),
  record db {
    tasks =
        update_where (is_open_on record_type record_id)
          (set_closed ClosedColumn.cancelled_at db.now) db.tasks;
  },
)

close-shuts :
    (id : ℕ) (column : ClosedColumn) (now : ℕ) (ts : List Task)
    → find_where (is_open_task id) (update_where (is_open_task id) (set_closed column now) ts)
      ≡ none
unfolding find_where update_where
close-shuts id column now [] = refl
close-shuts id ClosedColumn.done_at now (t ∷ ts) =
    ground (arith, close-shuts id ClosedColumn.done_at now ts)
close-shuts id ClosedColumn.cancelled_at now (t ∷ ts) =
    ground (arith, close-shuts id ClosedColumn.cancelled_at now ts)

-- A close that returns leaves no open task under the id.
close_work-shuts :
    (options : TaskCloseOptions) (column : ClosedColumn) (kind : String) (db db' : Db)
    (r : TaskClosed)
    → close_work options column kind db ≡ ok (r, db')
    → find_where (is_open_task options.id) db'.tasks ≡ none
unfolding close_work insert_activity
close_work-shuts options column kind db db' r h =
    elim (Option-cases (find_where (is_open_task options.id) db.tasks)) [
      | inl e ↦ ground (arith, h, e)
      | inr (t, e) ↦ ground (arith, h, e, close-shuts options.id column db.now db.tasks)
    ]

abbrev pub Close : Type 0
Close = Env → TaskCloseOptions → Exec TaskClosed

-- completeTask or cancelTask.
abbrev pub close_by : ClosedColumn → Close
close_by ClosedColumn.done_at = complete_task
close_by ClosedColumn.cancelled_at = cancel_task

close_by-shuts :
    (env : Env) (options : TaskCloseOptions) (column : ClosedColumn) (db db' : Db) (r : TaskClosed)
    → close_by column env options db ≡ (ok r, db')
    → (find_where (is_open_task options.id) db'.tasks ≡ none)
      × (env.within_workflow ≡ false)
      × (env.commits ≡ true)
unfolding complete_task cancel_task close_task
close_by-shuts env options ClosedColumn.done_at db db' r h =
    let (free, commits, work) =
      control_plane_atomic env "tasks.complete"
        (close_work options ClosedColumn.done_at "task.completed") db (ok r) db' h in
    (close_work-shuts options ClosedColumn.done_at "task.completed" db db' r work, free, commits)
close_by-shuts env options ClosedColumn.cancelled_at db db' r h =
    let (free, commits, work) =
      control_plane_atomic env "tasks.cancel"
        (close_work options ClosedColumn.cancelled_at "task.cancelled") db (ok r) db' h in
    (
      close_work-shuts options ClosedColumn.cancelled_at "task.cancelled" db db' r work,
      free,
      commits,
    )

commits_unchanged :
    (env : Env) (options : TaskCloseOptions) (operation : String) (column : ClosedColumn)
    (kind : String) (db : Db)
    → env.within_workflow ≡ false
    → env.commits ≡ true
    → find_where (is_open_task options.id) db.tasks ≡ none
    → close_task env options operation column kind db
      ≡ (ok (record { id = options.id; changed = false }), db)
unfolding close_task close_work
commits_unchanged env options operation column kind db free commits shut =
    control_plane_commits env operation (close_work options column kind) db
      (record { id = options.id; changed = false }) db free commits
      (leaves (find_where (is_open_task options.id) db.tasks) refl shut)
  where
    leaves :
        (o : Option Task)
        → find_where (is_open_task options.id) db.tasks ≡ o
        → o ≡ none
        → close_work options column kind db ≡ ok (record { id = options.id; changed = false }, db)
    leaves none e k = ground (arith, e)
    leaves (some t) e k = cc

-- A task is closed once: after completeTask or cancelTask has returned, either of them answers for
-- the same task that it changed nothing, and has written nothing.
pub closed_task_stays :
    (env : Env) (options later : TaskCloseOptions) (column next : ClosedColumn) (db db' : Db)
    (r : TaskClosed)
    → later.id ≡ options.id
    → close_by column env options db ≡ (ok r, db')
    → close_by next env later db' ≡ (ok (record { id = later.id; changed = false }), db')
unfolding complete_task cancel_task close_task
closed_task_stays env options later column next db db' r same h =
    let (shut, free, commits) = close_by-shuts env options column db db' r h in
    again next (subst (λ id. find_where (is_open_task id) db'.tasks ≡ none) (sym same) shut) free
      commits
  where
    again :
        (next : ClosedColumn)
        → find_where (is_open_task later.id) db'.tasks ≡ none
        → env.within_workflow ≡ false
        → env.commits ≡ true
        → close_by next env later db' ≡ (ok (record { id = later.id; changed = false }), db')
    again ClosedColumn.done_at shut free commits =
        commits_unchanged env later "tasks.complete" ClosedColumn.done_at "task.completed" db' free
          commits shut
    again ClosedColumn.cancelled_at shut free commits =
        commits_unchanged env later "tasks.cancel" ClosedColumn.cancelled_at "task.cancelled" db'
          free commits shut
