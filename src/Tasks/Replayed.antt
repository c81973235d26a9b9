-- ===== src/Tasks/Replayed.antt =====
-- packages/core/src/tasks.ts: what createTask does in a later attempt of its step.
use Prim.Native.String.{◌++◌ as str_append}
use hyperfixation_core.Prelude.{
  ℕ, String, Bool, true, false, Option, none, some, List, [], ◌∷◌, ◌++◌, ◌≡◌, refl, ◌∙◌, arith, ap,
  find_where, any_where, find_where-append, any_where-append, Option-cases, inl, inr, eq_refl,
  split, all_chars,
}
use hyperfixation_core.State.{Db, Task, TaskOrigin, Activity, Result, ok, err}
use hyperfixation_core.State.Tx.{◌>>=◌, pure, >>=-ok, >>=-eq-ok}
use hyperfixation_core.Fence.{step_tx, is_current}
use hyperfixation_core.Fence.Stale.{step_tx-ok, step_tx-current}
use hyperfixation_core.Actions.{conflicts}
use hyperfixation_core.Registry.{Registry}
use hyperfixation_core.Tasks.{
  StepContext, TaskCreateOptions, TaskCreated, opened, insert_new, insert_task, insert_activity,
  same_activity, is_activity_kind, created_activity, task_key, flow_origin_ref, create_work,
  create_task, require_target,
}

opened-found :
    (options : TaskCreateOptions) (ref : String) (ts : List Task) (id : ℕ)
    → find_where (conflicts TaskOrigin.flow ref) ts ≡ none
    → find_where
        (conflicts TaskOrigin.flow ref)
        (ts ++ opened options TaskOrigin.flow (some ref) id ∷ [])
      ≡ some (opened options TaskOrigin.flow (some ref) id)
unfolding opened find_where
opened-found options ref ts id e =
    find_where-append (conflicts TaskOrigin.flow ref) ts
      (opened options TaskOrigin.flow (some ref) id ∷ [])
    ∙ rw (e, eq_refl ref) refl

-- The task that a create answers is in the table under the origin.
insert_task-finds :
    (options : TaskCreateOptions) (ref : String) (db db' : Db) (t : TaskCreated)
    → insert_task options TaskOrigin.flow (some ref) db ≡ ok (t, db')
    → (row : Task) × (find_where (conflicts TaskOrigin.flow ref) db'.tasks ≡ some row)
      × (row.id ≡ t.id)
unfolding insert_task insert_new opened
insert_task-finds options ref db db' t h =
    elim (Option-cases (find_where (conflicts TaskOrigin.flow ref) db.tasks)) [
      | inl e ↦ (
        opened options TaskOrigin.flow (some ref) db.next_id,
        ground (arith, h, e, opened-found options ref db.tasks db.next_id e),
        ground (arith, h, e),
      )
      | inr (row, e) ↦ (row, ground (arith, h, e), ground (arith, h, e))
    ]

insert_activity-keeps :
    (w : Activity) (db db' : Db) (b : Bool)
    → same_activity w w ≡ true
    → insert_activity w db ≡ ok (b, db')
    → (any_where (same_activity w) db'.activities ≡ true)
      × (db'.tasks ≡ db.tasks)
      × (is_activity_kind w.kind ≡ true)
unfolding insert_activity any_where
insert_activity-keeps w db db' b self h =
    ground (arith, h, self, any_where-append (same_activity w) db.activities (w ∷ []))

insert_task_again :
    (options : TaskCreateOptions) (ref : String) (db : Db) (row : Task)
    → find_where (conflicts TaskOrigin.flow ref) db.tasks ≡ some row
    → insert_task options TaskOrigin.flow (some ref) db
      ≡ ok (record { id = row.id; created = false }, db)
unfolding insert_task
insert_task_again options ref db row e = rw (insert_task, e) refl

insert_activity_again :
    (w : Activity) (db : Db)
    → any_where (same_activity w) db.activities ≡ true
    → is_activity_kind w.kind ≡ true
    → insert_activity w db ≡ ok (false, db)
unfolding insert_activity
insert_activity_again w db e kind = rw (kind, e) refl

created_kind : is_activity_kind "task.created" ≡ true
unfolding is_activity_kind split all_chars
created_kind = refl

module _ {A : Type 0} (records : Registry A) (ctx : StepContext) (options : TaskCreateOptions) where
  abbrev ref : String
  ref = flow_origin_ref ctx.run_id (task_key ctx options)

  abbrev note_of : Option String × Option String → Activity
  note_of target =
      created_activity target none (some ctx.run_id)
        (some (str_append (task_key ctx options) ":task.created"))

  self :
      (target : Option String × Option String)
      → same_activity (note_of target) (note_of target) ≡ true
  self target =
      rw (eq_refl ctx.run_id, eq_refl (str_append (task_key ctx options) ":task.created")) refl

  -- What a create leaves for the next one under its key.
  record Recorded (target : Option String × Option String) (t : TaskCreated) (db : Db)
      : Type 0 where
    row : Task
    found : find_where (conflicts TaskOrigin.flow ref) db.tasks ≡ some row
    same_id : row.id ≡ t.id
    noted : any_where (same_activity (note_of target)) db.activities ≡ true

  create_work-Recorded :
      (target : Option String × Option String) (t : TaskCreated) (db db' : Db)
      → create_work ctx options target db ≡ ok (t, db')
      → Recorded target t db'
  unfolding create_work
  create_work-Recorded target t db db' h =
      let (t1, db1, opens, rest) =
        >>=-eq-ok (insert_task options TaskOrigin.flow (some ref))
          (λ task. insert_activity (note_of target) >>= λ _. pure task) db t db' h in
      let (b, db2, notes, ends) =
        >>=-eq-ok (insert_activity (note_of target)) (λ _. pure t1) db1 t db' rest in
      let (row, found, same_id) = insert_task-finds options ref db db1 t1 opens in
      let (noted, tasks, kind) =
        insert_activity-keeps (note_of target) db1 db2 b (self target) notes in
      record { row = row; found = cc; same_id = cc; noted = cc }

  Recorded-create_work :
      (target : Option String × Option String) (t : TaskCreated) (db : Db)
      → Recorded target t db
      → create_work ctx options target db ≡ ok (record { id = t.id; created = false }, db)
  unfolding create_work
  Recorded-create_work target t db r =
      >>=-ok (insert_task options TaskOrigin.flow (some ref))
        (λ task. insert_activity (note_of target) >>= λ _. pure task) db
        (record { id = r.row.id; created = false }) db
        (insert_task_again options ref db r.row r.found)
      ∙ >>=-ok (insert_activity (note_of target))
          (λ _. pure (record { id = r.row.id; created = false })) db false db
          (insert_activity_again (note_of target) db r.noted created_kind)
      ∙ ap (λ (id : ℕ). ok (record { id = id; created = false }, db)) r.same_id

  -- A step that is run again in a later attempt finds the task that an earlier one opened: where
  -- createTask has returned, and neither the tasks nor the activities have changed since, a call
  -- under the same key by whichever attempt is current returns that task as not created, and writes
  -- nothing.
  pub create_task_again :
      (db db' later : Db) (workflow_id : String) (t : TaskCreated)
      → create_task ctx records options db ≡ (ok t, db')
      → later.tasks ≡ db'.tasks
      → later.activities ≡ db'.activities
      → is_current ctx.run_id workflow_id later ≡ true
      → create_task (record ctx { workflow_id = workflow_id }) records options later
        ≡ (ok (record { id = t.id; created = false }), later)
  unfolding create_task
  create_task_again db db' later workflow_id t h tasks activities current =
      go (require_target records options) refl h
    where
      go :
          (target : Result (Option String × Option String))
          → require_target records options ≡ target
          → (elim target as (λ _. Result TaskCreated × Db) [
            | err e ↦ (err e, db)
            | ok to ↦ step_tx ctx.run_id ctx.workflow_id (create_work ctx options to) db
          ])
            ≡ (ok t, db')
          → create_task (record ctx { workflow_id = workflow_id }) records options later
            ≡ (ok (record { id = t.id; created = false }), later)
      go (err e) at k = absurd (ground arith)
      go (ok to) at k =
          let once =
            create_work-Recorded to t db db'
              (step_tx-ok ctx.run_id ctx.workflow_id (create_work ctx options to) db t db' k).0 in
          rw
            (
              create_task,
              at,
              step_tx-current ctx.run_id workflow_id (create_work ctx options to) later current,
              Recorded-create_work to t later (record {
                row = once.row;
                found = ap (find_where (conflicts TaskOrigin.flow ref)) tasks ∙ once.found;
                same_id = once.same_id;
                noted = ap (any_where (same_activity (note_of to))) activities ∙ once.noted;
              }),
            )
            refl
