-- ===== src/Tests/Tasks.antt =====
-- Witnesses for the registries and the tasks.
use hyperfixation_core.Prelude.{
  String, true, false, none, some, [], ◌∷◌, ◌≡◌, ◌≢◌, refl, find_where, any_where, update_where,
  split, all_chars,
}
use hyperfixation_core.State.{Db, TaskOrigin, ok}
use hyperfixation_core.Fence.{step_tx, is_current}
use hyperfixation_core.Registry.{Registry, register, register-require, require_entry, get}
use hyperfixation_core.Tasks.{
  StepContext, TaskCreateOptions, create_task, create_work, require_target, insert_task, insert_new,
  insert_activity, opened, created_activity, flow_origin_ref, is_activity_kind, is_kind_word,
}
use hyperfixation_core.Tasks.Replayed.{create_task_again}
use hyperfixation_core.Tasks.Close.{
  TaskCloseOptions, ClosedColumn, close_task, close_work, cancel_task, closed_task_stays,
  complete_task,
}
use hyperfixation_core.ControlPlane.{control_plane_tx}
use hyperfixation_core.Tests.{web, second, run_at}

abbrev record_types : Registry String
record_types = record { kind = "record type"; key_of = λ s. s; entries = "company" ∷ [] }

abbrev with_person : Registry String
with_person = record record_types { entries = "company" ∷ "person" ∷ [] }

register-require_example :
    (require_entry with_person "person" ≡ ok "person")
    × (get record_types "person" ≡ none)
    × ((name : String) → name ≢ "person" → get with_person name ≡ get record_types name)
unfolding register any_where
register-require_example = register-require record_types with_person "person" "person" registers
  where
    registers : register record_types "person" ≡ ok ("person", with_person)
    registers = refl

abbrev step_context : StepContext
step_context = record { run_id = "r1"; workflow_id = "r1:2"; key = "call" }

abbrev call_company : TaskCreateOptions
call_company = record {
  record_type = some "company";
  record_id = some "c1";
  title = "Call them";
  due_at = none;
  owner_id = none;
  key = none;
  user_id = none;
}

abbrev with_task : Db
with_task = record second {
  next_id = 8;
  tasks =
      record {
        id = 7;
        record_type = some "company";
        record_id = some "c1";
        title = "Call them";
        due_at = none;
        owner_id = none;
        done_at = none;
        cancelled_at = none;
        origin = TaskOrigin.flow;
        origin_ref = some "r1:call";
      }
      ∷ [];
  activities =
      created_activity (some "company", some "c1") none (some "r1") (some "call:task.created") ∷ [];
}

creates :
    create_task step_context record_types call_company second
    ≡ (ok (record { id = 7; created = true }), with_task)
unfolding create_task create_work require_target require_entry get insert_task insert_new opened
    insert_activity flow_origin_ref is_activity_kind is_kind_word step_tx is_current find_where
    any_where split all_chars
creates = refl

-- The run after its next bump.
abbrev third : Db
third = record with_task { runs = run_at 3 "r1:3" ∷ [] }

create_task_again_example :
    create_task (record step_context { workflow_id = "r1:3" }) record_types call_company third
    ≡ (ok (record { id = 7; created = false }), third)
unfolding is_current any_where
create_task_again_example =
    create_task_again record_types step_context call_company second with_task third "r1:3"
      (record { id = 7; created = true }) creates refl refl refl

abbrev seventh : TaskCloseOptions
seventh = record { id = 7; user_id = some "u1" }

abbrev done_db : Db
done_db = record with_task {
  tasks =
      record {
        id = 7;
        record_type = some "company";
        record_id = some "c1";
        title = "Call them";
        due_at = none;
        owner_id = none;
        done_at = some 5000;
        cancelled_at = none;
        origin = TaskOrigin.flow;
        origin_ref = some "r1:call";
      }
      ∷ [];
  activities =
      created_activity (some "company", some "c1") none (some "r1") (some "call:task.created")
      ∷ record {
        record_type = some "company";
        record_id = some "c1";
        kind = "task.completed";
        actor_id = some "u1";
        run_id = none;
        key = none;
      }
      ∷ [];
}

completes : complete_task web seventh with_task ≡ (ok (record { id = 7; changed = true }), done_db)
unfolding complete_task close_task close_work insert_activity control_plane_tx is_activity_kind
    is_kind_word find_where update_where any_where split all_chars
completes = refl

closed_task_stays_example :
    cancel_task web seventh done_db ≡ (ok (record { id = 7; changed = false }), done_db)
closed_task_stays_example =
    closed_task_stays web seventh seventh ClosedColumn.done_at ClosedColumn.cancelled_at with_task
      done_db (record { id = 7; changed = true }) refl completes
