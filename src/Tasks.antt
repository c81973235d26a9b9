-- ===== src/Tasks.antt =====
-- packages/core/src/tasks.ts, with insertActivity and recordActivity of activity.ts. The rows of
-- hf_activity have no ids here, so what an insert answers is whether it created the row.
pub mod Close
pub mod Replayed
use Prim.Native.Char.{Char, code}
use Prim.Native.String.{[], ◌∷◌}
use Prim.Native.String.{◌++◌ as str_append}
use hyperfixation_core.Prelude.{
  ℕ, ◌+◌, String, Bool, true, false, not, Option, none, some, List, [], ◌∷◌, ◌++◌, ◌&&◌, ◌||◌, ◌==◌,
  if◌then◌else◌, leb, eqb, is_some, or_else, split, all_chars, find_where, any_where, update_where,
  select_where, map,
}
use hyperfixation_core.State.{
  Db, Task, TaskOrigin, Activity, Result, ok, err, invalid_activity_kind, missing_row,
}
use hyperfixation_core.State.Tx.{Tx, Exec, ◌>>=◌, ◌>>◌, pure}
use hyperfixation_core.ControlPlane.{Env, control_plane_tx}
use hyperfixation_core.Fence.{step_tx}
use hyperfixation_core.Actions.{conflicts}
use hyperfixation_core.Registry.{Registry, require_entry}

-- [a-z] and [a-z0-9_]
abbrev pub is_lower : Char → Bool
is_lower c = leb 97 (code c) && leb (code c) 122

abbrev pub is_kind_char : Char → Bool
is_kind_char c = is_lower c || ((leb 48 (code c) && leb (code c) 57) || eqb (code c) 95)

unfoldable pub is_kind_word : String → Bool
is_kind_word [] = false
is_kind_word (c ∷ s) = is_lower c && all_chars is_kind_char s

abbrev pub two_words : List String → Bool
two_words (noun ∷ verb ∷ []) = is_kind_word noun && is_kind_word verb
two_words _ = false

-- ACTIVITY_KIND_PATTERN: no character of a word is the dot.
unfoldable pub is_activity_kind : String → Bool
unfolding is_kind_word
is_activity_kind kind = two_words (split "." kind)

-- The partial unique index on (run_id, key); a NULL equals nothing.
abbrev pub same_text : Option String → Option String → Bool
same_text (some a) (some b) = a == b
same_text _ _ = false

abbrev pub same_activity : Activity → Activity → Bool
same_activity w a = same_text a.run_id w.run_id && same_text a.key w.key

unfoldable pub insert_activity : Activity → Tx Bool
unfolding is_activity_kind
insert_activity w db =
    if is_activity_kind w.kind
    then if any_where (same_activity w) db.activities
      then ok (false, db)
      else ok (true, record db { activities = db.activities ++ w ∷ [] })
    else err (invalid_activity_kind w.kind)

-- The part of a `StepContext` that these functions read.
pub record StepContext : Type 0 where
  pub run_id : String
  pub workflow_id : String
  pub key : String

pub record ActivityRecordOptions : Type 0 where
  pub kind : String
  pub record_type : Option String
  pub record_id : Option String
  pub actor_id : Option String
  pub key : Option String

unfoldable pub record_activity : StepContext → ActivityRecordOptions → Exec Bool
unfolding insert_activity
record_activity ctx options db =
    if is_activity_kind options.kind
    then step_tx ctx.run_id ctx.workflow_id
        (insert_activity (record {
          record_type = options.record_type;
          record_id = options.record_id;
          kind = options.kind;
          actor_id = options.actor_id;
          run_id = some ctx.run_id;
          key = some (or_else options.key (str_append ctx.key (str_append ":" options.kind)));
        }))
        db
    else (err (invalid_activity_kind options.kind), db)

-- What both kinds of a create name; `key` is only read of a step.
pub record TaskCreateOptions : Type 0 where
  pub record_type : Option String
  pub record_id : Option String
  pub title : String
  pub due_at : Option ℕ
  pub owner_id : Option String
  pub key : Option String
  pub user_id : Option String

pub record TaskCreated : Type 0 where
  pub id : ℕ
  pub created : Bool

unfoldable pub flow_origin_ref : String → String → String
flow_origin_ref run_id key = str_append run_id (":" ∷ key)

unfoldable pub opened : TaskCreateOptions → TaskOrigin → Option String → ℕ → Task
opened options origin origin_ref id = record {
  id = id;
  record_type = options.record_type;
  record_id = options.record_id;
  title = options.title;
  due_at = options.due_at;
  owner_id = options.owner_id;
  done_at = none;
  cancelled_at = none;
  origin = origin;
  origin_ref = origin_ref;
}

unfoldable pub insert_new : TaskCreateOptions → TaskOrigin → Option String → Tx TaskCreated
unfolding opened
insert_new options origin origin_ref db = ok (
  record { id = db.next_id; created = true },
  record db {
    next_id = db.next_id + 1;
    tasks = db.tasks ++ opened options origin origin_ref db.next_id ∷ [];
  },
)

-- EXISTING_TASK_STATEMENT where the insert conflicts.
unfoldable pub insert_task : TaskCreateOptions → TaskOrigin → Option String → Tx TaskCreated
unfolding insert_new
insert_task options origin none db = insert_new options origin none db
insert_task options origin (some origin_ref) db =
    elim (find_where (conflicts origin origin_ref) db.tasks) [
      | some t ↦ ok (record { id = t.id; created = false }, db)
      | none ↦ insert_new options origin (some origin_ref) db
    ]

-- requireTarget: the record that the activity names.
unfoldable pub require_target :
    {A : Type 0} → Registry A → TaskCreateOptions → Result (Option String × Option String)
require_target records options = elim options.record_type [
  | none ↦ ok (none, none)
  | some record_type ↦ elim (require_entry records record_type) [
    | err e ↦ err e
    | ok entry ↦ ok (some record_type, options.record_id)
  ]
]

abbrev pub created_activity :
    Option String × Option String → Option String → Option String → Option String → Activity
created_activity (record_type, record_id) actor_id run_id key = record {
  record_type = record_type;
  record_id = record_id;
  kind = "task.created";
  actor_id = actor_id;
  run_id = run_id;
  key = key;
}

abbrev pub task_key : StepContext → TaskCreateOptions → String
task_key ctx options = or_else options.key ctx.key

-- The transaction of createTask.
unfoldable pub create_work :
    StepContext → TaskCreateOptions → Option String × Option String → Tx TaskCreated
unfolding insert_task insert_activity
create_work ctx options target = do
  task ←
      insert_task options TaskOrigin.flow (some (flow_origin_ref ctx.run_id (task_key ctx options)))
  _ ← insert_activity (
      created_activity target none (some ctx.run_id)
        (some (str_append (task_key ctx options) ":task.created")))
  pure task

unfoldable pub create_task :
    {A : Type 0} → StepContext → Registry A → TaskCreateOptions → Exec TaskCreated
unfolding create_work require_target
create_task ctx records options db = elim (require_target records options) [
  | err e ↦ (err e, db)
  | ok target ↦ step_tx ctx.run_id ctx.workflow_id (create_work ctx options target) db
]

unfoldable pub create_manual_task :
    {A : Type 0} → Env → Registry A → TaskCreateOptions → Exec TaskCreated
unfolding insert_task insert_activity require_target
create_manual_task env records options db = elim (require_target records options) [
  | err e ↦ (err e, db)
  | ok target ↦
      control_plane_tx env "tasks.createManual"
        (do
          task ← insert_task options TaskOrigin.manual none
          _ ← insert_activity (created_activity target options.user_id none none)
          pure task)
        db
]
