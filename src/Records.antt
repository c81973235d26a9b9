-- ===== src/Records.antt =====
-- packages/core/src/records.ts: archiveRecord. Between its statements nothing else is committed
-- here. The tables of the app are the rows that carry the record mixin.
pub mod Archived
pub mod Cancelled
pub mod Pending
use Prim.Native.String.{◌++◌ as str_append}
use hyperfixation_core.Prelude.{
  ℕ, String, Bool, true, false, not, Option, none, some, List, [], ◌∷◌, ◌++◌, ◌&&◌, ◌==◌,
  if◌then◌else◌, eqb, is_some, map, count_where, update_where, select_where,
}
use hyperfixation_core.Prelude.Decimal.{decimal}
use hyperfixation_core.State.{
  Db, AppRow, Approval, ApprovalStatus, ApprovalVia, Activity, Audit, Result, ok, err,
  control_plane_in_workflow,
}
use hyperfixation_core.State.Tx.{Tx, Exec, ◌>>=◌, ◌>>◌, pure, gets, modify}
use hyperfixation_core.ControlPlane.{Env, control_plane_tx}
use hyperfixation_core.Approvals.{is_pending}
use hyperfixation_core.Approvals.Batch.{
  ApprovalDecisionKind, DecideOptions, DecidedApproval, DecideResult,
}
use hyperfixation_core.Approvals.Decide.{decide}
use hyperfixation_core.Registry.{Registry, require_entry}
use hyperfixation_core.Tasks.{insert_activity, same_text}
use hyperfixation_core.Tasks.Close.{cancel_open_tasks_for_record}

pub record RecordTable : Type 0 where
  pub record_type : String
  pub table : String

pub record ArchiveOptions : Type 0 where
  pub record_type : String
  pub record_id : String
  pub user_id : Option String

pub record ArchiveResult : Type 0 where
  pub record_type : String
  pub record_id : String
  pub archived : Bool
  pub cancelled_approvals : List ℕ
  pub cancelled_tasks : List ℕ

-- PENDING_FOR_RECORD_STATEMENT; the table is in the order of its ids.
abbrev pub is_pending_on : ArchiveOptions → Approval → Bool
is_pending_on options a =
    (same_text a.record_type (some options.record_type)
      && same_text a.record_id (some options.record_id))
    && is_pending a.status

unfoldable pub pending_for_record : ArchiveOptions → Db → List ℕ
pending_for_record options db =
    map (λ (a : Approval). a.id) (select_where (is_pending_on options) db.approvals)

unfoldable pub archive_decision_key : String → String → ℕ → String
archive_decision_key record_type record_id approval_id = str_append "archive:" (
    str_append record_type
      (str_append ":" (str_append record_id (str_append ":" (decimal approval_id)))))

unfoldable pub cancellation_of : ArchiveOptions → ℕ → DecideOptions
unfolding archive_decision_key
cancellation_of options id = record {
  ids = id ∷ [];
  decision = ApprovalDecisionKind.cancelled;
  via = ApprovalVia.archive;
  decision_key = archive_decision_key options.record_type options.record_id id;
  user_id = options.user_id;
  edits = [];
  admin = false;
  schema_for = none;
}

abbrev pub decided_ids : DecideResult → List ℕ
decided_ids r = map (λ (d : DecidedApproval). d.approval_id) r.decided

abbrev pub more_cancelled : List ℕ → Result (List ℕ) × Db → Result (List ℕ) × Db
more_cancelled ids (ok rest, db) = (ok (ids ++ rest), db)
more_cancelled ids (err e, db) = (err e, db)

abbrev pub after_cancel :
    (Db → Result (List ℕ) × Db) → Result DecideResult × Db → Result (List ℕ) × Db
after_cancel rest (ok r, db) = more_cancelled (decided_ids r) (rest db)
after_cancel rest (err e, db) = (err e, db)

-- One call of `decide()` for each approval.
unfoldable pub cancel_approvals : Env → ArchiveOptions → List ℕ → Db → Result (List ℕ) × Db
unfolding cancellation_of
cancel_approvals env options [] db = (ok [], db)
cancel_approvals env options (id ∷ ids) db =
    after_cancel (cancel_approvals env options ids)
      (decide env (cancellation_of options id) db db (λ d. d) db)

abbrev pub is_live : String → String → AppRow → Bool
is_live table id r = ((r.table == table) && (r.id == id)) && not (is_some r.archived_at)

abbrev pub archived_row : ℕ → AppRow → AppRow
archived_row now r = record r { archived_at = some now }

-- The UPDATE of the record's own row, with its row count.
unfoldable pub archive_row : String → String → Tx ℕ
archive_row table id db = ok (
  count_where (is_live table id) db.app_rows,
  record db { app_rows = update_where (is_live table id) (archived_row db.now) db.app_rows },
)

abbrev pub archived_activity : ArchiveOptions → Activity
archived_activity options = record {
  record_type = some options.record_type;
  record_id = some options.record_id;
  kind = "record.archived";
  actor_id = options.user_id;
  run_id = none;
  key = none;
}

abbrev pub archived_audit : ArchiveOptions → Audit
archived_audit options = record {
  actor_id = options.user_id;
  action = "record.archived";
  target_type = options.record_type;
  target_id = options.record_id;
}

-- The transaction: whether a row was archived, and the tasks that were cancelled.
unfoldable pub archive_work : ArchiveOptions → String → Tx (Bool × List ℕ)
unfolding archive_row insert_activity cancel_open_tasks_for_record
archive_work options table = do
  rows ← archive_row table options.record_id
  tasks ← cancel_open_tasks_for_record options.record_type options.record_id
  _ ← insert_activity (archived_activity options)
  modify λ db. record db { audits = db.audits ++ archived_audit options ∷ [] }
  pure (eqb rows 1, tasks)

abbrev pub archive_result :
    ArchiveOptions → List ℕ → Result (Bool × List ℕ) × Db → Result ArchiveResult × Db
archive_result options ids (err e, db) = (err e, db)
archive_result options ids (ok (archived, tasks), db) = (
  ok (record {
    record_type = options.record_type;
    record_id = options.record_id;
    archived = archived;
    cancelled_approvals = ids;
    cancelled_tasks = tasks;
  }),
  db,
)

abbrev pub after_approvals :
    Env → ArchiveOptions → String → Result (List ℕ) × Db → Result ArchiveResult × Db
after_approvals env options table (err e, db) = (err e, db)
after_approvals env options table (ok ids, db) =
    archive_result options ids
      (control_plane_tx env "records.archive" (archive_work options table) db)

unfoldable pub archive_record : Env → Registry RecordTable → ArchiveOptions → Exec ArchiveResult
unfolding pending_for_record cancel_approvals archive_work
archive_record env records options db =
    if env.within_workflow
    then (err (control_plane_in_workflow "records.archive"), db)
    else elim (require_entry records options.record_type) [
      | err e ↦ (err e, db)
      | ok entry ↦
          after_approvals env options entry.table
            (cancel_approvals env options (pending_for_record options db) db)
    ]
