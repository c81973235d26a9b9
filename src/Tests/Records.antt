-- ===== src/Tests/Records.antt =====
-- Witnesses for the archive of a record.
use hyperfixation_core.Prelude.{
  ℕ, String, true, none, some, [], ◌∷◌, ◌≡◌, refl, find_where, any_where, update_where,
  select_where, count_where, split, all_chars,
}
use hyperfixation_core.State.{Db, AppRow, Task, TaskOrigin, ok}
use hyperfixation_core.ControlPlane.{control_plane_tx}
use hyperfixation_core.Approvals.Decide.Final.{Verdict, Stays}
use hyperfixation_core.Registry.{Registry, require_entry, get}
use hyperfixation_core.Tasks.{insert_activity, is_activity_kind, is_kind_word}
use hyperfixation_core.Tasks.Close.{cancel_open_tasks_for_record}
use hyperfixation_core.Records.{
  RecordTable, ArchiveOptions, ArchiveResult, archive_record, archive_row, archive_work,
  cancel_approvals, pending_for_record, archived_activity, archived_audit,
}
use hyperfixation_core.Records.Archived.{Closed, archived_record_is_Closed}
use hyperfixation_core.Tests.{web, second}

abbrev companies : RecordTable
companies = record { record_type = "company"; table = "companies" }

abbrev pub tables : Registry RecordTable
tables = record { kind = "record type"; key_of = λ t. t.record_type; entries = companies ∷ [] }

abbrev pub first_company : ArchiveOptions
first_company = record { record_type = "company"; record_id = "1"; user_id = some "u1" }

abbrev task_on : String → Task
task_on record_id = record {
  id = 3;
  record_type = some "company";
  record_id = some record_id;
  title = "Call them";
  due_at = none;
  owner_id = none;
  done_at = none;
  cancelled_at = none;
  origin = TaskOrigin.manual;
  origin_ref = none;
}

abbrev company_row : String → AppRow
company_row id = record { table = "companies"; id = id; archived_at = none }

abbrev live_db : Db
live_db = record second {
  tasks = task_on "1" ∷ task_on "2" ∷ [];
  app_rows = company_row "1" ∷ company_row "2" ∷ [];
}

abbrev archived_db : Db
archived_db = record live_db {
  tasks = record (task_on "1") { cancelled_at = some 5000 } ∷ task_on "2" ∷ [];
  app_rows = record (company_row "1") { archived_at = some 5000 } ∷ company_row "2" ∷ [];
  activities = archived_activity first_company ∷ [];
  audits = archived_audit first_company ∷ [];
}

abbrev archive_answer : ArchiveResult
archive_answer = record {
  record_type = "company";
  record_id = "1";
  archived = true;
  cancelled_approvals = [];
  cancelled_tasks = 3 ∷ [];
}

archives : archive_record web tables first_company live_db ≡ (ok archive_answer, archived_db)
unfolding archive_record require_entry get pending_for_record cancel_approvals archive_work
    archive_row cancel_open_tasks_for_record insert_activity is_activity_kind is_kind_word
    control_plane_tx find_where any_where update_where select_where count_where split all_chars
archives = refl

archived_record_is_Closed_example :
    (entry : RecordTable) × (require_entry tables "company" ≡ ok entry)
    × Closed first_company entry.table archived_db
    × ((id : ℕ) (v : Verdict) → Stays id v live_db → Stays id v archived_db)
archived_record_is_Closed_example =
    archived_record_is_Closed web tables first_company live_db archive_answer archived_db archives
