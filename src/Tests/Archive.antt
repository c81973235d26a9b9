-- ===== src/Tests/Archive.antt =====
-- Witnesses for the archive of a record that an approval is pending on.
use hyperfixation_core.Prelude.{
  ◌≡◌, refl, arith, false, none, some, [], ◌∷◌, find_where, count_where, any_where, update_where,
  select_where, split, all_chars,
}
use hyperfixation_core.Prelude.Decimal.{decimal}
use hyperfixation_core.State.{Db, Approval, ok, find_run}
use hyperfixation_core.ControlPlane.{
  control_plane_tx, bump_attempt, bump_and_enqueue_on, flow_for_run, enqueue_in_transaction,
  attempt_workflow_id, workflow_id_taken, current_id_taken,
}
use hyperfixation_core.Approvals.{WaitForApprovalOptions, new_approval}
use hyperfixation_core.Approvals.Batch.{
  insert_sorted, sort_unique, approvals_at, is_foreign, parse_edit, row_reasons, rows_reasons,
  missing_reasons, assert_decidable, decide_row, write_decision, write_decisions, write_resume,
  resume_runs,
}
use hyperfixation_core.Approvals.Decide.{
  run_ids_of, runs_at, moved_row, record_decisions, batch_id_of, decide_fresh, decide_locked,
  decide_rows, decide_work, decide_once, decide,
}
use hyperfixation_core.Tests.{web, second}
use hyperfixation_core.Approvals.Decide.{retry, is_unwired}
use hyperfixation_core.State.{ok}
use hyperfixation_core.Registry.{require_entry, get}
use hyperfixation_core.Tasks.{insert_activity, is_activity_kind, is_kind_word}
use hyperfixation_core.Tasks.Close.{cancel_open_tasks_for_record}
use hyperfixation_core.Records.{
  ArchiveResult, archive_record, archive_row, archive_work, cancel_approvals, cancellation_of,
  archive_decision_key, pending_for_record,
}
use hyperfixation_core.Records.Cancelled.{Sound, Cancelled}
use hyperfixation_core.Records.Pending.{archive_cancels_pending}
use hyperfixation_core.Tests.Records.{tables, first_company}

abbrev asks_company : WaitForApprovalOptions
asks_company = record {
  key = "letter";
  type = "draft";
  draft = none;
  assignee_id = none;
  record_type = some "company";
  record_id = some "1";
  expires_in_ms = none;
}

abbrev pending_company : Approval
unfolding new_approval
pending_company = new_approval (record { run_id = "r1"; workflow_id = "r1:2" }) asks_company 3 5000

abbrev company_db : Db
unfolding pending_company
company_db = record second { approvals = pending_company ∷ [] }

abbrev cancelled_answer : ArchiveResult
cancelled_answer = record {
  record_type = "company";
  record_id = "1";
  archived = false;
  cancelled_approvals = 3 ∷ [];
  cancelled_tasks = [];
}

abbrev cancelled_db : Db
cancelled_db = (archive_record web tables first_company company_db).1

cancels_company :
    archive_record web tables first_company company_db ≡ (ok cancelled_answer, cancelled_db)
unfolding company_db pending_company new_approval decide_once control_plane_tx decide_work
    sort_unique insert_sorted approvals_at run_ids_of runs_at find_run decide_rows moved_row
    decide_locked decide_fresh assert_decidable missing_reasons rows_reasons row_reasons is_foreign
    parse_edit write_decisions write_decision decide_row resume_runs write_resume
    bump_and_enqueue_on bump_attempt flow_for_run enqueue_in_transaction attempt_workflow_id
    workflow_id_taken current_id_taken record_decisions batch_id_of decimal any_where find_where
    count_where update_where select_where decide retry archive_record require_entry get
    pending_for_record cancel_approvals cancellation_of archive_decision_key archive_work
    archive_row cancel_open_tasks_for_record insert_activity is_activity_kind is_kind_word split
    all_chars is_unwired
cancels_company = refl

company_db-Sound : Sound company_db.approvals
unfolding company_db pending_company new_approval count_where
company_db-Sound = record { single = λ i. ground arith; unkeyed = (refl, tt) }

archive_cancels_pending_example : Cancelled 3 cancelled_db
unfolding company_db pending_company new_approval find_where
archive_cancels_pending_example =
    archive_cancels_pending web tables first_company company_db cancelled_answer cancelled_db 3
      pending_company cancels_company company_db-Sound refl refl
