-- ===== src/Tests/Approvals.antt =====
-- Witnesses for approvals.
use hyperfixation_core.Prelude.{
  ℕ, ◌≡◌, ◌≤◌, refl, arith, false, none, some, [], ◌∷◌, find_where, count_where, any_where,
  update_where, select_where,
}
use hyperfixation_core.Prelude.Decimal.{decimal}
use hyperfixation_core.State.{Db, Approval, ApprovalStatus, ApprovalVia, ok, is_paused, find_run}
use hyperfixation_core.ControlPlane.{
  control_plane_tx, bump_attempt, bump_and_enqueue_on, flow_for_run, enqueue_in_transaction,
  attempt_workflow_id, workflow_id_taken, current_id_taken,
}
use hyperfixation_core.Fence.{is_current}
use hyperfixation_core.Runs.Superseded.{Keeps}
use hyperfixation_core.Ledger.{Ctx}
use hyperfixation_core.Approvals.{WaitForApprovalOptions, new_approval, decision_of}
use hyperfixation_core.Approvals.Batch.{
  ApprovalDecisionKind, DecideOptions, DecideResult, has_id, insert_sorted, sort_unique,
  approvals_at, is_foreign, parse_edit, row_reasons, rows_reasons, missing_reasons,
  assert_decidable, decide_row, write_decision, write_decisions, write_resume, resume_runs,
}
use hyperfixation_core.Approvals.Decide.{
  run_ids_of, runs_at, moved_row, record_decisions, batch_id_of, decide_fresh, decide_locked,
  decide_rows, decide_work, decide_once, decide,
}
use hyperfixation_core.Approvals.Decide.Final.{verdict, Stays}
use hyperfixation_core.Approvals.Decide.Verdicts.{verdict_is_final}
use hyperfixation_core.Approvals.Decide.Whole.{Carries, batch_is_whole}
use hyperfixation_core.Approvals.Decide.Resumes.{decision_resumes_run}
use hyperfixation_core.Approvals.Gate.{Opened, gate_needs_decision, decided_gate_opens}
use hyperfixation_core.Tests.{web, run_at, second}

abbrev waiter : Ctx
waiter = record { run_id = "r1"; workflow_id = "r1:2" }

abbrev letter : WaitForApprovalOptions
letter = record {
  key = "letter";
  type = "draft";
  draft = some "\"Dear\"";
  assignee_id = none;
  record_type = none;
  record_id = none;
  expires_in_ms = none;
}

abbrev pending_letter : Approval
unfolding new_approval
pending_letter = new_approval waiter letter 3 5000

abbrev asked : Db
unfolding pending_letter
asked = record second { approvals = pending_letter ∷ [] }

abbrev approve : DecideOptions
approve = record {
  ids = 3 ∷ [];
  decision = ApprovalDecisionKind.approved;
  via = ApprovalVia.web;
  decision_key = "k1";
  user_id = some "u1";
  edits = [];
  admin = false;
  schema_for = none;
}

abbrev outcome : DecideResult
outcome = record {
  replayed = false;
  decided =
      record {
        approval_id = 3;
        run_id = "r1";
        key = "letter";
        status = ApprovalStatus.approved;
        resume_workflow_id = "r1:3";
      }
      ∷ [];
  reattempted = record { run_id = "r1"; attempt = 3; workflow_id = "r1:3" } ∷ [];
  batch_id = none;
}

abbrev decided_db : Db
decided_db = (decide_once web approve asked asked).1

approves : decide_once web approve asked asked ≡ (ok outcome, decided_db)
unfolding asked pending_letter new_approval decide_once control_plane_tx decide_work sort_unique
    insert_sorted approvals_at run_ids_of runs_at find_run decide_rows moved_row decide_locked
    decide_fresh assert_decidable missing_reasons rows_reasons row_reasons is_foreign parse_edit
    write_decisions write_decision decide_row resume_runs write_resume bump_and_enqueue_on
    bump_attempt flow_for_run enqueue_in_transaction attempt_workflow_id workflow_id_taken
    current_id_taken record_decisions batch_id_of decimal any_where find_where count_where
    update_where select_where
approves = refl

asked-single : (i : ℕ) → count_where (has_id i) asked.approvals ≤ 1
unfolding count_where asked
asked-single i = ground arith

batch_is_whole_example : Carries approve none 3 decided_db
unfolding any_where
batch_is_whole_example =
    batch_is_whole web approve asked asked outcome decided_db 3 asked-single approves refl refl

decision_resumes_run_example : Keeps "r1" 3 decided_db
unfolding any_where asked pending_letter new_approval find_run find_where
decision_resumes_run_example =
    decision_resumes_run web approve asked asked outcome decided_db 3 pending_letter
      (run_at 2 "r1:2") approves refl refl refl refl

-- The same letter, rejected by somebody else.
abbrev rejected_letter : Approval
unfolding pending_letter
rejected_letter = record pending_letter {
  status = ApprovalStatus.rejected;
  decided_by = some "u2";
  decision_key = some "k0";
}

abbrev closed : Db
unfolding rejected_letter
closed = record second { approvals = rejected_letter ∷ [] }

verdict_is_final_example :
    Stays 3 (verdict rejected_letter) (decide web approve closed closed (λ d. d) closed).1
unfolding closed rejected_letter pending_letter new_approval find_where
verdict_is_final_example =
    verdict_is_final 3 (verdict rejected_letter) web approve closed closed (λ d. d) closed
      (λ d s. s) (record { row = rejected_letter; found = refl; same = refl; closed = refl })

gate_needs_decision_example :
    Opened waiter letter closed (decision_of rejected_letter "letter") × (closed ≡ closed)
unfolding closed rejected_letter pending_letter new_approval find_where find_run is_paused
    is_current any_where
gate_needs_decision_example =
    gate_needs_decision waiter letter none closed (decision_of rejected_letter "letter") closed
      (decided_gate_opens waiter letter none rejected_letter closed refl refl refl refl refl)
