-- ===== src/Approvals.antt =====
-- packages/workflows/src/approvals.ts: the gate that a flow waits at, and `decide()`, which opens it.
pub mod Gate
pub mod Batch
pub mod Decide
use hyperfixation_core.Prelude.{
  ℕ, String, Bool, true, false, ◌+◌, ◌==◌, ◌&&◌, Option, none, some, [], ◌∷◌, ◌++◌, if◌then◌else◌,
  find_where, update_where, any_where, or_else, is_some, not,
}
use hyperfixation_core.State.{
  Db, Approval, ApprovalStatus, ApprovalVia, RunStatus, Result, ok, err, suspend, missing_row,
}
use hyperfixation_core.State.Tx.{Tx, Exec, ◌>>=◌, ◌>>◌, modify, require, and_then}
use hyperfixation_core.Fence.{step_tx}
use hyperfixation_core.Runs.{step, conclude_run}
use hyperfixation_core.Ledger.{Ctx}

pub record WaitForApprovalOptions : Type 0 where
  pub key : String
  pub type : String
  pub draft : Option String
  pub assignee_id : Option String
  pub record_type : Option String
  pub record_id : Option String
  pub expires_in_ms : Option ℕ

pub record ApprovalNotice : Type 0 where
  pub approval_id : ℕ
  pub run_id : String
  pub key : String
  pub type : String
  pub draft : Option String
  pub assignee_id : Option String
  pub record_type : Option String
  pub record_id : Option String
  pub expires_at : Option ℕ

pub record ApprovalDecision : Type 0 where
  pub approval_id : ℕ
  pub key : String
  pub status : ApprovalStatus
  pub draft : Option String
  pub decided_by : Option String
  pub decided_via : Option ApprovalVia

abbrev pub is_approval : String → String → Approval → Bool
is_approval run_id key a = (a.run_id == run_id) && (a.key == key)

abbrev pub is_pending : ApprovalStatus → Bool
is_pending ApprovalStatus.pending = true
is_pending _ = false

-- NULL plus an interval is NULL.
abbrev pub expiry : Option ℕ → ℕ → Option ℕ
expiry none now = none
expiry (some ms) now = some (ms + now)

unfoldable pub new_approval : Ctx → WaitForApprovalOptions → ℕ → ℕ → Approval
new_approval ctx options id now = record {
  id = id;
  run_id = ctx.run_id;
  key = options.key;
  workflow_id = ctx.workflow_id;
  type = options.type;
  record_type = options.record_type;
  record_id = options.record_id;
  draft = options.draft;
  edited_draft = none;
  status = ApprovalStatus.pending;
  assignee_id = options.assignee_id;
  decided_by = none;
  decided_at = none;
  decided_via = none;
  decision_key = none;
  resume_workflow_id = none;
  notified_at = none;
  expires_at = expiry options.expires_in_ms now;
  batch_id = none;
}

-- ON CONFLICT (run_id, key) DO NOTHING.
unfoldable pub insert_approval : Ctx → WaitForApprovalOptions → Db → Db
unfolding new_approval
insert_approval ctx options db =
    if any_where (is_approval ctx.run_id options.key) db.approvals then db else record db {
      approvals = db.approvals ++ new_approval ctx options db.next_id db.now ∷ [];
      next_id = db.next_id + 1;
    }

unfoldable pub create_or_read : Ctx → WaitForApprovalOptions → Tx Approval
create_or_read ctx options = do
  modify (insert_approval ctx options)
  λ db.
      require (find_where (is_approval ctx.run_id options.key) db.approvals)
        (missing_row options.key) db

unfoldable pub notice_of : Ctx → WaitForApprovalOptions → Approval → ApprovalNotice
notice_of ctx options row = record {
  approval_id = row.id;
  run_id = ctx.run_id;
  key = options.key;
  type = options.type;
  draft = row.draft;
  assignee_id = row.assignee_id;
  record_type = row.record_type;
  record_id = row.record_id;
  expires_at = row.expires_at;
}

abbrev pub notified_row : ℕ → Approval → Approval
notified_row now a = record a { notified_at = some now }

-- `notifier?.(notice, ctx)`.
abbrev pub call_notifier :
    Option (ApprovalNotice → Exec (Unit {0})) → ApprovalNotice → Exec (Unit {0})
call_notifier none notice db = (ok tt, db)
call_notifier (some f) notice db = f notice db

-- The notifier first, so that a notification that is lost is made again.
unfoldable pub notify :
    Ctx
    → WaitForApprovalOptions
    → Option (ApprovalNotice → Exec (Unit {0}))
    → Approval
    → Exec (Unit {0})
unfolding notice_of
notify ctx options notifier row db = elim row.notified_at [
  | some _ ↦ (ok tt, db)
  | none ↦ and_then (call_notifier notifier (notice_of ctx options row) db) λ _.
      step_tx ctx.run_id ctx.workflow_id (
        modify λ db. record db {
          approvals =
              update_where
                (λ a. is_approval ctx.run_id options.key a && not (is_some a.notified_at))
                (notified_row db.now) db.approvals;
        })
]

unfoldable pub decision_of : Approval → String → ApprovalDecision
decision_of row key = record {
  approval_id = row.id;
  key = key;
  status = row.status;
  draft = elim row.edited_draft [ none ↦ row.draft | some edited ↦ some edited ];
  decided_by = row.decided_by;
  decided_via = row.decided_via;
}

-- A decided row is the way through. The run of a pending one waits.
unfoldable pub after_read :
    ApprovalStatus
    → Ctx
    → WaitForApprovalOptions
    → Option (ApprovalNotice → Exec (Unit {0}))
    → Approval
    → Exec ApprovalDecision
unfolding notify decision_of
after_read ApprovalStatus.pending ctx options notifier row db =
    and_then (step ctx.run_id ctx.workflow_id (notify ctx options notifier row) db) λ _ db'. (
      err (suspend ctx.run_id RunStatus.waiting),
      (conclude_run ctx.run_id ctx.workflow_id RunStatus.waiting none db').1,
    )
after_read _ ctx options notifier row db = (ok (decision_of row options.key), db)

-- `notifier` is the one of the options, or else the worker's.
unfoldable pub wait_for_approval :
    Ctx → WaitForApprovalOptions → Option (ApprovalNotice → Exec (Unit {0})) → Exec ApprovalDecision
wait_for_approval ctx options notifier db =
    and_then
      (step ctx.run_id ctx.workflow_id
        (step_tx ctx.run_id ctx.workflow_id (create_or_read ctx options)) db)
      λ row. after_read row.status ctx options notifier row
