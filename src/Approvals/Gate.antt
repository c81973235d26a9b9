-- ===== src/Approvals/Gate.antt =====
-- `waitForApproval`: a flow passes with a decision, and only with one.
use hyperfixation_core.Prelude.{
  String, ◌≡◌, refl, ◌∙◌, arith, true, false, Option, some, [], ◌∷◌, find_where, any_where,
  any_where-find, any_where-false_find, find_where-append, eq_refl, Bool-cases, inl, inr,
}
use hyperfixation_core.State.{Db, Approval, ApprovalStatus, Result, ok, err, is_paused, find_run}
use hyperfixation_core.State.Tx.{Exec, and_then}
use hyperfixation_core.Fence.{is_current, step_tx}
use hyperfixation_core.Fence.Stale.{step_tx-ok, step_tx-current}
use hyperfixation_core.Runs.{step, holds_token}
use hyperfixation_core.Ledger.{Ctx}
use hyperfixation_core.Approvals.{
  WaitForApprovalOptions, ApprovalNotice, ApprovalDecision, is_approval, is_pending, new_approval,
  insert_approval, create_or_read, notify, decision_of, after_read, wait_for_approval,
}

-- Inversion of a program that ended.
and_then-ok :
    {A B : Type 0} (t : Result A × Db) (k : A → Exec B) (b : B) (db' : Db)
    → and_then t k ≡ (ok b, db')
    → (a : A) × (db : Db) × (t ≡ (ok a, db)) × (k a db ≡ (ok b, db'))
and_then-ok (ok a, db) k b db' h = (a, db, refl, h)
and_then-ok (err e, db) k b db' h = absurd (ground arith)

step-ok :
    {A : Type 0} (run_id workflow_id : String) (body : Exec A) (db : Db) (a : A) (db' : Db)
    → step run_id workflow_id body db ≡ (ok a, db')
    → body db ≡ (ok a, db')
unfolding step
step-ok run_id workflow_id body db a db' h = ground arith

-- The row that the gate reads: the one that was there, or a pending one.
pub record Opened (ctx : Ctx) (options : WaitForApprovalOptions) (db : Db) (d : ApprovalDecision)
    : Type 0 where
  pub row : Approval
  pub found : find_where (is_approval ctx.run_id options.key) db.approvals ≡ some row
  pub decided : is_pending row.status ≡ false
  pub decision : d ≡ decision_of row options.key

after_read-decided :
    (s : ApprovalStatus) (ctx : Ctx) (options : WaitForApprovalOptions)
    (notifier : Option (ApprovalNotice → Exec (Unit {0}))) (row : Approval) (db : Db)
    (d : ApprovalDecision) (db' : Db)
    → after_read s ctx options notifier row db ≡ (ok d, db')
    → (is_pending s ≡ false) × (d ≡ decision_of row options.key) × (db' ≡ db)
unfolding after_read
after_read-decided ApprovalStatus.pending ctx options notifier row db d db' h =
    let (u, mid, _, k) =
      and_then-ok (step ctx.run_id ctx.workflow_id (notify ctx options notifier row) db) _ d db'
        h in
    absurd (ground (arith, k))
after_read-decided s ctx options notifier row db d db' h = (refl, ground arith, ground arith)

create_or_read-row :
    (ctx : Ctx) (options : WaitForApprovalOptions) (db : Db) (row : Approval) (db' : Db)
    → create_or_read ctx options db ≡ ok (row, db')
    → is_pending row.status ≡ false
    → (find_where (is_approval ctx.run_id options.key) db.approvals ≡ some row) × (db' ≡ db)
unfolding create_or_read insert_approval new_approval find_where
create_or_read-row ctx options db row db' h closed =
    elim (Bool-cases (any_where (is_approval ctx.run_id options.key) db.approvals)) [
      | inl e ↦ (ground (arith, h, e), ground (arith, h, e))
      | inr e ↦ absurd (
          ground (
            arith,
            h,
            e,
            closed,
            eq_refl ctx.run_id,
            eq_refl options.key,
            any_where-false_find (is_approval ctx.run_id options.key) db.approvals e,
            find_where-append (is_approval ctx.run_id options.key) db.approvals
                (new_approval ctx options db.next_id db.now ∷ []),
          ))
    ]

-- A flow passes the gate only with a decision: when `waitForApproval` returns, the row of the
-- approval was there and decided before the call, what is returned is its decision, and nothing
-- was written.
pub gate_needs_decision :
    (ctx : Ctx) (options : WaitForApprovalOptions)
    (notifier : Option (ApprovalNotice → Exec (Unit {0}))) (db : Db) (d : ApprovalDecision)
    (db' : Db)
    → wait_for_approval ctx options notifier db ≡ (ok d, db')
    → Opened ctx options db d × (db' ≡ db)
unfolding wait_for_approval
gate_needs_decision ctx options notifier db d db' h =
    let (row, mid, read, k) =
      and_then-ok
        (step ctx.run_id ctx.workflow_id
          (step_tx ctx.run_id ctx.workflow_id (create_or_read ctx options)) db)
        _ d db' h in
    let (closed, decision, same) =
      after_read-decided row.status ctx options notifier row mid d db' k in
    let (found, kept) =
      create_or_read-row ctx options db row mid
        (step_tx-ok ctx.run_id ctx.workflow_id (create_or_read ctx options) db row mid
          (step-ok ctx.run_id ctx.workflow_id _ db row mid read)).0
        closed in
    (record { row = row; found = found; decided = closed; decision = decision }, same ∙ kept)

create_or_read-known :
    (ctx : Ctx) (options : WaitForApprovalOptions) (db : Db) (row : Approval)
    → find_where (is_approval ctx.run_id options.key) db.approvals ≡ some row
    → create_or_read ctx options db ≡ ok (row, db)
unfolding create_or_read insert_approval
create_or_read-known ctx options db row found =
    ground
      (arith, found, any_where-find (is_approval ctx.run_id options.key) db.approvals row found)

after_read-closed :
    (s : ApprovalStatus) (ctx : Ctx) (options : WaitForApprovalOptions)
    (notifier : Option (ApprovalNotice → Exec (Unit {0}))) (row : Approval) (db : Db)
    → is_pending s ≡ false
    → after_read s ctx options notifier row db ≡ (ok (decision_of row options.key), db)
unfolding after_read
after_read-closed ApprovalStatus.pending ctx options notifier row db closed =
    absurd (ground (arith, closed))
after_read-closed s ctx options notifier row db closed = refl

step-held :
    {A : Type 0} (run_id workflow_id : String) (body : Exec A) (db : Db)
    → is_paused db ≡ false
    → holds_token workflow_id (find_run run_id db) ≡ true
    → step run_id workflow_id body db ≡ body db
unfolding step
step-held run_id workflow_id body db running held = rw (running, held) refl

-- And with a decision it always passes, from the attempt that holds the run and while the app is
-- not paused: the decision is returned, and neither the notifier nor the database sees the call.
pub decided_gate_opens :
    (ctx : Ctx) (options : WaitForApprovalOptions)
    (notifier : Option (ApprovalNotice → Exec (Unit {0}))) (row : Approval) (db : Db)
    → is_paused db ≡ false
    → holds_token ctx.workflow_id (find_run ctx.run_id db) ≡ true
    → is_current ctx.run_id ctx.workflow_id db ≡ true
    → find_where (is_approval ctx.run_id options.key) db.approvals ≡ some row
    → is_pending row.status ≡ false
    → wait_for_approval ctx options notifier db ≡ (ok (decision_of row options.key), db)
unfolding wait_for_approval
decided_gate_opens ctx options notifier row db running held current found closed =
    rw
      (
        step-held ctx.run_id ctx.workflow_id
            (step_tx ctx.run_id ctx.workflow_id (create_or_read ctx options)) db running held,
        step_tx-current ctx.run_id ctx.workflow_id (create_or_read ctx options) db current,
        create_or_read-known ctx options db row found,
      )
      (after_read-closed row.status ctx options notifier row db closed)
