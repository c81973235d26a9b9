-- ===== src/Fence/Stale.antt =====
-- When a step's transaction is refused, in a database with one row for each run.
use hyperfixation_core.Prelude.{
  arith, true, inl, inr, Bool-cases, String, ◌≤◌, ◌≡◌, ◌==◌, false, some, any_where_unique,
  count_where,
}
use hyperfixation_core.State.{Result, ok, Run, Db, is_run, find_run, err, stale_attempt}
use hyperfixation_core.State.Tx.{Tx, settle}
use hyperfixation_core.Fence.{is_current, fenced, step_tx}

-- The fence compares the token with that of the run's own row.
pub is_current-find :
    (run_id workflow_id : String) (db : Db) (r : Run)
    → count_where (is_run run_id) db.runs ≤ 1
    → find_run run_id db ≡ some r
    → is_current run_id workflow_id db ≡ (r.current_workflow_id == workflow_id)
unfolding is_current find_run
is_current-find run_id workflow_id db r single found =
    any_where_unique (is_run run_id) (λ x. x.current_workflow_id == workflow_id) db.runs r single
      found

pub fenced-stale :
    {A : Type 0} (run_id workflow_id : String) (work : Tx A) (db : Db)
    → is_current run_id workflow_id db ≡ false
    → fenced run_id workflow_id work db ≡ err (stale_attempt run_id workflow_id)
unfolding fenced
fenced-stale run_id workflow_id work db h = rw h

pub fenced-current :
    {A : Type 0} (run_id workflow_id : String) (work : Tx A) (db : Db)
    → is_current run_id workflow_id db ≡ true
    → fenced run_id workflow_id work db ≡ work db
unfolding fenced
fenced-current run_id workflow_id work db h = rw h

settle-ok :
    {A : Type 0} (db : Db) (r : Result (A × Db)) (a : A) (db' : Db)
    → settle db r ≡ (ok a, db')
    → r ≡ ok (a, db')
settle-ok db (ok (x, d)) a db' k = ground arith
settle-ok db (err x) a db' k = ground arith

-- A step's transaction that ended: the attempt was current, and the work committed.
pub step_tx-ok :
    {A : Type 0} (run_id workflow_id : String) (work : Tx A) (db : Db) (a : A) (db' : Db)
    → step_tx run_id workflow_id work db ≡ (ok a, db')
    → (work db ≡ ok (a, db')) × (is_current run_id workflow_id db ≡ true)
unfolding step_tx
step_tx-ok run_id workflow_id work db a db' h =
    elim (Bool-cases (is_current run_id workflow_id db)) [
      | inl e ↦
          (settle-ok db (work db) a db' (rw (← fenced-current run_id workflow_id work db e) h), e)
      | inr e ↦ absurd (ground (arith, h, fenced-stale run_id workflow_id work db e))
    ]

pub step_tx-current :
    {A : Type 0} (run_id workflow_id : String) (work : Tx A) (db : Db)
    → is_current run_id workflow_id db ≡ true
    → step_tx run_id workflow_id work db ≡ settle db (work db)
unfolding step_tx
step_tx-current run_id workflow_id work db h = rw (fenced-current run_id workflow_id work db h)
