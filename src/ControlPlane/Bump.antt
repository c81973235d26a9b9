-- ===== src/ControlPlane/Bump.antt =====
-- What a successful bump found and wrote.
use hyperfixation_core.Prelude.{
  String, ◌+◌, ◌≡◌, arith, inl, inr, false, some, Option-cases, update_where, count_where,
}
use hyperfixation_core.State.{Run, Db, ok, find_run}
use hyperfixation_core.State.Tx.{>>=-eq-ok}
use hyperfixation_core.ControlPlane.{
  Env, BumpedAttempt, bump_attempt, bump_and_enqueue_on, at_attempt, bump_row, attempt_workflow_id,
  workflow_id_taken,
}

pub record Bumps (env : Env) (run_id : String) (db : Db) (b : BumpedAttempt) (db' : Db)
    : Type 0 where
  pub row : Run
  pub found : find_run run_id db ≡ some row
  pub single : count_where (at_attempt run_id row.attempt) db.runs ≡ 1
  pub next : b.attempt ≡ row.attempt + 1
  pub token : b.workflow_id ≡ attempt_workflow_id run_id (row.attempt + 1)
  pub flow : b.flow ≡ row.flow
  pub fresh : workflow_id_taken b.workflow_id db ≡ false
  pub written : db' ≡ record db {
    runs = update_where (at_attempt run_id row.attempt) (bump_row b.attempt b.workflow_id) db.runs;
  }

pub bump_attempt-Bumps :
    (env : Env) (run_id : String) (db : Db) (b : BumpedAttempt) (db' : Db)
    → bump_attempt env run_id db ≡ ok (b, db')
    → Bumps env run_id db b db'
unfolding bump_attempt workflow_id_taken
bump_attempt-Bumps env run_id db b db' h = elim (Option-cases (find_run run_id db)) [
  | inl e ↦ ground arith
  | inr (r, e) ↦ record {
    row = r;
    found = e;
    single = ground arith;
    next = ground arith;
    token = ground arith;
    flow = ground arith;
    fresh = ground arith;
    written = ground arith;
  }
]

-- The enqueue that follows touches no run.
pub bump_and_enqueue_on-Bumps :
    (env : Env) (run_id : String) (db : Db) (b : BumpedAttempt) (db'' : Db)
    → bump_and_enqueue_on env run_id db ≡ ok (b, db'')
    → (db' : Db) × Bumps env run_id db b db' × (db''.runs ≡ db'.runs)
unfolding bump_and_enqueue_on
bump_and_enqueue_on-Bumps env run_id db b db'' h =
    let (a, db', first, rest) = >>=-eq-ok (bump_attempt env run_id) _ db b db'' h in
    (db', bump_attempt-Bumps env run_id db b db' (ground arith), ground arith)
