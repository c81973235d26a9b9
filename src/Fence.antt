-- ===== src/Fence.antt =====
-- packages/db/src/step-pool.ts: `ctx.tx`, the only transaction of a step.
pub mod Stale
use hyperfixation_core.Prelude.{String, Bool, ◌&&◌, ◌==◌, any_where}
use hyperfixation_core.State.{Run, Db, stale_attempt}
use hyperfixation_core.State.Tx.{Tx, Exec, ◌>>=◌, ◌>>◌, gets, guard, run}

-- The rows that FENCE_STATEMENT matches.
abbrev pub is_attempt : String → String → Run → Bool
is_attempt run_id workflow_id r = (r.run_id == run_id) && (r.current_workflow_id == workflow_id)

unfoldable pub is_current : String → String → Db → Bool
is_current run_id workflow_id db = any_where (is_attempt run_id workflow_id) db.runs

-- The fence is the first statement, and what it refuses has written nothing.
unfoldable pub fenced : {A : Type 0} → String → String → Tx A → Tx A
fenced run_id workflow_id work = do
  held ← gets (is_current run_id workflow_id)
  guard held (stale_attempt run_id workflow_id)
  work

unfoldable pub step_tx : {A : Type 0} → String → String → Tx A → Exec A
unfolding fenced
step_tx run_id workflow_id work = run (fenced run_id workflow_id work)
