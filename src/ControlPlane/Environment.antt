-- ===== src/ControlPlane/Environment.antt =====
-- What a control-plane operation meets and does not implement: the DBOS client, the server's
-- answers to a lock wait and to COMMIT, the flows that the process registered, a fresh UUID.
use hyperfixation_core.Prelude.{ℕ, String, ◌≡◌, Bool, true, List, ◌==◌, any_where, ◌≢◌}
use hyperfixation_core.State.{Workflow}

pub record Flow : Type 0 where
  pub name : String
  pub queue : String

-- The arguments of `DBOSClient.enqueueInTransaction`.
pub record Enqueue : Type 0 where
  pub queue_name : String
  pub workflow_name : String
  pub workflow_id : String
  pub run_id : String
  pub attempt : ℕ
  pub input : String

pub record Env : Type 0 where
  -- `DBOS.isWithinWorkflow()`.
  pub within_workflow : Bool
  -- Whether the wait for the row lock of a run ends with 55P03.
  pub lock_timed_out : String → Bool
  -- Whether the command tag of COMMIT is COMMIT.
  pub commits : Bool
  -- `definedFlows()`.
  pub flows : List Flow
  -- `randomUUID()`.
  pub fresh_id : String
  -- What `enqueueInTransaction` does to dbos.workflow_status.
  pub enqueue : Enqueue → List Workflow → List Workflow

-- What the code relies on: an enqueued id has a row, and the rows of other ids stay.
pub record Enqueues (env : Env) : Type 0 where
  pub listed :
      (job : Enqueue) (ws : List Workflow)
      → any_where (λ w. w.workflow_uuid == job.workflow_id) (env.enqueue job ws) ≡ true
  pub others :
      (job : Enqueue) (ws : List Workflow) (id : String)
      → job.workflow_id ≢ id
      → any_where (λ w. w.workflow_uuid == id) (env.enqueue job ws)
        ≡ any_where (λ w. w.workflow_uuid == id) ws
