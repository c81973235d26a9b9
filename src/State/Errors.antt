-- ===== src/State/Errors.antt =====
-- The error classes of the packages (db/src/control-plane.ts, db/src/step-pool.ts,
-- ai/src/errors.ts, workflows/src, core/src), each with the values that its message carries.
use hyperfixation_core.Prelude.{ℕ, String, Option, List}
use hyperfixation_core.State.Rows.{RunStatus, ApprovalStatus}

-- Why `decide()` refuses one approval of a batch.
pub data Refusal : Type 0 where
  other_batch : String → Refusal
  no_row : Refusal
  already : ApprovalStatus → Refusal
  assigned_to : String → Refusal
  no_schema : String → Refusal
  bad_edit : String → Refusal

pub data Error : Type 0 where
  control_plane_in_workflow commit_lost app_state_missing : String → Error
  run_not_found run_lock_timeout : String → Error
  concurrent_bump : String → ℕ → Error
  workflow_id_collision unknown_flow stale_attempt : String → String → Error
  app_paused : String → String → Error
  ledger_key_collision : String → String → String → String → Error
  budget_exceeded : String → ℕ → ℕ → ℕ → ℕ → Error
  not_bootstrapped : String → Error
  unknown_model unknown_prompt : String → Error
  action_uncertain : String → String → ℕ → Option ℕ → Error
  approval_batch_refused : List (ℕ × Refusal) → Error
  approval_run_moved : ℕ → Error
  approval_write_lost : ℕ → ℕ → Error
  edits_without_schemas : String → Error
  outside_run : String → Error
  suspend : String → RunStatus → Error
  -- Postgres refused a row, and `rows[0]!` found none.
  unique_violation missing_row : String → Error
  duplicate_registration : String → String → Error
  unknown_registration : String → String → List String → Error
  invalid_activity_kind : String → Error
  fetch_too_large : String → ℕ → ℕ → Error
  -- A plain `Error`, with its name and its message.
  plain : String → String → Error

pub data Result {ℓ} (A : Type ℓ) : Type ℓ where
  ok : A → Result A
  err : Error → Result A
