-- ===== src/Reconcile/Redeploy.antt =====
-- A redeploy: the attempts of another version are moved on.
use hyperfixation_core.Prelude.{Bool, true, false}
use hyperfixation_core.State.{WorkflowStatus}

-- LIVE_DBOS_STATUSES.
abbrev pub is_live_status : WorkflowStatus → Bool
is_live_status WorkflowStatus.pending = true
is_live_status WorkflowStatus.enqueued = true
is_live_status WorkflowStatus.delayed = true
is_live_status _ = false
