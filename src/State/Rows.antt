-- ===== src/State/Rows.antt =====
-- The rows of the hf_* tables (packages/db/src/schema: runs.ts, ledger.ts, approvals.ts, app.ts,
-- machinery.ts) and of dbos.workflow_status. A nullable column is an `Option`, a JSON value its
-- text, a timestamp milliseconds, a money column millionths of a dollar.
use hyperfixation_core.Prelude.{ℕ, String, Bool, Option, List}

pub data RunStatus : Type 0 where
  running waiting paused done failed : RunStatus

pub data CallStatus : Type 0 where
  started ok error abandoned : CallStatus

pub data ActionLogStatus : Type 0 where
  started ok failed uncertain : ActionLogStatus

pub data ApprovalStatus : Type 0 where
  pending approved rejected expired cancelled : ApprovalStatus

pub data ApprovalVia : Type 0 where
  web telegram admin archive sweep : ApprovalVia

pub data TaskOrigin : Type 0 where
  flow manual sweep : TaskOrigin

pub record Run : Type 0 where
  pub run_id : String
  pub flow : String
  pub input : String
  pub status : RunStatus
  pub attempt : ℕ
  pub current_workflow_id : String
  pub version : Option String
  pub error : Option String
  pub finished_at : Option ℕ

pub record BudgetPeriod : Type 0 where
  pub period : String
  pub budget_usd : ℕ
  pub spent_usd : ℕ

-- The JSON of hf_llm_call.output: an answer, or the error that the provider threw.
pub data CallOutput : Type 0 where
  answer : String → CallOutput
  stored_error : String → String → CallOutput

pub record LlmCall : Type 0 where
  pub id : ℕ
  pub run_id : String
  pub key : String
  pub workflow_id : String
  pub period : String
  pub input_hash : String
  pub model : String
  pub prompt_name : String
  pub prompt_hash : String
  pub status : CallStatus
  pub input : Option String
  pub output : Option CallOutput
  pub tokens_in : Option ℕ
  pub tokens_out : Option ℕ
  pub estimated_cost_usd : ℕ
  pub cost_usd : Option ℕ
  pub possible_double_charge : Bool
  pub latency_ms : Option ℕ
  pub trace_id : Option String
  pub finished_at : Option ℕ

pub record ActionLog : Type 0 where
  pub id : ℕ
  pub run_id : String
  pub key : String
  pub workflow_id : String
  pub channel : String
  pub idempotency_key : String
  pub status : ActionLogStatus
  pub external_id : Option String
  pub request : Option String
  pub response : Option String
  pub record_type : Option String
  pub record_id : Option String
  pub started_at : ℕ
  pub finished_at : Option ℕ

pub record Approval : Type 0 where
  pub id : ℕ
  pub run_id : String
  pub key : String
  pub workflow_id : String
  pub type : String
  pub record_type : Option String
  pub record_id : Option String
  pub draft : Option String
  pub edited_draft : Option String
  pub status : ApprovalStatus
  pub assignee_id : Option String
  pub decided_by : Option String
  pub decided_at : Option ℕ
  pub decided_via : Option ApprovalVia
  pub decision_key : Option String
  pub resume_workflow_id : Option String
  pub notified_at : Option ℕ
  pub expires_at : Option ℕ
  pub batch_id : Option String

pub record Task : Type 0 where
  pub id : ℕ
  pub record_type : Option String
  pub record_id : Option String
  pub title : String
  pub due_at : Option ℕ
  pub owner_id : Option String
  pub done_at : Option ℕ
  pub cancelled_at : Option ℕ
  pub origin : TaskOrigin
  pub origin_ref : Option String

-- `meta` is left out of both log tables: no code of the program reads it back.
pub record Activity : Type 0 where
  pub record_type : Option String
  pub record_id : Option String
  pub kind : String
  pub actor_id : Option String
  pub run_id : Option String
  pub key : Option String

pub record Audit : Type 0 where
  pub actor_id : Option String
  pub action : String
  pub target_type : String
  pub target_id : String

-- A body is its bytes.
pub record RawFetchRow : Type 0 where
  pub id : ℕ
  pub url : String
  pub url_hash : String
  pub method : String
  pub status : ℕ
  pub headers : List (String × String)
  pub body : Option (List ℕ)
  pub content_type : Option String
  pub etag : Option String
  pub error : Option String
  pub fetched_at : ℕ
  pub expires_at : ℕ
  pub run_id : Option String

pub record FetchDomain : Type 0 where
  pub domain : String
  pub min_interval_ms : ℕ
  pub last_fetched_at : Option ℕ

-- A row of one of the app's own tables that are registered as record types.
pub record AppRow : Type 0 where
  pub table : String
  pub id : String
  pub archived_at : Option ℕ

pub record AppState : Type 0 where
  pub paused : Bool
  pub paused_by : Option String
  pub budget_usd : ℕ

-- What the status column of dbos.workflow_status may hold.
pub data WorkflowStatus : Type 0 where
  pending enqueued delayed success error cancelled max_recovery_attempts_exceeded : WorkflowStatus

pub record Workflow : Type 0 where
  pub workflow_uuid : String
  pub queue_name : String
  pub workflow_name : String
  pub run_id : String
  pub attempt : ℕ
  pub input : String
  pub status : WorkflowStatus
  pub application_version : Option String
  pub error : Option String
