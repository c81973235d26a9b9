-- ===== src/Tests.antt =====
-- The database, the environment and the rows that the witnesses of the theorems run on.
mod Runs
mod Ledger
mod Access
mod Actions
mod Cloud
mod Ssh
mod Resolution
mod Approvals
mod Reconcile
mod Pause
mod Queues
mod Tasks
mod Records
mod Archive
mod Fetch
use hyperfixation_core.Prelude.{
  ℕ, String, ◌≡◌, ◌≢◌, ◌∙◌, refl, arith, eq_iff, eq_refl, Bool, true, false, ◌==◌, Bool-cases, inl,
  inr, Option, none, some, List, [], ◌∷◌, ◌++◌, any_where, any_where-append,
}
use hyperfixation_core.State.{Db, Run, RunStatus, BudgetPeriod, AppState, Workflow, WorkflowStatus}
use hyperfixation_core.ControlPlane.{Env, Enqueue, Enqueues, Flow}

abbrev pub outreach : Flow
outreach = record { name = "outreach"; queue = "default" }

abbrev pub enqueued : Enqueue → Workflow
enqueued job = record {
  workflow_uuid = job.workflow_id;
  queue_name = job.queue_name;
  workflow_name = job.workflow_name;
  run_id = job.run_id;
  attempt = job.attempt;
  input = job.input;
  status = WorkflowStatus.enqueued;
  application_version = none;
  error = none;
}

abbrev pub web : Env
web = record {
  within_workflow = false;
  lock_timed_out = λ _. false;
  commits = true;
  flows = outreach ∷ [];
  fresh_id = "fresh";
  enqueue = λ job ws. ws ++ enqueued job ∷ [];
}

pub web-Enqueues : Enqueues web
unfolding any_where
web-Enqueues = record {
  listed = λ job ws.
      any_where-append (λ w. w.workflow_uuid == job.workflow_id) ws (enqueued job ∷ [])
      ∙ ground (arith, eq_refl job.workflow_id);
  others = λ job ws id other.
      any_where-append (λ w. w.workflow_uuid == id) ws (enqueued job ∷ [])
      ∙ elim (Bool-cases (job.workflow_id == id)) [
        | inl e ↦ absurd (other ((eq_iff job.workflow_id id).0 e))
        | inr e ↦ ground arith
      ];
}

abbrev pub run_at : ℕ → String → Run
run_at attempt token = record {
  run_id = "r1";
  flow = "outreach";
  input = "{}";
  status = RunStatus.running;
  attempt = attempt;
  current_workflow_id = token;
  version = none;
  error = none;
  finished_at = none;
}

abbrev pub month_of : ℕ → BudgetPeriod
month_of spent = record { period = "2026-01"; budget_usd = 100; spent_usd = spent }

abbrev pub app : Bool → AppState
app paused = record { paused = paused; paused_by = none; budget_usd = 100 }

-- One run, at its second attempt.
abbrev pub second : Db
second = record {
  now = 5000;
  month = "2026-01";
  next_id = 7;
  app_state = some (app false);
  runs = run_at 2 "r1:2" ∷ [];
  periods = month_of 10 ∷ [];
  llm_calls = [];
  action_logs = [];
  approvals = [];
  tasks = [];
  activities = [];
  audits = [];
  workflows = [];
  app_rows = [];
  raw_fetches = [];
  fetch_domains = [];
}
