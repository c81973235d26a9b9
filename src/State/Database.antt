-- ===== src/State/Database.antt =====
-- The database as one value. `now` and `month` are what `now()` and `to_char(now(), 'YYYY-MM')`
-- answer, and `next_id` is what the identity columns draw from.
use hyperfixation_core.Prelude.{ℕ, String, Bool, false, Option, none, some, List, ◌==◌, find_where}
use hyperfixation_core.State.Rows.{
  Run, BudgetPeriod, LlmCall, ActionLog, Approval, Task, Activity, Audit, AppState, Workflow,
  RawFetchRow, FetchDomain, AppRow,
}

pub record Db : Type 0 where
  pub now : ℕ
  pub month : String
  pub next_id : ℕ
  pub app_state : Option AppState
  pub runs : List Run
  pub periods : List BudgetPeriod
  pub llm_calls : List LlmCall
  pub action_logs : List ActionLog
  pub approvals : List Approval
  pub tasks : List Task
  pub activities : List Activity
  pub audits : List Audit
  pub workflows : List Workflow
  pub app_rows : List AppRow
  pub raw_fetches : List RawFetchRow
  pub fetch_domains : List FetchDomain

-- APP_PAUSED_STATEMENT: COALESCE over a missing singleton.
unfoldable pub is_paused : Db → Bool
is_paused db = elim db.app_state [ none ↦ false | some a ↦ a.paused ]

abbrev pub is_run : String → Run → Bool
is_run run_id r = r.run_id == run_id

unfoldable pub find_run : String → Db → Option Run
find_run run_id db = find_where (is_run run_id) db.runs
