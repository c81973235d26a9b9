-- ===== src/Ledger.antt =====
-- packages/ai/src/llm-run.ts: the gate, the completion and the recorded failure of one provider
-- call. Each is the work of one `ctx.tx`. Money is in millionths of a dollar.
pub mod Reserve
pub mod Gate
pub mod Balance
pub mod Opened
pub mod Call
pub mod Replay
pub mod Twice
use hyperfixation_core.Prelude.{
  ℕ, String, Bool, true, false, ◌+◌, ◌==◌, not, ◌&&◌, Option, none, some, List, [], ◌∷◌, ◌++◌, ltb,
  if◌then◌else◌, or_else, is_some, find_where, update_where, any_where, sum_where,
}
use hyperfixation_core.State.{
  Db, Run, RunStatus, BudgetPeriod, LlmCall, CallStatus, CallOutput, stored_error, answer,
  is_paused, Error, Result, app_paused, ledger_key_collision, budget_exceeded, not_bootstrapped,
  missing_row, plain,
}
use hyperfixation_core.State.Tx.{Tx, ◌>>=◌, ◌>>◌, pure, gets, require, guard, modify}

-- The part of a `StepContext` that a ledger row is written from.
pub record Ctx : Type 0 where
  pub run_id : String
  pub workflow_id : String

pub record LedgeredCall : Type 0 where
  pub key : String
  pub model : String
  pub input : Option String
  pub input_hash : String
  pub prompt_name : String
  pub prompt_hash : String
  pub estimated_cost_usd : ℕ
  pub trace_id : Option String

pub data GateOutcome : Type 0 where
  reserved : String → ℕ → GateOutcome
  cached : Option CallOutput → ℕ → GateOutcome
  failed : Error → GateOutcome

abbrev pub is_call : String → String → LlmCall → Bool
is_call run_id key c = (c.run_id == run_id) && (c.key == key)

abbrev pub is_period : String → BudgetPeriod → Bool
is_period period b = b.period == period

abbrev pub is_started : CallStatus → Bool
is_started CallStatus.started = true
is_started _ = false

abbrev pub is_running : RunStatus → Bool
is_running RunStatus.running = true
is_running _ = false

-- The first gate of a month copies the app's budget; ON CONFLICT (period) DO NOTHING.
unfoldable pub create_period : String → Db → Db
create_period period db = elim db.app_state [
  | none ↦ db
  | some a ↦ if any_where (is_period period) db.periods then db else record db {
    periods =
        db.periods ++ record { period = period; budget_usd = a.budget_usd; spent_usd = 0 } ∷ [];
  }
]

unfoldable pub new_call : Ctx → LedgeredCall → String → ℕ → LlmCall
new_call ctx call period id = record {
  id = id;
  run_id = ctx.run_id;
  key = call.key;
  workflow_id = ctx.workflow_id;
  period = period;
  input_hash = call.input_hash;
  model = call.model;
  prompt_name = call.prompt_name;
  prompt_hash = call.prompt_hash;
  status = CallStatus.started;
  input = call.input;
  output = none;
  tokens_in = none;
  tokens_out = none;
  estimated_cost_usd = call.estimated_cost_usd;
  cost_usd = none;
  possible_double_charge = false;
  latency_ms = none;
  trace_id = call.trace_id;
  finished_at = none;
}

-- ON CONFLICT (run_id, key) DO NOTHING.
unfoldable pub insert_call : Ctx → LedgeredCall → String → Db → Db
unfolding new_call
insert_call ctx call period db =
    if any_where (is_call ctx.run_id call.key) db.llm_calls then db else record db {
      llm_calls = db.llm_calls ++ new_call ctx call period db.next_id ∷ [];
      next_id = db.next_id + 1;
    }

-- The rows that a live attempt can still complete: started, in the period, and on the current
-- workflow of a running run.
unfoldable pub is_live : List Run → LlmCall → Bool
is_live runs l =
    any_where
      (λ r.
        ((r.run_id == l.run_id) && (r.current_workflow_id == l.workflow_id)) && is_running r.status)
      runs

unfoldable pub is_reserving : List Run → String → LlmCall → Bool
unfolding is_live
is_reserving runs period l = (is_started l.status && (l.period == period)) && is_live runs l

-- What the other calls of the period reserve.
unfoldable pub reserved_by_others : Ctx → LedgeredCall → String → Db → ℕ
reserved_by_others ctx call period db =
    sum_where (λ l. is_reserving db.runs period l && not (is_call ctx.run_id call.key l))
      (λ l. l.estimated_cost_usd) db.llm_calls

-- The row that is already there is taken over by this attempt.
abbrev pub retake_row : Ctx → LedgeredCall → String → LlmCall → LlmCall
retake_row ctx call period c = record c {
  possible_double_charge = true;
  status = CallStatus.started;
  workflow_id = ctx.workflow_id;
  period = period;
  finished_at = none;
  prompt_name = call.prompt_name;
  prompt_hash = call.prompt_hash;
  trace_id = call.trace_id;
}

unfoldable pub retake_call : Ctx → LedgeredCall → String → Bool → Db → Db
retake_call ctx call period inserted db = if inserted then db else record db {
  llm_calls = update_where (is_call ctx.run_id call.key) (retake_row ctx call period) db.llm_calls;
}

unfoldable pub reserve :
    Ctx → LedgeredCall → String → Bool → LlmCall → BudgetPeriod → Tx GateOutcome
reserve ctx call period inserted row b = do
  others ← gets (reserved_by_others ctx call period)
  guard (not (ltb b.budget_usd (b.spent_usd + others + call.estimated_cost_usd)))
      (budget_exceeded period b.budget_usd b.spent_usd others call.estimated_cost_usd)
  modify (retake_call ctx call period inserted)
  pure (reserved period row.id)

unfoldable pub stored_error_of : Option CallOutput → Error
stored_error_of (some (stored_error name message)) = plain name message
stored_error_of _ = plain "Error" "the stored hf_llm_call error carried no message"

-- What a row with the same input says: an answer, a failure, or an open reservation.
unfoldable pub answer_row :
    CallStatus → Ctx → LedgeredCall → String → Bool → LlmCall → BudgetPeriod → Tx GateOutcome
unfolding stored_error_of
answer_row CallStatus.ok ctx call period inserted row b = pure (cached row.output row.id)
answer_row CallStatus.error ctx call period inserted row b =
    pure (failed (stored_error_of row.output))
answer_row _ ctx call period inserted row b = reserve ctx call period inserted row b

-- `clock` is the month of the injected clock, where there is one.
unfoldable pub open_gate : Ctx → LedgeredCall → Option String → Tx GateOutcome
open_gate ctx call clock = do
  stopped ← gets is_paused
  month ← gets (λ db. db.month)
  let period = or_else clock month
  guard (not stopped) (app_paused ctx.run_id call.key)
  modify (create_period period)
  b ← λ db. require (find_where (is_period period) db.periods) (not_bootstrapped period) db
  known ← gets (λ db. any_where (is_call ctx.run_id call.key) db.llm_calls)
  modify (insert_call ctx call period)
  row ← λ db.
      require (find_where (is_call ctx.run_id call.key) db.llm_calls) (missing_row call.key) db
  guard (row.input_hash == call.input_hash)
      (ledger_key_collision ctx.run_id call.key row.input_hash call.input_hash)
  answer_row row.status ctx call period (not known) row b

pub record ProviderAnswer : Type 0 where
  pub output : Option String
  pub input_tokens : Option ℕ
  pub output_tokens : Option ℕ

abbrev pub complete_row : ProviderAnswer → ℕ → ℕ → ℕ → LlmCall → LlmCall
complete_row a cost_usd latency_ms now c = record c {
  status = CallStatus.ok;
  output = elim a.output [ none ↦ none | some text ↦ some (answer text) ];
  tokens_in = a.input_tokens;
  tokens_out = a.output_tokens;
  cost_usd = some cost_usd;
  latency_ms = some latency_ms;
  finished_at = some now;
}

abbrev pub spend_row : ℕ → BudgetPeriod → BudgetPeriod
spend_row cost_usd b = record b { spent_usd = b.spent_usd + cost_usd }

-- The budget row before the ledger row; the cost lands on the period that was reserved in.
unfoldable pub complete : Ctx → LedgeredCall → String → ProviderAnswer → ℕ → ℕ → Tx Unit
complete ctx call period a cost_usd latency_ms = do
  modify
      λ db. record db { periods = update_where (is_period period) (spend_row cost_usd) db.periods }
  modify λ db. record db {
    llm_calls =
        update_where (is_call ctx.run_id call.key) (complete_row a cost_usd latency_ms db.now)
          db.llm_calls;
  }

abbrev pub error_row : String → String → ℕ → ℕ → LlmCall → LlmCall
error_row name message latency_ms now c = record c {
  status = CallStatus.error;
  output = some (stored_error name message);
  latency_ms = some latency_ms;
  finished_at = some now;
}

unfoldable pub record_provider_error : Ctx → LedgeredCall → String → String → ℕ → Tx Unit
record_provider_error ctx call name message latency_ms = modify λ db. record db {
  llm_calls =
      update_where (is_call ctx.run_id call.key) (error_row name message latency_ms db.now)
        db.llm_calls;
}
