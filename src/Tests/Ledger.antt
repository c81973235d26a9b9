-- ===== src/Tests/Ledger.antt =====
-- Witnesses for the ledger of provider calls.
use hyperfixation_core.Prelude.{
  ℕ, String, ◌+◌, ◌≡◌, ◌≤◌, refl, arith, none, some, [], ◌∷◌, find_where, any_where, count_where,
  sum_where,
}
use hyperfixation_core.State.{Db, LlmCall, BudgetPeriod, ok, is_paused}
use hyperfixation_core.Ledger.{
  Ctx, LedgeredCall, reserved, is_period, is_reserving, new_call, create_period, insert_call,
  reserved_by_others, retake_row, retake_call, reserve, answer_row, open_gate, ProviderAnswer,
  complete_row, spend_row,
}
use hyperfixation_core.Ledger.Gate.{reserved_in, gate_within_budget}
use hyperfixation_core.Ledger.Balance.{IsBalanced, spent_in, ledger_in}
use hyperfixation_core.Ledger.Call.{Registry, LlmRunOptions, text}
use hyperfixation_core.Tests.{second, month_of}

abbrev worker : Ctx
worker = record { run_id = "r1"; workflow_id = "r1:2" }

abbrev summary_at : ℕ → LedgeredCall
summary_at estimate = record {
  key = "summary";
  model = "model";
  input = some "\"hello\"";
  input_hash = "hash";
  prompt_name = "prompt";
  prompt_hash = "prompt-hash";
  estimated_cost_usd = estimate;
  trace_id = none;
}

-- The row of the call, of the first attempt or of the second.
abbrev summary_row : String → ℕ → LlmCall
unfolding new_call
summary_row token estimate =
    new_call (record { run_id = "r1"; workflow_id = token }) (summary_at estimate) "2026-01" 7

-- A month with nothing spent.
abbrev new_month : Db
new_month = record second { periods = month_of 0 ∷ [] }

abbrev gated : Db
unfolding summary_row
gated = record new_month { llm_calls = summary_row "r1:2" 20 ∷ []; next_id = 8 }

gate_opens : open_gate worker (summary_at 20) none new_month ≡ ok (reserved "2026-01" 7, gated)
unfolding open_gate create_period insert_call answer_row reserve reserved_by_others retake_call
    summary_row gated new_call find_where any_where sum_where is_paused is_reserving
gate_opens = refl

gate_within_budget_example :
    (b : BudgetPeriod) × (find_where (is_period "2026-01") gated.periods ≡ some b)
    × (b.spent_usd + reserved_in "2026-01" gated ≤ b.budget_usd)
unfolding find_where count_where
gate_within_budget_example =
    gate_within_budget worker (summary_at 20) none new_month "2026-01" 7 gated gate_opens
      (omega arith) (λ row found. ground arith)

-- The first attempt crashed after its gate, with a larger estimate.
abbrev crashed : Db
unfolding summary_row
crashed = record second { llm_calls = summary_row "r1" 60 ∷ []; next_id = 8 }

abbrev retaken : Db
unfolding summary_row
retaken = record second {
  llm_calls = retake_row worker (summary_at 5) "2026-01" (summary_row "r1" 60) ∷ [];
  next_id = 8;
}

new_month-IsBalanced : IsBalanced new_month
unfolding spent_in ledger_in find_where sum_where
new_month-IsBalanced = record { at = λ q. ground arith }

abbrev hello : ProviderAnswer
hello = record { output = some "hi"; input_tokens = some 3; output_tokens = some 4 }

abbrev completed : Db
unfolding gated summary_row
completed = record gated {
  periods = spend_row 12 (month_of 0) ∷ [];
  llm_calls = complete_row hello 12 30 5000 (summary_row "r1:2" 20) ∷ [];
}

abbrev fixtures : Registry
fixtures = record {
  model = λ _. ok tt;
  cost = λ _. ok tt;
  estimate = λ _ prompt_bytes input_bytes. prompt_bytes + input_bytes;
  actual = λ _ tokens_in tokens_out. 12;
  load_prompt = λ name. ok (record { name = "prompt"; hash = "prompt-hash"; text = "Summarise." });
  stringify = λ _. some "\"hello\"";
  hash_input = λ _. "hash";
  name_and_message = λ _. ("Error", "overloaded");
}

abbrev summary : LlmRunOptions
summary = record { key = "summary"; model = "model"; prompt = "prompt"; input = text "hello" }

abbrev answered_row : LlmCall
unfolding summary_row
answered_row = complete_row hello 12 30 5000 (summary_row "r1:2" 15)

abbrev answered_db : Db
unfolding answered_row
answered_db = record new_month {
  periods = spend_row 12 (month_of 0) ∷ [];
  llm_calls = answered_row ∷ [];
  next_id = 8;
}
