-- ===== src/Ledger/Reserve.antt =====
-- What a gate that reserved found and wrote.
use hyperfixation_core.Prelude.{
  ℕ, String, ◌+◌, ◌≤◌, ◌≡◌, refl, ◌==◌, ◌⊎◌, Bool, arith, true, false, not, Option, some, or_else,
  any_where, find_where, Option-cases, inl, inr,
}
use hyperfixation_core.State.{Db, BudgetPeriod, LlmCall, CallStatus, is_paused, ok}
use hyperfixation_core.Ledger.{
  Ctx, LedgeredCall, GateOutcome, reserved, is_call, is_period, create_period, insert_call,
  reserved_by_others, retake_call, reserve, answer_row, open_gate,
}

-- The database that the check of the budget reads.
abbrev pub checked : Ctx → LedgeredCall → String → Db → Db
checked ctx call period db = insert_call ctx call period (create_period period db)

-- Whether the insert was left out because the row is there.
abbrev pub known : Ctx → LedgeredCall → String → Db → Bool
known ctx call period db =
    any_where (is_call ctx.run_id call.key) (create_period period db).llm_calls

-- A gate that did not throw: the period, its budget row and the ledger row that decided.
pub record Answers (ctx : Ctx) (call : LedgeredCall) (clock : Option String) (db : Db)
    (o : GateOutcome) (db' : Db) : Type 0 where
  pub period : String
  pub month : period ≡ or_else clock db.month
  pub unpaused : is_paused db ≡ false
  pub budget : BudgetPeriod
  pub budgeted : find_where (is_period period) (create_period period db).periods ≡ some budget
  pub row : LlmCall
  pub found :
      find_where (is_call ctx.run_id call.key) (checked ctx call period db).llm_calls ≡ some row
  pub same_input : (row.input_hash == call.input_hash) ≡ true
  pub answered :
      answer_row row.status ctx call period
        (not (known ctx call period db))
        row
        budget
        (checked ctx call period db)
      ≡ ok (o, db')

pub open_gate-Answers :
    (ctx : Ctx) (call : LedgeredCall) (clock : Option String) (db : Db) (o : GateOutcome) (db' : Db)
    → open_gate ctx call clock db ≡ ok (o, db')
    → Answers ctx call clock db o db'
unfolding open_gate
open_gate-Answers ctx call clock db o db' h =
    elim (Option-cases (find_where (is_period period) (create_period period db).periods)) [
      | inl none_there ↦ ground arith
      | inr (b, budgeted) ↦
          elim (Option-cases
            (find_where (is_call ctx.run_id call.key) (checked ctx call period db).llm_calls)) [
              | inl no_row ↦ ground arith
              | inr (row, found) ↦ record {
                period = period;
                month = refl;
                unpaused = ground arith;
                budget = b;
                budgeted = budgeted;
                row = row;
                found = found;
                same_input = ground arith;
                answered = ground arith;
              }
            ]
    ]
  where
    period : String
    period = or_else clock db.month

-- A reservation: the row was open, the estimate fits, and a row that was there is retaken.
pub record Reserves (ctx : Ctx) (call : LedgeredCall) (db : Db) (row : LlmCall)
    (budget : BudgetPeriod) (period : String) (p : String) (id : ℕ) (db' : Db) : Type 0 where
  pub same_period : p ≡ period
  pub named : id ≡ row.id
  pub unanswered : (row.status ≡ CallStatus.started) ⊎ (row.status ≡ CallStatus.abandoned)
  pub fits :
      budget.spent_usd
        + reserved_by_others ctx call period (checked ctx call period db)
        + call.estimated_cost_usd
      ≤ budget.budget_usd
  pub written :
      db'
      ≡ retake_call ctx call period (not (known ctx call period db)) (checked ctx call period db)

reserve-fits :
    (ctx : Ctx) (call : LedgeredCall) (period : String) (inserted : Bool) (row : LlmCall)
    (b : BudgetPeriod) (mid : Db) (p : String) (id : ℕ) (db' : Db)
    → reserve ctx call period inserted row b mid ≡ ok (reserved p id, db')
    → (p ≡ period)
      × (id ≡ row.id)
      × (b.spent_usd + reserved_by_others ctx call period mid + call.estimated_cost_usd
          ≤ b.budget_usd)
      × (db' ≡ retake_call ctx call period inserted mid)
unfolding reserve
reserve-fits ctx call period inserted row b mid p id db' h =
    (ground arith, ground arith, ground arith, ground arith)

answer_row-open :
    (s : CallStatus) (ctx : Ctx) (call : LedgeredCall) (period : String) (inserted : Bool)
    (row : LlmCall) (b : BudgetPeriod) (mid : Db) (p : String) (id : ℕ) (db' : Db)
    → answer_row s ctx call period inserted row b mid ≡ ok (reserved p id, db')
    → ((s ≡ CallStatus.started) ⊎ (s ≡ CallStatus.abandoned))
      × (reserve ctx call period inserted row b mid ≡ ok (reserved p id, db'))
unfolding answer_row
answer_row-open CallStatus.ok ctx call period inserted row b mid p id db' h = ground arith
answer_row-open CallStatus.error ctx call period inserted row b mid p id db' h = ground arith
answer_row-open CallStatus.started ctx call period inserted row b mid p id db' h = (inl refl, h)
answer_row-open CallStatus.abandoned ctx call period inserted row b mid p id db' h = (inr refl, h)

pub Answers-Reserves :
    (ctx : Ctx) (call : LedgeredCall) (clock : Option String) (db : Db) (p : String) (id : ℕ)
    (db' : Db) (a : Answers ctx call clock db (reserved p id) db')
    → Reserves ctx call db a.row a.budget a.period p id db'
Answers-Reserves ctx call clock db p id db' a =
    let (unanswered, r) =
      answer_row-open a.row.status ctx call a.period _ a.row a.budget _ p id db' a.answered in
    let (same, named, fits, written) =
      reserve-fits ctx call a.period _ a.row a.budget _ p id db' r in
    record {
      same_period = same;
      named = named;
      unanswered = unanswered;
      fits = fits;
      written = written;
    }
