-- ===== src/Ledger/Gate.antt =====
-- The budget after a gate that reserved.
use hyperfixation_core.Prelude.{
  ℕ, String, ◌+◌, ◌≤◌, ◌≡◌, ap, ◌∙◌, arith, Bool, false, not, ◌&&◌, some, Option, [], ◌∷◌,
  if◌then◌else◌, inl, inr, Option-cases, find_where, count_where, sum_where, any_where,
  any_where-false_count, sum_where-append, sum_where-without, sum_where-without_none,
  sum_where-update, find_where-none_any, any_where-find,
}
use hyperfixation_core.State.{Db, LlmCall, BudgetPeriod, ok}
use hyperfixation_core.Ledger.{
  Ctx, LedgeredCall, reserved, is_call, is_period, is_reserving, create_period, insert_call,
  new_call, reserved_by_others, retake_call, retake_row, open_gate,
}
use hyperfixation_core.Ledger.Reserve.{open_gate-Answers, Answers-Reserves}

-- What the rows of a period reserve: derived, nothing else records it.
unfoldable pub reserved_in : String → Db → ℕ
reserved_in period db =
    sum_where (is_reserving db.runs period) (λ l. l.estimated_cost_usd) db.llm_calls

abbrev is_own : Ctx → LedgeredCall → LlmCall → Bool
is_own ctx call = is_call ctx.run_id call.key

pub create_period-calls :
    (period : String) (db : Db)
    → ((create_period period db).llm_calls ≡ db.llm_calls)
      × ((create_period period db).runs ≡ db.runs)
unfolding create_period
create_period-calls period db = (ground arith, ground arith)

-- A call with no row yet: its own estimate is all that is added.
fresh_reserved :
    (ctx : Ctx) (call : LedgeredCall) (period : String) (db : Db)
    → any_where (is_call ctx.run_id call.key) db.llm_calls ≡ false
    → reserved_in period (insert_call ctx call period db)
      ≤ reserved_by_others ctx call period (insert_call ctx call period db)
        + call.estimated_cost_usd
unfolding reserved_in reserved_by_others insert_call sum_where
fresh_reserved ctx call period db new = rw new (
    ground (
      arith,
      sum_where-append (is_reserving db.runs period) (λ l. l.estimated_cost_usd) db.llm_calls
          (row ∷ []),
      sum_where-append (λ l. is_reserving db.runs period l && not (is_own ctx call l))
          (λ l. l.estimated_cost_usd) db.llm_calls (row ∷ []),
      sum_where-without_none (is_own ctx call) (is_reserving db.runs period)
          (λ l. l.estimated_cost_usd) db.llm_calls
          (any_where-false_count (is_own ctx call) db.llm_calls new),
    ))
  where
    row : LlmCall
    row = new_call ctx call period db.next_id

-- A call whose row is there: the row's own estimate is what is added, whatever the call's is.
retaken_reserved :
    (ctx : Ctx) (call : LedgeredCall) (period : String) (db : Db) (row : LlmCall)
    → count_where (is_call ctx.run_id call.key) db.llm_calls ≤ 1
    → find_where (is_call ctx.run_id call.key) db.llm_calls ≡ some row
    → reserved_in period (retake_call ctx call period false db)
      ≡ reserved_by_others ctx call period db
        + (if is_reserving db.runs period (retake_row ctx call period row)
            then row.estimated_cost_usd
            else 0)
unfolding reserved_in reserved_by_others retake_call
retaken_reserved ctx call period db row single found = omega (
  arith,
  sum_where-update (is_own ctx call) (λ l. l.estimated_cost_usd) (is_reserving db.runs period)
      (retake_row ctx call period) db.llm_calls row single found,
  sum_where-without (is_own ctx call) (is_reserving db.runs period) (λ l. l.estimated_cost_usd)
      db.llm_calls row single found,
)

-- The reservation after the gate's writes, in a database that has the period's row.
module _ (ctx : Ctx) (call : LedgeredCall) (period : String) (db : Db) (spent budget : ℕ) where
  has_row : Bool
  has_row = any_where (is_call ctx.run_id call.key) db.llm_calls

  after : Db
  after = retake_call ctx call period (not has_row) (insert_call ctx call period db)

  after-periods : after.periods ≡ db.periods
  unfolding after retake_call insert_call
  after-periods = ground arith

  after-fresh :
      has_row ≡ false
      → spent
          + reserved_by_others ctx call period (insert_call ctx call period db)
          + call.estimated_cost_usd
        ≤ budget
      → spent + reserved_in period after ≤ budget
  unfolding after retake_call has_row
  after-fresh new fits = rw new (omega (arith, fresh_reserved ctx call period db new))

  after-retaken :
      (row : LlmCall)
      → count_where (is_call ctx.run_id call.key) db.llm_calls ≤ 1
      → find_where (is_call ctx.run_id call.key) db.llm_calls ≡ some row
      → row.estimated_cost_usd ≤ call.estimated_cost_usd
      → spent
          + reserved_by_others ctx call period (insert_call ctx call period db)
          + call.estimated_cost_usd
        ≤ budget
      → spent + reserved_in period after ≤ budget
  unfolding after has_row insert_call
  after-retaken row single found estimate fits =
      let there = any_where-find (is_call ctx.run_id call.key) db.llm_calls row found in
      rw there (ground (arith, there, retaken_reserved ctx call period db row single found))

  after-fits :
      count_where (is_call ctx.run_id call.key) db.llm_calls ≤ 1
      → ((row : LlmCall)
          → find_where (is_call ctx.run_id call.key) db.llm_calls ≡ some row
          → row.estimated_cost_usd ≤ call.estimated_cost_usd)
      → spent
          + reserved_by_others ctx call period (insert_call ctx call period db)
          + call.estimated_cost_usd
        ≤ budget
      → spent + reserved_in period after ≤ budget
  unfolding has_row
  after-fits single estimate fits =
      elim (Option-cases (find_where (is_call ctx.run_id call.key) db.llm_calls)) [
        | inl e ↦ after-fresh (find_where-none_any _ db.llm_calls e) fits
        | inr (row, e) ↦ after-retaken row single e (estimate row e) fits
      ]

-- A gate that reserves keeps the month within its budget: what is spent and what all live calls
-- now reserve fit in it, this call's reservation included. It is stated for a call whose ledger
-- row, if it has one from an earlier attempt, was not estimated higher than the call is now.
pub gate_within_budget :
    (ctx : Ctx) (call : LedgeredCall) (clock : Option String) (db : Db) (p : String) (id : ℕ)
    (db' : Db)
    → open_gate ctx call clock db ≡ ok (reserved p id, db')
    → count_where (is_call ctx.run_id call.key) db.llm_calls ≤ 1
    → ((row : LlmCall)
        → find_where (is_call ctx.run_id call.key) db.llm_calls ≡ some row
        → row.estimated_cost_usd ≤ call.estimated_cost_usd)
    → (b : BudgetPeriod) × (find_where (is_period p) db'.periods ≡ some b)
      × (b.spent_usd + reserved_in p db' ≤ b.budget_usd)
unfolding after has_row
gate_within_budget ctx call clock db p id db' h single estimate =
    let a = open_gate-Answers ctx call clock db (reserved p id) db' h in
    let r = Answers-Reserves ctx call clock db p id db' a in
    let db₁ = create_period a.period db in
    let same : db₁.llm_calls ≡ db.llm_calls = (create_period-calls a.period db).0 in
    (
      a.budget,
      rw (r.written, r.same_period)
          (ap (find_where (is_period a.period)) (after-periods ctx call a.period db₁ 0 0)
            ∙ a.budgeted),
      rw (r.written, r.same_period)
          (after-fits ctx call a.period db₁ a.budget.spent_usd a.budget.budget_usd (rw same single)
            (λ row. rw same (estimate row)) r.fits),
    )
