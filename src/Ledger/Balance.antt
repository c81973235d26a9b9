-- ===== src/Ledger/Balance.antt =====
-- The drift that DRIFT_STATEMENT of packages/workflows/src/reconcile.ts reports: what a period has
-- spent against what the ledger rows billed to it cost.
use mathlib.Core.Option
use hyperfixation_core.Prelude.{
  ℕ, String, ◌≤◌, ◌≡◌, refl, arith, Bool, true, false, ◌&&◌, ◌==◌, some, none, List, or_else,
  find_where, count_where, sum_where, update_where, sum_where-update,
}
use hyperfixation_core.State.{Db, LlmCall, CallStatus, BudgetPeriod, ok}
use hyperfixation_core.Ledger.{
  Ctx, LedgeredCall, is_call, is_period, record_provider_error, error_row,
}

abbrev pub is_ok : CallStatus → Bool
is_ok CallStatus.ok = true
is_ok _ = false

abbrev pub billed_to : String → LlmCall → Bool
billed_to period c = is_ok c.status && (c.period == period)

abbrev pub cost_of : LlmCall → ℕ
cost_of c = or_else c.cost_usd 0

unfoldable pub ledger_in : String → Db → ℕ
ledger_in period db = sum_where (billed_to period) cost_of db.llm_calls

unfoldable pub spent_in : String → Db → ℕ
spent_in period db = elim (find_where (is_period period) db.periods) [
  | none ↦ 0
  | some b ↦ b.spent_usd
]

-- No period drifts.
pub record IsBalanced (db : Db) : Type 0 where
  pub at : (period : String) → spent_in period db ≡ ledger_in period db

-- Rewriting a row that was not `ok` into one that is not `ok` bills nothing.
pub rewrite-ledger :
    (own : LlmCall → Bool) (f : LlmCall → LlmCall) (q : String) (calls : List LlmCall)
    (row : LlmCall)
    → count_where own calls ≤ 1
    → find_where own calls ≡ some row
    → is_ok row.status ≡ false
    → is_ok (f row).status ≡ false
    → sum_where (billed_to q) cost_of (update_where own f calls)
      ≡ sum_where (billed_to q) cost_of calls
rewrite-ledger own f q calls row single found before after =
    ground (arith, sum_where-update own cost_of (billed_to q) f calls row single found)

-- The row still carries the reservation of this period: what `complete` relies on.
pub record Standing (ctx : Ctx) (call : LedgeredCall) (period : String) (db : Db) : Type 0 where
  pub single : count_where (is_call ctx.run_id call.key) db.llm_calls ≤ 1
  pub row : LlmCall
  pub found : find_where (is_call ctx.run_id call.key) db.llm_calls ≡ some row
  pub uncharged : is_ok row.status ≡ false
  pub same_period : row.period ≡ period
  pub budget : BudgetPeriod
  pub budgeted : find_where (is_period period) db.periods ≡ some budget

-- A failure that is recorded over an open row bills nothing.
pub record_provider_error-IsBalanced :
    (ctx : Ctx) (call : LedgeredCall) (period name message : String) (latency : ℕ) (db db' : Db)
    → record_provider_error ctx call name message latency db ≡ ok (tt, db')
    → Standing ctx call period db
    → IsBalanced db
    → IsBalanced db'
unfolding record_provider_error ledger_in spent_in
record_provider_error-IsBalanced ctx call period name message latency db db' h s balanced = record {
  at = λ q. ground (
    arith,
    balanced.at q,
    rewrite-ledger (is_call ctx.run_id call.key) (error_row name message latency db.now) q
        db.llm_calls s.row s.single s.found s.uncharged refl,
  );
}
