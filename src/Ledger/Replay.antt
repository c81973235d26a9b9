-- ===== src/Ledger/Replay.antt =====
-- A call that was answered is answered from its row.
use mathlib.Core.Option
use hyperfixation_core.Prelude.{
  ℕ, String, ◌≡◌, refl, ap, ◌∙◌, eq_iff, arith, Bool, true, false, some, Option, or_else,
  find_where, any_where-find, update_where, find_where-update_self,
}
use hyperfixation_core.State.{Db, LlmCall, CallStatus, CallOutput, BudgetPeriod, is_paused, ok}
use hyperfixation_core.Fence.{is_current}
use hyperfixation_core.Ledger.{
  Ctx, LedgeredCall, reserved, cached, is_call, is_period, create_period, insert_call, open_gate,
  answer_row, reserve, retake_call, retake_row, complete, complete_row, ProviderAnswer,
}
use hyperfixation_core.Ledger.Reserve.{open_gate-Answers, Answers-Reserves}
use hyperfixation_core.Ledger.Gate.{create_period-calls}
use hyperfixation_core.Ledger.Call.{output_of}

-- An app that runs, an attempt that is current, and a budget for the month.
pub record IsOpen (ctx : Ctx) (clock : Option String) (db : Db) : Type 0 where
  pub unpaused : is_paused db ≡ false
  pub current : is_current ctx.run_id ctx.workflow_id db ≡ true
  pub budget : BudgetPeriod
  pub budgeted :
      find_where
        (is_period (or_else clock db.month))
        (create_period (or_else clock db.month) db).periods
      ≡ some budget

pub open_gate_cached :
    (ctx : Ctx) (call : LedgeredCall) (clock : Option String) (db : Db) (row : LlmCall)
    → IsOpen ctx clock db
    → find_where (is_call ctx.run_id call.key) db.llm_calls ≡ some row
    → row.status ≡ CallStatus.ok
    → row.input_hash ≡ call.input_hash
    → open_gate ctx call clock db
      ≡ ok (cached row.output row.id, create_period (or_else clock db.month) db)
unfolding open_gate answer_row insert_call
open_gate_cached ctx call clock db row o found answered same = ground (
  arith,
  o.budgeted,
  o.unpaused,
  eq_iff row.input_hash call.input_hash,
  (create_period-calls (or_else clock db.month) db).0,
  any_where-find (is_call ctx.run_id call.key) db.llm_calls row found,
)

-- The row that answers a call.
pub record Settled (ctx : Ctx) (call : LedgeredCall) (output : Option CallOutput) (db : Db)
    : Type 0 where
  pub row : LlmCall
  pub found : find_where (is_call ctx.run_id call.key) db.llm_calls ≡ some row
  pub answered : row.status ≡ CallStatus.ok
  pub same_input : row.input_hash ≡ call.input_hash
  pub same_output : row.output ≡ output

answer_row-cached :
    (s : CallStatus) (ctx : Ctx) (call : LedgeredCall) (period : String) (inserted : Bool)
    (row : LlmCall) (b : BudgetPeriod) (mid : Db) (output : Option CallOutput) (id : ℕ) (db' : Db)
    → answer_row s ctx call period inserted row b mid ≡ ok (cached output id, db')
    → (s ≡ CallStatus.ok) × (row.output ≡ output) × (db' ≡ mid)
unfolding answer_row reserve
answer_row-cached CallStatus.ok ctx call period inserted row b mid output id db' h =
    (refl, ground arith, ground arith)
answer_row-cached s ctx call period inserted row b mid output id db' h =
    (ground arith, ground arith, ground arith)

pub gate_cached-Settled :
    (ctx : Ctx) (call : LedgeredCall) (clock : Option String) (db : Db) (output : Option CallOutput)
    (id : ℕ) (db' : Db)
    → open_gate ctx call clock db ≡ ok (cached output id, db')
    → Settled ctx call output db'
gate_cached-Settled ctx call clock db output id db' h =
    let a = open_gate-Answers ctx call clock db (cached output id) db' h in
    let (answered, same, mid) =
      answer_row-cached a.row.status ctx call a.period _ a.row a.budget _ output id db'
        a.answered in
    record {
      row = a.row;
      found = rw mid a.found;
      answered = answered;
      same_input = (eq_iff a.row.input_hash call.input_hash).0 a.same_input;
      same_output = same;
    }

pub record Listed (ctx : Ctx) (call : LedgeredCall) (db : Db) : Type 0 where
  pub row : LlmCall
  pub found : find_where (is_call ctx.run_id call.key) db.llm_calls ≡ some row
  pub same_input : row.input_hash ≡ call.input_hash

retake_call-Listed :
    (ctx : Ctx) (call : LedgeredCall) (period : String) (inserted : Bool) (db : Db)
    → Listed ctx call db
    → Listed ctx call (retake_call ctx call period inserted db)
unfolding retake_call
retake_call-Listed ctx call period true db l = record {
  row = l.row;
  found = l.found;
  same_input = l.same_input;
}
retake_call-Listed ctx call period false db l = record {
  row = retake_row ctx call period l.row;
  found =
      find_where-update_self (is_call ctx.run_id call.key) (retake_row ctx call period) (λ c. refl)
        db.llm_calls
      ∙ ap (Option.map (retake_row ctx call period)) l.found;
  same_input = l.same_input;
}

pub gate_reserved-Listed :
    (ctx : Ctx) (call : LedgeredCall) (clock : Option String) (db : Db) (p : String) (id : ℕ)
    (db' : Db)
    → open_gate ctx call clock db ≡ ok (reserved p id, db')
    → Listed ctx call db'
gate_reserved-Listed ctx call clock db p id db' h =
    let a = open_gate-Answers ctx call clock db (reserved p id) db' h in
    let r = Answers-Reserves ctx call clock db p id db' a in
    rw r.written (
      retake_call-Listed ctx call a.period _ _ (record {
        row = a.row;
        found = a.found;
        same_input = (eq_iff a.row.input_hash call.input_hash).0 a.same_input;
      }))

pub complete-Settled :
    (ctx : Ctx) (call : LedgeredCall) (period : String) (a : ProviderAnswer) (cost_usd latency : ℕ)
    (db db' : Db)
    → complete ctx call period a cost_usd latency db ≡ ok (tt, db')
    → Listed ctx call db
    → Settled ctx call (output_of a) db'
unfolding complete
complete-Settled ctx call period a cost_usd latency db db' h l = record {
  row = done l.row;
  found =
      ap (find_where (is_call ctx.run_id call.key)) wrote
      ∙ (find_where-update_self (is_call ctx.run_id call.key) done (λ c. refl) db.llm_calls
          ∙ ap (Option.map done) l.found);
  answered = refl;
  same_input = l.same_input;
  same_output = refl;
}
  where
    done : LlmCall → LlmCall
    done = complete_row a cost_usd latency db.now

    wrote : db'.llm_calls ≡ update_where (is_call ctx.run_id call.key) done db.llm_calls
    wrote = ground arith
