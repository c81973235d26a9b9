-- ===== src/Ledger/Opened.antt =====
-- packages/ai/src/llm-run.ts: what openGate leaves of the drift of a period.
use hyperfixation_core.Prelude.{
  String, ◌≤◌, ◌≡◌, refl, sym, ◌∙◌, arith, Bool, true, false, some, Option, [], ◌∷◌, inl, inr,
  Option-cases, Bool-cases, count_where-append, any_where-false_count, find_where, count_where,
  sum_where, any_where, sum_where-append, find_where-append,
}
use hyperfixation_core.State.{Db, LlmCall, BudgetPeriod, ok}
use hyperfixation_core.Ledger.{
  Ctx, LedgeredCall, GateOutcome, is_call, is_period, create_period, insert_call, new_call,
  retake_call, retake_row, open_gate, answer_row, reserve,
}
use hyperfixation_core.Ledger.Reserve.{checked, open_gate-Answers}
use hyperfixation_core.Ledger.Gate.{create_period-calls}
use hyperfixation_core.Ledger.Balance.{
  billed_to, cost_of, ledger_in, spent_in, is_ok, IsBalanced, rewrite-ledger,
}

create_period-spent :
    (period q : String) (db : Db) → spent_in q (create_period period db) ≡ spent_in q db
unfolding spent_in create_period find_where
create_period-spent period q db = elim (Option-cases db.app_state) [
  | inl e ↦ ground arith
  | inr (a, e) ↦ ground (
    arith,
    find_where-append (is_period q) db.periods
        (record { period = period; budget_usd = a.budget_usd; spent_usd = 0 } ∷ []),
  )
]

create_period-ledger :
    (period q : String) (db : Db) → ledger_in q (create_period period db) ≡ ledger_in q db
unfolding ledger_in create_period
create_period-ledger period q db = ground arith

insert_call-ledger :
    (ctx : Ctx) (call : LedgeredCall) (period q : String) (db : Db)
    → ledger_in q (insert_call ctx call period db) ≡ ledger_in q db
unfolding ledger_in insert_call sum_where
insert_call-ledger ctx call period q db = ground (
  arith,
  sum_where-append (billed_to q) cost_of db.llm_calls (new_call ctx call period db.next_id ∷ []),
)

insert_call-spent :
    (ctx : Ctx) (call : LedgeredCall) (period q : String) (db : Db)
    → spent_in q (insert_call ctx call period db) ≡ spent_in q db
unfolding spent_in insert_call
insert_call-spent ctx call period q db = ground arith

retake_call-ledger :
    (ctx : Ctx) (call : LedgeredCall) (period q : String) (inserted : Bool) (db : Db)
    (row : LlmCall)
    → count_where (is_call ctx.run_id call.key) db.llm_calls ≤ 1
    → find_where (is_call ctx.run_id call.key) db.llm_calls ≡ some row
    → is_ok row.status ≡ false
    → ledger_in q (retake_call ctx call period inserted db) ≡ ledger_in q db
unfolding ledger_in retake_call
retake_call-ledger ctx call period q true db row single found open_row = refl
retake_call-ledger ctx call period q false db row single found open_row =
    rewrite-ledger (is_call ctx.run_id call.key) (retake_row ctx call period) q db.llm_calls row
      single found open_row refl

retake_call-spent :
    (ctx : Ctx) (call : LedgeredCall) (period q : String) (inserted : Bool) (db : Db)
    → spent_in q (retake_call ctx call period inserted db) ≡ spent_in q db
unfolding spent_in retake_call
retake_call-spent ctx call period q true db = refl
retake_call-spent ctx call period q false db = refl

insert_call-single :
    (ctx : Ctx) (call : LedgeredCall) (period : String) (db : Db)
    → count_where (is_call ctx.run_id call.key) db.llm_calls ≤ 1
    → count_where (is_call ctx.run_id call.key) (insert_call ctx call period db).llm_calls ≤ 1
unfolding insert_call count_where
insert_call-single ctx call period db single = elim (Bool-cases (any_where own db.llm_calls)) [
  | inl e ↦ rw e single
  | inr e ↦ rw e (
      ground (
        arith,
        count_where-append own db.llm_calls (new_call ctx call period db.next_id ∷ []),
        any_where-false_count own db.llm_calls e,
      ))
]
  where
    own : LlmCall → Bool
    own = is_call ctx.run_id call.key

checked-IsBalanced :
    (ctx : Ctx) (call : LedgeredCall) (period : String) (db : Db)
    → IsBalanced db
    → IsBalanced (checked ctx call period db)
checked-IsBalanced ctx call period db b = record {
  at = λ q.
      insert_call-spent ctx call period q _
      ∙ (create_period-spent period q db
          ∙ (b.at q
              ∙ (sym (create_period-ledger period q db)
                  ∙ sym (insert_call-ledger ctx call period q (create_period period db)))));
}

answered-IsBalanced :
    (ctx : Ctx) (call : LedgeredCall) (period : String) (inserted : Bool) (row : LlmCall)
    (b : BudgetPeriod) (mid : Db) (o : GateOutcome) (db' : Db)
    → count_where (is_call ctx.run_id call.key) mid.llm_calls ≤ 1
    → find_where (is_call ctx.run_id call.key) mid.llm_calls ≡ some row
    → answer_row row.status ctx call period inserted row b mid ≡ ok (o, db')
    → IsBalanced mid
    → IsBalanced db'
unfolding answer_row reserve
answered-IsBalanced ctx call period inserted row b mid o db' single found h balanced = record {
  at = λ q. ground (
    arith,
    balanced.at q,
    retake_call-spent ctx call period q inserted mid,
    retake_call-ledger ctx call period q inserted mid row single found,
  );
}

-- No gate makes a period drift, whether it reserves, replays an answer or replays a failure.
open_gate-IsBalanced :
    (ctx : Ctx) (call : LedgeredCall) (clock : Option String) (db : Db) (o : GateOutcome) (db' : Db)
    → open_gate ctx call clock db ≡ ok (o, db')
    → count_where (is_call ctx.run_id call.key) db.llm_calls ≤ 1
    → IsBalanced db
    → IsBalanced db'
open_gate-IsBalanced ctx call clock db o db' h single balanced =
    let a = open_gate-Answers ctx call clock db o db' h in
    answered-IsBalanced ctx call a.period _ a.row a.budget (checked ctx call a.period db) o db'
      (insert_call-single ctx call a.period _ (rw (create_period-calls a.period db).0 single))
      a.found a.answered (checked-IsBalanced ctx call a.period db balanced)
