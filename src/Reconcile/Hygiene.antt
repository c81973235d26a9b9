-- ===== src/Reconcile/Hygiene.antt =====
-- What the sweep leaves behind, and what it does not touch.
use hyperfixation_core.Prelude.{
  ℕ, String, Option, ◌≡◌, ◌≤◌, refl, ◌∙◌, arith, Bool, true, false, not, ◌&&◌, ◌||◌, ◌==◌, List, [],
  ◌∷◌, find_where, update_where, count_where, any_where, sum_where, any_where_unique,
  any_where-absent, find_where-none_count, Option-cases, inl, inr,
}
use hyperfixation_core.State.{Db, Run, LlmCall, ActionLog, TaskOrigin, is_run, ok}
use hyperfixation_core.State.Tx.{>>=-eq-ok}
use hyperfixation_core.Ledger.{is_live, is_reserving, is_running}
use hyperfixation_core.Ledger.Gate.{reserved_in}
use hyperfixation_core.Actions.{uncertain_row, open_task, log_uncertain, title_of}
use hyperfixation_core.Reconcile.Sweep.{
  is_gone, is_abandoned, abandoned_row, abandon_calls, is_swept, sweep_actions, open_uncertain_task,
  open_uncertain_tasks, hygiene,
}

module _ {A : Type 0} (p : A → Bool) (f : A → A) where
  count_where-update_out :
      ((x : A) → p (f x) ≡ false) → (xs : List A) → count_where p (update_where p f xs) ≡ 0
  unfolding count_where update_where
  count_where-update_out out [] = refl
  count_where-update_out out (x ∷ xs) = ground (arith, out x, count_where-update_out out xs)

  -- Rows that count neither before nor after.
  sum_where-update_out :
      (q : A → Bool) (v : A → ℕ)
      → ((x : A) → p x ≡ true → (q x ≡ false) × (q (f x) ≡ false))
      → (xs : List A) → sum_where q v (update_where p f xs) ≡ sum_where q v xs
  unfolding sum_where update_where
  sum_where-update_out q v out [] = refl
  sum_where-update_out q v out (x ∷ xs) = ground (arith, out x, sum_where-update_out q v out xs)

any_where_ext :
    {A : Type 0} (p q : A → Bool)
    → ((x : A) → p x ≡ q x)
    → (xs : List A) → any_where p xs ≡ any_where q xs
unfolding any_where
any_where_ext p q same [] = refl
any_where_ext p q same (x ∷ xs) = ground (arith, same x, any_where_ext p q same xs)

-- A call that no live attempt can finish reserves nothing.
gone-not-live :
    (runs : List Run) (l : LlmCall)
    → count_where (is_run l.run_id) runs ≤ 1
    → is_gone runs l.run_id l.workflow_id ≡ true
    → is_live runs l ≡ false
unfolding is_gone is_live
gone-not-live runs l single gone = elim (Option-cases (find_where (is_run l.run_id) runs)) [
  | inl e ↦ absurd (
      ground (
        arith,
        gone,
        any_where-absent (is_run l.run_id)
            (λ r. not (is_running r.status) || not (r.current_workflow_id == l.workflow_id)) runs
            (find_where-none_count (is_run l.run_id) runs e),
      ))
  | inr (r, e) ↦
      any_where_ext _
        (λ x.
          (x.run_id == l.run_id)
          && ((x.current_workflow_id == l.workflow_id) && is_running x.status))
        (λ x. ground arith) runs
      ∙ ground (
        arith,
        gone,
        any_where_unique (is_run l.run_id)
            (λ x. (x.current_workflow_id == l.workflow_id) && is_running x.status) runs r single e,
        any_where_unique (is_run l.run_id)
            (λ x. not (is_running x.status) || not (x.current_workflow_id == l.workflow_id)) runs r
            single e,
      )
]

open_task-rest :
    (row : ActionLog) (title : String) (db : Db) (id : Option ℕ) (db' : Db)
    → open_task TaskOrigin.sweep row title db ≡ ok (id, db')
    → (db'.runs ≡ db.runs) × (db'.llm_calls ≡ db.llm_calls) × (db'.action_logs ≡ db.action_logs)
unfolding open_task
open_task-rest row title db id db' h = (ground arith, ground arith, ground arith)

log_uncertain-rest :
    (run_id : String) (row : ActionLog) (db db' : Db)
    → log_uncertain run_id row db ≡ ok (tt, db')
    → (db'.runs ≡ db.runs) × (db'.llm_calls ≡ db.llm_calls) × (db'.action_logs ≡ db.action_logs)
unfolding log_uncertain
log_uncertain-rest run_id row db db' h = (ground arith, ground arith, ground arith)

open_uncertain_task-rest :
    (row : ActionLog) (db db' : Db)
    → open_uncertain_task row db ≡ ok (tt, db')
    → (db'.runs ≡ db.runs) × (db'.llm_calls ≡ db.llm_calls) × (db'.action_logs ≡ db.action_logs)
unfolding open_uncertain_task
open_uncertain_task-rest row db db' h =
    let (id, mid, opened, rest) =
      >>=-eq-ok (open_task TaskOrigin.sweep row (title_of row.channel row.key row.run_id)) _ db tt
        db' h in
    let (a, b, c) = open_task-rest row (title_of row.channel row.key row.run_id) db id mid opened in
    let (d, e, f) = log_uncertain-rest row.run_id row mid db' rest in (d ∙ a, e ∙ b, f ∙ c)

open_uncertain_tasks-rest :
    (rows : List ActionLog) (db db' : Db)
    → open_uncertain_tasks rows db ≡ ok (tt, db')
    → (db'.runs ≡ db.runs) × (db'.llm_calls ≡ db.llm_calls) × (db'.action_logs ≡ db.action_logs)
unfolding open_uncertain_tasks
open_uncertain_tasks-rest [] db db' h = (ground (arith, h), ground (arith, h), ground (arith, h))
open_uncertain_tasks-rest (row ∷ rows) db db' h =
    let (u, mid, first, rest) = >>=-eq-ok (open_uncertain_task row) _ db tt db' h in
    let (a, b, c) = open_uncertain_task-rest row db mid first in
    let (a', b', c') = open_uncertain_tasks-rest rows mid db' rest in (a' ∙ a, b' ∙ b, c' ∙ c)

-- The sweep wrote to the calls and to the actions, and to nothing else that they depend on.
pub record Sweeps (db db' : Db) : Type 0 where
  pub runs : db'.runs ≡ db.runs
  pub calls :
      db'.llm_calls ≡ update_where (is_abandoned db.runs) (abandoned_row db.now) db.llm_calls
  pub actions :
      db'.action_logs ≡ update_where (is_swept db.runs) (uncertain_row db.now) db.action_logs

abandon_calls-db :
    (db : Db) (n : ℕ) (db' : Db)
    → abandon_calls db ≡ ok (n, db')
    → db' ≡ record db {
      llm_calls = update_where (is_abandoned db.runs) (abandoned_row db.now) db.llm_calls;
    }
unfolding abandon_calls
abandon_calls-db db n db' h = ground arith

sweep_actions-db :
    (db : Db) (rows : List ActionLog) (db' : Db)
    → sweep_actions db ≡ ok (rows, db')
    → db' ≡ record db {
      action_logs = update_where (is_swept db.runs) (uncertain_row db.now) db.action_logs;
    }
unfolding sweep_actions
sweep_actions-db db rows db' h = ground arith

pub hygiene-Sweeps :
    (db : Db) (r : ℕ × List ActionLog) (db' : Db) → hygiene db ≡ ok (r, db') → Sweeps db db'
unfolding hygiene
hygiene-Sweeps db r db' h =
    let (n, d₁, first, h₁) = >>=-eq-ok abandon_calls _ db r db' h in
    let (rows, d₂, second, h₂) = >>=-eq-ok sweep_actions _ d₁ r db' h₁ in
    let (u, d₃, third, h₃) = >>=-eq-ok (open_uncertain_tasks rows) _ d₂ r db' h₂ in
    let (a, b, c) = open_uncertain_tasks-rest rows d₂ d₃ third in
    let e₁ = abandon_calls-db db n d₁ first in
    let e₂ = sweep_actions-db d₁ rows d₂ second in
    let e₃ : d₃ ≡ db' = ground arith in
    record {
      runs = rw (← e₃) (a ∙ rw (e₂, e₁) refl);
      calls = rw (← e₃) (b ∙ rw (e₂, e₁) refl);
      actions = rw (← e₃) (c ∙ rw (e₂, e₁) refl);
    }

-- The hygiene of a pass is complete and is not about the budget: afterwards no call and no action
-- is left that its predicates match, so that a second pass finds nothing, and every period
-- reserves what it reserved before. It is stated for a table with one row for each run.
pub hygiene_is_complete :
    (db : Db) (r : ℕ × List ActionLog) (db' : Db) (period : String)
    → ((id : String) → count_where (is_run id) db.runs ≤ 1)
    → hygiene db ≡ ok (r, db')
    → (count_where (is_abandoned db'.runs) db'.llm_calls ≡ 0)
      × (count_where (is_swept db'.runs) db'.action_logs ≡ 0)
      × (reserved_in period db' ≡ reserved_in period db)
unfolding is_abandoned is_swept reserved_in is_reserving
hygiene_is_complete db r db' period single h =
    let s = hygiene-Sweeps db r db' h in
    (
      rw (s.runs, s.calls)
          (count_where-update_out (is_abandoned db.runs) (abandoned_row db.now) (λ c. refl)
            db.llm_calls),
      rw (s.runs, s.actions)
          (count_where-update_out (is_swept db.runs) (uncertain_row db.now) (λ a. refl)
            db.action_logs),
      rw (s.runs, s.calls)
          (sum_where-update_out (is_abandoned db.runs) (abandoned_row db.now)
            (is_reserving db.runs period) (λ l. l.estimated_cost_usd)
            (λ l hit. (ground (arith, hit, gone-not-live db.runs l (single l.run_id)), refl))
            db.llm_calls),
    )
