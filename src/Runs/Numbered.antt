-- ===== src/Runs/Numbered.antt =====
-- Every write to hf_run keeps the token of a run and its attempt number together.
use hyperfixation_core.Prelude.{
  ℕ, String, ◌+◌, ◌≤◌, ◌≡◌, refl, ap, subst, eq_iff, arith, Bool, true, Option, [], ◌∷◌, ◌++◌, ◌==◌,
  All, All-update, All-append, count_where, count_where-update_ne, count_where-append,
  any_where-false_count, update_where, Bool-cases, inl, inr, some, All-find, find_where_holds,
}
use hyperfixation_core.State.{Run, RunStatus, Db, is_run, find_run, ok}
use hyperfixation_core.ControlPlane.{
  Env, Flow, BumpedAttempt, StartedRun, at_attempt, bump_row, attempt_workflow_id, new_run,
  start_run, bump_and_enqueue_on,
}
use hyperfixation_core.ControlPlane.Bump.{Bumps, bump_and_enqueue_on-Bumps}
use hyperfixation_core.Runs.{claim_run, claim_row, conclude_run, conclude_row}

abbrev pub HoldsOwnToken : Run → Type 0
HoldsOwnToken r = (r.current_workflow_id ≡ attempt_workflow_id r.run_id r.attempt) × (1 ≤ r.attempt)

pub record IsNumbered (db : Db) : Type 0 where
  pub tokens : All HoldsOwnToken db.runs
  pub single : (id : String) → count_where (is_run id) db.runs ≤ 1

-- One committed write of the program to hf_run, or a write that leaves hf_run alone.
pub data RunStep (env : Env) : Db → Db → Type 0 where
  starts :
      {db db' : Db} (flow : Flow) (input run_id : String) (s : StartedRun)
      → start_run env flow input run_id db ≡ ok (s, db')
      → RunStep env db db'
  bumps :
      {db db' : Db} (run_id : String) (b : BumpedAttempt)
      → bump_and_enqueue_on env run_id db ≡ ok (b, db')
      → RunStep env db db'
  claims :
      {db db' : Db} (run_id workflow_id version : String)
      → db' ≡ (claim_run run_id workflow_id version db).1
      → RunStep env db db'
  concludes :
      {db db' : Db} (run_id workflow_id : String) (status : RunStatus) (error : Option String)
      → db' ≡ (conclude_run run_id workflow_id status error db).1
      → RunStep env db db'
  elsewhere : {db db' : Db} → db'.runs ≡ db.runs → RunStep env db db'

bump_row-token :
    (run_id : String) (attempt : ℕ) (r : Run)
    → at_attempt run_id attempt r ≡ true
    → HoldsOwnToken r
    → HoldsOwnToken (bump_row (attempt + 1) (attempt_workflow_id run_id (attempt + 1)) r)
bump_row-token run_id attempt r h t = ground (arith, eq_iff r.run_id run_id)

-- An update that keeps the keys and, on the rows that it hits, the tokens.
update_runs-IsNumbered :
    (p : Run → Bool) (f : Run → Run) (db : Db)
    → ((r : Run) → (f r).run_id ≡ r.run_id)
    → ((r : Run) → p r ≡ true → HoldsOwnToken r → HoldsOwnToken (f r))
    → IsNumbered db
    → IsNumbered (record db { runs = update_where p f db.runs })
update_runs-IsNumbered p f db key keep n = record {
  tokens = All-update p HoldsOwnToken f keep db.runs n.tokens;
  single = λ id.
      rw (count_where-update_ne p (is_run id) f (λ x _. ap (λ k. k == id) (key x)) db.runs)
        (n.single id);
}

Bumps-IsNumbered :
    {env : Env} {run_id : String} {db : Db} {b : BumpedAttempt} {db' : Db}
    → Bumps env run_id db b db'
    → IsNumbered db
    → IsNumbered db'
Bumps-IsNumbered {run_id} {db} w n =
    rw (w.written, w.token, w.next)
      (update_runs-IsNumbered _ _ db (λ r. refl) (bump_row-token run_id w.row.attempt) n)

start_run-IsNumbered :
    (env : Env) (flow : Flow) (input run_id : String) (db : Db) (s : StartedRun) (db' : Db)
    → start_run env flow input run_id db ≡ ok (s, db')
    → IsNumbered db
    → IsNumbered db'
unfolding start_run count_where
start_run-IsNumbered env flow input run_id db s db' h n = record {
  tokens =
      rw wrote (All-append HoldsOwnToken db.runs (row ∷ []) n.tokens ((refl, omega arith), tt));
  single = λ id. rw wrote (rw (count_where-append (is_run id) db.runs (row ∷ [])) (new id));
}
  where
    row : Run
    row = new_run run_id flow.name input (attempt_workflow_id run_id 1)

    wrote : db'.runs ≡ db.runs ++ row ∷ []
    wrote = ground arith

    unknown : count_where (is_run run_id) db.runs ≡ 0
    unknown = any_where-false_count (is_run run_id) db.runs (ground arith)

    new : (id : String) → count_where (is_run id) db.runs + count_where (is_run id) (row ∷ []) ≤ 1
    new id = elim (Bool-cases (run_id == id)) [
      | inl e ↦
          subst (λ k. count_where (is_run k) db.runs + count_where (is_run k) (row ∷ []) ≤ 1)
            ((eq_iff run_id id).0 e) (ground (arith, unknown))
      | inr e ↦ ground (arith, n.single id)
    ]

-- Whatever the program writes to the runs, a run keeps its own token and its own key.
pub RunStep-IsNumbered :
    {env : Env} {db db' : Db} → RunStep env db db' → IsNumbered db → IsNumbered db'
unfolding claim_run conclude_run
RunStep-IsNumbered {env} {db} {db'} (starts flow input run_id s h) n =
    start_run-IsNumbered env flow input run_id db s db' h n
RunStep-IsNumbered {env} {db} {db'} (bumps run_id b h) n =
    let (mid, w, same) = bump_and_enqueue_on-Bumps env run_id db b db' h in
    let m = Bumps-IsNumbered w n in
    record { tokens = rw same m.tokens; single = λ id. rw same (m.single id) }
RunStep-IsNumbered {db} (claims run_id workflow_id version e) n =
    rw e (update_runs-IsNumbered _ (claim_row version) db (λ r. refl) (λ r _ t. t) n)
RunStep-IsNumbered {db} (concludes run_id workflow_id status error e) n =
    rw e (update_runs-IsNumbered _ (conclude_row status error db.now) db (λ r. refl) (λ r _ t. t) n)
RunStep-IsNumbered (elsewhere e) n = record {
  tokens = rw e n.tokens;
  single = λ id. rw e (n.single id);
}

-- The token of a run that is read back.
pub find_run-token :
    (run_id : String) (db : Db) (r : Run)
    → IsNumbered db
    → find_run run_id db ≡ some r
    → (r.run_id ≡ run_id) × (r.current_workflow_id ≡ attempt_workflow_id run_id r.attempt)
unfolding find_run
find_run-token run_id db r n found =
    (key, rw (← key) (All-find (is_run run_id) HoldsOwnToken db.runs r n.tokens found).0)
  where
    key : r.run_id ≡ run_id
    key = (eq_iff r.run_id run_id).0 (find_where_holds (is_run run_id) db.runs r found)
