-- ===== src/Runs/Superseded.antt =====
-- A superseded attempt stays fenced off: no later write gives it its token back.
use mathlib.Core.Option
use hyperfixation_core.Prelude.{
  ℕ, String, ◌+◌, ◌≤◌, ◌<◌, ◌≡◌, refl, sym, ap, ◌∙◌, eq_iff, arith, Bool, true, false, some, ◌==◌,
  inl, inr, Bool-cases, [], ◌∷◌, ◌++◌, if◌then◌else◌, find_where-update, find_where-append,
  update_where,
}
use hyperfixation_core.State.{Run, Db, is_run, find_run, ok, err, stale_attempt}
use hyperfixation_core.State.Tx.{Tx}
use hyperfixation_core.ControlPlane.{
  Env, Flow, StartedRun, start_run, at_attempt, bump_row, attempt_workflow_id, new_run,
}
use hyperfixation_core.ControlPlane.Attempts.{attempt_workflow_id_inj}
use hyperfixation_core.ControlPlane.Bump.{bump_and_enqueue_on-Bumps}
use hyperfixation_core.Fence.{is_attempt, is_current, step_tx}
use hyperfixation_core.Fence.Stale.{is_current-find, fenced-stale}
use hyperfixation_core.Runs.{claim_run, claim_row, conclude_run, conclude_row}
use hyperfixation_core.Runs.Numbered.{
  IsNumbered, find_run-token, RunStep, starts, bumps, claims, concludes, elsewhere,
  RunStep-IsNumbered,
}

-- The run is still there, and on this attempt or a later one.
pub record Keeps (run_id : String) (attempt : ℕ) (db : Db) : Type 0 where
  pub row : Run
  pub found : find_run run_id db ≡ some row
  pub reached : attempt ≤ row.attempt

module _ (id : String) (n : ℕ) where
  update_runs-Keeps :
      (p : Run → Bool) (f : Run → Run) (db : Db)
      → ((r : Run) → (f r).run_id ≡ r.run_id)
      → ((r : Run) → p r ≡ true → r.attempt ≤ (f r).attempt)
      → Keeps id n db
      → Keeps id n (record db { runs = update_where p f db.runs })
  unfolding find_run
  update_runs-Keeps p f db key grows k = record {
    row = if p k.row then f k.row else k.row;
    found =
        find_where-update p (is_run id) f (λ r. ap (λ j. j == id) (key r)) db.runs
        ∙ ap (Option.map (λ r. if p r then f r else r)) k.found;
    reached = ground (arith, grows k.row, k.reached);
  }

  starts-Keeps :
      (env : Env) (flow : Flow) (input run_id : String) (db : Db) (s : StartedRun) (db' : Db)
      → start_run env flow input run_id db ≡ ok (s, db')
      → Keeps id n db
      → Keeps id n db'
  unfolding start_run find_run
  starts-Keeps env flow input run_id db s db' h k = record {
    row = k.row;
    found = rw wrote (rw (find_where-append (is_run id) db.runs _, k.found) refl);
    reached = k.reached;
  }
    where
      wrote :
          db'.runs ≡ db.runs ++ new_run run_id flow.name input (attempt_workflow_id run_id 1) ∷ []
      wrote = ground arith

  pub RunStep-Keeps :
      {env : Env} {db db' : Db} → RunStep env db db' → Keeps id n db → Keeps id n db'
  unfolding claim_run conclude_run find_run
  RunStep-Keeps {env} {db} {db'} (starts flow input run_id s h) k =
      starts-Keeps env flow input run_id db s db' h k
  RunStep-Keeps {env} {db} {db'} (bumps run_id b h) k =
      let (mid, w, same) = bump_and_enqueue_on-Bumps env run_id db b db' h in
      let m =
        update_runs-Keeps (at_attempt run_id w.row.attempt) (bump_row b.attempt b.workflow_id) db
          (λ r. refl) (λ r hit. ground (arith, w.next)) k in
      record { row = m.row; found = rw (same, w.written) m.found; reached = m.reached }
  RunStep-Keeps {db} (claims run_id workflow_id version e) k = rw e (
      update_runs-Keeps (is_attempt run_id workflow_id) (claim_row version) db (λ r. refl)
        (λ r _. omega arith) k)
  RunStep-Keeps {db} (concludes run_id workflow_id status error e) k = rw e (
      update_runs-Keeps (is_attempt run_id workflow_id) (conclude_row status error db.now) db
        (λ r. refl) (λ r _. omega arith) k)
  RunStep-Keeps (elsewhere e) k = record { row = k.row; found = rw e k.found; reached = k.reached }

pub data Reach (env : Env) (s : Db) : Db → Type 0 where
  here : Reach env s s
  next : {t u : Db} → Reach env s t → RunStep env t u → Reach env s u

pub Reach-IsNumbered : {env : Env} {s t : Db} → IsNumbered s → Reach env s t → IsNumbered t
Reach-IsNumbered n here = n
Reach-IsNumbered n (next r st) = RunStep-IsNumbered st (Reach-IsNumbered n r)

pub Reach-Keeps :
    (id : String) (n : ℕ) {env : Env} {s t : Db} → Keeps id n s → Reach env s t → Keeps id n t
Reach-Keeps id n k here = k
Reach-Keeps id n k (next r st) = RunStep-Keeps id n st (Reach-Keeps id n k r)

-- In a well-numbered database an attempt before the run's own is not current.
old_attempt-not-current :
    (run_id : String) (old : ℕ) (db : Db)
    → IsNumbered db
    → Keeps run_id (old + 1) db
    → is_current run_id (attempt_workflow_id run_id old) db ≡ false
unfolding find_run
old_attempt-not-current run_id old db n k =
    is_current-find run_id _ db k.row (n.single run_id) k.found
    ∙ elim (Bool-cases (k.row.current_workflow_id == attempt_workflow_id run_id old)) [
      | inl e ↦ absurd (omega (arith, same e))
      | inr e ↦ e
    ]
  where
    same :
        (k.row.current_workflow_id == attempt_workflow_id run_id old) ≡ true → k.row.attempt ≡ old
    same e = attempt_workflow_id_inj run_id k.row.attempt old (
        sym (find_run-token run_id db k.row n k.found).1
        ∙ (eq_iff k.row.current_workflow_id (attempt_workflow_id run_id old)).0 e)

-- From the moment a run has left an attempt, whatever the program writes to the runs after that,
-- a transaction of the old attempt is refused with StaleAttempt and changes nothing.
pub superseded :
    (env : Env) (s t : Db) (run_id : String) (r : Run) (old : ℕ) {A : Type 0} (work : Tx A)
    → IsNumbered s
    → find_run run_id s ≡ some r
    → old < r.attempt
    → Reach env s t
    → step_tx run_id (attempt_workflow_id run_id old) work t
      ≡ (err (stale_attempt run_id (attempt_workflow_id run_id old)), t)
unfolding step_tx
superseded env s t run_id r old work n found before reach =
    let k =
      Reach-Keeps run_id (old + 1) (record { row = r; found = found; reached = omega arith })
        reach in
    rw (
      fenced-stale run_id _ work t
        (old_attempt-not-current run_id old t (Reach-IsNumbered n reach) k))
