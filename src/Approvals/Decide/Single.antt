-- ===== src/Approvals/Decide/Single.antt =====
-- packages/core/src/approvals.ts: a call of `decide()` about one approval.
use Prim.Native.Nat.{compare as compare_nat}
use hyperfixation_core.Prelude.{
  ℕ, String, Bool, true, false, Option, none, some, List, [], ◌∷◌, ◌≡◌, refl, ap, subst, ◌∙◌, arith,
  if◌then◌else◌, find_where, count_where, any_where, Bool-cases, inl, inr,
}
use hyperfixation_core.State.{
  Db, Run, Approval, Result, ok, err, Error, approval_run_moved, control_plane_in_workflow,
  edits_without_schemas,
}
use hyperfixation_core.ControlPlane.{Env}
use hyperfixation_core.ControlPlane.Atomic.{control_plane_atomic}
use hyperfixation_core.Approvals.Batch.{
  DecideOptions, DecideResult, has_id, approvals_at, sort_unique, insert_sorted,
}
use hyperfixation_core.Approvals.Decide.{
  decide, decide_once, decide_work, decide_rows, decide_locked, retry, is_unwired, carries_key,
  moved_row, run_ids_of, runs_at,
}
use hyperfixation_core.Approvals.Decide.Verdicts.{decide_fresh-Decides}

module _ (env : Env) (o : DecideOptions) (row : Approval)
    (unkeyed : carries_key o.decision_key row ≡ false) where
  decide_rows-fresh :
      (moved : Option Approval) (ids : List ℕ) (run_ids : List String) (runs : List Run) (db : Db)
      (r : DecideResult) (db' : Db)
      → decide_rows moved env o ids run_ids (row ∷ []) runs db ≡ ok (r, db')
      → r.replayed ≡ false
  unfolding decide_rows decide_locked count_where
  decide_rows-fresh (some a) ids run_ids runs db r db' h = absurd (ground arith)
  decide_rows-fresh none ids run_ids runs db r db' h =
      ap (λ (x : DecideResult). x.replayed)
        (decide_fresh-Decides env o ids run_ids (row ∷ []) db r db'
          (ground (arith, h, unkeyed))).result

  alone :
      (i : ℕ) (db : Db)
      → o.ids ≡ i ∷ []
      → find_where (has_id i) db.approvals ≡ some row
      → approvals_at (sort_unique compare_nat o.ids) db ≡ row ∷ []
  unfolding approvals_at sort_unique insert_sorted
  alone i db only found =
      ap (λ xs. approvals_at (sort_unique compare_nat xs) db) only
      ∙ ap (λ t. elim t as (λ _. List Approval) [ none ↦ [] | some a ↦ a ∷ [] ]) found

  pub decide_work-fresh :
      (i : ℕ) (db : Db) (r : DecideResult) (db' : Db)
      → o.ids ≡ i ∷ []
      → find_where (has_id i) db.approvals ≡ some row
      → decide_work env o db db ≡ ok (r, db')
      → r.replayed ≡ false
  unfolding decide_work
  decide_work-fresh i db r db' only found h =
      elim (Bool-cases (any_where env.lock_timed_out (run_ids_of (approvals_at ids db)))) [
        | inl e ↦ absurd (ground (arith, h, e))
        | inr e ↦
            decide_rows-fresh (moved_row (run_ids_of (approvals_at ids db)) (row ∷ [])) ids
              (run_ids_of (approvals_at ids db)) (runs_at (run_ids_of (approvals_at ids db)) db) db
              r db'
              (subst
                (λ locked.
                  decide_rows (moved_row (run_ids_of (approvals_at ids db)) locked) env o ids
                    (run_ids_of (approvals_at ids db)) locked
                    (runs_at (run_ids_of (approvals_at ids db)) db) db
                  ≡ ok (r, db'))
                (alone i db only found) (ground (arith, h, e)))
      ]
    where
      ids : List ℕ
      ids = sort_unique compare_nat o.ids

-- A call of `decide()` about one approval that has its row.
pub decide-once :
    (env : Env) (o : DecideOptions) (db : Db) (r : DecideResult) (db' : Db)
    → decide env o db db (λ d. d) db ≡ (ok r, db')
    → decide_once env o db db ≡ (ok r, db')
unfolding decide retry decide_once
decide-once env o db r db' h =
    go env.within_workflow (is_unwired o) (decide_once env o db db) refl h
  where
    retried :
        (x : Error) (d : Db)
        → d ≡ db
        → retry env o db (λ d. d) (err x, d) ≡ (ok r, db')
        → decide_once env o db db ≡ (ok r, db')
    retried (approval_run_moved n) d same k =
        subst (λ y. decide_once env o db y ≡ (ok r, db')) same k
    retried x d same k = absurd (ground (arith, k))

    go :
        (within unwired : Bool) (t : Result DecideResult × Db)
        → decide_once env o db db ≡ t
        → (if within
            then (err (control_plane_in_workflow "approvals.decide"), db)
            else if unwired
            then (err (edits_without_schemas "approvals.decide"), db)
            else retry env o db (λ d. d) t)
          ≡ (ok r, db')
        → decide_once env o db db ≡ (ok r, db')
    go true unwired t e k = absurd (ground (arith, k))
    go false true t e k = absurd (ground (arith, k))
    go false false (ok x, d) e k = e ∙ k
    go false false (err x, d) e k =
        retried x d
          (control_plane_atomic env "approvals.decide" (decide_work env o db) db (err x) d e) k
