-- ===== src/Approvals/Decide/Attempts.antt =====
-- What `decide()` does to the runs: one bump for each run of the batch.
use hyperfixation_core.Prelude.{String, ◌≡◌, ap, arith, List, [], ◌∷◌, select_where, inl, inr}
use hyperfixation_core.State.{
  Db, Approval, Result, ok, err, approval_run_moved, control_plane_in_workflow,
  edits_without_schemas,
}
use hyperfixation_core.State.Tx.{>>=-eq-ok}
use hyperfixation_core.ControlPlane.{Env, bump_and_enqueue_on}
use hyperfixation_core.Runs.Numbered.{bumps, elsewhere}
use hyperfixation_core.Runs.Superseded.{Reach, here, next}
use hyperfixation_core.Runs.Reaching.{Reach-append, control_plane_tx-Reach}
use hyperfixation_core.Approvals.Batch.{
  DecideOptions, DecideResult, DecidedApproval, Reattempted, is_of_run, write_resume, resume_runs,
}
use hyperfixation_core.Approvals.Decide.{decide, decide_once, decide_work, retry, is_unwired}
use hyperfixation_core.Approvals.Decide.Verdicts.{decide_work-Ends, either}
use hyperfixation_core.Approvals.Decide.Resumes.{
  write_decisions-runs, record_decisions-runs, write_resume-runs,
}

module _ (env : Env) where
  resume_runs-Reach :
      (options : DecideOptions) (locked : List Approval) (run_ids : List String) (db : Db)
      (r : List DecidedApproval × List Reattempted) (db' : Db)
      → resume_runs env options locked run_ids db ≡ ok (r, db')
      → Reach env db db'
  unfolding resume_runs
  resume_runs-Reach options locked [] db r db' h = next here (elsewhere (ground arith))
  resume_runs-Reach options locked (i ∷ run_ids) db r db' h =
      let (b, d₁, bumped, h₁) = >>=-eq-ok (bump_and_enqueue_on env i) _ db r db' h in
      let (u, d₂, resumed, h₂) =
        >>=-eq-ok (write_resume (select_where (is_of_run i) locked) b.workflow_id) _ d₁ r db' h₁ in
      let (more, d₃, others, h₃) =
        >>=-eq-ok (resume_runs env options locked run_ids) _ d₂ r db' h₂ in
      let last : db'.runs ≡ d₃.runs = ground (arith, h₃) in
      next
        (Reach-append env
          (next (next here (bumps i b bumped)) (
            elsewhere
              (write_resume-runs (select_where (is_of_run i) locked) b.workflow_id d₁ d₂ resumed)))
          (resume_runs-Reach options locked run_ids d₂ more d₃ others))
        (elsewhere last)

  decide_once-Reach :
      (options : DecideOptions) (scout db : Db) → Reach env db (decide_once env options scout db).1
  unfolding decide_once
  decide_once-Reach options scout db =
      control_plane_tx-Reach env "approvals.decide" (decide_work env options scout) db λ r db' h.
        elim (decide_work-Ends env options scout db r db' h).0 [
          | inl d ↦
              next
                (Reach-append env
                  (next here (elsewhere (write_decisions-runs options _ _ db d.mid d.written)))
                  (resume_runs-Reach options _ _ d.mid d.done d.late d.resumed))
                (elsewhere (record_decisions-runs options _ d.done.0 d.late db' d.recorded))
          | inr same ↦ next here (elsewhere (ap (λ x. x.runs) same.1))
        ]

  retry-Reach :
      (options : DecideOptions) (again db : Db) (t : Result DecideResult × Db)
      → Reach env db t.1
      → Reach env db (retry env options again (λ d. d) t).1
  unfolding retry
  retry-Reach options again db (err (approval_run_moved n), d) r =
      Reach-append env r (decide_once-Reach options again d)
  retry-Reach options again db (err e, d) r = r
  retry-Reach options again db (ok x, d) r = r

  pub decide-Reach :
      (options : DecideOptions) (scout again db : Db)
      → Reach env db (decide env options scout again (λ d. d) db).1
  unfolding decide
  decide-Reach options scout again db =
      either {A = Result DecideResult × Db} (λ t. Reach env db t.1) env.within_workflow
        (err (control_plane_in_workflow "approvals.decide"), db) _ here
        (either {A = Result DecideResult × Db} (λ t. Reach env db t.1) (is_unwired options)
          (err (edits_without_schemas "approvals.decide"), db)
          (retry env options again (λ d. d) (decide_once env options scout db)) here
          (retry-Reach options again db (decide_once env options scout db)
            (decide_once-Reach options scout db)))
