-- ===== src/Approvals/Decide/Kept.antt =====
-- What `decide()` keeps of the table of approvals: its only updates are those of `decide_row` and
-- `resume_row`.
use hyperfixation_core.Prelude.{
  ℕ, String, Bool, Option, List, [], ◌∷◌, ◌≡◌, refl, subst, sym, arith, update_where, select_where,
  any_where, inl, inr,
}
use hyperfixation_core.State.{
  Db, Approval, Result, ok, err, approval_run_moved, control_plane_in_workflow,
  edits_without_schemas,
}
use hyperfixation_core.State.Tx.{>>=-eq-ok}
use hyperfixation_core.ControlPlane.{Env, bump_and_enqueue_on}
use hyperfixation_core.ControlPlane.Atomic.{control_plane_atomic}
use hyperfixation_core.Approvals.Batch.{
  DecideOptions, DecideResult, DecidedApproval, Reattempted, Edit, has_id, is_open_row, decide_row,
  parse_edit, write_decision, write_decisions, is_of_run, resume_row, write_resume, resume_runs,
}
use hyperfixation_core.Approvals.Decide.{decide, decide_once, decide_work, retry, is_unwired}
use hyperfixation_core.Approvals.Decide.Final.{
  bump_and_enqueue_on-approvals, record_decisions-approvals,
}
use hyperfixation_core.Approvals.Decide.Verdicts.{Decides, decide_work-Ends, either}

-- A property of the table that both updates keep.
pub record Kept (options : DecideOptions) (P : List Approval → Type 0) : Type 0 where
  pub on_decision :
      (batch : Option String) (edit : Edit) (now : ℕ) (p : Approval → Bool) (xs : List Approval)
      → P xs
      → P (update_where p (decide_row options batch edit now) xs)
  pub on_resume :
      (workflow_id : String) (p : Approval → Bool) (xs : List Approval)
      → P xs
      → P (update_where p (resume_row workflow_id) xs)

module _ (options : DecideOptions) (P : List Approval → Type 0) (k : Kept options P) where
  write_decisions-keeps :
      (batch : Option String) (rows : List Approval) (db db' : Db)
      → write_decisions options batch rows db ≡ ok (tt, db')
      → P db.approvals
      → P db'.approvals
  unfolding write_decisions write_decision
  write_decisions-keeps batch [] db db' h p =
      let same : db.approvals ≡ db'.approvals = ground (arith, h) in subst P same p
  write_decisions-keeps batch (row ∷ rows) db db' h p =
      let (u, mid, first, rest) = >>=-eq-ok (write_decision options batch row) _ db tt db' h in
      write_decisions-keeps batch rows mid db' rest (
        subst P (sym (written mid first))
          (k.on_decision batch (parse_edit options row) db.now (is_open_row row.id) db.approvals p))
    where
      written :
          (mid : Db)
          → write_decision options batch row db ≡ ok (tt, mid)
          → mid.approvals
            ≡ update_where
                (is_open_row row.id)
                (decide_row options batch (parse_edit options row) db.now)
                db.approvals
      written mid first = ground (arith, first)

  over : (d d' : Db) → d'.approvals ≡ d.approvals → P d.approvals → P d'.approvals
  over d d' same = subst P (sym same)

  write_resume-keeps :
      (theirs : List Approval) (workflow_id : String) (d d' : Db)
      → write_resume theirs workflow_id d ≡ ok (tt, d')
      → P d.approvals
      → P d'.approvals
  unfolding write_resume
  write_resume-keeps theirs workflow_id d d' resumed p =
      over
        (record d {
          approvals =
              update_where (λ a. any_where (has_id a.id) theirs) (resume_row workflow_id)
                d.approvals;
        })
        d' (ground (arith, resumed))
        (k.on_resume workflow_id (λ a. any_where (has_id a.id) theirs) d.approvals p)

  resume_runs-keeps :
      (env : Env) (locked : List Approval) (run_ids : List String) (db : Db)
      (r : List DecidedApproval × List Reattempted) (db' : Db)
      → resume_runs env options locked run_ids db ≡ ok (r, db')
      → P db.approvals
      → P db'.approvals
  unfolding resume_runs
  resume_runs-keeps env locked [] db r db' h p =
      let same : db.approvals ≡ db'.approvals = ground (arith, h) in subst P same p
  resume_runs-keeps env locked (run_id ∷ run_ids) db r db' h p =
      let (b, d₁, bumped, h₁) = >>=-eq-ok (bump_and_enqueue_on env run_id) _ db r db' h in
      let (u, d₂, resumed, h₂) =
        >>=-eq-ok (write_resume (select_where (is_of_run run_id) locked) b.workflow_id) _ d₁ r db'
          h₁ in
      let (more, d₃, others, h₃) =
        >>=-eq-ok (resume_runs env options locked run_ids) _ d₂ r db' h₂ in
      over d₃ db' (ground (arith, h₃)) (
        resume_runs-keeps env locked run_ids d₂ more d₃ others (
          write_resume-keeps (select_where (is_of_run run_id) locked) b.workflow_id d₁ d₂ resumed
            (over db d₁ (bump_and_enqueue_on-approvals env run_id db b d₁ bumped) p)))

  Decides-keeps :
      {env : Env} {ids : List ℕ} {run_ids : List String} {locked : List Approval} {db : Db}
      {r : DecideResult} {db' : Db}
      → Decides env options ids run_ids locked db r db'
      → P db.approvals
      → P db'.approvals
  Decides-keeps {env} {ids} {run_ids} {locked} {db} {r} {db'} d p =
      subst P (sym (record_decisions-approvals options locked d.done.0 d.late db' d.recorded)) (
        resume_runs-keeps env locked run_ids d.mid d.done d.late d.resumed
          (write_decisions-keeps _ locked db d.mid d.written p))

  decide_once-keeps :
      (env : Env) (scout db : Db)
      → P db.approvals
      → P (decide_once env options scout db).1.approvals
  unfolding decide_once
  decide_once-keeps env scout db p = go (decide_once env options scout db) refl
    where
      go : (t : Result DecideResult × Db) → decide_once env options scout db ≡ t → P t.1.approvals
      go (err e, db') h =
          subst (λ (d : Db). P d.approvals)
            (sym (
              control_plane_atomic env "approvals.decide" (decide_work env options scout) db (err e)
                db' h))
            p
      go (ok r, db') h =
          elim (decide_work-Ends env options scout db r db'
            (control_plane_atomic env "approvals.decide" (decide_work env options scout) db (ok r)
              db' h).2).0 [
                | inl d ↦ Decides-keeps d p
                | inr same ↦ subst (λ (x : Db). P x.approvals) (sym same.1) p
              ]

  retry-keeps :
      (env : Env) (again : Db) (t : Result DecideResult × Db)
      → P t.1.approvals
      → P (retry env options again (λ d. d) t).1.approvals
  unfolding retry
  retry-keeps env again (err (approval_run_moved n), d) p = decide_once-keeps env again d p
  retry-keeps env again (err e, d) p = p
  retry-keeps env again (ok r, d) p = p

  pub decide-keeps :
      (env : Env) (scout again db : Db)
      → P db.approvals
      → P (decide env options scout again (λ d. d) db).1.approvals
  unfolding decide
  decide-keeps env scout again db p =
      either {A = Result DecideResult × Db} (λ t. P t.1.approvals) env.within_workflow
        (err (control_plane_in_workflow "approvals.decide"), db) _ p
        (either {A = Result DecideResult × Db} (λ t. P t.1.approvals) (is_unwired options)
          (err (edits_without_schemas "approvals.decide"), db)
          (retry env options again (λ d. d) (decide_once env options scout db)) p
          (retry-keeps env again (decide_once env options scout db)
            (decide_once-keeps env scout db p)))
