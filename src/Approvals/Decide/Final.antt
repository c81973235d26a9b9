-- ===== src/Approvals/Decide/Final.antt =====
-- A decision is final: `decide()` never changes the verdict of a row that is not pending.
use mathlib.Core.Option
use hyperfixation_core.Prelude.{
  ℕ, String, ◌≡◌, refl, ap, subst, ◌∙◌, arith, Bool, true, false, Option, some, List, [], ◌∷◌, eqb,
  if◌then◌else◌, find_where, update_where, any_where, select_where, find_where-update, Bool-cases,
  inl, inr,
}
use hyperfixation_core.State.{Db, Approval, ApprovalStatus, ApprovalVia, ok}
use hyperfixation_core.State.Tx.{>>=-eq-ok}
use hyperfixation_core.ControlPlane.{
  Env, BumpedAttempt, bump_attempt, bump_and_enqueue_on, flow_for_run, enqueue_in_transaction,
}
use hyperfixation_core.ControlPlane.Bump.{bump_attempt-Bumps}
use hyperfixation_core.Approvals.{is_pending}
use hyperfixation_core.Approvals.Batch.{
  DecideOptions, DecidedApproval, Reattempted, has_id, is_open_row, decide_row, parse_edit,
  write_decision, write_decisions, write_resume, resume_row, resume_runs, is_of_run,
}
use hyperfixation_core.Approvals.Decide.{record_decisions}

pub record Verdict : Type 0 where
  pub status : ApprovalStatus
  pub draft : Option String
  pub decided_by : Option String
  pub decided_at : Option ℕ
  pub decided_via : Option ApprovalVia
  pub decision_key : Option String
  pub batch_id : Option String

abbrev pub verdict : Approval → Verdict
verdict a = record {
  status = a.status;
  draft = a.edited_draft;
  decided_by = a.decided_by;
  decided_at = a.decided_at;
  decided_via = a.decided_via;
  decision_key = a.decision_key;
  batch_id = a.batch_id;
}

pub record Stays (id : ℕ) (v : Verdict) (db : Db) : Type 0 where
  pub row : Approval
  pub found : find_where (has_id id) db.approvals ≡ some row
  pub same : verdict row ≡ v
  pub closed : is_pending row.status ≡ false

module _ (id : ℕ) (v : Verdict) where
  update_approvals-Stays :
      (p : Approval → Bool) (f : Approval → Approval) (db : Db)
      → ((a : Approval) → (f a).id ≡ a.id)
      → ((a : Approval) → p a ≡ true → is_pending a.status ≡ false → verdict (f a) ≡ verdict a)
      → Stays id v db
      → Stays id v (record db { approvals = update_where p f db.approvals })
  update_approvals-Stays p f db key keeps s = record {
    row = if p s.row then f s.row else s.row;
    found =
        find_where-update p (has_id id) f (λ a. ap (λ k. eqb k id) (key a)) db.approvals
        ∙ ap (Option.map (λ a. if p a then f a else a)) s.found;
    same = same ∙ s.same;
    closed = ap (λ w. is_pending w.status) same ∙ s.closed;
  }
    where
      same : verdict (if p s.row then f s.row else s.row) ≡ verdict s.row
      same = elim (Bool-cases (p s.row)) [
        | inl e ↦ rw e (keeps s.row e s.closed)
        | inr e ↦ rw e refl
      ]

  pub write_decision-Stays :
      (options : DecideOptions) (batch : Option String) (row : Approval) (db db' : Db)
      → write_decision options batch row db ≡ ok (tt, db')
      → Stays id v db
      → Stays id v db'
  unfolding write_decision
  write_decision-Stays options batch row db db' h s = rw (written) (
      update_approvals-Stays (is_open_row row.id)
        (decide_row options batch (parse_edit options row) db.now) db (λ a. refl)
        (λ a hit closed. absurd (ground (arith, hit, closed))) s)
    where
      written : db' ≡ record db {
        approvals =
            update_where
              (is_open_row row.id)
              (decide_row options batch (parse_edit options row) db.now)
              db.approvals;
      }
      written = ground arith

  pub write_decisions-Stays :
      (options : DecideOptions) (batch : Option String) (rows : List Approval) (db db' : Db)
      → write_decisions options batch rows db ≡ ok (tt, db')
      → Stays id v db
      → Stays id v db'
  unfolding write_decisions
  write_decisions-Stays options batch [] db db' h s = subst (Stays id v) (ground arith) s
  write_decisions-Stays options batch (row ∷ rows) db db' h s =
      let (u, mid, first, rest) = >>=-eq-ok (write_decision options batch row) _ db tt db' h in
      write_decisions-Stays options batch rows mid db' rest
        (write_decision-Stays options batch row db mid first s)

pub bump_and_enqueue_on-approvals :
    (env : Env) (run_id : String) (db : Db) (b : BumpedAttempt) (db'' : Db)
    → bump_and_enqueue_on env run_id db ≡ ok (b, db'')
    → db''.approvals ≡ db.approvals
unfolding bump_and_enqueue_on flow_for_run enqueue_in_transaction
bump_and_enqueue_on-approvals env run_id db b db'' h =
    let (a, db', first, rest) = >>=-eq-ok (bump_attempt env run_id) _ db b db'' h in
    let kept : db''.approvals ≡ db'.approvals = ground arith in
    kept ∙ ap (λ d. d.approvals) (bump_attempt-Bumps env run_id db a db' first).written

pub record_decisions-approvals :
    (options : DecideOptions) (locked : List Approval) (ds : List DecidedApproval) (db db' : Db)
    → record_decisions options locked ds db ≡ ok (tt, db')
    → db'.approvals ≡ db.approvals
unfolding record_decisions
record_decisions-approvals options locked [] db db' h = ground arith
record_decisions-approvals options locked (d ∷ ds) db db' h =
    record_decisions-approvals options locked ds _ db' h

module _ (id : ℕ) (v : Verdict) where
  pub kept-Stays : (db db' : Db) → db'.approvals ≡ db.approvals → Stays id v db → Stays id v db'
  kept-Stays db db' e s = record {
    row = s.row;
    found = ap (find_where (has_id id)) e ∙ s.found;
    same = s.same;
    closed = s.closed;
  }

  write_resume-Stays :
      (theirs : List Approval) (workflow_id : String) (db db' : Db)
      → write_resume theirs workflow_id db ≡ ok (tt, db')
      → Stays id v db
      → Stays id v db'
  unfolding write_resume
  write_resume-Stays theirs workflow_id db db' h s =
      kept-Stays _ db' written
        (update_approvals-Stays id v hit (resume_row workflow_id) db (λ a. refl) (λ a _ _. refl) s)
    where
      hit : Approval → Bool
      hit a = any_where (has_id a.id) theirs

      written : db'.approvals ≡ update_where hit (resume_row workflow_id) db.approvals
      written = ground arith

  pub resume_runs-Stays :
      (env : Env) (options : DecideOptions) (locked : List Approval) (run_ids : List String)
      (db : Db) (r : List DecidedApproval × List Reattempted) (db' : Db)
      → resume_runs env options locked run_ids db ≡ ok (r, db')
      → Stays id v db
      → Stays id v db'
  unfolding resume_runs
  resume_runs-Stays env options locked [] db r db' h s = kept-Stays db db' (ground arith) s
  resume_runs-Stays env options locked (run_id ∷ run_ids) db r db' h s =
      let (b, d₁, bumped, h₁) = >>=-eq-ok (bump_and_enqueue_on env run_id) _ db r db' h in
      let (u, d₂, resumed, h₂) =
        >>=-eq-ok (write_resume (select_where (is_of_run run_id) locked) b.workflow_id) _ d₁ r db'
          h₁ in
      let (more, d₃, others, h₃) =
        >>=-eq-ok (resume_runs env options locked run_ids) _ d₂ r db' h₂ in
      kept-Stays d₃ db' (ground (arith, h₃)) (
        resume_runs-Stays env options locked run_ids d₂ more d₃ others (
          write_resume-Stays (select_where (is_of_run run_id) locked) b.workflow_id d₁ d₂ resumed
            (kept-Stays db d₁ (bump_and_enqueue_on-approvals env run_id db b d₁ bumped) s)))
