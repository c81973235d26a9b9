-- ===== src/Approvals/Decide/Resumes.antt =====
-- A decision moves every run of its batch to its next attempt, which is enqueued with it.
use Prim.Native.Nat.{compare as compare_nat}
use mathlib.Core.Option
use hyperfixation_core.Prelude.{
  ℕ, String, ◌+◌, ◌≡◌, refl, sym, ap, subst, ◌∙◌, arith, eq_iff, Bool, true, false, not, ◌==◌,
  Option, none, some, List, [], ◌∷◌, eqb, eqb→eq, if◌then◌else◌, find_where, any_where,
  find_where-update, find_where_holds, select_where, Option-cases, Bool-cases, inl, inr,
}
use hyperfixation_core.State.{Db, Run, Approval, ok, is_run, find_run}
use hyperfixation_core.State.Tx.{>>=-eq-ok}
use hyperfixation_core.ControlPlane.{Env, BumpedAttempt, bump_and_enqueue_on, at_attempt, bump_row}
use hyperfixation_core.ControlPlane.Atomic.{control_plane_atomic}
use hyperfixation_core.ControlPlane.Bump.{bump_and_enqueue_on-Bumps}
use hyperfixation_core.Runs.Numbered.{bumps, elsewhere}
use hyperfixation_core.Runs.Superseded.{Keeps, RunStep-Keeps}
use hyperfixation_core.Approvals.Batch.{
  DecideOptions, DecideResult, DecidedApproval, Reattempted, has_id, is_of_run, write_decision,
  write_decisions, write_resume, resume_runs, sort_unique, approvals_at,
}
use hyperfixation_core.Approvals.Decide.{
  decide_once, decide_work, record_decisions, run_ids_of, moved_row, batch_id_of,
}
use hyperfixation_core.Approvals.Decide.Verdicts.{Ends, decide_work-Ends}
use hyperfixation_core.Approvals.Decide.Whole.{sort_unique-has}

pub write_decisions-runs :
    (options : DecideOptions) (batch : Option String) (rows : List Approval) (db db' : Db)
    → write_decisions options batch rows db ≡ ok (tt, db')
    → db'.runs ≡ db.runs
unfolding write_decisions write_decision
write_decisions-runs options batch [] db db' h = ground arith
write_decisions-runs options batch (row ∷ rows) db db' h =
    let (u, mid, first, rest) = >>=-eq-ok (write_decision options batch row) _ db tt db' h in
    let same : mid.runs ≡ db.runs = ground (arith, first) in
    write_decisions-runs options batch rows mid db' rest ∙ same

pub record_decisions-runs :
    (options : DecideOptions) (locked : List Approval) (ds : List DecidedApproval) (db db' : Db)
    → record_decisions options locked ds db ≡ ok (tt, db')
    → db'.runs ≡ db.runs
unfolding record_decisions
record_decisions-runs options locked [] db db' h = ground arith
record_decisions-runs options locked (d ∷ ds) db db' h =
    record_decisions-runs options locked ds _ db' h

pub write_resume-runs :
    (theirs : List Approval) (workflow_id : String) (db db' : Db)
    → write_resume theirs workflow_id db ≡ ok (tt, db')
    → db'.runs ≡ db.runs
unfolding write_resume
write_resume-runs theirs workflow_id db db' h = ground arith

-- A bumped run is one attempt further.
bump-Keeps :
    (env : Env) (run_id : String) (db : Db) (b : BumpedAttempt) (db' : Db) (run : Run)
    → bump_and_enqueue_on env run_id db ≡ ok (b, db')
    → find_run run_id db ≡ some run
    → Keeps run_id (run.attempt + 1) db'
unfolding find_run
bump-Keeps env run_id db b db' run h found =
    let (mid, w, same) = bump_and_enqueue_on-Bumps env run_id db b db' h in
    let hit = at_attempt run_id w.row.attempt in
    record {
      row = if hit run then bump_row b.attempt b.workflow_id run else run;
      found =
          rw (same, w.written)
            (find_where-update hit (is_run run_id) (bump_row b.attempt b.workflow_id) (λ r. refl)
                db.runs
              ∙ ap (Option.map (λ r. if hit r then bump_row b.attempt b.workflow_id r else r))
                  found);
      reached =
          ground
            (arith, w.next, w.found, found, find_where_holds (is_run run_id) db.runs run found);
    }

module _ (env : Env) (options : DecideOptions) (locked : List Approval) where
  resume_runs-Keeps :
      (run_id : String) (n : ℕ) (run_ids : List String) (db : Db)
      (r : List DecidedApproval × List Reattempted) (db' : Db)
      → resume_runs env options locked run_ids db ≡ ok (r, db')
      → Keeps run_id n db
      → Keeps run_id n db'
  unfolding resume_runs
  resume_runs-Keeps run_id n [] db r db' h k =
      RunStep-Keeps run_id n {env = env} (elsewhere (ground arith)) k
  resume_runs-Keeps run_id n (i ∷ run_ids) db r db' h k =
      let (b, d₁, bumped, h₁) = >>=-eq-ok (bump_and_enqueue_on env i) _ db r db' h in
      let (u, d₂, resumed, h₂) =
        >>=-eq-ok (write_resume (select_where (is_of_run i) locked) b.workflow_id) _ d₁ r db' h₁ in
      let (more, d₃, others, h₃) =
        >>=-eq-ok (resume_runs env options locked run_ids) _ d₂ r db' h₂ in
      let last : db'.runs ≡ d₃.runs = ground (arith, h₃) in
      RunStep-Keeps run_id n {env = env} (elsewhere last) (
        resume_runs-Keeps run_id n run_ids d₂ more d₃ others (
          RunStep-Keeps run_id n {env = env}
            (elsewhere
              (write_resume-runs (select_where (is_of_run i) locked) b.workflow_id d₁ d₂ resumed))
            (RunStep-Keeps run_id n (bumps i b bumped) k)))

  resume_runs-bumps :
      (run_id : String) (run_ids : List String) (db : Db)
      (r : List DecidedApproval × List Reattempted) (db' : Db) (run : Run)
      → resume_runs env options locked run_ids db ≡ ok (r, db')
      → any_where (λ i. i == run_id) run_ids ≡ true
      → find_run run_id db ≡ some run
      → Keeps run_id (run.attempt + 1) db'
  unfolding resume_runs any_where
  resume_runs-bumps run_id [] db r db' run h listed found = absurd (ground (arith, listed))
  resume_runs-bumps run_id (i ∷ run_ids) db r db' run h listed found =
      let (b, d₁, bumped, h₁) = >>=-eq-ok (bump_and_enqueue_on env i) _ db r db' h in
      let (u, d₂, resumed, h₂) =
        >>=-eq-ok (write_resume (select_where (is_of_run i) locked) b.workflow_id) _ d₁ r db' h₁ in
      let (more, d₃, others, h₃) =
        >>=-eq-ok (resume_runs env options locked run_ids) _ d₂ r db' h₂ in
      let last : db'.runs ≡ d₃.runs = ground (arith, h₃) in
      let same : d₂.runs ≡ d₁.runs =
        write_resume-runs (select_where (is_of_run i) locked) b.workflow_id d₁ d₂ resumed in
      RunStep-Keeps run_id (run.attempt + 1) {env = env} (elsewhere last)
        (elim (Bool-cases (i == run_id)) [
          | inl e ↦ resume_runs-Keeps run_id (run.attempt + 1) run_ids d₂ more d₃ others (
              RunStep-Keeps run_id (run.attempt + 1) {env = env} (elsewhere same) (
                bump-Keeps env run_id db b d₁ run
                  (subst (λ j. bump_and_enqueue_on env j db ≡ ok (b, d₁)) ((eq_iff i run_id).0 e)
                    bumped)
                  found))
          | inr e ↦
              let k = RunStep-Keeps run_id run.attempt {env = env} (elsewhere same) (
                RunStep-Keeps run_id run.attempt (bumps i b bumped)
                  (record { row = run; found = found; reached = omega arith })) in
              let m =
                resume_runs-bumps run_id run_ids d₂ more d₃ k.row others (ground (arith, listed, e))
                  k.found in
              record { row = m.row; found = m.found; reached = omega (arith, m.reached, k.reached) }
        ])

-- What holds of every locked row holds of each that was asked for.
locked_row :
    (p : Approval → Bool) (ids : List ℕ) (id : ℕ) (db : Db) (a : Approval)
    → any_where (λ i. eqb i id) ids ≡ true
    → find_where (has_id id) db.approvals ≡ some a
    → find_where (λ b. not (p b)) (approvals_at ids db) ≡ none
    → p a ≡ true
unfolding approvals_at any_where find_where
locked_row p [] id db a listed found none_else = absurd (ground (arith, listed))
locked_row p (i ∷ ids) id db a listed found none_else = elim (Bool-cases (eqb i id)) [
  | inl e ↦ ground (
    arith,
    none_else,
    subst (λ j. find_where (has_id j) db.approvals ≡ some a) (sym (eqb→eq i id e)) found,
  )
  | inr e ↦ elim (Option-cases (find_where (has_id i) db.approvals)) [
    | inl f ↦
        locked_row p ids id db a (ground (arith, listed, e)) found (ground (arith, none_else, f))
    | inr (b, f) ↦
        locked_row p ids id db a (ground (arith, listed, e)) found (ground (arith, none_else, f))
  ]
]

-- A decision resumes its runs: where `decide()` decided and did not replay, the run of every
-- approval that was asked for is still there and at a later attempt than before.
pub decision_resumes_run :
    (env : Env) (options : DecideOptions) (scout db : Db) (r : DecideResult) (db' : Db) (id : ℕ)
    (a : Approval) (run : Run)
    → decide_once env options scout db ≡ (ok r, db')
    → r.replayed ≡ false
    → any_where (λ i. eqb i id) options.ids ≡ true
    → find_where (has_id id) db.approvals ≡ some a
    → find_run a.run_id db ≡ some run
    → Keeps a.run_id (run.attempt + 1) db'
unfolding decide_once moved_row find_run
decision_resumes_run env options scout db r db' id a run h fresh listed found at = elim ends.0 [
  | inl d ↦
      RunStep-Keeps a.run_id (run.attempt + 1) {env = env}
        (elsewhere (record_decisions-runs options locked d.done.0 d.late db' d.recorded))
        (resume_runs-bumps env options locked a.run_id run_ids d.mid d.done d.late run d.resumed
          (locked_row (λ b. any_where (λ i. i == b.run_id) run_ids) ids id db a
            (sort_unique-has id options.ids ∙ listed) found ends.1)
          (ap (find_where (is_run a.run_id))
              (write_decisions-runs options (batch_id_of env ids) locked db d.mid d.written)
            ∙ at))
  | inr again ↦ absurd (ground (arith, again.0, fresh))
]
  where
    ids : List ℕ
    ids = sort_unique compare_nat options.ids

    locked : List Approval
    locked = approvals_at ids db

    run_ids : List String
    run_ids = run_ids_of (approvals_at ids scout)

    ends : Ends env options ids run_ids locked db r db' × (moved_row run_ids locked ≡ none)
    ends =
        decide_work-Ends env options scout db r db'
          (control_plane_atomic env "approvals.decide" (decide_work env options scout) db (ok r) db'
            h).2
