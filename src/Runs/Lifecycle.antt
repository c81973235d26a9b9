-- ===== src/Runs/Lifecycle.antt =====
-- Who may write the status of a run: the attempt that holds its token.
use hyperfixation_core.Prelude.{
  String, ◌≡◌, ◌≤◌, refl, ap, ◌∙◌, arith, true, false, ◌==◌, some, none, Option, count_where,
  find_where-update_unique, if◌then◌else◌, any_where-false_count, any_where-false_find,
  update_where-none, Bool-cases, count_where_unique, inl, inr,
}
use hyperfixation_core.State.{
  Run, RunStatus, Db, is_run, find_run, Error, Result, ok, err, is_paused, suspend,
}
use hyperfixation_core.State.Tx.{Exec}
use hyperfixation_core.Fence.{is_attempt, is_current}
use hyperfixation_core.Runs.{
  claim_row, claim_run, conclude_row, conclude_run, end_attempt, run_flow, step,
}

-- The run of an attempt, which is alone under its id.
pub record Holds (run_id workflow_id : String) (row : Run) (db : Db) : Type 0 where
  pub found : find_run run_id db ≡ some row
  pub single : count_where (is_run run_id) db.runs ≤ 1
  pub current : (row.current_workflow_id == workflow_id) ≡ true

module _ (run_id workflow_id : String) where
  claim_run-Holds :
      (version : String) (row : Run) (db : Db)
      → Holds run_id workflow_id row db
      → (claim_run run_id workflow_id version db).0 ≡ true
  unfolding claim_run find_run
  claim_run-Holds version row db h = ground (
    arith,
    h.current,
    count_where_unique (is_run run_id) (λ r. r.current_workflow_id == workflow_id) db.runs row
        h.single h.found,
  )

  conclude_run-Holds :
      (status : RunStatus) (error : Option String) (row : Run) (db : Db)
      → find_run run_id db ≡ some row
      → (row.current_workflow_id == workflow_id) ≡ true
      → find_run run_id (conclude_run run_id workflow_id status error db).1
        ≡ some (conclude_row status error db.now row)
  unfolding conclude_run find_run
  conclude_run-Holds status error row db found current =
      find_where-update_unique (is_run run_id) (λ r. r.current_workflow_id == workflow_id)
        (conclude_row status error db.now) (λ r. refl) db.runs row found
      ∙ rw current refl

  claim_run-find :
      (version : String) (row : Run) (db : Db)
      → Holds run_id workflow_id row db
      → find_run run_id (claim_run run_id workflow_id version db).1 ≡ some (claim_row version row)
  unfolding claim_run find_run
  claim_run-find version row db h =
      find_where-update_unique (is_run run_id) (λ r. r.current_workflow_id == workflow_id)
        (claim_row version) (λ r. refl) db.runs row h.found
      ∙ rw h.current refl

  -- Without the token the conclusion matches no row of the run.
  conclude_run-moved :
      (status : RunStatus) (error : Option String) (row : Run) (db : Db)
      → find_run run_id db ≡ some row
      → (row.current_workflow_id == workflow_id) ≡ false
      → find_run run_id (conclude_run run_id workflow_id status error db).1 ≡ some row
  unfolding conclude_run find_run
  conclude_run-moved status error row db found moved =
      find_where-update_unique (is_run run_id) (λ r. r.current_workflow_id == workflow_id)
        (conclude_row status error db.now) (λ r. refl) db.runs row found
      ∙ rw moved refl

-- The status and the error text that an attempt ends with.
abbrev pub ending : {A : Type 0} → (Error → String) → Result A → RunStatus × Option String
ending message_of (ok a) = (RunStatus.done, none)
ending message_of (err (suspend id status)) = (status, none)
ending message_of (err e) = (RunStatus.failed, some (message_of e))

module _ (message_of : Error → String) (run_id workflow_id : String) where
  end_attempt-conclude :
      {A : Type 0} (r : Result A) (db : Db)
      → (end_attempt message_of run_id workflow_id (r, db)).1
        ≡ (conclude_run run_id workflow_id (ending message_of r).0 (ending message_of r).1 db).1
  unfolding end_attempt
  end_attempt-conclude (ok a) db = refl
  end_attempt-conclude (err (suspend id status)) db = refl
  end_attempt-conclude (err e) db = refl

  run_flow-claimed :
      {A : Type 0} (version : String) (body : Exec A) (row : Run) (db : Db)
      → Holds run_id workflow_id row db
      → run_flow message_of run_id workflow_id version body db
        ≡ end_attempt message_of run_id workflow_id
            (body (claim_run run_id workflow_id version db).1)
  unfolding run_flow
  run_flow-claimed version body row db h =
      rw (claim_run-Holds run_id workflow_id version row db h) refl

  end_attempt-find :
      {A : Type 0} (r : Result A) (mid : Db) (row : Run)
      → find_run run_id mid ≡ some row
      → find_run run_id (end_attempt message_of run_id workflow_id (r, mid)).1
        ≡ some (
            if row.current_workflow_id == workflow_id
            then conclude_row (ending message_of r).0 (ending message_of r).1 mid.now row
            else row)
  end_attempt-find r mid row found =
      rw (end_attempt-conclude r mid) (elim (Bool-cases (row.current_workflow_id == workflow_id)) [
        | inl e ↦ conclude_run-Holds run_id workflow_id _ _ row mid found e ∙ rw e refl
        | inr e ↦ conclude_run-moved run_id workflow_id _ _ row mid found e ∙ rw e refl
      ])

-- An attempt that lost its token before it was dequeued runs nothing of its flow and ends
-- quietly: the database is the one it found.
pub superseded_runs_nothing :
    {A : Type 0} (message_of : Error → String) (run_id workflow_id version : String) (body : Exec A)
    (db : Db)
    → is_current run_id workflow_id db ≡ false
    → run_flow message_of run_id workflow_id version body db ≡ (ok none, db)
unfolding run_flow claim_run is_current
superseded_runs_nothing message_of run_id workflow_id version body db stale =
    rw
      (
        any_where-false_count (is_attempt run_id workflow_id) db.runs stale,
        update_where-none (is_attempt run_id workflow_id) (claim_row version) db.runs
            (any_where-false_find (is_attempt run_id workflow_id) db.runs stale),
      )
      refl

-- An attempt that holds the token of its run when it starts ends with the status that its body
-- asked for: `done`, the status of a Suspend, or `failed` with the error's text. Whether the run
-- shows it depends only on whether the attempt still holds the token at that moment. Where a bump
-- came in between, the run's row stays what the body left.
pub run_flow_ends :
    {A : Type 0} (message_of : Error → String) (run_id workflow_id version : String) (body : Exec A)
    (row : Run) (db : Db) (r : Result A) (mid : Db) (row' : Run)
    → Holds run_id workflow_id row db
    → body (claim_run run_id workflow_id version db).1 ≡ (r, mid)
    → find_run run_id mid ≡ some row'
    → find_run run_id (run_flow message_of run_id workflow_id version body db).1
      ≡ some (
          if row'.current_workflow_id == workflow_id
          then conclude_row (ending message_of r).0 (ending message_of r).1 mid.now row'
          else row')
run_flow_ends message_of run_id workflow_id version body row db r mid row' h b found =
    rw (run_flow-claimed message_of run_id workflow_id version body row db h)
      (rw b (end_attempt-find message_of run_id workflow_id r mid row' found))

pub step-paused :
    {A : Type 0} (run_id workflow_id : String) (body : Exec A) (db : Db)
    → is_paused db ≡ true
    → step run_id workflow_id body db ≡ (
      err (suspend run_id RunStatus.paused),
      (conclude_run run_id workflow_id RunStatus.paused none db).1,
    )
unfolding step
step-paused run_id workflow_id body db p = rw p refl

-- In a paused app a flow that begins with a step runs nothing of that step: the run is parked as
-- `paused`, with no error, for as long as the attempt holds its token, and the workflow ends
-- without an error.
pub paused_flow_parks :
    {A : Type 0} (message_of : Error → String) (run_id workflow_id version : String) (body : Exec A)
    (row : Run) (db : Db)
    → Holds run_id workflow_id row db
    → is_paused db ≡ true
    → (db' : Db) × (run_flow message_of run_id workflow_id version (step run_id workflow_id body) db
        ≡ (ok none, db'))
      × (find_run run_id db'
          ≡ some (conclude_row RunStatus.paused none db.now (claim_row version row)))
unfolding claim_run is_paused end_attempt
paused_flow_parks message_of run_id workflow_id version body row db h p = (
  _,
  run_flow-claimed message_of run_id workflow_id version (step run_id workflow_id body) row db h
      ∙ (ap (end_attempt message_of run_id workflow_id) (step-paused run_id workflow_id body _ p)
          ∙ refl),
  conclude_run-Holds run_id workflow_id _ _ _ _
      (conclude_run-Holds run_id workflow_id _ _ _ _
        (claim_run-find run_id workflow_id version row db h) h.current)
      h.current,
)
