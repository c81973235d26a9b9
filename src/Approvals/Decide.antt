-- ===== src/Approvals/Decide.antt =====
-- `decide()` itself: one control-plane transaction, tried once more when an approval changed its run.
pub mod Final
pub mod Verdicts
pub mod Kept
pub mod Single
pub mod Whole
pub mod Replay
pub mod Resumes
pub mod Attempts
use Prim.Native.Nat.{compare as compare_nat}
use Prim.Native.String.{compare as compare_text}
use hyperfixation_core.Prelude.{
  ℕ, String, Bool, true, false, ◌==◌, ◌&&◌, not, Option, none, some, List, [], ◌∷◌, ◌++◌, map,
  select_where, length, ltb, eqb, if◌then◌else◌, or_else, is_some, find_where, any_where,
  count_where,
}
use hyperfixation_core.Prelude.Decimal.{decimal}
use hyperfixation_core.State.{
  Db, Run, Approval, ApprovalStatus, Activity, Audit, Error, Refusal, other_batch, Result, ok, err,
  approval_batch_refused, approval_run_moved, edits_without_schemas, control_plane_in_workflow,
  plain, find_run,
}
use hyperfixation_core.State.Tx.{Tx, Exec, ◌>>=◌, ◌>>◌, pure, throw, modify, gets, guard}
use hyperfixation_core.ControlPlane.{Env, control_plane_tx}
use hyperfixation_core.Approvals.Batch.{
  DecideOptions, DecidedApproval, Reattempted, DecideResult, name_of, sort_unique, approvals_at,
  has_id, assert_decidable, write_decisions, resume_runs,
}

unfoldable pub run_ids_of : List Approval → List String
run_ids_of rows = sort_unique compare_text (map (λ a. a.run_id) rows)

unfoldable pub runs_at : List String → Db → List Run
runs_at [] db = []
runs_at (id ∷ ids) db = elim (find_run id db) [
  | none ↦ runs_at ids db
  | some r ↦ r ∷ runs_at ids db
]

-- The first locked row whose run was not among those that were locked.
unfoldable pub moved_row : List String → List Approval → Option Approval
moved_row run_ids rows = find_where (λ a. not (any_where (λ id. id == a.run_id) run_ids)) rows

abbrev pub carries_key : String → Approval → Bool
carries_key key a = elim a.decision_key [ none ↦ false | some k ↦ k == key ]

abbrev pub decided_before : Approval → DecidedApproval
decided_before a = record {
  approval_id = a.id;
  run_id = a.run_id;
  key = a.key;
  status = a.status;
  resume_workflow_id = or_else a.resume_workflow_id "";
}

abbrev pub attempt_of : Run → Reattempted
attempt_of r = record {
  run_id = r.run_id;
  attempt = r.attempt;
  workflow_id = r.current_workflow_id;
}

abbrev pub batch_of : List Approval → Option String
batch_of [] = none
batch_of (a ∷ rows) = a.batch_id

-- What the first decision under the key returned, read back from its rows.
unfoldable pub replay : List Approval → List Run → DecideResult
replay rows runs = record {
  replayed = true;
  decided = map decided_before rows;
  reattempted = map attempt_of runs;
  batch_id = batch_of rows;
}

abbrev pub outsider : String → Approval → ℕ × Refusal
outsider key a = (a.id, other_batch key)

unfoldable pub audit_of : DecideOptions → DecidedApproval → Audit
audit_of options d = record {
  actor_id = options.user_id;
  action = name_of options.decision;
  target_type = "hf_approval";
  target_id = decimal d.approval_id;
}

-- The record of an activity is the one of the approval.
unfoldable pub activity_of : DecideOptions → List Approval → DecidedApproval → Activity
activity_of options locked d =
    let target = find_where (has_id d.approval_id) locked in
    record {
      record_type = elim target [ none ↦ none | some a ↦ a.record_type ];
      record_id = elim target [ none ↦ none | some a ↦ a.record_id ];
      kind = name_of options.decision;
      actor_id = options.user_id;
      run_id = none;
      key = none;
    }

unfoldable pub record_decisions :
    DecideOptions → List Approval → List DecidedApproval → Tx (Unit {0})
unfolding audit_of activity_of
record_decisions options locked [] = pure tt
record_decisions options locked (d ∷ ds) =
    modify (λ db. record db {
      audits = db.audits ++ audit_of options d ∷ [];
      activities = db.activities ++ activity_of options locked d ∷ [];
    })
    >> record_decisions options locked ds

unfoldable pub batch_id_of : Env → List ℕ → Option String
batch_id_of env ids = if ltb 1 (length ids) then some env.fresh_id else none

unfoldable pub decide_fresh :
    Env → DecideOptions → List ℕ → List String → List Approval → Tx DecideResult
decide_fresh env options ids run_ids locked = do
  assert_decidable ids locked options
  let batch_id = batch_id_of env ids
  write_decisions options batch_id locked
  done ← resume_runs env options locked run_ids
  record_decisions options locked done.0
  pure (record { replayed = false; decided = done.0; reattempted = done.1; batch_id = batch_id })

-- Whether a locked row was decided under this key, and whether all were.
unfoldable pub decide_locked :
    Bool
    → Bool
    → Env
    → DecideOptions
    → List ℕ
    → List String
    → List Approval
    → List Run
    → Tx DecideResult
decide_locked false all env options ids run_ids locked runs =
    decide_fresh env options ids run_ids locked
decide_locked true true env options ids run_ids locked runs = pure (replay locked runs)
decide_locked true false env options ids run_ids locked runs = throw (
    approval_batch_refused (
      map (outsider options.decision_key)
        (select_where (λ a. not (carries_key options.decision_key a)) locked)))

unfoldable pub decide_rows :
    Option Approval
    → Env
    → DecideOptions
    → List ℕ
    → List String
    → List Approval
    → List Run
    → Tx DecideResult
decide_rows (some a) env options ids run_ids locked runs = throw (approval_run_moved a.id)
decide_rows none env options ids run_ids locked runs =
    let carrying = count_where (carries_key options.decision_key) locked in
    decide_locked (ltb 0 carrying) (eqb carrying (length locked)) env options ids run_ids locked
      runs

-- `scout` is the database that the read without locks saw.
unfoldable pub decide_work : Env → DecideOptions → Db → Tx DecideResult
decide_work env options scout = do
  let ids = sort_unique compare_nat options.ids
  let run_ids = run_ids_of (approvals_at ids scout)
  guard (not (any_where env.lock_timed_out run_ids))
      (plain "error" "canceling statement due to lock timeout")
  runs ← gets (runs_at run_ids)
  locked ← gets (approvals_at ids)
  decide_rows (moved_row run_ids locked) env options ids run_ids locked runs

unfoldable pub decide_once : Env → DecideOptions → Db → Exec DecideResult
decide_once env options scout =
    control_plane_tx env "approvals.decide" (decide_work env options scout)

-- `meanwhile` is what others commit between the two tries.
unfoldable pub retry :
    Env → DecideOptions → Db → (Db → Db) → Result DecideResult × Db → Result DecideResult × Db
retry env options again meanwhile (err (approval_run_moved id), db) =
    decide_once env options again (meanwhile db)
retry env options again meanwhile r = r

-- Edits that nothing can validate.
unfoldable pub is_unwired : DecideOptions → Bool
is_unwired options = ltb 0 (length options.edits) && not (is_some options.schema_for)

unfoldable pub decide : Env → DecideOptions → Db → Db → (Db → Db) → Exec DecideResult
unfolding retry
decide env options scout again meanwhile db =
    if env.within_workflow
    then (err (control_plane_in_workflow "approvals.decide"), db)
    else if is_unwired options
    then (err (edits_without_schemas "approvals.decide"), db)
    else retry env options again meanwhile (decide_once env options scout db)
