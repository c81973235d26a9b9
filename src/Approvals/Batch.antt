-- ===== src/Approvals/Batch.antt =====
-- `decide()` of packages/workflows/src/approvals.ts: what refuses a batch, and what it writes.
use Prim.Native.Nat.{Ordering}
use hyperfixation_core.Prelude.{
  ℕ, String, Bool, true, false, ◌==◌, ◌&&◌, not, Option, none, some, List, [], ◌∷◌, ◌++◌, map,
  select_where, eqb, if◌then◌else◌, or_else, find_where, update_where, count_where, any_where,
}
use hyperfixation_core.State.{
  Db, Approval, ApprovalStatus, ApprovalVia, Refusal, no_row, already, assigned_to, no_schema,
  bad_edit, approval_batch_refused, approval_write_lost,
}
use hyperfixation_core.State.Tx.{Tx, ◌>>=◌, ◌>>◌, pure, throw, modify, gets, guard}
use hyperfixation_core.ControlPlane.{Env, bump_and_enqueue_on}
use hyperfixation_core.Approvals.{is_pending}

pub data ApprovalDecisionKind : Type 0 where
  approved rejected expired cancelled : ApprovalDecisionKind

abbrev pub status_of : ApprovalDecisionKind → ApprovalStatus
status_of ApprovalDecisionKind.approved = ApprovalStatus.approved
status_of ApprovalDecisionKind.rejected = ApprovalStatus.rejected
status_of ApprovalDecisionKind.expired = ApprovalStatus.expired
status_of ApprovalDecisionKind.cancelled = ApprovalStatus.cancelled

abbrev pub name_of : ApprovalDecisionKind → String
name_of ApprovalDecisionKind.approved = "approval.approved"
name_of ApprovalDecisionKind.rejected = "approval.rejected"
name_of ApprovalDecisionKind.expired = "approval.expired"
name_of ApprovalDecisionKind.cancelled = "approval.cancelled"

-- `schema_for` gives, for a type that has one, what its schema makes of the text of an edit.
pub record DecideOptions : Type 0 where
  pub ids : List ℕ
  pub decision : ApprovalDecisionKind
  pub via : ApprovalVia
  pub decision_key : String
  pub user_id : Option String
  pub edits : List (ℕ × String)
  pub admin : Bool
  pub schema_for : Option (String → Option (String → Option String))

pub record DecidedApproval : Type 0 where
  pub approval_id : ℕ
  pub run_id : String
  pub key : String
  pub status : ApprovalStatus
  pub resume_workflow_id : String

pub record Reattempted : Type 0 where
  pub run_id : String
  pub attempt : ℕ
  pub workflow_id : String

pub record DecideResult : Type 0 where
  pub replayed : Bool
  pub decided : List DecidedApproval
  pub reattempted : List Reattempted
  pub batch_id : Option String

module _ {A : Type 0} (compare : A → A → Ordering) where
  unfoldable pub insert_sorted : A → List A → List A
  insert_sorted x [] = x ∷ []
  insert_sorted x (y ∷ ys) = elim (compare x y) [
    | Ordering.lt ↦ x ∷ y ∷ ys
    | Ordering.eq ↦ y ∷ ys
    | Ordering.gt ↦ y ∷ insert_sorted x ys
  ]

  -- `[...new Set(xs)].sort()`.
  unfoldable pub sort_unique : List A → List A
  sort_unique [] = []
  sort_unique (x ∷ xs) = insert_sorted x (sort_unique xs)

abbrev pub has_id : ℕ → Approval → Bool
has_id id a = eqb a.id id

-- WHERE id = ANY(ids) ORDER BY id, for sorted ids.
unfoldable pub approvals_at : List ℕ → Db → List Approval
approvals_at [] db = []
approvals_at (id ∷ ids) db = elim (find_where (has_id id) db.approvals) [
  | none ↦ approvals_at ids db
  | some a ↦ a ∷ approvals_at ids db
]

abbrev pub is_human : ApprovalVia → Bool
is_human ApprovalVia.archive = false
is_human ApprovalVia.sweep = false
is_human _ = true

-- The text of an edit, and what becomes of it.
pub data Edit : Type 0 where
  unchanged : Edit
  edited : String → Edit
  refused : Refusal → Edit

abbrev pub edit_of : ℕ → List (ℕ × String) → Option String
edit_of id [] = none
edit_of id ((other, text) ∷ edits) = if eqb other id then some text else edit_of id edits

unfoldable pub parse_edit : DecideOptions → Approval → Edit
parse_edit options row = elim (edit_of row.id options.edits) [
  | none ↦ unchanged
  | some text ↦ elim options.schema_for [
    | none ↦ refused (no_schema row.type)
    | some schemas ↦ elim (schemas row.type) [
      | none ↦ refused (no_schema row.type)
      | some parse ↦ elim (parse text) [
        | none ↦ refused (bad_edit row.type)
        | some draft ↦ edited draft
      ]
    ]
  ]
]

-- An assigned row is decided by its assignee or an admin; `archive` and `sweep` have no decider.
unfoldable pub is_foreign : DecideOptions → Approval → Bool
is_foreign options row = (is_human options.via && not options.admin) && elim row.assignee_id [
  | none ↦ false
  | some assignee ↦ elim options.user_id [ none ↦ true | some user ↦ not (assignee == user) ]
]

unfoldable pub row_reasons : DecideOptions → Approval → List (ℕ × Refusal)
unfolding is_foreign parse_edit
row_reasons options row =
    (if is_pending row.status then [] else (row.id, already row.status) ∷ [])
    ++ ((if is_foreign options row
          then (row.id, assigned_to (or_else row.assignee_id "")) ∷ []
          else [])
        ++ elim (parse_edit options row) [ refused r ↦ (row.id, r) ∷ [] | _ ↦ [] ])

unfoldable pub missing_reasons : List ℕ → List Approval → List (ℕ × Refusal)
missing_reasons [] locked = []
missing_reasons (id ∷ ids) locked =
    if any_where (has_id id) locked
    then missing_reasons ids locked
    else (id, no_row) ∷ missing_reasons ids locked

unfoldable pub rows_reasons : DecideOptions → List Approval → List (ℕ × Refusal)
rows_reasons options [] = []
rows_reasons options (row ∷ rows) = row_reasons options row ++ rows_reasons options rows

abbrev pub refuse_for : List (ℕ × Refusal) → Tx (Unit {0})
refuse_for [] = pure tt
refuse_for (reason ∷ reasons) = throw (approval_batch_refused (reason ∷ reasons))

-- Every reason is gathered before anything is written.
unfoldable pub assert_decidable : List ℕ → List Approval → DecideOptions → Tx (Unit {0})
assert_decidable ids locked options =
    refuse_for (missing_reasons ids locked ++ rows_reasons options locked)

unfoldable pub decide_row : DecideOptions → Option String → Edit → ℕ → Approval → Approval
decide_row options batch_id edit now a = record a {
  status = status_of options.decision;
  decided_by = options.user_id;
  decided_at = some now;
  decided_via = some options.via;
  edited_draft = elim edit [ edited draft ↦ some draft | _ ↦ a.edited_draft ];
  decision_key = some options.decision_key;
  batch_id = batch_id;
}

-- The rows that DECIDE_STATEMENT matches.
abbrev pub is_open_row : ℕ → Approval → Bool
is_open_row id a = has_id id a && is_pending a.status

unfoldable pub write_decision : DecideOptions → Option String → Approval → Tx (Unit {0})
unfolding decide_row
write_decision options batch_id row = do
  matched ← gets (λ db. count_where (is_open_row row.id) db.approvals)
  modify λ db. record db {
    approvals =
        update_where (is_open_row row.id)
          (decide_row options batch_id (parse_edit options row) db.now) db.approvals;
  }
  guard (eqb matched 1) (approval_write_lost row.id matched)

unfoldable pub write_decisions : DecideOptions → Option String → List Approval → Tx (Unit {0})
write_decisions options batch_id [] = pure tt
write_decisions options batch_id (row ∷ rows) =
    write_decision options batch_id row >> write_decisions options batch_id rows

abbrev pub is_of_run : String → Approval → Bool
is_of_run run_id a = a.run_id == run_id

abbrev pub resume_row : String → Approval → Approval
resume_row workflow_id a = record a { resume_workflow_id = some workflow_id }

-- RESUME_WORKFLOW_STATEMENT.
unfoldable pub write_resume : List Approval → String → Tx (Unit {0})
write_resume theirs workflow_id = modify λ db. record db {
  approvals =
      update_where (λ a. any_where (has_id a.id) theirs) (resume_row workflow_id) db.approvals;
}

abbrev pub decided_as : DecideOptions → String → Approval → DecidedApproval
decided_as options workflow_id row = record {
  approval_id = row.id;
  run_id = row.run_id;
  key = row.key;
  status = status_of options.decision;
  resume_workflow_id = workflow_id;
}

-- Every run of the batch is bumped once, and its rows carry the attempt that resumes it.
unfoldable pub resume_runs :
    Env → DecideOptions → List Approval → List String → Tx (List DecidedApproval × List Reattempted)
resume_runs env options locked [] = pure ([], [])
resume_runs env options locked (run_id ∷ run_ids) = do
  bumped ← bump_and_enqueue_on env run_id
  let theirs = select_where (is_of_run run_id) locked
  write_resume theirs bumped.workflow_id
  rest ← resume_runs env options locked run_ids
  pure (
    map (decided_as options bumped.workflow_id) theirs ++ rest.0,
    record { run_id = run_id; attempt = bumped.attempt; workflow_id = bumped.workflow_id } ∷ rest.1,
  )
