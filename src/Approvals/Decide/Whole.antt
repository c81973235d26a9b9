-- ===== src/Approvals/Decide/Whole.antt =====
-- A batch is decided as a whole.
use Prim.Native.Nat.{compare as compare_nat}
use hyperfixation_core.Prelude.{
  ℕ, String, ◌≡◌, ◌≤◌, refl, subst, ap, ◌∙◌, arith, true, false, ◌||◌, Option, some, List, [], ◌∷◌,
  ◌++◌, eqb, eqb→eq, find_where, update_where, count_where, any_where, count_where_unique,
  count_where-both_le, find_where-update_unique, count_where-update_ne, find_where-none_count,
  Option-cases, Bool-cases, inl, inr,
}
use hyperfixation_core.State.{Db, Approval, Refusal, ok}
use hyperfixation_core.State.Tx.{>>=-eq-ok}
use hyperfixation_core.ControlPlane.{Env}
use hyperfixation_core.ControlPlane.Atomic.{control_plane_atomic}
use hyperfixation_core.Approvals.{is_pending}
use hyperfixation_core.Approvals.Batch.{
  ApprovalDecisionKind, DecideOptions, DecideResult, has_id, is_open_row, decide_row, status_of,
  parse_edit, refuse_for, assert_decidable, missing_reasons, rows_reasons, write_decision,
  write_decisions, sort_unique, insert_sorted,
}
use hyperfixation_core.Approvals.Decide.{decide_once, decide_work, batch_id_of}
use hyperfixation_core.Approvals.Decide.Final.{
  verdict, Stays, kept-Stays, record_decisions-approvals, resume_runs-Stays, write_decisions-Stays,
}
use hyperfixation_core.Approvals.Decide.Verdicts.{Decides, decide_work-Ends}

-- The row of an approval carries the decision of the options.
pub record Carries (options : DecideOptions) (batch : Option String) (id : ℕ) (db : Db)
    : Type 0 where
  pub row : Approval
  pub found : find_where (has_id id) db.approvals ≡ some row
  pub status : row.status ≡ status_of options.decision
  pub decided_by : row.decided_by ≡ options.user_id
  pub decided_via : row.decided_via ≡ some options.via
  pub key : row.decision_key ≡ some options.decision_key
  pub batch_id : row.batch_id ≡ batch

pub status_of-closed : (k : ApprovalDecisionKind) → is_pending (status_of k) ≡ false
status_of-closed ApprovalDecisionKind.approved = refl
status_of-closed ApprovalDecisionKind.rejected = refl
status_of-closed ApprovalDecisionKind.expired = refl
status_of-closed ApprovalDecisionKind.cancelled = refl

pub Carries-Stays :
    (options : DecideOptions) (batch : Option String) (id : ℕ) (db : Db)
    → (c : Carries options batch id db) → Stays id (verdict c.row) db
Carries-Stays options batch id db c = record {
  row = c.row;
  found = c.found;
  same = refl;
  closed = ap is_pending c.status ∙ status_of-closed options.decision;
}

Stays-Carries :
    (options : DecideOptions) (batch : Option String) (id : ℕ) (db db' : Db)
    → (c : Carries options batch id db) → Stays id (verdict c.row) db'
    → Carries options batch id db'
Stays-Carries options batch id db db' c s = record {
  row = s.row;
  found = s.found;
  status = ap (λ v. v.status) s.same ∙ c.status;
  decided_by = ap (λ v. v.decided_by) s.same ∙ c.decided_by;
  decided_via = ap (λ v. v.decided_via) s.same ∙ c.decided_via;
  key = ap (λ v. v.decision_key) s.same ∙ c.key;
  batch_id = ap (λ v. v.batch_id) s.same ∙ c.batch_id;
}

module _ (options : DecideOptions) (batch : Option String) where
  -- The row that the conditional update matched under a unique id.
  write_decision-Carries :
      (row : Approval) (db db' : Db)
      → count_where (has_id row.id) db.approvals ≤ 1
      → write_decision options batch row db ≡ ok (tt, db')
      → Carries options batch row.id db'
  unfolding write_decision
  write_decision-Carries row db db' single h =
      elim (Option-cases (find_where (has_id row.id) db.approvals)) [
        | inl e ↦ absurd (
            ground (
              arith,
              h,
              count_where-both_le (has_id row.id) (λ a. is_pending a.status) db.approvals,
              find_where-none_count (has_id row.id) db.approvals e,
            ))
        | inr (x, e) ↦ record {
          row = written x;
          found =
              ap (find_where (has_id row.id)) wrote
              ∙ (find_where-update_unique (has_id row.id) (λ a. is_pending a.status) written
                    (λ a. refl) db.approvals x e
                  ∙ rw (pending x e) refl);
          status = refl;
          decided_by = refl;
          decided_via = refl;
          key = refl;
          batch_id = refl;
        }
      ]
    where
      written : Approval → Approval
      written = decide_row options batch (parse_edit options row) db.now

      one : count_where (is_open_row row.id) db.approvals ≡ 1
      one = ground arith

      wrote : db'.approvals ≡ update_where (is_open_row row.id) written db.approvals
      wrote = ground arith

      pending :
          (x : Approval)
          → find_where (has_id row.id) db.approvals ≡ some x
          → is_pending x.status ≡ true
      pending x e = ground (
        arith,
        one,
        count_where_unique (has_id row.id) (λ a. is_pending a.status) db.approvals x single e,
      )

  write_decision-single :
      (row : Approval) (id : ℕ) (db db' : Db)
      → write_decision options batch row db ≡ ok (tt, db')
      → count_where (has_id id) db'.approvals ≡ count_where (has_id id) db.approvals
  unfolding write_decision
  write_decision-single row id db db' h =
      ap (count_where (has_id id)) wrote
      ∙ count_where-update_ne (is_open_row row.id) (has_id id)
          (decide_row options batch (parse_edit options row) db.now) (λ a _. refl) db.approvals
    where
      wrote :
          db'.approvals
          ≡ update_where
              (is_open_row row.id)
              (decide_row options batch (parse_edit options row) db.now)
              db.approvals
      wrote = ground arith

  write_decisions-Carries :
      (rows : List Approval) (id : ℕ) (db db' : Db)
      → ((id : ℕ) → count_where (has_id id) db.approvals ≤ 1)
      → write_decisions options batch rows db ≡ ok (tt, db')
      → any_where (has_id id) rows ≡ true
      → Carries options batch id db'
  unfolding write_decisions any_where
  write_decisions-Carries [] id db db' single h k = absurd (ground (arith, k))
  write_decisions-Carries (row ∷ rows) id db db' single h k =
      let (u, mid, first, rest) = >>=-eq-ok (write_decision options batch row) _ db tt db' h in
      elim (Bool-cases (eqb row.id id)) [
        | inl e ↦
            let c =
              subst (λ i. Carries options batch i mid) (eqb→eq row.id id e)
                (write_decision-Carries row db mid (single row.id) first) in
            Stays-Carries options batch id mid db' c (
              write_decisions-Stays id (verdict c.row) options batch rows mid db' rest
                (Carries-Stays options batch id mid c))
        | inr e ↦
            write_decisions-Carries rows id mid db'
              (λ i. rw (write_decision-single row i db mid first) (single i)) rest
              (ground (arith, k, e))
      ]

missing_reasons-listed :
    (ids : List ℕ) (locked : List Approval) (id : ℕ)
    → missing_reasons ids locked ≡ []
    → any_where (λ i. eqb i id) ids ≡ true
    → any_where (has_id id) locked ≡ true
unfolding missing_reasons any_where
missing_reasons-listed [] locked id h k = absurd (ground (arith, k))
missing_reasons-listed (i ∷ ids) locked id h k = elim (Bool-cases (any_where (has_id i) locked)) [
  | inl e ↦ elim (Bool-cases (eqb i id)) [
    | inl f ↦ subst (λ j. any_where (has_id j) locked ≡ true) (eqb→eq i id f) e
    | inr f ↦ missing_reasons-listed ids locked id (ground (arith, h, e)) (ground (arith, k, f))
  ]
  | inr e ↦ absurd (ground (arith, h, e))
]

no_reasons :
    (missing others : List (ℕ × Refusal)) (db : Db)
    → refuse_for (missing ++ others) db ≡ ok (tt, db)
    → missing ≡ []
no_reasons [] others db h = refl
no_reasons (reason ∷ missing) others db h = absurd (ground (arith, h))

assert_decidable-listed :
    (ids : List ℕ) (locked : List Approval) (options : DecideOptions) (db : Db)
    → assert_decidable ids locked options db ≡ ok (tt, db)
    → missing_reasons ids locked ≡ []
unfolding assert_decidable
assert_decidable-listed ids locked options db h =
    no_reasons (missing_reasons ids locked) (rows_reasons options locked) db h

insert_sorted-has :
    (id x : ℕ) (xs : List ℕ)
    → any_where (λ i. eqb i id) (insert_sorted compare_nat x xs)
      ≡ (eqb x id || any_where (λ i. eqb i id) xs)
unfolding insert_sorted any_where
insert_sorted-has id x [] = refl
insert_sorted-has id x (y ∷ ys) = ground (arith, insert_sorted-has id x ys)

pub sort_unique-has :
    (id : ℕ) (xs : List ℕ)
    → any_where (λ i. eqb i id) (sort_unique compare_nat xs) ≡ any_where (λ i. eqb i id) xs
unfolding sort_unique any_where
sort_unique-has id [] = refl
sort_unique-has id (x ∷ xs) =
    ground (arith, insert_sorted-has id x (sort_unique compare_nat xs), sort_unique-has id xs)

module _ (options : DecideOptions) (id : ℕ) where
  Decides-Carries :
      {env : Env} {ids : List ℕ} {run_ids : List String} {locked : List Approval} {db : Db}
      {r : DecideResult} {db' : Db}
      → ((i : ℕ) → count_where (has_id i) db.approvals ≤ 1)
      → any_where (λ i. eqb i id) ids ≡ true
      → Decides env options ids run_ids locked db r db'
      → Carries options r.batch_id id db'
  Decides-Carries {env} {ids} {run_ids} {locked} {db} {r} {db'} single listed d =
      let batch = batch_id_of env ids in
      let c = write_decisions-Carries options batch locked id db d.mid single d.written (
        missing_reasons-listed ids locked id
          (assert_decidable-listed ids locked options db d.checked) listed) in
      rw d.result (
        Stays-Carries options batch id d.mid db' c (
          kept-Stays id (verdict c.row) d.late db'
            (record_decisions-approvals options locked d.done.0 d.late db' d.recorded)
            (resume_runs-Stays id (verdict c.row) env options locked run_ids d.mid d.done d.late
              d.resumed (Carries-Stays options batch id d.mid c))))

-- A batch that was decided and not replayed was decided as a whole: every approval that was asked
-- for has its row, and the row carries the status, the decider, the channel, the key and the batch
-- of this decision. It is stated for a table whose ids are unique.
pub batch_is_whole :
    (env : Env) (options : DecideOptions) (scout db : Db) (r : DecideResult) (db' : Db) (id : ℕ)
    → ((i : ℕ) → count_where (has_id i) db.approvals ≤ 1)
    → decide_once env options scout db ≡ (ok r, db')
    → r.replayed ≡ false
    → any_where (λ i. eqb i id) options.ids ≡ true
    → Carries options r.batch_id id db'
unfolding decide_once
batch_is_whole env options scout db r db' id single h fresh listed =
    elim (decide_work-Ends env options scout db r db'
      (control_plane_atomic env "approvals.decide" (decide_work env options scout) db (ok r) db'
        h).2).0 [
          | inl d ↦ Decides-Carries options id single (sort_unique-has id options.ids ∙ listed) d
          | inr again ↦ absurd (ground (arith, again.0, fresh))
        ]
