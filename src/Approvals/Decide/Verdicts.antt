-- ===== src/Approvals/Decide/Verdicts.antt =====
-- What a decision leaves: every row of the batch carries its verdict, and no other verdict changed.
use Prim.Native.Nat.{compare as compare_nat}
use hyperfixation_core.Prelude.{
  ℕ, String, ◌≡◌, refl, ap, ◌∙◌, ◌⊎◌, arith, Bool, true, false, Option, none, some, List, [], ◌∷◌,
  ◌++◌, if◌then◌else◌, any_where, Bool-cases, inl, inr,
}
use hyperfixation_core.State.{
  Db, Run, Approval, Refusal, Result, ok, err, approval_run_moved, control_plane_in_workflow,
  edits_without_schemas,
}
use hyperfixation_core.State.Tx.{>>=-eq-ok}
use hyperfixation_core.ControlPlane.{Env}
use hyperfixation_core.ControlPlane.Atomic.{control_plane_atomic}
use hyperfixation_core.Approvals.Batch.{
  DecideOptions, DecidedApproval, Reattempted, DecideResult, refuse_for, assert_decidable,
  missing_reasons, rows_reasons, write_decisions, resume_runs, sort_unique, approvals_at,
}
use hyperfixation_core.Approvals.Decide.{
  record_decisions, batch_id_of, decide_fresh, decide_locked, decide_rows, decide_work, decide_once,
  retry, is_unwired, decide, moved_row, replay, run_ids_of, runs_at,
}
use hyperfixation_core.Approvals.Decide.Final.{
  Verdict, Stays, kept-Stays, write_decisions-Stays, resume_runs-Stays, record_decisions-approvals,
}

-- A transaction that decided afresh, step by step.
pub record Decides (env : Env) (options : DecideOptions) (ids : List ℕ) (run_ids : List String)
    (locked : List Approval) (db : Db) (r : DecideResult) (db' : Db) : Type 0 where
  pub checked : assert_decidable ids locked options db ≡ ok (tt, db)
  pub mid : Db
  pub written : write_decisions options (batch_id_of env ids) locked db ≡ ok (tt, mid)
  pub done : List DecidedApproval × List Reattempted
  pub late : Db
  pub resumed : resume_runs env options locked run_ids mid ≡ ok (done, late)
  pub recorded : record_decisions options locked done.0 late ≡ ok (tt, db')
  pub result : r ≡ record {
    replayed = false;
    decided = done.0;
    reattempted = done.1;
    batch_id = batch_id_of env ids;
  }

refuse_for-db :
    (reasons : List (ℕ × Refusal)) (db db' : Db) → refuse_for reasons db ≡ ok (tt, db') → db' ≡ db
refuse_for-db [] db db' h = ground arith
refuse_for-db (reason ∷ reasons) db db' h = absurd (ground (arith, h))

assert_decidable-db :
    (ids : List ℕ) (locked : List Approval) (options : DecideOptions) (db db' : Db)
    → assert_decidable ids locked options db ≡ ok (tt, db')
    → db' ≡ db
unfolding assert_decidable
assert_decidable-db ids locked options db db' h =
    refuse_for-db (missing_reasons ids locked ++ rows_reasons options locked) db db' h

pub decide_fresh-Decides :
    (env : Env) (options : DecideOptions) (ids : List ℕ) (run_ids : List String)
    (locked : List Approval) (db : Db) (r : DecideResult) (db' : Db)
    → decide_fresh env options ids run_ids locked db ≡ ok (r, db')
    → Decides env options ids run_ids locked db r db'
unfolding decide_fresh
decide_fresh-Decides env options ids run_ids locked db r db' h =
    let (u₀, d₀, checked, h₀) = >>=-eq-ok (assert_decidable ids locked options) _ db r db' h in
    let (u₁, d₁, written, h₁) =
      >>=-eq-ok (write_decisions options (batch_id_of env ids) locked) _ d₀ r db' h₀ in
    let (done, d₂, resumed, h₂) =
      >>=-eq-ok (resume_runs env options locked run_ids) _ d₁ r db' h₁ in
    let (u₃, d₃, recorded, h₃) = >>=-eq-ok (record_decisions options locked done.0) _ d₂ r db' h₂ in
    let same : d₀ ≡ db = assert_decidable-db ids locked options db d₀ checked in
    let last : d₃ ≡ db' = ground (arith, h₃) in
    record {
      checked = checked ∙ ap (λ d. ok (tt, d)) same;
      mid = d₁;
      written = rw (← same) written;
      done = done;
      late = d₂;
      resumed = resumed;
      recorded = rw (← last) recorded;
      result = ground (arith, h₃);
    }

pub Decides-Stays :
    (id : ℕ) (v : Verdict) {env : Env} {options : DecideOptions} {ids : List ℕ}
    {run_ids : List String} {locked : List Approval} {db : Db} {r : DecideResult} {db' : Db}
    → Decides env options ids run_ids locked db r db'
    → Stays id v db
    → Stays id v db'
Decides-Stays id v {env} {options} {ids} {run_ids} {locked} {db} {db'} d s =
    kept-Stays id v d.late db'
      (record_decisions-approvals options locked d.done.0 d.late db' d.recorded)
      (resume_runs-Stays id v env options locked run_ids d.mid d.done d.late d.resumed
        (write_decisions-Stays id v options _ locked db d.mid d.written s))

-- A transaction that ended decided afresh, or replayed and wrote nothing.
abbrev pub Ends :
    Env → DecideOptions → List ℕ → List String → List Approval → Db → DecideResult → Db → Type 0
Ends env options ids run_ids locked db r db' =
    Decides env options ids run_ids locked db r db' ⊎ ((r.replayed ≡ true) × (db' ≡ db))

module _ (env : Env) (options : DecideOptions) where
  decide_locked-Ends :
      (some_carry all_carry : Bool) (ids : List ℕ) (run_ids : List String) (locked : List Approval)
      (runs : List Run) (db : Db) (r : DecideResult) (db' : Db)
      → decide_locked some_carry all_carry env options ids run_ids locked runs db ≡ ok (r, db')
      → Ends env options ids run_ids locked db r db'
  unfolding decide_locked replay
  decide_locked-Ends false all ids run_ids locked runs db r db' h =
      inl (decide_fresh-Decides env options ids run_ids locked db r db' h)
  decide_locked-Ends true true ids run_ids locked runs db r db' h = inr (ground arith, ground arith)
  decide_locked-Ends true false ids run_ids locked runs db r db' h = absurd (ground arith)

  decide_rows-Ends :
      (moved : Option Approval) (ids : List ℕ) (run_ids : List String) (locked : List Approval)
      (runs : List Run) (db : Db) (r : DecideResult) (db' : Db)
      → decide_rows moved env options ids run_ids locked runs db ≡ ok (r, db')
      → Ends env options ids run_ids locked db r db' × (moved ≡ none)
  unfolding decide_rows
  decide_rows-Ends (some a) ids run_ids locked runs db r db' h = absurd (ground arith)
  decide_rows-Ends none ids run_ids locked runs db r db' h =
      (decide_locked-Ends _ _ ids run_ids locked runs db r db' h, refl)

  pub decide_work-Ends :
      (scout db : Db) (r : DecideResult) (db' : Db)
      → decide_work env options scout db ≡ ok (r, db')
      → Ends env options
          (sort_unique compare_nat options.ids)
          (run_ids_of (approvals_at (sort_unique compare_nat options.ids) scout))
          (approvals_at (sort_unique compare_nat options.ids) db)
          db
          r
          db'
        × (moved_row
              (run_ids_of (approvals_at (sort_unique compare_nat options.ids) scout))
              (approvals_at (sort_unique compare_nat options.ids) db)
            ≡ none)
  unfolding decide_work
  decide_work-Ends scout db r db' h = elim (Bool-cases (any_where env.lock_timed_out run_ids)) [
    | inl e ↦ absurd (ground (arith, h, e))
    | inr e ↦
        decide_rows-Ends (moved_row run_ids (approvals_at ids db)) ids run_ids (approvals_at ids db)
          (runs_at run_ids db) db r db' (ground (arith, h, e))
  ]
    where
      ids : List ℕ
      ids = sort_unique compare_nat options.ids

      run_ids : List String
      run_ids = run_ids_of (approvals_at ids scout)

  decide_once-Stays :
      (id : ℕ) (v : Verdict) (scout db : Db)
      → Stays id v db
      → Stays id v (decide_once env options scout db).1
  unfolding decide_once
  decide_once-Stays id v scout db s = go (decide_once env options scout db) refl
    where
      go : (t : Result DecideResult × Db) → decide_once env options scout db ≡ t → Stays id v t.1
      go (err e, db') h =
          rw
            (control_plane_atomic env "approvals.decide" (decide_work env options scout) db (err e)
              db' h)
            s
      go (ok r, db') h =
          elim (decide_work-Ends scout db r db'
            (control_plane_atomic env "approvals.decide" (decide_work env options scout) db (ok r)
              db' h).2).0 [ inl d ↦ Decides-Stays id v d s | inr same ↦ rw same.1 s ]

  retry-Stays :
      (id : ℕ) (v : Verdict) (again : Db) (meanwhile : Db → Db)
      → ((d : Db) → Stays id v d → Stays id v (meanwhile d))
      → (t : Result DecideResult × Db) → Stays id v t.1
      → Stays id v (retry env options again meanwhile t).1
  unfolding retry
  retry-Stays id v again meanwhile keeps (err (approval_run_moved n), db) s =
      decide_once-Stays id v again (meanwhile db) (keeps db s)
  retry-Stays id v again meanwhile keeps (err e, db) s = s
  retry-Stays id v again meanwhile keeps (ok r, db) s = s

pub either : {A : Type 0} (P : A → Type 0) (b : Bool) (x y : A) → P x → P y → P (if b then x else y)
either P true x y p q = p
either P false x y p q = q

-- A verdict is final: whatever a call of `decide()` is asked and however it ends, a row that was
-- not pending keeps its status, its draft, who decided it, when and how, its key and its batch.
-- It is stated for others that, between the two tries of the call, keep the verdict too.
pub verdict_is_final :
    (id : ℕ) (v : Verdict) (env : Env) (options : DecideOptions) (scout again : Db)
    (meanwhile : Db → Db) (db : Db)
    → ((d : Db) → Stays id v d → Stays id v (meanwhile d))
    → Stays id v db
    → Stays id v (decide env options scout again meanwhile db).1
unfolding decide
verdict_is_final id v env options scout again meanwhile db keeps s =
    either {A = Result DecideResult × Db} (λ t. Stays id v t.1) env.within_workflow
      (err (control_plane_in_workflow "approvals.decide"), db) _ s
      (either {A = Result DecideResult × Db} (λ t. Stays id v t.1) (is_unwired options)
        (err (edits_without_schemas "approvals.decide"), db)
        (retry env options again meanwhile (decide_once env options scout db)) s
        (retry-Stays env options id v again meanwhile keeps (decide_once env options scout db)
          (decide_once-Stays env options id v scout db s)))
