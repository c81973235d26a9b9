-- ===== src/Records/Cancelled.antt =====
-- packages/core/src/records.ts: what the calls of `decide()` of an archive make of the approvals.
use mathlib.Core.Option
use hyperfixation_core.Prelude.{
  ℕ, ◌≤◌, String, Bool, true, false, Option, some, List, [], ◌∷◌, ◌≡◌, refl, sym, ap, subst, ◌∙◌,
  arith, All, All-update, eqb, if◌then◌else◌, ◌&&◌, is_some, find_where, count_where, any_where,
  count_where-update_ne, Option-cases, All-find, ◌⊎◌, inl, inr, find_where-update, update_where,
}
use hyperfixation_core.State.{Db, Approval, Result, ok, err, ApprovalStatus}
use hyperfixation_core.ControlPlane.{Env}
use hyperfixation_core.ControlPlane.Atomic.{control_plane_atomic}
use hyperfixation_core.Approvals.{is_pending}
use hyperfixation_core.Approvals.Batch.{
  DecideOptions, DecideResult, has_id, decide_row, resume_row, Edit,
}
use hyperfixation_core.Approvals.Decide.{decide, decide_once, decide_work, carries_key}
use hyperfixation_core.Approvals.Decide.Final.{Verdict, verdict, Stays}
use hyperfixation_core.Approvals.Decide.Verdicts.{verdict_is_final, either}
use hyperfixation_core.Approvals.Decide.Kept.{Kept, decide-keeps}
use hyperfixation_core.Approvals.Decide.Single.{decide_work-fresh, decide-once}
use hyperfixation_core.Approvals.Decide.Whole.{batch_is_whole, Carries-Stays, status_of-closed}
use hyperfixation_core.Records.{
  ArchiveOptions, cancellation_of, cancel_approvals, after_cancel, more_cancelled,
}

-- The ids of the table are unique, and a row that is pending carries no decision key.
abbrev pub is_keyed : Approval → Bool
is_keyed a = is_some a.decision_key && is_pending a.status

pub record Sound (xs : List Approval) : Type 0 where
  pub single : (i : ℕ) → count_where (has_id i) xs ≤ 1
  pub unkeyed : All (λ a. is_keyed a ≡ false) xs

pub Sound-Kept : (o : DecideOptions) → Kept o Sound
unfolding decide_row
Sound-Kept o = record {
  on_decision = λ batch edit now p xs s. record {
    single = λ i.
        subst (λ n. n ≤ 1)
          (sym (count_where-update_ne p (has_id i) (decide_row o batch edit now) (λ x _. refl) xs))
          (s.single i);
    unkeyed =
        All-update p (λ a. is_keyed a ≡ false) (decide_row o batch edit now)
          (λ x _ _. decided batch edit now x) xs s.unkeyed;
  };
  on_resume = λ workflow_id p xs s. record {
    single = λ i.
        subst (λ n. n ≤ 1)
          (sym (count_where-update_ne p (has_id i) (resume_row workflow_id) (λ x _. refl) xs))
          (s.single i);
    unkeyed =
        All-update p (λ a. is_keyed a ≡ false) (resume_row workflow_id) (λ x _ u. u) xs s.unkeyed;
  };
}
  where
    decided :
        (batch : Option String) (edit : Edit) (now : ℕ) (x : Approval)
        → is_keyed (decide_row o batch edit now x) ≡ false
    decided batch edit now x = status_of-closed o.decision

-- The row under the id is pending or was cancelled.
abbrev pub IsDue : ApprovalStatus → Type 0
IsDue w = (is_pending w ≡ true) ⊎ (w ≡ ApprovalStatus.cancelled)

pub record Due (i : ℕ) (xs : List Approval) : Type 0 where
  pub row : Approval
  pub found : find_where (has_id i) xs ≡ some row
  pub due : IsDue row.status

update-Due :
    (i : ℕ) (p : Approval → Bool) (f : Approval → Approval) (xs : List Approval)
    → ((a : Approval) → (f a).id ≡ a.id)
    → ((a : Approval) → IsDue a.status → IsDue (f a).status)
    → Due i xs
    → Due i (update_where p f xs)
update-Due i p f xs key keeps d = record {
  row = if p d.row then f d.row else d.row;
  found =
      find_where-update p (has_id i) f (λ a. ap (λ k. eqb k i) (key a)) xs
      ∙ ap (Option.map (λ a. if p a then f a else a)) d.found;
  due = either (λ a. IsDue a.status) (p d.row) (f d.row) d.row (keeps d.row d.due) d.due;
}

pub Due-Kept : (i j : ℕ) (options : ArchiveOptions) → Kept (cancellation_of options j) (Due i)
unfolding decide_row cancellation_of
Due-Kept i j options = record {
  on_decision = λ batch edit now p xs d.
      update-Due i p (decide_row (cancellation_of options j) batch edit now) xs (λ a. refl)
        (λ a _. inr refl) d;
  on_resume =
      λ workflow_id p xs d. update-Due i p (resume_row workflow_id) xs (λ a. refl) (λ a u. u) d;
}

-- The row under the id was cancelled.
pub record Cancelled (i : ℕ) (db : Db) : Type 0 where
  pub final : Verdict
  pub status : final.status ≡ ApprovalStatus.cancelled
  pub stays : Stays i final db

module _ (env : Env) (options : ArchiveOptions) (i : ℕ) where
  closes : (v : Verdict) (db : Db) → Stays i v db → Due i db.approvals → Cancelled i db
  closes v db s d =
      let same : d.row ≡ s.row = ground (arith, d.found, s.found) in
      elim d.due [
        | inl pending ↦
            absurd
              (ground (arith, pending, s.closed, ap (λ (a : Approval). is_pending a.status) same))
        | inr cancelled ↦ record {
          final = v;
          status =
              ap (λ (w : Verdict). w.status) (sym s.same)
              ∙ ap (λ (a : Approval). a.status) (sym same)
              ∙ cancelled;
          stays = s;
        }
      ]

  unkeyed_pending :
      (key : String) (row : Approval)
      → is_keyed row ≡ false
      → is_pending row.status ≡ true
      → carries_key key row ≡ false
  unkeyed_pending key row u p = elim (Option-cases row.decision_key) [
    | inl e ↦ rw e refl
    | inr (k, e) ↦ absurd (ground (arith, u, p, e))
  ]

  once-fresh :
      (row : Approval) (db : Db) (r : DecideResult) (db' : Db)
      → decide_once env (cancellation_of options i) db db ≡ (ok r, db')
      → carries_key (cancellation_of options i).decision_key row ≡ false
      → find_where (has_id i) db.approvals ≡ some row
      → r.replayed ≡ false
  unfolding decide_once cancellation_of
  once-fresh row db r db' once unkeyed found =
      decide_work-fresh env (cancellation_of options i) row unkeyed i db r db' refl found
        (control_plane_atomic env "approvals.decide"
          (decide_work env (cancellation_of options i) db) db (ok r) db' once).2

  asked : any_where (λ j. eqb j i) (cancellation_of options i).ids ≡ true
  unfolding cancellation_of any_where
  asked = ground arith

  pub cancels :
      (db : Db) (r : DecideResult) (db' : Db)
      → decide env (cancellation_of options i) db db (λ d. d) db ≡ (ok r, db')
      → Sound db.approvals
      → Due i db.approvals
      → Cancelled i db'
  cancels db r db' h s d = elim d.due [
    | inl pending ↦
        closes _ db'
          (Carries-Stays (cancellation_of options i) r.batch_id i db' (
            batch_is_whole env (cancellation_of options i) db db r db' i s.single
              (decide-once env (cancellation_of options i) db r db' h)
              (once-fresh d.row db r db' (decide-once env (cancellation_of options i) db r db' h)
                (unkeyed_pending (cancellation_of options i).decision_key d.row
                  (All-find (has_id i) (λ a. is_keyed a ≡ false) db.approvals d.row s.unkeyed
                    d.found)
                  pending)
                d.found)
              asked))
          due
    | inr cancelled ↦
        closes (verdict d.row) db'
          (subst (λ (t : Result DecideResult × Db). Stays i (verdict d.row) t.1) h
            (verdict_is_final i (verdict d.row) env (cancellation_of options i) db db (λ d. d) db
              (λ d k. k)
              (record {
                row = d.row;
                found = d.found;
                same = refl;
                closed = ap is_pending cancelled;
              })))
          due
  ]
    where
      due : Due i db'.approvals
      due =
          subst (λ (t : Result DecideResult × Db). Due i t.1.approvals) h
            (decide-keeps (cancellation_of options i) (Due i) (Due-Kept i i options) env db db db d)

module _ (env : Env) (options : ArchiveOptions) (id : ℕ) (v : Verdict) where
  more_cancelled-db : (ids : List ℕ) (t : Result (List ℕ) × Db) → (more_cancelled ids t).1 ≡ t.1
  more_cancelled-db ids (ok x, d) = refl
  more_cancelled-db ids (err e, d) = refl

  after_cancel-Stays :
      (rest : Db → Result (List ℕ) × Db) (t : Result DecideResult × Db)
      → ((d : Db) → Stays id v d → Stays id v (rest d).1)
      → Stays id v t.1
      → Stays id v (after_cancel rest t).1
  after_cancel-Stays rest (ok r, d) keeps s = rw (more_cancelled-db _ (rest d)) (keeps d s)
  after_cancel-Stays rest (err e, d) keeps s = s

  pub cancel_approvals-Stays :
      (ids : List ℕ) (db : Db) → Stays id v db → Stays id v (cancel_approvals env options ids db).1
  unfolding cancel_approvals
  cancel_approvals-Stays [] db s = s
  cancel_approvals-Stays (i ∷ ids) db s =
      after_cancel-Stays (cancel_approvals env options ids)
        (decide env (cancellation_of options i) db db (λ d. d) db)
        (λ d. cancel_approvals-Stays ids d)
        (verdict_is_final id v env (cancellation_of options i) db db (λ d. d) db (λ d k. k) s)
