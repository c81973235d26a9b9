-- ===== src/Records/Pending.antt =====
-- packages/core/src/records.ts: the approvals that are pending on the record of an archive.
use hyperfixation_core.Prelude.{
  ℕ, true, some, List, [], ◌∷◌, ◌≡◌, refl, ap, subst, ◌∙◌, arith, eqb, find_where, any_where,
  select_where, map, Bool-cases, inl, inr, eqb→eq,
}
use hyperfixation_core.State.{Db, Approval, Result, ok, err}
use hyperfixation_core.ControlPlane.{Env}
use hyperfixation_core.Approvals.Batch.{DecideResult, has_id}
use hyperfixation_core.Approvals.Decide.{decide}
use hyperfixation_core.Approvals.Decide.Final.{kept-Stays, Stays}
use hyperfixation_core.Approvals.Decide.Kept.{Kept, decide-keeps}
use hyperfixation_core.Registry.{Registry}
use hyperfixation_core.Records.Cancelled.{
  Sound, Sound-Kept, Due, Due-Kept, Cancelled, cancels, cancel_approvals-Stays,
}
use hyperfixation_core.Records.Archived.{archive_record-Archives, archive_work-Closed}
use hyperfixation_core.Records.{
  RecordTable, ArchiveResult, archive_record, pending_for_record, decided_ids, ArchiveOptions,
  cancellation_of, cancel_approvals, after_cancel, more_cancelled, is_pending_on,
}

listed-pending :
    (options : ArchiveOptions) (i : ℕ) (xs : List Approval) (row : Approval)
    → find_where (has_id i) xs ≡ some row
    → is_pending_on options row ≡ true
    → any_where
        (λ j. eqb j i)
        (map (λ (a : Approval). a.id) (select_where (is_pending_on options) xs))
      ≡ true
unfolding find_where select_where any_where
listed-pending options i [] row found p = absurd (ground (arith, found))
listed-pending options i (x ∷ xs) row found p = elim (Bool-cases (eqb x.id i)) [
  | inl e ↦
      let same : x ≡ row = ground (arith, found, e) in
      let here : is_pending_on options x ≡ true = ap (is_pending_on options) same ∙ p in
      ground (arith, here, e)
  | inr e ↦
      let more = listed-pending options i xs row (ground (arith, found, e)) p in
      ground (arith, more)
]

module _ (env : Env) (options : ArchiveOptions) (i : ℕ) where
  cancel_approvals-Cancelled :
      (ids : List ℕ) (db : Db) (out : List ℕ) (mid : Db)
      → cancel_approvals env options ids db ≡ (ok out, mid)
      → Sound db.approvals
      → Due i db.approvals
      → any_where (λ j. eqb j i) ids ≡ true
      → Cancelled i mid
  unfolding cancel_approvals any_where
  cancel_approvals-Cancelled [] db out mid h s due listed = absurd (ground (arith, listed))
  cancel_approvals-Cancelled (j ∷ ids) db out mid h s due listed =
      go (λ d more. cancel_approvals-Cancelled ids d more mid)
        (decide env (cancellation_of options j) db db (λ d. d) db) refl h
    where
      rest : Db → Result (List ℕ) × Db
      rest = cancel_approvals env options ids

      stays : (more : List ℕ) (d : Db) → rest d ≡ (ok more, mid) → Cancelled i d → Cancelled i mid
      stays more d k c = (record {
        final = c.final;
        status = c.status;
        stays =
            subst (λ (t : Result (List ℕ) × Db). Stays i c.final t.1) k
              (cancel_approvals-Stays env options i c.final ids d c.stays);
      })

      at_own :
          (d : Db) (r : DecideResult)
          → eqb j i ≡ true
          → decide env (cancellation_of options j) db db (λ d. d) db ≡ (ok r, d)
          → decide env (cancellation_of options i) db db (λ d. d) db ≡ (ok r, d)
      at_own d r e at =
          subst (λ n. decide env (cancellation_of options n) db db (λ d. d) db ≡ (ok r, d))
            (eqb→eq j i e) at

      kept :
          (d : Db) (r : DecideResult)
          → decide env (cancellation_of options j) db db (λ d. d) db ≡ (ok r, d)
          → (P : List Approval → Type 0) → Kept (cancellation_of options j) P
          → P db.approvals
          → P d.approvals
      kept d r at P k p =
          subst (λ (t : Result DecideResult × Db). P t.1.approvals) at
            (decide-keeps (cancellation_of options j) P k env db db db p)

      ends :
          (decided : List ℕ) (t : Result (List ℕ) × Db)
          → more_cancelled decided t ≡ (ok out, mid)
          → (more : List ℕ) × (t ≡ (ok more, mid))
      ends decided (ok more, d) k = (more, ap (λ (p : Result (List ℕ) × Db). (ok more, p.1)) k)
      ends decided (err e, d) k = absurd (ground (arith, k))

      go :
          ((d : Db) (more : List ℕ)
            → rest d ≡ (ok more, mid)
            → Sound d.approvals
            → Due i d.approvals
            → any_where (λ j. eqb j i) ids ≡ true
            → Cancelled i mid)
          → (t : Result DecideResult × Db)
          → decide env (cancellation_of options j) db db (λ d. d) db ≡ t
          → after_cancel rest t ≡ (ok out, mid)
          → Cancelled i mid
      go others (err e, d) at k = absurd (ground (arith, k))
      go others (ok r, d) at k =
          let (more, after) = ends (decided_ids r) (rest d) k in
          elim (Bool-cases (eqb j i)) [
            | inl e ↦ stays more d after (cancels env options i db r d (at_own d r e at) s due)
            | inr e ↦
                others d more after (kept d r at Sound (Sound-Kept (cancellation_of options j)) s)
                  (kept d r at (Due i) (Due-Kept i j options) due) (ground (arith, listed, e))
          ]

-- Where every id of the approvals is unique and no pending row carries a decision key, an archive
-- that returns has cancelled each approval that was pending on the record: its row is there in the
-- end, with the status `cancelled`.
pub archive_cancels_pending :
    (env : Env) (records : Registry RecordTable) (options : ArchiveOptions) (db : Db)
    (r : ArchiveResult) (db' : Db) (i : ℕ) (row : Approval)
    → archive_record env records options db ≡ (ok r, db')
    → Sound db.approvals
    → find_where (has_id i) db.approvals ≡ some row
    → is_pending_on options row ≡ true
    → Cancelled i db'
unfolding pending_for_record
archive_cancels_pending env records options db r db' i row h s found pending =
    let a = archive_record-Archives env records options db r db' h in
    let (closed, approvals) = archive_work-Closed options a.entry.table a.mid db' a.work a.worked in
    let c =
      cancel_approvals-Cancelled env options i (pending_for_record options db) db a.ids a.mid
        a.cancelled s (record { row = row; found = found; due = inl (ground (arith, pending)) })
        (listed-pending options i db.approvals row found pending) in
    record {
      final = c.final;
      status = c.status;
      stays = kept-Stays i c.final a.mid db' approvals c.stays;
    }
