-- ===== src/Records/Archived.antt =====
-- packages/core/src/records.ts: what archiveRecord leaves of a record.
use hyperfixation_core.Prelude.{
  ℕ, String, Bool, true, false, none, List, [], ◌∷◌, ◌≡◌, refl, ap, ◌∙◌, subst, arith, find_where,
  any_where, update_where, if◌then◌else◌,
}
use hyperfixation_core.State.{Db, Task, AppRow, Result, ok, err, control_plane_in_workflow}
use hyperfixation_core.ControlPlane.{Env, control_plane_tx}
use hyperfixation_core.ControlPlane.Atomic.{control_plane_atomic}
use hyperfixation_core.Approvals.Decide.Final.{Verdict, Stays, kept-Stays}
use hyperfixation_core.Records.Cancelled.{cancel_approvals-Stays}
use hyperfixation_core.Registry.{Registry, require_entry}
use hyperfixation_core.Tasks.{insert_activity}
use hyperfixation_core.Tasks.Close.{
  is_open_on, set_closed, ClosedColumn, cancel_open_tasks_for_record,
}
use hyperfixation_core.Records.{
  RecordTable, ArchiveOptions, ArchiveResult, is_live, archived_row, archive_row, archive_work,
  archive_record, cancel_approvals, after_approvals, archive_result, pending_for_record,
}

cancel-shuts :
    (record_type record_id : String) (now : ℕ) (ts : List Task)
    → find_where (is_open_on record_type record_id) (
        update_where
          (is_open_on record_type record_id)
          (set_closed ClosedColumn.cancelled_at now)
          ts)
      ≡ none
unfolding find_where update_where
cancel-shuts record_type record_id now [] = refl
cancel-shuts record_type record_id now (t ∷ ts) =
    ground (arith, cancel-shuts record_type record_id now ts)

archive-shuts :
    (table id : String) (now : ℕ) (rows : List AppRow)
    → any_where (is_live table id) (update_where (is_live table id) (archived_row now) rows) ≡ false
unfolding any_where update_where
archive-shuts table id now [] = refl
archive-shuts table id now (r ∷ rows) = ground (arith, archive-shuts table id now rows)

-- The record has no open task and no live row.
pub record Closed (options : ArchiveOptions) (table : String) (db : Db) : Type 0 where
  pub tasks : find_where (is_open_on options.record_type options.record_id) db.tasks ≡ none
  pub rows : any_where (is_live table options.record_id) db.app_rows ≡ false

pub archive_work-Closed :
    (options : ArchiveOptions) (table : String) (db db' : Db) (x : Bool × List ℕ)
    → archive_work options table db ≡ ok (x, db')
    → Closed options table db' × (db'.approvals ≡ db.approvals)
unfolding archive_work archive_row cancel_open_tasks_for_record insert_activity
archive_work-Closed options table db db' x h = (
  record {
    tasks = ground (arith, h, cancel-shuts options.record_type options.record_id db.now db.tasks);
    rows = ground (arith, h, archive-shuts table options.record_id db.now db.app_rows);
  },
  ground (arith, h),
)

-- A call of archiveRecord that returns.
pub record Archives (env : Env) (records : Registry RecordTable) (options : ArchiveOptions)
    (db : Db) (r : ArchiveResult) (db' : Db) : Type 0 where
  pub entry : RecordTable
  pub registered : require_entry records options.record_type ≡ ok entry
  pub ids : List ℕ
  pub mid : Db
  pub cancelled : cancel_approvals env options (pending_for_record options db) db ≡ (ok ids, mid)
  pub work : Bool × List ℕ
  pub worked : archive_work options entry.table mid ≡ ok (work, db')

after_approvals-worked :
    (env : Env) (options : ArchiveOptions) (table : String) (t : Result (List ℕ) × Db)
    (r : ArchiveResult) (db' : Db)
    → after_approvals env options table t ≡ (ok r, db')
    → (ids : List ℕ) × (mid : Db) × (t ≡ (ok ids, mid))
      × (work : Bool × List ℕ) × (archive_work options table mid ≡ ok (work, db'))
after_approvals-worked env options table (err e, d) r db' h = absurd (ground arith)
after_approvals-worked env options table (ok ids, d) r db' h =
    go (control_plane_tx env "records.archive" (archive_work options table) d) refl h
  where
    go :
        (t : Result (Bool × List ℕ) × Db)
        → control_plane_tx env "records.archive" (archive_work options table) d ≡ t
        → archive_result options ids t ≡ (ok r, db')
        → (ids' : List ℕ) × (mid : Db) × (◌≡◌ {A = Result (List ℕ) × Db} (ok ids, d) (ok ids', mid))
          × (work : Bool × List ℕ) × (archive_work options table mid ≡ ok (work, db'))
    go (err e, d') at k = absurd (ground arith)
    go (ok (b, tasks), d') at k = (
      ids,
      d,
      refl,
      (b, tasks),
      (control_plane_atomic env "records.archive" (archive_work options table) d (ok (b, tasks)) d'
            at).2
          ∙ ap (λ (p : Result ArchiveResult × Db). ok ((b, tasks), p.1)) k,
    )

pub archive_record-Archives :
    (env : Env) (records : Registry RecordTable) (options : ArchiveOptions) (db : Db)
    (r : ArchiveResult) (db' : Db)
    → archive_record env records options db ≡ (ok r, db')
    → Archives env records options db r db'
unfolding archive_record
archive_record-Archives env records options db r db' h =
    go env.within_workflow (require_entry records options.record_type) refl h
  where
    go :
        (within : Bool) (found : Result RecordTable)
        → require_entry records options.record_type ≡ found
        → (if within
            then (err (control_plane_in_workflow "records.archive"), db)
            else (elim found as (λ _. Result ArchiveResult × Db) [
              | err e ↦ (err e, db)
              | ok entry ↦
                  after_approvals env options entry.table
                    (cancel_approvals env options (pending_for_record options db) db)
            ]))
          ≡ (ok r, db')
        → Archives env records options db r db'
    go true found at k = absurd (ground arith)
    go false (err e) at k = absurd (ground arith)
    go false (ok entry) at k =
        let (ids, mid, cancelled, work, worked) =
          after_approvals-worked env options entry.table
            (cancel_approvals env options (pending_for_record options db) db) r db' k in
        record {
          entry = entry;
          registered = at;
          ids = ids;
          mid = mid;
          cancelled = cancelled;
          work = work;
          worked = worked;
        }

-- A record whose archive returned has no open task, and no live row in the table that its type is
-- registered with; and no approval that was decided before the archive, of this record or another,
-- has another verdict than it had.
pub archived_record_is_Closed :
    (env : Env) (records : Registry RecordTable) (options : ArchiveOptions) (db : Db)
    (r : ArchiveResult) (db' : Db)
    → archive_record env records options db ≡ (ok r, db')
    → (entry : RecordTable) × (require_entry records options.record_type ≡ ok entry)
      × Closed options entry.table db'
      × ((id : ℕ) (v : Verdict) → Stays id v db → Stays id v db')
archived_record_is_Closed env records options db r db' h =
    let a = archive_record-Archives env records options db r db' h in
    let (closed, approvals) = archive_work-Closed options a.entry.table a.mid db' a.work a.worked in
    (
      a.entry,
      a.registered,
      closed,
      λ id v s. kept-Stays id v a.mid db' approvals (
          subst (λ t. Stays id v t.1) a.cancelled
            (cancel_approvals-Stays env options id v (pending_for_record options db) db s)),
    )
