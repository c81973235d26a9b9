-- ===== src/Pause/Stops.antt =====
-- A pause that returned stops every step, and a resume is a sequence of writes to the runs.
use hyperfixation_core.Prelude.{String, ◌≡◌, arith, Bool, false, Option}
use hyperfixation_core.State.{Db, Result, ok, err, is_paused}
use hyperfixation_core.State.Tx.{and_then}
use hyperfixation_core.ControlPlane.{Env}
use hyperfixation_core.Runs.Numbered.{elsewhere}
use hyperfixation_core.Runs.Superseded.{Reach, here, next}
use hyperfixation_core.Runs.Reaching.{Reach-append, control_plane_tx-Reach}
use hyperfixation_core.Reconcile.{ReconcileOptions}
use hyperfixation_core.Reconcile.Round.{reconcile}
use hyperfixation_core.Reconcile.Attempts.{reconcile-Reach}
use hyperfixation_core.Pause.{write_paused, set_paused, resume_app}

write_paused-flag :
    (operation : String) (paused : Bool) (user_id : Option String) (db db' : Db)
    → write_paused operation paused user_id db ≡ ok (tt, db')
    → (is_paused db' ≡ paused) × (db'.runs ≡ db.runs)
unfolding write_paused is_paused
write_paused-flag operation paused user_id db db' h = (ground arith, ground arith)

resumed-Reach :
    (env : Env) (options : ReconcileOptions) (db : Db) (t : Result (Unit {0}) × Db)
    → Reach env db t.1
    → Reach env db (and_then t (λ _. reconcile env options)).1
resumed-Reach env options db (ok tt, d) r = Reach-append env r (reconcile-Reach env options d)
resumed-Reach env options db (err e, d) r = r

-- A resume, like a pass of the reconciler, does nothing to the runs but bump and conclude them.
pub resume_app-Reach :
    (env : Env) (user_id : Option String) (options : ReconcileOptions) (db : Db)
    → Reach env db (resume_app env user_id options db).1
unfolding resume_app set_paused
resume_app-Reach env user_id options db =
    resumed-Reach env options db (set_paused env "app.resume" false user_id db) (
      control_plane_tx-Reach env "app.resume" (write_paused "app.resume" false user_id) db
        (λ u db' h.
          next here (elsewhere (write_paused-flag "app.resume" false user_id db db' h).1)))
