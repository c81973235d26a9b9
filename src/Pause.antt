-- ===== src/Pause.antt =====
-- packages/core/src/pause.ts: the flag, and what a step makes of it. The queues, which DBOS
-- keeps, are in Queues.
pub mod Stops
use hyperfixation_core.Prelude.{
  String, Bool, true, false, Option, none, some, [], ◌∷◌, ◌++◌, if◌then◌else◌,
}
use hyperfixation_core.State.{Db, AppState, app_state_missing, ok, err}
use hyperfixation_core.State.Tx.{Tx, Exec, and_then}
use hyperfixation_core.ControlPlane.{Env, control_plane_tx}
use hyperfixation_core.Reconcile.{ReconcileOptions, ReconcileReport}
use hyperfixation_core.Reconcile.Round.{reconcile}

-- SET_APP_PAUSED_STATEMENT; only a pause has somebody's name on it.
abbrev pub paused_state : Bool → Option String → AppState → AppState
paused_state paused user_id a = record a {
  paused = paused;
  paused_by = if paused then user_id else none;
}

unfoldable pub write_paused : String → Bool → Option String → Tx (Unit {0})
write_paused operation paused user_id db = elim db.app_state [
  | none ↦ err (app_state_missing operation)
  | some a ↦ ok (
    tt,
    record db {
      app_state = some (paused_state paused user_id a);
      audits =
          db.audits
          ++ record {
            actor_id = user_id;
            action = if paused then "app.paused" else "app.resumed";
            target_type = "hf_app_state";
            target_id = "1";
          }
            ∷ [];
    },
  )
]

unfoldable pub set_paused : Env → String → Bool → Option String → Exec (Unit {0})
set_paused env operation paused user_id =
    control_plane_tx env operation (write_paused operation paused user_id)

unfoldable pub pause_app : Env → Option String → Exec (Unit {0})
pause_app env user_id = set_paused env "app.pause" true user_id

-- The reconciler last: it moves parked runs only while the flag is clear.
unfoldable pub resume_app : Env → Option String → ReconcileOptions → Exec ReconcileReport
resume_app env user_id options db =
    and_then (set_paused env "app.resume" false user_id db) λ _. reconcile env options
