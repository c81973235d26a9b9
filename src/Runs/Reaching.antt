-- ===== src/Runs/Reaching.antt =====
-- Operations that are sequences of the program's writes to the runs.
use hyperfixation_core.Prelude.{String, ◌≡◌, refl}
use hyperfixation_core.State.{Db, Result, ok, err}
use hyperfixation_core.State.Tx.{Tx}
use hyperfixation_core.ControlPlane.{Env, control_plane_tx}
use hyperfixation_core.ControlPlane.Atomic.{control_plane_atomic}
use hyperfixation_core.Runs.Superseded.{Reach, here, next}

module _ (env : Env) where
  pub Reach-append : {a b c : Db} → Reach env a b → Reach env b c → Reach env a c
  Reach-append r here = r
  Reach-append r (next s st) = next (Reach-append r s) st

  -- An operation whose work reaches what it commits.
  pub control_plane_tx-Reach :
      {A : Type 0} (operation : String) (work : Tx A) (db : Db)
      → ((a : A) (db' : Db) → work db ≡ ok (a, db') → Reach env db db')
      → Reach env db (control_plane_tx env operation work db).1
  control_plane_tx-Reach {A} operation work db reaches =
      go (control_plane_tx env operation work db) refl
    where
      go : (t : Result A × Db) → control_plane_tx env operation work db ≡ t → Reach env db t.1
      go (ok a, db') h = reaches a db' (control_plane_atomic env operation work db (ok a) db' h).2
      go (err e, db') h = rw (control_plane_atomic env operation work db (err e) db' h) here
