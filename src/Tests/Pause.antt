-- ===== src/Tests/Pause.antt =====
-- Witnesses for pause and resume.
use hyperfixation_core.Prelude.{ℕ, some}
use hyperfixation_core.State.{Db, ok, run_not_found}
use hyperfixation_core.State.Tx.{Exec}
use hyperfixation_core.Reconcile.{ReconcileOptions}
use hyperfixation_core.Pause.{pause_app}
use hyperfixation_core.Tests.{web, second}

abbrev release : ReconcileOptions
release = record {
  application_version = "v1";
  cancel = λ id ws. some ws;
  cancel_error = run_not_found "x";
  ended_text = λ s. "the workflow ended";
}

abbrev paused_db : Db
paused_db = (pause_app web (some "u1") second).1

abbrev returns_three : Exec ℕ
returns_three db = (ok 3, db)
