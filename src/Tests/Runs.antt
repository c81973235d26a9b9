-- ===== src/Tests/Runs.antt =====
-- Witnesses for the attempts of a run.
use hyperfixation_core.Prelude.{
  ℕ, ◌==◌, update_where, ◌≡◌, refl, arith, String, some, true, [], ◌∷◌, count_where, find_where,
  any_where,
}
use hyperfixation_core.Prelude.Decimal.{decimal}
use hyperfixation_core.State.{Db, find_run, Error, ok, err, stale_attempt}
use hyperfixation_core.State.Tx.{pure}
use hyperfixation_core.ControlPlane.{
  attempt_workflow_id, BumpedAttempt, bump_and_enqueue_on, bump_row, current_id_taken,
  workflow_id_taken,
}
use hyperfixation_core.ControlPlane.Atomic.{CanBump, bump_total}
use hyperfixation_core.Fence.{step_tx, is_current}
use hyperfixation_core.Runs.{claim_run, claim_row}
use hyperfixation_core.Runs.Numbered.{IsNumbered, claims}
use hyperfixation_core.Runs.Superseded.{Reach, here, next, superseded}
use hyperfixation_core.Runs.Lifecycle.{Holds}
use hyperfixation_core.Tests.{web, web-Enqueues, outreach, run_at, second}

abbrev claimed : Db
claimed = record second { runs = claim_row "v2" (run_at 2 "r1:2") ∷ [] }

second-IsNumbered : IsNumbered second
unfolding attempt_workflow_id count_where decimal
second-IsNumbered = record { tokens = ((refl, omega arith), tt); single = λ id. ground arith }

second-Reach : Reach web second claimed
unfolding claim_run update_where
second-Reach = next here (claims "r1" "r1:2" "v2" refl)

superseded_example :
    step_tx "r1" (attempt_workflow_id "r1" 1) (pure {A = ℕ} 3) claimed
    ≡ (err (stale_attempt "r1" (attempt_workflow_id "r1" 1)), claimed)
unfolding find_run find_where
superseded_example =
    superseded web second claimed "r1" (run_at 2 "r1:2") 1 (pure {A = ℕ} 3) second-IsNumbered refl
      (omega arith) second-Reach

twelve-token : attempt_workflow_id "r1" 12 ≡ "r1:12"
unfolding attempt_workflow_id decimal
twelve-token = refl

second-CanBump : CanBump web "r1" (run_at 2 "r1:2") outreach second
unfolding find_run find_where count_where current_id_taken workflow_id_taken any_where
second-CanBump = record {
  free = refl;
  found = refl;
  single = omega arith;
  unclaimed = refl;
  fresh = refl;
  defined = refl;
}

bump_total_example :
    (b : BumpedAttempt) × (db' : Db) × (bump_and_enqueue_on web "r1" second ≡ ok (b, db'))
    × (find_run "r1" db' ≡ some (bump_row 3 (attempt_workflow_id "r1" 3) (run_at 2 "r1:2")))
    × (workflow_id_taken (attempt_workflow_id "r1" 3) db' ≡ true)
    × (is_current "r1" "r1:2" db' ≡ (attempt_workflow_id "r1" 3 == "r1:2"))
bump_total_example =
    bump_total web "r1" (run_at 2 "r1:2") outreach second "r1:2" web-Enqueues second-CanBump

second-Holds : Holds "r1" "r1:2" (run_at 2 "r1:2") second
unfolding find_run find_where count_where
second-Holds = record { found = refl; single = omega arith; current = refl }

abbrev message_of : Error → String
message_of _ = "Error: lost"
