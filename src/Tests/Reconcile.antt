-- ===== src/Tests/Reconcile.antt =====
-- Witnesses for the reconciler.
use hyperfixation_core.Prelude.{
  ◌≡◌, refl, arith, none, some, [], ◌∷◌, count_where, any_where, update_where, select_where,
}
use hyperfixation_core.State.{Db, LlmCall, Workflow, WorkflowStatus, ok, run_not_found}
use hyperfixation_core.Ledger.{new_call}
use hyperfixation_core.Ledger.Gate.{reserved_in}
use hyperfixation_core.Reconcile.{ReconcileOptions, RunningRun}
use hyperfixation_core.Reconcile.Sweep.{
  is_gone, is_abandoned, is_swept, abandoned_row, abandon_calls, sweep_actions,
  open_uncertain_tasks, hygiene,
}
use hyperfixation_core.Reconcile.Hygiene.{hygiene_is_complete}
use hyperfixation_core.Tests.{second}

abbrev second_release : ReconcileOptions
second_release = record {
  application_version = "v2";
  cancel = λ id ws. some ws;
  cancel_error = run_not_found "x";
  ended_text = λ s. "the workflow ended";
}

-- The workflow of the second attempt, dequeued by the first release.
abbrev old_workflow : Workflow
old_workflow = record {
  workflow_uuid = "r1:2";
  queue_name = "default";
  workflow_name = "outreach";
  run_id = "r1";
  attempt = 2;
  input = "{}";
  status = WorkflowStatus.pending;
  application_version = some "v1";
  error = none;
}

abbrev redeployed : Db
redeployed = record second { workflows = old_workflow ∷ [] }

abbrev old_row : RunningRun
old_row = record { run_id = "r1"; current_workflow_id = "r1:2"; workflow = some old_workflow }

-- A call that the first attempt left behind.
abbrev orphan : LlmCall
unfolding new_call
orphan =
    new_call (record { run_id = "r1"; workflow_id = "r1" })
      (record {
        key = "summary";
        model = "model";
        input = none;
        input_hash = "hash";
        prompt_name = "prompt";
        prompt_hash = "prompt-hash";
        estimated_cost_usd = 60;
        trace_id = none;
      })
      "2026-01" 7

abbrev orphaned : Db
unfolding orphan
orphaned = record second { llm_calls = orphan ∷ [] }

abbrev swept : Db
unfolding orphan
swept = record second { llm_calls = abandoned_row 5000 orphan ∷ [] }

sweeps_orphan : hygiene orphaned ≡ ok ((1, []), swept)
unfolding hygiene abandon_calls sweep_actions open_uncertain_tasks is_abandoned is_swept is_gone
    orphaned swept orphan new_call any_where count_where update_where select_where
sweeps_orphan = refl

hygiene_is_complete_example :
    (count_where (is_abandoned swept.runs) swept.llm_calls ≡ 0)
    × (count_where (is_swept swept.runs) swept.action_logs ≡ 0)
    × (reserved_in "2026-01" swept ≡ reserved_in "2026-01" orphaned)
unfolding count_where orphaned
hygiene_is_complete_example =
    hygiene_is_complete orphaned (1, []) swept "2026-01" (λ id. ground arith) sweeps_orphan
