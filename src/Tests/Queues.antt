-- ===== src/Tests/Queues.antt =====
-- Step (6) of packages/workflows/src/reconcile.ts on two queues that a pause left at zero.
use hyperfixation_core.Prelude.{none, some, List, [], ◌∷◌}
use hyperfixation_core.State.{app_state_missing}
use hyperfixation_core.Queues.{llm, actions, resolve, Queue, QueueClient}

-- The write of `llm` fails, and the one of `actions` does not.
abbrev half_broken : QueueClient
half_broken = record {
  retrieve_throws = λ name. none;
  set_throws = λ name. elim name [
    | llm ↦ some (app_state_missing "connection lost")
    | actions ↦ none
    | resolve ↦ none
  ];
}

abbrev zeroed : List Queue
zeroed =
    record { name = llm; global_concurrency = some 0 }
    ∷ record { name = actions; global_concurrency = some 0 }
    ∷ record { name = resolve; global_concurrency = some 1 }
    ∷ []
