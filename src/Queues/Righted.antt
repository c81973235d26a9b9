-- ===== src/Queues/Righted.antt =====
-- What step (6) of packages/workflows/src/reconcile.ts makes of the queues.
use mathlib.Core.Option
use hyperfixation_core.Prelude.{
  ℕ, Bool, true, false, Option, none, some, List, if◌then◌else◌, eqb, find_where,
}
use hyperfixation_core.Queues.{QueueName, Queue, is_queue, registered_concurrency}

-- What the flag asks of a concurrency: zero under a pause; without one, the registered number in
-- place of zero, and any other as it is.
abbrev pub righted : Bool → QueueName → Option ℕ → Option ℕ
righted true name was = some 0
righted false name none = none
righted false name (some n) = if eqb n 0 then some (registered_concurrency name) else some n

abbrev pub row_concurrency : Option Queue → Option (Option ℕ)
row_concurrency none = none
row_concurrency (some q) = some q.global_concurrency

abbrev pub concurrency_of : QueueName → List Queue → Option (Option ℕ)
concurrency_of name qs = row_concurrency (find_where (is_queue name) qs)

abbrev pub righted_row : Bool → QueueName → Option (Option ℕ) → Option (Option ℕ)
righted_row paused name none = none
righted_row paused name (some was) = some (righted paused name was)
