-- ===== src/Lib.antt =====
-- Verification of hyperfixation-core.
--
-- The packages run an app's flows on Postgres and DBOS. A flow is a run (a row of hf_run) that is
-- tried in attempts; each attempt has a workflow id, the fencing token of its run. A control-plane
-- transaction starts a run or bumps it to its next attempt and enqueues the workflow with it. The
-- worker claims the run, executes the flow's steps, and ends the run with a status. A step writes
-- through `ctx.tx`, which is refused when the attempt is not current any more. Inside a step,
-- `llm.run` ledgers a billable provider call against the budget of the month, and `actions.perform`
-- ledgers an outbound side effect. A flow may wait for an approval, which `decide` opens with a bump.
-- The reconciler moves on the runs that a crash, a redeploy or a pause left behind.
--
-- Which file models what (paths from the root of the repository):
--   State           packages/db/src/schema: the rows and the database; the error classes; `Tx`, one
--                   transaction (a function from a database to an error or a value and the new
--                   database), and `Exec`, a program of several transactions, whose committed ones
--                   stay where a later one throws.
--   ControlPlane    packages/db/src/control-plane.ts (controlPlaneTx, attemptWorkflowId, bumpAttempt),
--                   packages/workflows/src/bump.ts (bumpAndEnqueueOn, flowForRun) and runs.ts
--                   (runsStart).
--   Fence           packages/db/src/step-pool.ts: `tx` of createStepPool.
--   Runs            packages/workflows/src: run-status.ts (claimRun, concludeRun), step.ts (step) and
--                   the workflow that defineFlow of define-flow.ts registers (run_flow).
--   Ledger          packages/ai/src/llm-run.ts: openGate, complete, recordProviderError; Ledger/Call is
--                   runCall, Ledger/Balance has DRIFT_STATEMENT of packages/workflows/src/reconcile.ts, and
--                   Ledger/Opened what openGate makes of the drift.
--   Actions         packages/workflows/src/actions.ts: the transaction before a send (Actions), the send
--                   and what follows it (Actions/Perform).
--   Approvals       packages/workflows/src/approvals.ts: waitForApproval (Approvals), what decide() checks
--                   and writes (Approvals/Batch), and decide() itself (Approvals/Decide).
--   Reconcile       packages/workflows/src/reconcile.ts: what a pass does to one run (Reconcile), the
--                   hygiene transaction (Reconcile/Sweep) and the pass (Reconcile/Round).
--   Pause           packages/core/src/pause.ts with SET_APP_PAUSED_STATEMENT of db/src/app-state.ts.
--   Access          packages/auth/src/session.ts and policy.ts: evaluateAccess with what it calls
--                   (Access), whom it lets in (Access/Policy), whom it refuses and how (Access/Refusals),
--                   what a session is minted with (Access/Minted), how a path is read (Access/Paths);
--                   require-session.ts: the guard that createSessionGuard makes (Access/Guard).
--   Queues          packages/workflows/src/queue-concurrency.ts, step (6) of reconcile.ts, the queues of
--                   start-worker.ts, and pauseApp and resumeApp with their queues; Queues/Righted has
--                   what step (6) makes of them.
--   Resolution      packages/core/src/resolution.ts: the data (Resolution), the similarity of two texts
--                   (Resolution/Dice), one row (Resolution/Row), a batch (Resolution/Batch), and the loop
--                   over the batches (Resolution/Progress).
--   Cloud           packages/cli/src/state.ts and new-cloud.ts: the state of an app's provisioning
--                   (Cloud) and runSteps (Cloud/Runner).
--   Registry        packages/core/src/registry.ts: createRegistry.
--   Tasks           packages/core/src/tasks.ts and activity.ts: what opens a task and notes it (Tasks),
--                   what closes one (Tasks/Close), and a create that is run again (Tasks/Replayed).
--   Records         packages/core/src/records.ts: archiveRecord (Records), what it makes of
--                   the approvals (Records/Cancelled, Records/Pending), and what it leaves
--                   (Records/Archived).
--   Fetch           packages/core/src/fetch.ts: the response, its body and the statements (Fetch),
--                   fetchGet (Fetch/Get), the cap (Fetch/Body), the interval of a host (Fetch/Spaced),
--                   what is stored (Fetch/Written), and the cache (Fetch/Again).
--   Ssh             packages/cli/src/runner.ts: the argument lists that ssh is run with.
--   Prelude         lemmas on lists read as tables, tests on numbers, decimal numerals.
--   Tests           concrete inputs of the theorems.
--
-- How the code corresponds. A row is a record with the columns that the code reads or writes; `meta`
-- columns, the record columns of hf_run and time stamps that nothing reads are left out. An UPDATE
-- is `update_where`, whose row count is `count_where`; ON CONFLICT DO NOTHING is a test before the
-- insert; a missing row is the branch of `require`. `now()` and the month are fields of the database
-- and identity columns draw from one counter. Money is in millionths of a dollar, the scale of the
-- numeric columns; estimates and costs are taken to be whole millionths. JSON values are their text.
--
-- What is an argument of the model: `Env` has what the DBOS client does to dbos.workflow_status on
-- an enqueue (`Enqueues` states what the code relies on), whether the process is in a workflow, how
-- a lock wait and COMMIT are answered, the registered flows, and a fresh UUID. `Ledger.Call.Registry` has the
-- providers with their prices, the prompt files and the platform's JSON and hash functions. The
-- answer of a provider or a channel is an argument, and `meanwhile` is whatever other transactions
-- commit while it is awaited. The flow's and the step's own bodies are arguments too.
--
-- `Access.Platform` has what the JavaScript platform does with a date's text and with letter case, and
-- `Fetch.Platform` SHA-256, the URL parser and the end of a lock wait. The reply of a host, the functions
-- of a resolver with the app's table, and the steps of a provisioning are arguments too.
--
-- Every operation is a composition of finitely many statements, and every loop of the source is
-- recursion on a list. Only the loop of a caller of resolveBatch has fuel (`resolve_until_done`): it
-- is enough when it exceeds the attempts that the rows of the source have left.
--
-- Not modelled: the checkpoints of DBOS.runStep (a replayed step returns its stored value), the
-- check of the lockTimeout literal, console output and telemetry, and retries of a lost connection.
-- A transaction is atomic, as the row locks that the statements take make it: two transactions on
-- one run are ordered, and an interleaving is a sequence of transactions (`RunStep`, `Happens`).
-- The rows of dbos.queues are modelled beside the database (`World`), and the locks, the timer and the
-- processes around them are not. Of the provisioning of an app the steps are arguments, and of the
-- ssh runner only what it runs is modelled. The inbox, the admin, the rest of the CLI and the tools are
-- listed in the manifest with the reason that they have no model yet.
pub mod Prelude
pub mod State
pub mod ControlPlane
pub mod Fence
pub mod Runs
pub mod Ledger
pub mod Actions
pub mod Access
pub mod Approvals
pub mod Cloud
pub mod Fetch
pub mod Pause
pub mod Queues
pub mod Reconcile
pub mod Records
pub mod Registry
pub mod Resolution
pub mod Ssh
pub mod Tasks
pub mod Tests
