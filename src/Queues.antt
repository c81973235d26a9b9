-- ===== src/Queues.antt =====
-- packages/workflows/src/queue-concurrency.ts, step (6) of reconcile.ts and the queues that
-- start-worker.ts registers. The table of DBOS is a list of rows; what its client throws is an
-- argument.
pub mod Righted
use hyperfixation_core.Prelude.{
  ℕ, String, Bool, true, false, not, Option, none, some, List, [], ◌∷◌, ◌++◌, ◌&&◌, ◌||◌,
  if◌then◌else◌, eqb, find_where, update_where, any_where,
}
use hyperfixation_core.State.{Db, Error, Result, ok, err, is_paused}
use hyperfixation_core.ControlPlane.{Env}
use hyperfixation_core.Reconcile.{ReconcileOptions, ReconcileReport}
use hyperfixation_core.Reconcile.Round.{reconcile}
use hyperfixation_core.Pause.{pause_app, set_paused}

pub data QueueName : Type 0 where
  llm actions resolve : QueueName

abbrev pub queue_number : QueueName → ℕ
queue_number llm = 0
queue_number actions = 1
queue_number resolve = 2

abbrev pub same_queue : QueueName → QueueName → Bool
same_queue a b = eqb (queue_number a) (queue_number b)

-- A row of dbos.queues; a NULL concurrency is no limit.
pub record Queue : Type 0 where
  pub name : QueueName
  pub global_concurrency : Option ℕ

abbrev pub is_queue : QueueName → Queue → Bool
is_queue name q = same_queue q.name name

-- What a call of the DBOS client about a queue throws, if it does.
pub record QueueClient : Type 0 where
  pub retrieve_throws : QueueName → Option Error
  pub set_throws : QueueName → Option Error

pub record QueueConcurrency : Type 0 where
  pub name : QueueName
  pub global_concurrency : ℕ
  pub applied : Bool

pub record QueueConcurrencyCorrection : Type 0 where
  pub name : QueueName
  pub paused : Bool
  pub was : Option ℕ
  pub now : ℕ

-- QUEUES.
abbrev pub registered_concurrency : QueueName → ℕ
registered_concurrency llm = 4
registered_concurrency actions = 2
registered_concurrency resolve = 1

abbrev pub concurrency_for : Bool → QueueName → ℕ
concurrency_for paused name = if paused then 0 else registered_concurrency name

abbrev pub with_concurrency : ℕ → Queue → Queue
with_concurrency n q = record q { global_concurrency = some n }

unfoldable pub set_concurrency : QueueName → ℕ → List Queue → List Queue
set_concurrency name n qs = update_where (is_queue name) (with_concurrency n) qs

abbrev pub Applied : Type 0
Applied = Result (List QueueConcurrency) × List Queue

-- One round of the loop of setPausedQueueConcurrency.
unfoldable pub apply_concurrency : QueueClient → Bool → QueueName → Applied → Applied
apply_concurrency client paused name (err e, qs) = (err e, qs)
apply_concurrency client paused name (ok applied, qs) = elim (client.retrieve_throws name) [
  | some e ↦ (err e, qs)
  | none ↦ elim (find_where (is_queue name) qs) [
    | none ↦ (
      ok (
          applied
          ++ record {
            name = name;
            global_concurrency = concurrency_for paused name;
            applied = false;
          }
            ∷ []),
      qs,
    )
    | some q ↦ elim (client.set_throws name) [
      | some e ↦ (err e, qs)
      | none ↦ (
        ok (
            applied
            ++ record {
              name = name;
              global_concurrency = concurrency_for paused name;
              applied = true;
            }
              ∷ []),
        set_concurrency name (concurrency_for paused name) qs,
      )
    ]
  ]
]

-- Over PAUSED_QUEUES.
unfoldable pub set_paused_queue_concurrency : QueueClient → Bool → List Queue → Applied
unfolding apply_concurrency set_concurrency
set_paused_queue_concurrency client paused qs =
    apply_concurrency client paused actions (apply_concurrency client paused llm (ok [], qs))

-- The queue half of startWorker: `registerQueue` writes each row at its registered concurrency.
unfoldable pub register_queue : QueueName → List Queue → List Queue
unfolding set_concurrency
register_queue name qs =
    if any_where (is_queue name) qs
    then set_concurrency name (registered_concurrency name) qs
    else qs ++ record { name = name; global_concurrency = some (registered_concurrency name) } ∷ []

unfoldable pub boot_queues : QueueClient → Bool → List Queue → Applied
unfolding register_queue set_paused_queue_concurrency
boot_queues client paused qs =
    let registered = register_queue resolve (register_queue actions (register_queue llm qs)) in
    if paused then set_paused_queue_concurrency client true registered else (ok [], registered)

abbrev pub is_zero : Option ℕ → Bool
is_zero none = false
is_zero (some n) = eqb n 0

-- `stuck || dispatching`.
unfoldable pub disagrees : Bool → Option ℕ → Bool
disagrees paused was = (not paused && is_zero was) || (paused && not (is_zero was))

-- The corrections, and the failures with the queue that they are about.
pub record QueueReport : Type 0 where
  pub corrections : List QueueConcurrencyCorrection
  pub failures : List (QueueName × Error)

abbrev pub failing : QueueName → Error → QueueReport → QueueReport
failing name e r = record r { failures = r.failures ++ (name, e) ∷ [] }

unfoldable pub correct_queue :
    QueueClient → Bool → QueueName → Option ℕ → QueueReport × List Queue → QueueReport × List Queue
unfolding set_concurrency
correct_queue client paused name was (r, qs) = elim (client.set_throws name) [
  | some e ↦ (failing name e r, qs)
  | none ↦ (
    record r {
      corrections =
          r.corrections
          ++ record { name = name; paused = paused; was = was; now = concurrency_for paused name }
            ∷ [];
    },
    set_concurrency name (concurrency_for paused name) qs,
  )
]

-- One round of the loop of reconcileQueueConcurrency.
unfoldable pub right_queue :
    QueueClient → Bool → QueueName → QueueReport × List Queue → QueueReport × List Queue
unfolding correct_queue disagrees
right_queue client paused name (r, qs) = elim (client.retrieve_throws name) [
  | some e ↦ (failing name e r, qs)
  | none ↦ elim (find_where (is_queue name) qs) [
    | none ↦ (r, qs)
    | some q ↦
        if disagrees paused q.global_concurrency
        then correct_queue client paused name q.global_concurrency (r, qs)
        else (r, qs)
  ]
]

abbrev pub no_report : QueueReport
no_report = record { corrections = []; failures = [] }

-- Step (6), with the flag as the pass reads it.
unfoldable pub reconcile_queue_concurrency :
    QueueClient → Bool → List Queue → QueueReport × List Queue
unfolding right_queue
reconcile_queue_concurrency client paused qs =
    right_queue client paused actions (right_queue client paused llm (no_report, qs))

-- The database and the queues of DBOS together.
pub record World : Type 0 where
  pub db : Db
  pub queues : List Queue

abbrev pub then_queues : QueueClient → Bool → Result (Unit {0}) × Db → List Queue → Applied × Db
then_queues client paused (err e, db) qs = ((err e, qs), db)
then_queues client paused (ok tt, db) qs = (set_paused_queue_concurrency client paused qs, db)

-- pauseApp: the flag first and the queues second.
unfoldable pub pause_app_and_queues :
    Env → QueueClient → Option String → World → Result (List QueueConcurrency) × World
unfolding set_paused_queue_concurrency
pause_app_and_queues env client user_id w =
    let ((answer, qs), db) = then_queues client true (pause_app env user_id w.db) w.queues in
    (answer, record { db = db; queues = qs })

-- A pass of the reconciler with its step (6), which reads the flag that the pass left.
abbrev pub then_right :
    QueueClient
    → Result ReconcileReport × Db
    → List Queue
    → Result (ReconcileReport × QueueReport) × World
then_right client (err e, db) qs = (err e, record { db = db; queues = qs })
then_right client (ok report, db) qs =
    let (r, qs') = reconcile_queue_concurrency client (is_paused db) qs in
    (ok (report, r), record { db = db; queues = qs' })

unfoldable pub reconcile_and_queues :
    Env → QueueClient → ReconcileOptions → World → Result (ReconcileReport × QueueReport) × World
unfolding reconcile_queue_concurrency
reconcile_and_queues env client options w = then_right client (reconcile env options w.db) w.queues

-- resumeApp: the flag, the queues, and the pass last.
abbrev pub then_pass :
    Env
    → QueueClient
    → ReconcileOptions
    → Applied × Db
    → Result (ReconcileReport × QueueReport) × World
then_pass env client options ((err e, qs), db) = (err e, record { db = db; queues = qs })
then_pass env client options ((ok applied, qs), db) =
    reconcile_and_queues env client options (record { db = db; queues = qs })

unfoldable pub resume_app_and_queues :
    Env
    → QueueClient
    → Option String
    → ReconcileOptions
    → World
    → Result (ReconcileReport × QueueReport) × World
unfolding reconcile_and_queues
resume_app_and_queues env client user_id options w =
    then_pass env client options
      (then_queues client false (set_paused env "app.resume" false user_id w.db) w.queues)
