-- ===== src/ControlPlane/Atomic.antt =====
-- What a control-plane operation commits.
use hyperfixation_core.Prelude.{
  String, ◌+◌, ◌≡◌, ◌≤◌, refl, ◌∙◌, arith, true, false, ◌==◌, some, eqb, eqb_refl, find_where,
  update_where, count_where, find_where-update_unique, count_where_unique, count_where-update_ne,
}
use hyperfixation_core.State.{Run, Db, is_run, find_run, Result, ok, err}
use hyperfixation_core.State.Tx.{Tx}
use hyperfixation_core.Fence.{is_current}
use hyperfixation_core.Fence.Stale.{is_current-find}
use hyperfixation_core.ControlPlane.{
  flow_for_run, enqueue_in_transaction, Env, Enqueues, Enqueue, Flow, BumpedAttempt,
  control_plane_tx, bump_attempt, bump_and_enqueue_on, attempt_workflow_id, bump_row, at_attempt,
  workflow_id_taken, current_id_taken,
}

-- What the caller of a control-plane operation may conclude from its result.
abbrev pub Settles : {A : Type 0} → Env → Tx A → Db → Result A → Db → Type 0
Settles env work db (ok a) db' =
    (env.within_workflow ≡ false) × (env.commits ≡ true) × (work db ≡ ok (a, db'))
Settles env work db (err e) db' = db' ≡ db

pub control_plane_atomic :
    {A : Type 0} (env : Env) (operation : String) (work : Tx A) (db : Db) (r : Result A) (db' : Db)
    → control_plane_tx env operation work db ≡ (r, db')
    → Settles env work db r db'
unfolding control_plane_tx
control_plane_atomic env operation work db (ok a) db' h = go (work db) refl
  where
    go : (t : Result (_ × Db)) → work db ≡ t → Settles env work db (ok a) db'
    go t e = ground arith
control_plane_atomic env operation work db (err x) db' h = ground arith

-- The converse: work that ends is committed.
pub control_plane_commits :
    {A : Type 0} (env : Env) (operation : String) (work : Tx A) (db : Db) (a : A) (db' : Db)
    → env.within_workflow ≡ false
    → env.commits ≡ true
    → work db ≡ ok (a, db')
    → control_plane_tx env operation work db ≡ (ok a, db')
unfolding control_plane_tx
control_plane_commits env operation work db a db' free commits h = go (work db) refl h
  where
    go :
        (t : Result (_ × Db))
        → work db ≡ t
        → t ≡ ok (a, db')
        → control_plane_tx env operation work db ≡ (ok a, db')
    go t e k = ground (arith, free, commits, e, k)

-- A run that can be bumped: its row is alone, no other session holds its lock too long, its next
-- workflow id is nobody's, and its flow is defined.
pub record CanBump (env : Env) (run_id : String) (r : Run) (flow : Flow) (db : Db) : Type 0 where
  pub free : env.lock_timed_out run_id ≡ false
  pub found : find_run run_id db ≡ some r
  pub single : count_where (is_run run_id) db.runs ≤ 1
  pub unclaimed : current_id_taken run_id (attempt_workflow_id run_id (r.attempt + 1)) db ≡ false
  pub fresh : workflow_id_taken (attempt_workflow_id run_id (r.attempt + 1)) db ≡ false
  pub defined : find_where (λ f. f.name == r.flow) env.flows ≡ some flow

bump_attempt-total :
    (env : Env) (run_id : String) (r : Run) (flow : Flow) (db : Db)
    → CanBump env run_id r flow db
    → (b : BumpedAttempt) × (bump_attempt env run_id db
        ≡ ok (
          b,
          record db {
            runs =
                update_where
                  (at_attempt run_id r.attempt)
                  (bump_row b.attempt b.workflow_id)
                  db.runs;
          },
        ))
      × (b.attempt ≡ r.attempt + 1)
      × (b.workflow_id ≡ attempt_workflow_id run_id (r.attempt + 1))
      × (b.flow ≡ r.flow)
unfolding bump_attempt workflow_id_taken find_run
bump_attempt-total env run_id r flow db c = (
  record {
    run_id = run_id;
    flow = r.flow;
    input = r.input;
    previous_attempt = r.attempt;
    attempt = r.attempt + 1;
    workflow_id = attempt_workflow_id run_id (r.attempt + 1);
  },
  ground (arith, c.free, c.found, c.unclaimed, c.fresh, one),
  refl,
  refl,
  refl,
)
  where
    one : count_where (at_attempt run_id r.attempt) db.runs ≡ 1
    one =
        count_where_unique (is_run run_id) (λ x. eqb x.attempt r.attempt) db.runs r c.single c.found
        ∙ rw (eqb_refl r.attempt) refl

-- A run that can be bumped always is: the bump moves it to its next attempt, whose workflow id is
-- enqueued, and that id is the only one that the fence lets through for the run.
pub bump_total :
    (env : Env) (run_id : String) (r : Run) (flow : Flow) (db : Db) (id : String)
    → Enqueues env
    → CanBump env run_id r flow db
    → (b : BumpedAttempt) × (db' : Db) × (bump_and_enqueue_on env run_id db ≡ ok (b, db'))
      × (find_run run_id db'
          ≡ some (bump_row (r.attempt + 1) (attempt_workflow_id run_id (r.attempt + 1)) r))
      × (workflow_id_taken (attempt_workflow_id run_id (r.attempt + 1)) db' ≡ true)
      × (is_current run_id id db' ≡ (attempt_workflow_id run_id (r.attempt + 1) == id))
unfolding bump_and_enqueue_on flow_for_run enqueue_in_transaction find_run workflow_id_taken
bump_total env run_id r flow db id q c =
    let (b, bumped, next, token, name) = bump_attempt-total env run_id r flow db c in
    let hit = at_attempt run_id r.attempt in
    let job : Enqueue = record {
      queue_name = flow.queue;
      workflow_name = flow.name;
      workflow_id = b.workflow_id;
      run_id = run_id;
      attempt = b.attempt;
      input = b.input;
    } in
    let db' = record db {
      runs = update_where hit (bump_row b.attempt b.workflow_id) db.runs;
      workflows = env.enqueue job db.workflows;
    } in
    let found =
      find_where-update_unique (is_run run_id) (λ x. eqb x.attempt r.attempt)
        (bump_row b.attempt b.workflow_id) (λ x. refl) db.runs r c.found
      ∙ rw (eqb_refl r.attempt) (rw (next, token) refl) in
    (
      b,
      db',
      ground (arith, bumped, name, c.defined),
      found,
      rw (← token) (q.listed job db.workflows),
      is_current-find run_id id db' _
          (rw
            (count_where-update_ne hit (is_run run_id) (bump_row b.attempt b.workflow_id)
              (λ x _. refl) db.runs)
            c.single)
          found,
    )
