-- ===== src/Fetch/Get.antt =====
-- packages/core/src/fetch.ts: fetchGet with its two transactions. `reply` is what the request comes
-- to if it is made, and `meanwhile` what others commit until the lock of the domain is held.
use hyperfixation_core.Prelude.{
  ℕ, String, Bool, true, false, Option, none, some, List, [], ◌∷◌, or_else, if◌then◌else◌,
}
use hyperfixation_core.State.{
  Db, RawFetchRow, Result, ok, err, fetch_too_large, stale_attempt, plain,
}
use hyperfixation_core.State.Tx.{settle, gets}
use hyperfixation_core.Fence.{is_current, step_tx}
use hyperfixation_core.Fetch.{
  Platform, FetchGetOptions, Method, get, Head, Reply, Request, RawFetch, Taken, taken, refused,
  Capped, whole, too_large, broken, body_limit, lock_timeout_ms, body_of, cached, upsert_domain,
  wait_ms, advance, stamp, filled, write_row, too_large_message,
}

-- Everything that one call fixes: the platform, the attempt, and the options.
pub record Call : Type 0 where
  pub platform : Platform
  pub run_id : String
  pub workflow_id : String
  pub options : FetchGetOptions

abbrev pub method_of : Call → Method
method_of c = or_else c.options.method get

abbrev pub hash_of : Call → String
hash_of c = c.platform.hash c.options.url

abbrev pub interval_of : Call → ℕ
interval_of c = or_else c.options.min_interval_ms 1000

unfoldable pub result_of : RawFetchRow → Bool → Result RawFetch
result_of row was_cached = elim row.error [
  | some message ↦ err (plain "FetchTooLarge" message)
  | none ↦ ok (record { row = row; cached = was_cached })
]

abbrev pub row_for : Call → Head → Option (List ℕ) → Option String → ℕ → ℕ → RawFetchRow
row_for c h body error now id =
    filled (hash_of c) c.options (method_of c) h body error c.run_id now id

-- What the transaction does with a response.
unfoldable pub fill : Call → Head → Capped → Db → Result (Taken × Db)
unfolding write_row too_large_message
fill c h (broken e) db = err e
fill c h (too_large n) db =
    let written =
      write_row (hash_of c) (method_of c)
        (row_for c h none (some (too_large_message c.options.url n)) db.now) db in
    ok (refused (fetch_too_large c.options.url n body_limit), written.1)
fill c h (whole body) db =
    let written = write_row (hash_of c) (method_of c) (row_for c h body none db.now) db in
    ok (taken written.0 false, written.1)

unfoldable pub after_reply : Call → Reply → Db → Result (Taken × Db)
unfolding fill body_of
after_reply c reply db = elim reply.response [
  | err e ↦ err e
  | ok r ↦ fill c r.head (body_of (method_of c) r) (advance reply.took db)
]

-- The database at the start of the request: the wait is over, and the domain is stamped.
unfoldable pub at_request : Call → String → Db → Db
unfolding upsert_domain wait_ms stamp
at_request c domain db =
    let entered = upsert_domain domain (interval_of c) db in
    stamp domain (advance (wait_ms domain entered) entered)

unfoldable pub request_host : Call → Reply → String → Db → Result (Taken × Db) × List Request
unfolding after_reply at_request
request_host c reply domain db =
    let started = at_request c domain db in
    (after_reply c reply started, record { domain = domain; at = started.now } ∷ [])

-- Under the lock of the domain.
unfoldable pub locked_fetch : Call → Reply → String → Db → Result (Taken × Db) × List Request
unfolding request_host
locked_fetch c reply domain db = elim (cached (hash_of c) (method_of c) db) [
  | some row ↦ (ok (taken row true, db), [])
  | none ↦ request_host c reply domain db
]

-- The fence of `ctx.tx`, then the bound on the wait for the lock.
unfoldable pub second_tx : Call → Reply → String → Db → Result (Taken × Db) × List Request
unfolding locked_fetch
second_tx c reply domain db =
    if is_current c.run_id c.workflow_id db
    then elim (c.platform.lock_times_out (lock_timeout_ms (interval_of c))) [
      | some e ↦ (err e, [])
      | none ↦ locked_fetch c reply domain db
    ]
    else (err (stale_attempt c.run_id c.workflow_id), [])

abbrev pub finish : Result Taken × Db → Result RawFetch × Db
finish (err e, db) = (err e, db)
finish (ok (refused e), db) = (err e, db)
finish (ok (taken row was_cached), db) = (result_of row was_cached, db)

abbrev pub commit : Db → Result (Taken × Db) × List Request → (Result RawFetch × Db) × List Request
commit db (r, requests) = (finish (settle db r), requests)

-- After the first transaction.
abbrev pub after_hit :
    Call
    → Reply
    → (Db → Db)
    → String
    → Result (Option RawFetchRow) × Db
    → (Result RawFetch × Db) × List Request
after_hit c reply meanwhile domain (err e, db) = ((err e, db), [])
after_hit c reply meanwhile domain (ok (some row), db) = ((result_of row true, db), [])
after_hit c reply meanwhile domain (ok none, db) =
    commit (meanwhile db) (second_tx c reply domain (meanwhile db))

unfoldable pub fetch_get : Call → Reply → (Db → Db) → Db → (Result RawFetch × Db) × List Request
unfolding second_tx result_of
fetch_get c reply meanwhile db = elim (c.platform.hostname c.options.url) [
  | err e ↦ ((err e, db), [])
  | ok domain ↦
      after_hit c reply meanwhile domain
        (step_tx c.run_id c.workflow_id (gets (cached (hash_of c) (method_of c))) db)
]
