-- ===== src/Fetch/Again.antt =====
-- packages/core/src/fetch.ts: what a call leaves for the next one of the same URL.
use hyperfixation_core.Prelude.{
  ℕ, ◌+◌, ◌<◌, String, true, false, Option, some, [], ◌≡◌, or_else, find_where,
}
use hyperfixation_core.State.{Db, RawFetchRow, Result, ok, err, plain, fetch_too_large}
use hyperfixation_core.Fence.{is_current}
use hyperfixation_core.Fetch.{
  Reply, RawFetch, Capped, whole, too_large, broken, cached, is_entry, too_large_message,
  body_limit,
}
use hyperfixation_core.Fetch.Get.{Call, hash_of, method_of, fetch_get}

abbrev pub ttl_of : Call → ℕ
ttl_of c = or_else c.options.ttl_ms 86400000

-- A row that the next call of the same URL finds, with the error that it carries.
record Filled (c : Call) (error : Option String) (row : RawFetchRow) (db : Db) : Type 0 where
  found : find_where (is_entry (hash_of c) (method_of c)) db.raw_fetches ≡ some row
  carries : row.error ≡ error
  lasts : row.expires_at ≡ db.now + ttl_of c

-- What a call of the same URL and method meets later: its attempt is current, and the rows of the
-- cache are those that the first one left.
pub record Later (c later : Call) (db' now : Db) : Type 0 where
  pub domain : String
  pub host : later.platform.hostname later.options.url ≡ ok domain
  pub current : is_current later.run_id later.workflow_id now ≡ true
  pub same_hash : hash_of later ≡ hash_of c
  pub same_method : method_of later ≡ method_of c
  pub kept : now.raw_fetches ≡ db'.raw_fetches

-- What a call that asked the host and was answered leaves, by what its body came to.
abbrev pub Leaves : Call → Capped → Result RawFetch → Db → Db → (Result RawFetch → Type 0) → Type 0
Leaves c (whole body) r before db' Next =
    (row : RawFetchRow) × (r ≡ ok (record { row = row; cached = false }))
    × Next (ok (record { row = row; cached = true }))
Leaves c (too_large n) r before db' Next =
    (r ≡ err (fetch_too_large c.options.url n body_limit))
    × Next (err (plain "FetchTooLarge" (too_large_message c.options.url n)))
Leaves c (broken e) r before db' Next = (r ≡ err e) × (db' ≡ before)

module _ (c later : Call) (next : Reply) (between : Db → Db) (before db' now : Db)
    (r : Result RawFetch) (l : Later c later db' now) (fresh : now.now < db'.now + ttl_of c) where
  abbrev Next : Result RawFetch → Type 0
  Next answer = fetch_get later next between now ≡ ((answer, now), [])
