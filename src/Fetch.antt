-- ===== src/Fetch.antt =====
-- packages/core/src/fetch.ts: fetchGet. `now` of the database is what clock_timestamp() reads, in
-- whole milliseconds, so a wait and a request move it on. A request leaves the process as it is
-- made, so it is listed beside the transaction, also where that is rolled back.
pub mod Get
pub mod Body
pub mod Spaced
pub mod Again
pub mod Written
use Prim.Native.String.{◌++◌ as str_append}
use hyperfixation_core.Prelude.{
  ℕ, ◌+◌, ◌-◌, ◌*◌, String, Bool, true, false, Option, none, some, List, [], ◌∷◌, ◌++◌, ◌&&◌, ◌==◌,
  if◌then◌else◌, ltb, leb, or_else, length, find_where, any_where, update_where,
}
use hyperfixation_core.Prelude.Decimal.{decimal}
use hyperfixation_core.State.{
  Db, RawFetchRow, FetchDomain, Error, Result, ok, err, fetch_too_large, stale_attempt, plain,
}
use hyperfixation_core.State.Tx.{Exec, run, gets, settle}
use hyperfixation_core.Fence.{is_current, step_tx}

-- The 5 MB of FETCH_BODY_LIMIT_BYTES.
abbrev pub body_limit : ℕ
body_limit = 5242880

-- FETCH_LOCK_TIMEOUT_MS and the bound of fetchLockTimeoutStatement.
unfoldable pub lock_timeout_ms : ℕ → ℕ
lock_timeout_ms min_interval_ms =
    if leb (min_interval_ms * 2) 60000 then 60000 else min_interval_ms * 2

pub data Method : Type 0 where
  get head : Method

abbrev pub method_name : Method → String
method_name get = "GET"
method_name head = "HEAD"

pub record FetchGetOptions : Type 0 where
  pub url : String
  pub ttl_ms : Option ℕ
  pub method : Option Method
  pub min_interval_ms : Option ℕ

-- The platform: SHA-256, the host name of a URL in lower case where `new URL` reads it, and whether
-- the wait for the lock of a domain ends with 55P03 under a bound.
pub record Platform : Type 0 where
  pub hash : String → String
  pub hostname : String → Result String
  pub lock_times_out : ℕ → Option Error

pub record Head : Type 0 where
  pub status : ℕ
  pub headers : List (String × String)
  pub content_type : Option String
  pub etag : Option String

-- A response: `declared` is what `Number` makes of its Content-Length, where that is finite, and a
-- body is the chunks of its stream with the error that the stream ends with, if it does.
pub record Response : Type 0 where
  pub head : Head
  pub declared : Option ℕ
  pub body : Option (List (List ℕ) × Option Error)

-- What the request comes to, and how long it takes.
pub record Reply : Type 0 where
  pub took : ℕ
  pub response : Result Response

pub record Request : Type 0 where
  pub domain : String
  pub at : ℕ

pub record RawFetch : Type 0 where
  pub row : RawFetchRow
  pub cached : Bool

pub data Taken : Type 0 where
  taken : RawFetchRow → Bool → Taken
  refused : Error → Taken

-- readCapped: the body, or what refused it or broke it off.
pub data Capped : Type 0 where
  whole : Option (List ℕ) → Capped
  too_large : ℕ → Capped
  broken : Error → Capped

abbrev pub push : List ℕ → Capped → Capped
push chunk (whole none) = whole (some chunk)
push chunk (whole (some rest)) = whole (some (chunk ++ rest))
push chunk (too_large n) = too_large n
push chunk (broken e) = broken e

-- The loop over the chunks, after `bytes` of them.
unfoldable pub read_chunks : ℕ → List (List ℕ) → Option Error → Capped
read_chunks bytes [] none = whole (some [])
read_chunks bytes [] (some e) = broken e
read_chunks bytes (chunk ∷ chunks) end =
    let more = bytes + length chunk in
    let rest = read_chunks more chunks end in
    if ltb body_limit more then too_large more else push chunk rest

unfoldable pub read_body : Response → Capped
unfolding read_chunks
read_body r = elim r.body [ none ↦ whole none | some (chunks, end) ↦ read_chunks 0 chunks end ]

unfoldable pub read_capped : Response → Capped
unfolding read_body
read_capped r = elim r.declared [
  | none ↦ read_body r
  | some n ↦ let rest = read_body r in if ltb body_limit n then too_large n else rest
]

-- The body of a HEAD is not read.
unfoldable pub body_of : Method → Response → Capped
unfolding read_capped
body_of head r = whole none
body_of get r = read_capped r

-- FETCH_CACHED_STATEMENT.
abbrev pub is_entry : String → Method → RawFetchRow → Bool
is_entry hash method r = (r.url_hash == hash) && (r.method == method_name method)

abbrev pub is_cached : String → Method → ℕ → RawFetchRow → Bool
is_cached hash method now r = is_entry hash method r && ltb now r.expires_at

unfoldable pub cached : String → Method → Db → Option RawFetchRow
cached hash method db = find_where (is_cached hash method db.now) db.raw_fetches

abbrev pub is_domain : String → FetchDomain → Bool
is_domain domain d = d.domain == domain

unfoldable pub upsert_domain : String → ℕ → Db → Db
upsert_domain domain min_interval_ms db =
    if any_where (is_domain domain) db.fetch_domains then db else record db {
      fetch_domains =
          db.fetch_domains
          ++ record { domain = domain; min_interval_ms = min_interval_ms; last_fetched_at = none }
            ∷ [];
    }

-- GREATEST(0, min_interval_ms - (clock_timestamp() - last_fetched_at)), and no wait for a NULL.
abbrev pub wait_of : ℕ → Option FetchDomain → ℕ
wait_of now none = 0
wait_of now (some d) = elim d.last_fetched_at [
  | none ↦ 0
  | some last ↦ (d.min_interval_ms + last) - now
]

unfoldable pub wait_ms : String → Db → ℕ
wait_ms domain db = wait_of db.now (find_where (is_domain domain) db.fetch_domains)

abbrev pub advance : ℕ → Db → Db
advance ms db = record db { now = db.now + ms }

abbrev pub stamped : ℕ → FetchDomain → FetchDomain
stamped now d = record d { last_fetched_at = some now }

unfoldable pub stamp : String → Db → Db
stamp domain db = record db {
  fetch_domains = update_where (is_domain domain) (stamped db.now) db.fetch_domains;
}

-- The row that FETCH_WRITE_STATEMENT inserts, and sets where there is one.
abbrev pub filled :
    String
    → FetchGetOptions
    → Method
    → Head
    → Option (List ℕ)
    → Option String
    → String
    → ℕ
    → ℕ
    → RawFetchRow
filled hash options method h body error run_id now id = record {
  id = id;
  url = options.url;
  url_hash = hash;
  method = method_name method;
  status = h.status;
  headers = h.headers;
  body = body;
  content_type = h.content_type;
  etag = h.etag;
  error = error;
  fetched_at = now;
  expires_at = now + or_else options.ttl_ms 86400000;
  run_id = some run_id;
}

-- `make` takes the id of the row: the one that is there, or a new one.
unfoldable pub write_row : String → Method → (ℕ → RawFetchRow) → Db → RawFetchRow × Db
write_row hash method make db = elim (find_where (is_entry hash method) db.raw_fetches) [
  | some old ↦ (
    make old.id,
    record db {
      raw_fetches = update_where (is_entry hash method) (λ r. make old.id) db.raw_fetches;
    },
  )
  | none ↦ (
    make db.next_id,
    record db { next_id = db.next_id + 1; raw_fetches = db.raw_fetches ++ make db.next_id ∷ [] },
  )
]

unfoldable pub too_large_message : String → ℕ → String
too_large_message url bytes = str_append "FetchTooLarge: " (
    str_append url (
      str_append " returned at least " (
        str_append (decimal bytes) (
          str_append " bytes, over the " (
            str_append (decimal body_limit)
              "-byte cap on hf_raw_fetch.body; the refusal is cached, so the body is not fetched again until it expires")))))
