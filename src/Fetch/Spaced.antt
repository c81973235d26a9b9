-- ===== src/Fetch/Spaced.antt =====
-- packages/core/src/fetch.ts: the interval between the requests to one host.
use hyperfixation_core.Prelude.{
  String, Option, none, some, List, [], ◌∷◌, ◌≡◌, refl, subst, ap, arith, find_where,
}
use mathlib.Core.Option
use hyperfixation_core.State.{Db, RawFetchRow, FetchDomain, Result, ok, err}
use hyperfixation_core.State.Tx.{settle, gets}
use hyperfixation_core.Fence.Stale.{step_tx-ok}
use hyperfixation_core.Fence.{step_tx}
use hyperfixation_core.Fetch.{Reply, Request, RawFetch, Taken, cached, is_domain}
use hyperfixation_core.Fetch.Get.{
  Call, hash_of, method_of, after_reply, at_request, request_host, locked_fetch, second_tx, finish,
  commit, after_hit, fetch_get,
}

abbrev pub domain_row : String → Db → Option FetchDomain
domain_row domain db = find_where (is_domain domain) db.fetch_domains

-- A transaction that sent a request.
pub second_tx-request :
    (c : Call) (reply : Reply) (domain : String) (db : Db) (r : Result (Taken × Db)) (q : Request)
    → second_tx c reply domain db ≡ (r, q ∷ [])
    → (q ≡ record { domain = domain; at = (at_request c domain db).now })
      × (r ≡ after_reply c reply (at_request c domain db))
unfolding second_tx locked_fetch request_host
second_tx-request c reply domain db r q h = ground (arith, h)

-- A call that sent one: the transaction that did, and its end.
pub record Requested (c : Call) (reply : Reply) (db : Db) (r : Result RawFetch) (db' : Db)
    (q : Request) : Type 0 where
  pub domain : String
  pub tx : Result (Taken × Db)
  pub sent : second_tx c reply domain db ≡ (tx, q ∷ [])
  pub ended : finish (settle db tx) ≡ (r, db')

first_tx-same :
    (run_id workflow_id : String) (f : Db → Option RawFetchRow) (db : Db) (x : Option RawFetchRow)
    (db' : Db)
    → step_tx run_id workflow_id (gets f) db ≡ (ok x, db')
    → db' ≡ db
first_tx-same run_id workflow_id f db x db' h =
    ground (arith, step_tx-ok run_id workflow_id (gets f) db x db' h)

commit-Requested :
    (c : Call) (reply : Reply) (domain : String) (db : Db) (r : Result RawFetch) (db' : Db)
    (q : Request)
    → commit db (second_tx c reply domain db) ≡ ((r, db'), q ∷ [])
    → Requested c reply db r db' q
commit-Requested c reply domain db r db' q k = record {
  domain = domain;
  tx = (second_tx c reply domain db).0;
  sent =
      ap (λ (p : (Result RawFetch × Db) × List Request). ((second_tx c reply domain db).0, p.1)) k;
  ended = ap (λ (p : (Result RawFetch × Db) × List Request). p.0) k;
}

after_hit-Requested :
    (c : Call) (reply : Reply) (meanwhile : Db → Db) (domain : String) (db : Db)
    (first : Result (Option RawFetchRow) × Db) (r : Result RawFetch) (db' : Db) (q : Request)
    → ((x : Option RawFetchRow) (d : Db) → first ≡ (ok x, d) → d ≡ db)
    → after_hit c reply meanwhile domain first ≡ ((r, db'), q ∷ [])
    → Requested c reply (meanwhile db) r db' q
after_hit-Requested c reply meanwhile domain db (err e, d) r db' q same k = absurd (ground arith)
after_hit-Requested c reply meanwhile domain db (ok (some row), d) r db' q same k =
    absurd (ground arith)
after_hit-Requested c reply meanwhile domain db (ok none, d) r db' q same k =
    subst (λ x. Requested c reply (meanwhile x) r db' q) (same none d refl)
      (commit-Requested c reply domain (meanwhile d) r db' q k)

pub fetch_get-Requested :
    (c : Call) (reply : Reply) (meanwhile : Db → Db) (db : Db) (r : Result RawFetch) (db' : Db)
    (q : Request)
    → fetch_get c reply meanwhile db ≡ ((r, db'), q ∷ [])
    → Requested c reply (meanwhile db) r db' q
unfolding fetch_get
fetch_get-Requested c reply meanwhile db r db' q h = go (c.platform.hostname c.options.url) refl h
  where
    go :
        (host : Result String)
        → c.platform.hostname c.options.url ≡ host
        → (elim host as (λ _. (Result RawFetch × Db) × List Request) [
          | err e ↦ ((err e, db), [])
          | ok domain ↦
              after_hit c reply meanwhile domain
                (step_tx c.run_id c.workflow_id (gets (cached (hash_of c) (method_of c))) db)
        ])
          ≡ ((r, db'), q ∷ [])
        → Requested c reply (meanwhile db) r db' q
    go (err e) at k = absurd (ground arith)
    go (ok domain) at k =
        after_hit-Requested c reply meanwhile domain db
          (step_tx c.run_id c.workflow_id (gets (cached (hash_of c) (method_of c))) db) r db' q
          (first_tx-same c.run_id c.workflow_id (cached (hash_of c) (method_of c)) db) k
