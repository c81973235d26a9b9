-- ===== src/Tests/Fetch.antt =====
-- Witnesses for the fetcher.
use hyperfixation_core.Prelude.{ℕ, String, none, some, [], ◌∷◌}
use hyperfixation_core.State.{Db, RawFetchRow, FetchDomain, ok}
use hyperfixation_core.Fetch.{Platform, Response, Reply, filled, get}
use hyperfixation_core.Fetch.Get.{Call}
use hyperfixation_core.Tests.{second}

-- One host, and hashes that are the URLs themselves.
abbrev one_host : Platform
one_host = record {
  hash = λ url. url;
  hostname = λ url. ok "example.com";
  lock_times_out = λ ms. none;
}

abbrev page : String → Call
page url = record {
  platform = one_host;
  run_id = "r1";
  workflow_id = "r1:2";
  options = record { url = url; ttl_ms = some 60000; method = none; min_interval_ms = some 1000 };
}

abbrev small_page : Response
small_page = record {
  head = record { status = 200; headers = []; content_type = none; etag = none };
  declared = none;
  body = some ((1 ∷ 2 ∷ []) ∷ (3 ∷ []) ∷ [], none);
}

abbrev answers : Reply
answers = record { took = 30; response = ok small_page }

abbrev stored : String → ℕ → ℕ → RawFetchRow
stored url now id =
    filled url (page url).options get small_page.head (some (1 ∷ 2 ∷ 3 ∷ [])) none "r1" now id

abbrev host_at : ℕ → FetchDomain
host_at last = record {
  domain = "example.com";
  min_interval_ms = 1000;
  last_fetched_at = some last;
}

abbrev after_first : Db
after_first = record second {
  now = 5030;
  next_id = 8;
  raw_fetches = stored "https://example.com/a" 5030 7 ∷ [];
  fetch_domains = host_at 5000 ∷ [];
}

abbrev after_second : Db
after_second = record after_first {
  now = 6030;
  next_id = 9;
  raw_fetches = stored "https://example.com/a" 5030 7 ∷ stored "https://example.com/b" 6030 8 ∷ [];
  fetch_domains = host_at 6000 ∷ [];
}
