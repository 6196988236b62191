-- ===== src/Providers/Examples.antt =====
-- Fetching at concrete inputs.
use questock.Prelude.{
  ℕ, ◌≡◌, refl, true, false, Option, none, some, [], ◌∷◌, string_eq, ◌==◌, if◌then◌else◌,
}
use questock.Prelude.Text.{between, is_space, strip}
use questock.Exec.{ok, raise}
use questock.Dict.{lookup, assign, remove}
use questock.Core.Unicode.{Unicode}
use questock.Core.Plan.{SecurityIdentifier, provider_ok, provider_unavailable, ProviderResult}
use questock.Core.Records.{one_space}
use questock.Evidence.Policy.Inputs.{provider_result_ok}
use questock.Providers.{
  contract_error, normalize_query, make_cache_key, create_provider_result, Cache, get, set,
  failed_with,
}
use questock.Providers.Fetch.{
  timed_out, answered, Attempt, ProviderConfig, total_deadline_result, call_once, attempts, Fetched,
  fetch_with_policy, finished, unfinished, pairs, some_key_differs, named_tasks,
  fetch_required_providers,
}
use questock.Providers.Attempts.{Course, fetch_with_policy-Course}

program : Unit {0}
unfolding lookup assign remove is_space strip one_space normalize_query create_provider_result get
    set call_once attempts fetch_with_policy pairs some_key_differs named_tasks
    fetch_required_providers
program = tt

abbrev unicode : Unicode
unicode = record {
  nfkc = λ cs. cs;
  casefold = λ cs. cs;
  upper = λ cs. cs;
  is_decimal = λ c. between b'0' b'9' c;
}

abbrev security : SecurityIdentifier
security = record {
  market = "KRX";
  ticker = "005930";
  security_name = "samsung";
  security_type = "common_stock";
  corp_code = none;
  corp_name = "samsung";
}

abbrev config : ProviderConfig
config = record { timeout_seconds = 8; retry_count = 1; total_deadline_seconds = 20 }

abbrev news : ProviderResult
news = record {
  status = provider_ok;
  has_data = true;
  error_code = none;
  message = none;
  fetched_at = some 500;
  from_cache = true;
}

-- The first call times out, the second one answers.
abbrev world : ℕ → Attempt
world i =
    if i == 0
    then record { at = 100; outcome = timed_out; utc = 400; stored_at = 108 }
    else record { at = 108; outcome = answered news; utc = 500; stored_at = 110 }

abbrev empty : Option Cache
empty = some (record { ttl_seconds = 300; items = [] })

abbrev fetch : (ℕ → Attempt) → Option Cache → (now : ℕ) → Fetched
fetch world cache now =
    fetch_with_policy unicode "news" security config (some " hbm  price") none now 100 world cache

abbrev stored : Option Cache
stored = some (record {
  ttl_seconds = 300;
  items =
      (
        make_cache_key unicode "news" security (some "hbm price") none,
        (110, record news { from_cache = false }),
      )
      ∷ [];
})

retries : fetch world empty 100 ≡ (ok (record news { from_cache = false }), stored)
unfolding program
retries = refl

from_cache : fetch world stored 409 ≡ (ok news, stored)
unfolding program
from_cache = refl

stale : (fetch world stored 410).0 ≡ ok (record news { from_cache = false })
unfolding program
stale = refl

-- With 2 of the 10 seconds left, less than the timeout of 8, there is a second attempt all the same.
retries_late :
    (fetch_with_policy unicode "news" security
      (record config { total_deadline_seconds = 10 })
      (some "hbm")
      none
      100
      100
      world
      none).0
    ≡ ok (record news { from_cache = false })
unfolding program
retries_late = refl

-- A provider that breaks the contract makes fetch_with_policy raise; the mapping has a failure.
breaks :
    fetch
      (λ i. record {
        at = 100;
        outcome = answered (record news { has_data = false });
        utc = 400;
        stored_at = 100;
      })
      none
      100
    ≡ (raise contract_error, none)
unfolding program
breaks = refl

gathers :
    fetch_required_providers 7 (
      ("news", "news", finished (raise contract_error))
      ∷ ("disclosure", "disclosure", unfinished)
      ∷ [])
    ≡ ok (
        ("news", failed_with provider_unavailable "provider_unavailable" 7 false)
        ∷ ("disclosure", total_deadline_result 7)
        ∷ [])
unfolding program
gathers = refl

fetch_with_policy-Course_example :
    Course config 120 world 1 0 (fetch world empty 100).0
    × ((r : ProviderResult) → (fetch world empty 100).0 ≡ ok r → provider_result_ok r ≡ true)
fetch_with_policy-Course_example =
    fetch_with_policy-Course unicode "news" security config (some " hbm  price") none 100 100 world
      empty (unfold program in refl)
