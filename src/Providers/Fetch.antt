-- ===== src/Providers/Fetch.antt =====
-- `fetch_with_policy` and `fetch_required_providers` of app/providers/base.py.
use questock.Prelude.{
  ℕ, zero, suc, ◌+◌, ◌-◌, Bool, true, false, not, ◌||◌, Option, none, some, List, [], ◌∷◌, String,
  str_eq, leb, ltb, ◌==◌, if◌then◌else◌,
}
use questock.Exec.{Result, ok, raise}
use questock.Dict.{Dict}
use questock.Core.Models.{DateRange}
use questock.Core.Plan.{
  SecurityIdentifier, ProviderStatus, timeout, provider_unavailable, ProviderResult,
}
use questock.Core.Unicode.{Unicode}
use questock.Providers.{
  ContractError, CacheKey, make_cache_key, failed_with, create_provider_result, Cache, get, set,
  is_ok,
}

-- What a call of a provider comes to.
pub data Outcome : Type 0 where
  timed_out failed : Outcome
  answered : ProviderResult → Outcome

-- An attempt as the world makes it: the reading before it, what the call comes to, the wall clock,
-- and the reading with which a result is stored.
pub record Attempt : Type 0 where
  pub at : ℕ
  pub outcome : Outcome
  pub utc : ℕ
  pub stored_at : ℕ

pub record ProviderConfig : Type 0 where
  pub timeout_seconds : ℕ
  pub retry_count : ℕ
  pub total_deadline_seconds : ℕ

-- `_total_deadline_result`
abbrev pub total_deadline_result : ℕ → ProviderResult
total_deadline_result utc = failed_with timeout "total_deadline_exceeded" utc false

-- `_call_once`
unfoldable pub call_once : Outcome → String → ℕ → Result ContractError ProviderResult
call_once timed_out timeout_code utc =
    create_provider_result timeout false (some timeout_code) (some timeout_code) (some utc) false
call_once failed timeout_code utc =
    create_provider_result provider_unavailable false (some "provider_unavailable")
      (some "provider_unavailable") (some utc) false
call_once (answered r) timeout_code utc =
    create_provider_result r.status r.has_data r.error_code r.message r.fetched_at false

-- `_RETRYABLE_STATUSES`
abbrev pub is_retryable : ProviderStatus → Bool
is_retryable timeout = true
is_retryable provider_unavailable = true
is_retryable _ = false

abbrev pub set_in : Option Cache → ℕ → CacheKey → ProviderResult → Option Cache
set_in none now key r = none
set_in (some cache) now key r = some (set now key r cache)

-- `timeout_error_code`, of the attempt that starts at the reading.
abbrev pub timeout_code : ProviderConfig → (deadline at : ℕ) → String
timeout_code config deadline at =
    let remaining = deadline - at in
    let attempt_timeout =
      if ltb remaining config.timeout_seconds then remaining else config.timeout_seconds in
    if attempt_timeout == config.timeout_seconds
    then "attempt_timeout"
    else "total_deadline_exceeded"

abbrev pub attempt_result : ProviderConfig → ℕ → Attempt → Result ContractError ProviderResult
attempt_result config deadline a = call_once a.outcome (timeout_code config deadline a.at) a.utc

abbrev pub Fetched : Type 0
Fetched = Result ContractError ProviderResult × Option Cache

-- The end of the body of the loop: `rest` is the loop from the next attempt on.
abbrev pub after_call :
    Bool
    → CacheKey
    → ℕ
    → Result ContractError ProviderResult
    → Option Cache
    → (Option Cache → Fetched)
    → Fetched
after_call is_last key stored_at (raise e) cache rest = (raise e, cache)
after_call is_last key stored_at (ok r) cache rest =
    let cache' = if is_ok r.status then set_in cache stored_at key r else cache in
    if not (is_retryable r.status) || is_last then (ok r, cache') else rest cache'

-- The loop over the attempts, from `index` on, with `more` attempts after it.
unfoldable pub attempts :
    ProviderConfig → ℕ → CacheKey → (ℕ → Attempt) → ℕ → ℕ → Option Cache → Fetched
attempts config deadline key world zero index cache =
    let a = world index in
    let called =
      after_call true key a.stored_at (attempt_result config deadline a) cache
        (λ cache. (ok (total_deadline_result a.utc), cache)) in
    if leb deadline a.at then (ok (total_deadline_result a.utc), cache) else called
attempts config deadline key world (suc more) index cache =
    let a = world index in
    let called =
      after_call false key a.stored_at (attempt_result config deadline a) cache
        (attempts config deadline key world more (index + 1)) in
    if leb deadline a.at then (ok (total_deadline_result a.utc), cache) else called

abbrev pub get_in : ℕ → CacheKey → Option Cache → Option ProviderResult × Option Cache
get_in now key none = (none, none)
get_in now key (some cache) = let (found, cache') = get now key cache in (found, some cache')

abbrev pub unless_cached : Option ProviderResult → Option Cache → (Option Cache → Fetched) → Fetched
unless_cached (some r) cache fetch = (ok r, cache)
unless_cached none cache fetch = fetch cache

-- `fetch_with_policy`; `now` is the reading of the cache, `began` that before the deadline is set.
unfoldable pub fetch_with_policy :
    Unicode
    → String
    → SecurityIdentifier
    → ProviderConfig
    → Option String
    → Option DateRange
    → (now began : ℕ) → (ℕ → Attempt)
    → Option Cache
    → Fetched
fetch_with_policy u provider_key security config query date_range now began world cache =
    let key = make_cache_key u provider_key security query date_range in
    let (found, cache') = get_in now key cache in
    unless_cached found cache'
      (attempts config (began + config.total_deadline_seconds) key world config.retry_count 0)

-- A task of `fetch_required_providers` when the wait for all is over.
pub data Task : Type 0 where
  finished : Result ContractError ProviderResult → Task
  unfinished : Task

-- The pair of a task: `run_provider` turns an exception into a result.
abbrev pub task_result : ℕ → Task → ProviderResult
task_result utc (finished (ok r)) = r
task_result utc (finished (raise e)) =
    failed_with provider_unavailable "provider_unavailable" utc false
task_result utc unfinished = total_deadline_result utc

-- `pairs`, for the providers in their order.
unfoldable pub pairs : ℕ → List (String × Task) → Dict String ProviderResult
pairs utc [] = []
pairs utc ((key, task) ∷ tasks) = (key, task_result utc task) ∷ pairs utc tasks

pub data KeyError : Type 0 where
  key_differs : KeyError

-- Some provider stands under a key that is not its own.
unfoldable pub some_key_differs : List (String × String × Task) → Bool
some_key_differs [] = false
some_key_differs ((provider_key, own_key, task) ∷ tasks) =
    not (str_eq provider_key own_key) || some_key_differs tasks

unfoldable pub named_tasks : List (String × String × Task) → List (String × Task)
named_tasks [] = []
named_tasks ((provider_key, own_key, task) ∷ tasks) = (provider_key, task) ∷ named_tasks tasks

-- `fetch_required_providers`; a task is what has become of it when the wait is over.
unfoldable pub fetch_required_providers :
    ℕ → List (String × String × Task) → Result KeyError (Dict String ProviderResult)
fetch_required_providers utc providers =
    if some_key_differs providers then raise key_differs else ok (pairs utc (named_tasks providers))
