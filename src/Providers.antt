-- ===== src/Providers.antt =====
-- app/providers/base.py: the results of providers and their cache. Times are numbers of ticks.
pub mod Fetch
pub mod Canonical
pub mod Attempts
mod Examples
use questock.Prelude.{
  is_some, ℕ, ◌+◌, ◌-◌, ◌≡◌, ◌↔◌, Bool, true, false, not, ◌&&◌, ◌||◌, Option, none, some, List, [],
  ◌∷◌, String, str_eq, string_eq, EqType, codes_eq, codes_eq_iff, eq_iff, arith, ltb, leb, ◌==◌,
  if◌then◌else◌,
}
use questock.Prelude.Text.{codes, strip}
use questock.Exec.{Result, ok, raise}
use questock.Dict.{Dict, lookup, assign, remove}
use questock.Core.Models.{elem, DateRange}
use questock.Core.Plan.{
  SecurityIdentifier, ProviderStatus, provider_ok, no_data, invalid_query, unauthorized,
  rate_limited, timeout, provider_unavailable, parse_error, ProviderResult,
}
use questock.Core.Records.{one_space}
use questock.Core.Unicode.{Unicode}
use Prim.Native.String.{◌++◌ as str_append}

pub data ContractError : Type 0 where
  contract_error : ContractError

-- `security_id_for`
abbrev pub security_id_for : SecurityIdentifier → String
security_id_for s = str_append s.market (str_append ":" s.ticker)

pub record CacheKey : Type 0 where
  pub provider_key : String
  pub security_id : String
  pub normalized_query : List ℕ
  pub date_start : Option ℕ
  pub date_end : Option ℕ

-- `normalize_query`; the split and the join make one space of each run and none at the ends.
unfoldable pub normalize_query : Unicode → Option String → List ℕ
normalize_query u none = []
normalize_query u (some query) = u.casefold (strip (one_space false (u.nfkc (codes query))))

abbrev pub start_of : Option DateRange → Option ℕ
start_of none = none
start_of (some r) = r.start

abbrev pub end_of : Option DateRange → Option ℕ
end_of none = none
end_of (some r) = r.end

-- `make_cache_key`
abbrev pub make_cache_key :
    Unicode → String → SecurityIdentifier → Option String → Option DateRange → CacheKey
make_cache_key u provider_key security query date_range = record {
  provider_key = provider_key;
  security_id = security_id_for security;
  normalized_query = normalize_query u query;
  date_start = start_of date_range;
  date_end = end_of date_range;
}

abbrev pub same_date : Option ℕ → Option ℕ → Bool
same_date none none = true
same_date (some a) (some b) = a == b
same_date _ _ = false

pub same_date_iff : (a b : Option ℕ) → (same_date a b ≡ true) ↔ (a ≡ b)
same_date_iff none none = ground arith
same_date_iff none (some b) = ground arith
same_date_iff (some a) none = ground arith
same_date_iff (some a) (some b) = ground arith

abbrev pub key_beq : CacheKey → CacheKey → Bool
key_beq a b =
    str_eq a.provider_key b.provider_key
    && str_eq a.security_id b.security_id
    && codes_eq a.normalized_query b.normalized_query
    && same_date a.date_start b.date_start
    && same_date a.date_end b.date_end

pub key_beq_iff : (a b : CacheKey) → (key_beq a b ≡ true) ↔ (a ≡ b)
key_beq_iff a b = (
  λ h. ground (
    arith,
    eq_iff a.provider_key b.provider_key,
    eq_iff a.security_id b.security_id,
    codes_eq_iff a.normalized_query b.normalized_query,
    same_date_iff a.date_start b.date_start,
    same_date_iff a.date_end b.date_end,
  ),
  λ h. ground (
    arith,
    eq_iff a.provider_key b.provider_key,
    eq_iff a.security_id b.security_id,
    codes_eq_iff a.normalized_query b.normalized_query,
    same_date_iff a.date_start b.date_start,
    same_date_iff a.date_end b.date_end,
  ),
)

instance abbrev pub cache_key_eq : EqType CacheKey
cache_key_eq = record { beq = key_beq; beq_iff = key_beq_iff }

-- `_FAILURE_ERROR_CODES`, of the statuses of failures.
abbrev pub failure_code : ProviderStatus → String
failure_code provider_ok = ""
failure_code no_data = ""
failure_code invalid_query = "invalid_query"
failure_code unauthorized = "unauthorized"
failure_code rate_limited = "rate_limited"
failure_code timeout = "attempt_timeout"
failure_code provider_unavailable = "provider_unavailable"
failure_code parse_error = "parse_error"

-- `_FAILURE_MESSAGES` and `_safe_failure_message`, of the codes that are there.
abbrev pub safe_message : String → String
safe_message name =
    if str_eq name "invalid_query"
    then "provider rejected the query"
    else if str_eq name "unauthorized"
    then "provider authorization failed"
    else if str_eq name "rate_limited"
    then "provider rate limit reached"
    else if str_eq name "attempt_timeout"
    then "provider attempt timed out"
    else if str_eq name "total_deadline_exceeded"
    then "provider total deadline exceeded"
    else if str_eq name "provider_unavailable"
    then "provider unavailable"
    else "provider response could not be parsed"

-- `error_code or default`
abbrev pub code_or : Option String → String → String
code_or none default = default
code_or (some name) default = if str_eq name "" then default else name

abbrev pub other_code : Option String → String → Bool
other_code none name = false
other_code (some given) name = not (str_eq given name)

abbrev pub result_with :
    ProviderStatus → Bool → Option String → Option String → ℕ → Bool → ProviderResult
result_with status has_data error_code message time from_cache = record {
  status = status;
  has_data = has_data;
  error_code = error_code;
  message = message;
  fetched_at = some time;
  from_cache = from_cache;
}

abbrev pub failed_with : ProviderStatus → String → ℕ → Bool → ProviderResult
failed_with status name time from_cache =
    result_with status false (some name) (some (safe_message name)) time from_cache

-- The branches of `create_provider_result` by the status, at an aware time.
abbrev pub create_by :
    ProviderStatus
    → Bool
    → Option String
    → Option String
    → ℕ
    → Bool
    → Result ContractError ProviderResult
create_by provider_ok has_data error_code message time from_cache =
    if not has_data || is_some error_code
    then raise contract_error
    else ok (result_with provider_ok true none message time from_cache)
create_by no_data has_data error_code message time from_cache =
    if has_data || is_some error_code
    then raise contract_error
    else ok (result_with no_data false none message time from_cache)
create_by timeout has_data error_code message time from_cache =
    let name = code_or error_code "attempt_timeout" in
    if has_data || not (str_eq name "attempt_timeout" || str_eq name "total_deadline_exceeded")
    then raise contract_error
    else ok (failed_with timeout name time from_cache)
create_by status has_data error_code message time from_cache =
    if has_data || other_code error_code (failure_code status)
    then raise contract_error
    else ok (failed_with status (failure_code status) time from_cache)

-- `_ensure_utc`: a time that is not aware raises.
abbrev pub at_time :
    Option ℕ → (ℕ → Result ContractError ProviderResult) → Result ContractError ProviderResult
at_time none f = raise contract_error
at_time (some time) f = f time

-- `create_provider_result` with a time; without one it takes that of the clock.
unfoldable pub create_provider_result :
    ProviderStatus
    → Bool
    → Option String
    → Option String
    → Option ℕ
    → Bool
    → Result ContractError ProviderResult
create_provider_result status has_data error_code message fetched_at from_cache =
    at_time fetched_at (λ time. create_by status has_data error_code message time from_cache)

-- `InMemoryTTLCache`
pub record Cache : Type 0 where
  pub ttl_seconds : ℕ
  pub items : Dict CacheKey (ℕ × ProviderResult)

-- `get`, given what is under the key and the reading of the clock.
abbrev pub get_item :
    Option (ℕ × ProviderResult) → ℕ → CacheKey → Cache → Option ProviderResult × Cache
get_item none now key cache = (none, cache)
get_item (some (stored_at, r)) now key cache =
    if leb cache.ttl_seconds (now - stored_at)
    then (none, record cache { items = remove key cache.items })
    else (some (record r { from_cache = true }), cache)

-- `InMemoryTTLCache.get`
unfoldable pub get : ℕ → CacheKey → Cache → Option ProviderResult × Cache
get now key cache =
    if cache.ttl_seconds == 0
    then (none, cache)
    else get_item (lookup key cache.items) now key cache

abbrev pub is_ok : ProviderStatus → Bool
is_ok provider_ok = true
is_ok _ = false

-- `InMemoryTTLCache.set`
unfoldable pub set : ℕ → CacheKey → ProviderResult → Cache → Cache
set now key r cache =
    if cache.ttl_seconds == 0 || not (is_ok r.status)
    then cache
    else record cache { items = assign key (now, record r { from_cache = false }) cache.items }
