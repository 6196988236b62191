-- ===== src/RequestProtection.antt =====
-- app/services/request_protection.py: `RequestProtector`. A reading of the monotonic clock is in
-- seconds, one of `utc_now` in seconds since the epoch; `none` stands for a clock that raises or
-- gives no finite number or no aware datetime.
pub mod Valid
pub mod Window
pub mod Held
mod Room
pub mod Attempts
pub mod Release
pub mod Concurrent
mod Guarded
pub mod Limits
pub mod Rule
mod Lost
mod Examples
use questock.Prelude.{
  ℕ, ◌+◌, ◌-◌, ◌*◌, ◌/◌, Bool, true, false, not, ◌&&◌, ◌||◌, Option, none, some, List, [], ◌∷◌,
  ◌++◌, String, string_eq, ltb, leb, ◌==◌, if◌then◌else◌, min_by, length,
}
use questock.Prelude.Text.{codes, all_codes, is_digit, between, str_lt}
use questock.Clock.{runs_back}
use questock.Exec.{Result, ok, raise, Exec, ◌>>=◌, ◌>>◌, pure, throw, lift, gets, modify, raise_if}
use questock.Dict.{Dict, lookup, remove, assign, items_where, size}
use questock.Dict.Purge.{purge}

pub data ProtectionError : Type 0 where
  unavailable limited : ProtectionError

abbrev pub client_window_seconds : ℕ
client_window_seconds = 300

abbrev pub client_window_limit : ℕ
client_window_limit = 10

abbrev pub client_day_limit : ℕ
client_day_limit = 50

abbrev pub global_concurrency_limit : ℕ
global_concurrency_limit = 2

abbrev pub global_day_limit : ℕ
global_day_limit = 100

abbrev pub max_client_buckets_limit : ℕ
max_client_buckets_limit = 1024

pub record ClientBucket : Type 0 where
  pub window_attempts : List ℕ
  pub day : ℕ
  pub day_attempts : ℕ
  pub last_access : ℕ
  pub active : ℕ

-- `slots` is what the semaphore has left.
pub record Protector : Type 0 where
  pub enabled : Bool
  pub max_client_buckets : ℕ
  pub client_bucket_ttl_seconds : ℕ
  pub buckets : Dict String ClientBucket
  pub global_day : Option ℕ
  pub global_day_attempts : ℕ
  pub active_attempts : ℕ
  pub last_now : Option ℕ
  pub slots : ℕ

-- `__init__`
unfoldable pub init : Bool → ℕ → ℕ → Result ProtectionError Protector
init enabled max_client_buckets client_bucket_ttl_seconds =
    if not (leb 1 max_client_buckets && leb max_client_buckets max_client_buckets_limit)
      || leb client_bucket_ttl_seconds 0
    then raise unavailable
    else ok (record {
      enabled = enabled;
      max_client_buckets = max_client_buckets;
      client_bucket_ttl_seconds = client_bucket_ttl_seconds;
      buckets = [];
      global_day = none;
      global_day_attempts = 0;
      active_attempts = 0;
      last_now = none;
      slots = global_concurrency_limit;
    })

pub record ProtectionSnapshot : Type 0 where
  pub bucket_count : ℕ
  pub global_day_attempts : ℕ
  pub active_attempts : ℕ

-- `snapshot`
pub snapshot : Protector → ProtectionSnapshot
snapshot p = record {
  bucket_count = size p.buckets;
  global_day_attempts = p.global_day_attempts;
  active_attempts = p.active_attempts;
}

-- `_now`
unfoldable pub now : Option ℕ → Exec ProtectionError Protector ℕ
now none p = (raise unavailable, p)
now (some value) p =
    if runs_back value p.last_now
    then (raise unavailable, p)
    else (ok value, record p { last_now = some value })

-- `_kst_day`, in whole days. Seoul has been nine hours ahead of UTC since its last summer time ended
-- in 1988; a clock that reads an earlier time is left out.
unfoldable pub kst_day : Option ℕ → Result ProtectionError ℕ
kst_day none = raise unavailable
kst_day (some seconds) = ok ((seconds + 32400) / 86400)

-- `_canonical_client_key`
unfoldable pub canonical_client_key : Option String → Result ProtectionError String
canonical_client_key none = raise limited
canonical_client_key (some key) =
    if length (codes key) == 64 && all_codes (λ c. is_digit c || between b'a' b'f' c) (codes key)
    then ok key
    else raise limited

-- The test of `_purge_expired`.
abbrev pub expired : ℕ → ℕ → ClientBucket → Bool
expired ttl_seconds now bucket = bucket.active == 0 && leb ttl_seconds (now - bucket.last_access)

-- `_purge_expired`
unfoldable pub purge_expired : ℕ → Protector → Protector
purge_expired now p = record p {
  buckets = purge (λ _. expired p.client_bucket_ttl_seconds now) p.buckets;
}

-- `self._global_day != day`, negated.
abbrev pub is_day : ℕ → Option ℕ → Bool
is_day day none = false
is_day day (some d) = d == day

-- `_roll_global_day`
unfoldable pub roll_global_day : ℕ → Protector → Protector
roll_global_day day p =
    if is_day day p.global_day
    then p
    else record p { global_day = some day; global_day_attempts = 0 }

-- `_roll_client_day`
abbrev pub roll_client_day : ℕ → ClientBucket → ClientBucket
roll_client_day day bucket =
    if bucket.day == day then bucket else record bucket { day = day; day_attempts = 0 }

-- `(item.last_access, client_key)` of the buckets without an attempt in progress.
unfoldable pub candidates : Dict String ClientBucket → List (ℕ × String)
candidates = items_where (λ _ b. b.active == 0) (λ k b. (b.last_access, k))

-- The order of Python on such pairs.
unfoldable pub pair_lt : ℕ × String → ℕ × String → Bool
pair_lt (t, a) (u, b) = ltb t u || t == u && str_lt a b

-- `_, evicted_key = min(candidates)`, and the deletion.
unfoldable pub evict : List (ℕ × String) → Exec ProtectionError Protector Unit
evict [] = throw limited
evict (x ∷ xs) = modify (λ p. record p { buckets = remove (min_by pair_lt x xs).1 p.buckets })

unfoldable pub make_room : Exec ProtectionError Protector Unit
make_room p =
    if leb p.max_client_buckets (size p.buckets) then evict (candidates p.buckets) p else (ok tt, p)

abbrev pub new_bucket : ℕ → ℕ → ClientBucket
new_bucket now day = record {
  window_attempts = [];
  day = day;
  day_attempts = 0;
  last_access = now;
  active = 0;
}

abbrev pub write : String → ClientBucket → Exec ProtectionError Protector Unit
write key bucket = modify (λ p. record p { buckets = assign key bucket p.buckets })

-- `_bucket`
unfoldable pub found_or_new :
    Option ClientBucket → String → ℕ → ℕ → Exec ProtectionError Protector ClientBucket
found_or_new (some bucket) key now day = pure bucket
found_or_new none key now day = do
  make_room
  write key (new_bucket now day)
  pure (new_bucket now day)

unfoldable pub bucket_for : String → ℕ → ℕ → Exec ProtectionError Protector ClientBucket
bucket_for key now day p = found_or_new (lookup key p.buckets) key now day p

-- `while window_attempts and window_attempts[0] <= cutoff: window_attempts.popleft()`
unfoldable pub prune : ℕ → List ℕ → List ℕ
prune now [] = []
prune now (t ∷ ts) =
    let rest = prune now ts in if leb (t + client_window_seconds) now then rest else t ∷ ts

-- The bucket when its limits are tested.
abbrev pub rolled : ℕ → ℕ → ClientBucket → ClientBucket
rolled now day bucket =
    let today = roll_client_day day bucket in
    record today { window_attempts = prune now today.window_attempts }

-- The test of the limits.
unfoldable pub at_limit : ClientBucket → ℕ → Bool
at_limit bucket global_day_attempts =
    leb client_window_limit (length bucket.window_attempts)
    || leb client_day_limit bucket.day_attempts
    || leb global_day_limit global_day_attempts

abbrev pub counted : ℕ → ClientBucket → ClientBucket
counted now bucket = record bucket {
  window_attempts = bucket.window_attempts ++ now ∷ [];
  day_attempts = bucket.day_attempts + 1;
  active = bucket.active + 1;
  last_access = now;
}

-- What `admit` does under the state lock before its `yield`, with a slot in hand. The bucket is
-- changed in place, so what was rolled and pruned stays where the limit is reached.
unfoldable pub start : Option ℕ → Option ℕ → String → Exec ProtectionError Protector Unit
start monotonic utc key = do
  time ← now monotonic
  day ← lift (kst_day utc)
  modify (purge_expired time)
  modify (roll_global_day day)
  bucket ← bucket_for key time day
  let today = rolled time day bucket
  write key today
  total ← gets (λ p. p.global_day_attempts)
  raise_if (at_limit today total) limited
  write key (counted time today)
  modify (λ p. record p {
    global_day_attempts = p.global_day_attempts + 1;
    active_attempts = p.active_attempts + 1;
  })

-- `bucket.active = max(0, bucket.active - 1)`, then `bucket.last_access = self._now()`.
unfoldable pub finish_found :
    Option ClientBucket → Option ℕ → String → Exec ProtectionError Protector Unit
finish_found none monotonic key = pure tt
finish_found (some bucket) monotonic key = do
  let less = record bucket { active = bucket.active - 1 }
  write key less
  time ← now monotonic
  write key (record less { last_access = time })

-- The `finally` of an admitted attempt, which gives its slot back at the end.
unfoldable pub finish : Option ℕ → String → Exec ProtectionError Protector Unit
finish monotonic key = do
  found ← gets (λ p. lookup key p.buckets)
  finish_found found monotonic key
  modify (λ p. record p { active_attempts = p.active_attempts - 1; slots = p.slots + 1 })
