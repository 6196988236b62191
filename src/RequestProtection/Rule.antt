-- ===== src/RequestProtection/Rule.antt =====
-- When `admit` of app/services/request_protection.py lets an attempt through.
use questock.Prelude.{ℕ, ◌+◌, ◌/◌, ◌≡◌, false, some, String, string_eq, ◌==◌, if◌then◌else◌, length}
use questock.Clock.{runs_back}
use questock.Dict.{lookup}
use questock.RequestProtection.{Protector, ClientBucket, expired, is_day}
use questock.RequestProtection.Window.{within_window}

-- The day of Seoul, nine hours ahead.
abbrev pub seoul_day : ℕ → ℕ
seoul_day seconds = (seconds + 32400) / 86400

-- The counts that an attempt of the client with bucket `b` meets.
abbrev pub recent : ℕ → ClientBucket → ℕ
recent time b = length (within_window time b.window_attempts)

abbrev pub of_day : ℕ → ClientBucket → ℕ
of_day day b = if b.day == day then b.day_attempts else 0

abbrev pub of_day_in_all : ℕ → Protector → ℕ
of_day_in_all day p = if is_day day p.global_day then p.global_day_attempts else 0

-- The client has a bucket that does not go at the reading `time`.
pub record Known (key : String) (time : ℕ) (b : ClientBucket) (p : Protector) : Type 0 where
  pub on : runs_back time p.last_now ≡ false
  pub there : lookup key p.buckets ≡ some b
  pub young : expired p.client_bucket_ttl_seconds time b ≡ false
