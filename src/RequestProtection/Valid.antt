-- ===== src/RequestProtection/Valid.antt =====
-- The well-formed states of app/services/request_protection.py.
use questock.Prelude.{ℕ, ◌≤◌, Option, none, some, List, [], ◌∷◌, string_eq, length}
use questock.Dict.{Distinct, size, Each}
use questock.RequestProtection.{
  Protector, ClientBucket, client_window_limit, client_day_limit, global_day_limit,
  max_client_buckets_limit,
}

-- Times in order, from `lo` to `hi`.
abbrev pub Ascending : ℕ → ℕ → List ℕ → Type 0
Ascending lo hi [] = lo ≤ hi
Ascending lo hi (t ∷ ts) = (lo ≤ t) × Ascending t hi ts

-- Nothing is before the first reading of the clock.
abbrev pub Until : Option ℕ → ClientBucket → Type 0
Until none b = ⊥
Until (some last) b = Ascending 0 last b.window_attempts × (b.last_access ≤ last)

pub record BucketOk (last : Option ℕ) (b : ClientBucket) : Type 0 where
  pub window_bound : length b.window_attempts ≤ client_window_limit
  pub day_bound : b.day_attempts ≤ client_day_limit
  pub times : Until last b

pub record IsValid (p : Protector) : Type 0 where
  pub distinct : Distinct p.buckets
  pub buckets_pos : 1 ≤ p.max_client_buckets
  pub buckets_max : p.max_client_buckets ≤ max_client_buckets_limit
  pub bounded : size p.buckets ≤ p.max_client_buckets
  pub global_bound : p.global_day_attempts ≤ global_day_limit
  pub buckets : Each (λ _ b. BucketOk p.last_now b) p.buckets
