-- ===== src/RequestProtection/Limits.antt =====
-- What holds of all orders of attempts in app/services/request_protection.py.
use questock.Prelude.{ℕ, ◌+◌, ◌≤◌, ◌≡◌, ◌≢◌, true, none, some, arith, String, string_eq, nat_eq}
use questock.Exec.{ok}
use questock.Dict.{lookup, size}
use questock.Dict.Laws.{weight-lookup-le}
use questock.RequestProtection.{Protector, init}
use questock.RequestProtection.Valid.{IsValid}
use questock.RequestProtection.Guarded.{Guarded, Step-Guarded}
use questock.RequestProtection.Concurrent.{System, Reach, here, next, at_rest, of_client}

pub Reach-Guarded : {y u : System} → Reach y u → Guarded y → Guarded u
Reach-Guarded here g = g
Reach-Guarded (next before step) g = Step-Guarded step (Reach-Guarded before g)

pub at_rest-Guarded :
    (max_client_buckets ttl_seconds : ℕ) (p : Protector)
    → init true max_client_buckets ttl_seconds ≡ ok p
    → Guarded (at_rest p)
unfolding init
at_rest-Guarded max_client_buckets ttl_seconds p h = record {
  valid = ground (arith, h);
  numbered = tt;
  slots = ground (arith, h);
  counted = omega arith;
  all_counted = ground (arith, h);
  clients = λ k. omega arith;
}

-- From a protector that the constructor makes, whatever attempts start, are refused and end, in
-- whatever order and with whatever readings of the clocks, at most two are in progress, attempts in
-- progress and free slots are together at most two, and each attempt in progress is counted in
-- active_attempts, which never passes two.
pub two_at_once :
    (max_client_buckets ttl_seconds : ℕ) (p : Protector) (u : System)
    → init true max_client_buckets ttl_seconds ≡ ok p
    → Reach (at_rest p) u
    → (size u.attempts ≤ 2)
      × (size u.attempts + u.protector.slots ≤ 2)
      × (size u.attempts ≤ u.protector.active_attempts)
      × (u.protector.active_attempts ≤ 2)
two_at_once max_client_buckets ttl_seconds p u made reach =
    let g = Reach-Guarded reach (at_rest-Guarded max_client_buckets ttl_seconds p made) in
    (omega (arith, g.slots), g.slots, g.counted, omega (arith, g.all_counted))

-- At any time that attempts reach from a new protector, there are at most max_client_buckets
-- buckets with distinct keys, each with at most ten attempts in its window, in order and none after
-- the last reading, and at most fifty in its day, and at most a hundred attempts count for the day
-- in all.
pub limits_kept :
    (max_client_buckets ttl_seconds : ℕ) (p : Protector) (u : System)
    → init true max_client_buckets ttl_seconds ≡ ok p
    → Reach (at_rest p) u
    → IsValid u.protector
limits_kept max_client_buckets ttl_seconds p u made reach =
    (Reach-Guarded reach (at_rest-Guarded max_client_buckets ttl_seconds p made)).valid

-- At any time that attempts reach from a new protector, the bucket of each attempt in progress is
-- there: neither the purge nor the making of room takes it away.
pub in_progress_bucket :
    (max_client_buckets ttl_seconds : ℕ) (p : Protector) (u : System) (i : ℕ) (key : String)
    → init true max_client_buckets ttl_seconds ≡ ok p
    → Reach (at_rest p) u
    → lookup i u.attempts ≡ some key
    → lookup key u.protector.buckets ≢ none
in_progress_bucket max_client_buckets ttl_seconds p u i key made reach there gone =
    let g = Reach-Guarded reach (at_rest-Guarded max_client_buckets ttl_seconds p made) in
    ground (
      arith,
      gone,
      g.clients key,
      weight-lookup-le (of_client key) i key u.attempts there,
      string_eq.beq_iff key key,
    )
