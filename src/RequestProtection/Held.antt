-- ===== src/RequestProtection/Held.antt =====
-- The attempts in progress of one client, the slots and the bounds, in the parts of `admit` in
-- app/services/request_protection.py.
use questock.Prelude.{
  ℕ, ◌≡◌, refl, false, Option, none, some, [], ◌∷◌, inl, inr, arith, Bool-cases, String, string_eq,
}
use questock.Exec.Triple.{Triple}
use questock.Clock.{runs_back}
use questock.Dict.{Dict, lookup, Each}
use questock.Dict.Purge.{lookup-purge}
use questock.Dict.Shrink.{Shrinks, Shrinks-purge, Each-Shrinks}
use questock.RequestProtection.{
  Protector, ClientBucket, now, expired, purge_expired, is_day, roll_global_day,
}
use questock.RequestProtection.Valid.{BucketOk, IsValid}
use questock.RequestProtection.Window.{Ascending-widen}

abbrev pub active_in : Option ClientBucket → ℕ
active_in none = 0
active_in (some b) = b.active

abbrev pub active_of : String → Protector → ℕ
active_of k p = active_in (lookup k p.buckets)

-- The client `k` has `n` attempts in progress, `a` are in progress in all, and `sl` slots are free.
pub record Held (k : String) (n sl a : ℕ) (p : Protector) : Type 0 where
  pub valid : IsValid p
  pub active : active_of k p ≡ n
  pub slots : p.slots ≡ sl
  pub attempts : p.active_attempts ≡ a

-- And the clock stands at `time`.
pub record HeldAt (k : String) (n sl a time : ℕ) (p : Protector) : Type 0 where
  pub held : Held k n sl a p
  pub clock : p.last_now ≡ some time

BucketOk-later :
    (last : Option ℕ) (time : ℕ) (b : ClientBucket)
    → runs_back time last ≡ false
    → BucketOk last b
    → BucketOk (some time) b
BucketOk-later none time b on h = absurd h.times
BucketOk-later (some l) time b on h = record {
  window_bound = h.window_bound;
  day_bound = h.day_bound;
  times = (
    Ascending-widen 0 0 l time b.window_attempts h.times.0 (omega arith) (ground (arith, on)),
    ground (arith, on, h.times.1),
  );
}

all_later :
    (last : Option ℕ) (time : ℕ) (d : Dict String ClientBucket)
    → runs_back time last ≡ false
    → Each (λ _ b. BucketOk last b) d
    → Each (λ _ b. BucketOk (some time) b) d
all_later last time [] on h = tt
all_later last time ((k, b) ∷ d) on h =
    (BucketOk-later last time b on h.0, all_later last time d on h.1)

module _ (k : String) (n sl a : ℕ) where
  pub now-Held :
      (reading : Option ℕ) → Triple (Held k n sl a) (Held k n sl a) (now reading) (HeldAt k n sl a)
  unfolding now
  now-Held none = record { at = λ p h. h }
  now-Held (some time) = record {
    at = λ p h. elim (Bool-cases (runs_back time p.last_now)) [
      | inl back ↦ rw back h
      | inr on ↦ rw on (record {
        held = record {
          valid = record {
            distinct = h.valid.distinct;
            buckets_pos = h.valid.buckets_pos;
            buckets_max = h.valid.buckets_max;
            bounded = h.valid.bounded;
            global_bound = h.valid.global_bound;
            buckets = all_later p.last_now time p.buckets on h.valid.buckets;
          };
          active = h.active;
          slots = h.slots;
          attempts = h.attempts;
        };
        clock = refl;
      })
    ];
  }

  -- Buckets without an attempt in progress may go.
  pub shrunk :
      (time : ℕ) (p : Protector) (d : Dict String ClientBucket)
      → HeldAt k n sl a time p
      → Shrinks p.buckets d
      → active_in (lookup k d) ≡ active_of k p
      → HeldAt k n sl a time (record p { buckets = d })
  shrunk time p d h s same = record {
    held = record {
      valid = record {
        distinct = s.distinct;
        buckets_pos = h.held.valid.buckets_pos;
        buckets_max = h.held.valid.buckets_max;
        bounded = omega (arith, s.weights (λ _ _. 1), h.held.valid.bounded);
        global_bound = h.held.valid.global_bound;
        buckets = Each-Shrinks (λ _ b. BucketOk p.last_now b) s h.held.valid.buckets;
      };
      active = omega (arith, same, h.held.active);
      slots = h.held.slots;
      attempts = h.held.attempts;
    };
    clock = h.clock;
  }

  pub purge-Held :
      (time : ℕ) (p : Protector)
      → HeldAt k n sl a time p
      → HeldAt k n sl a time (purge_expired time p)
  unfolding purge_expired
  purge-Held time p h =
      let gone = λ (_ : String). expired p.client_bucket_ttl_seconds time in
      shrunk time p _ h (Shrinks-purge gone p.buckets h.held.valid.distinct)
        (ground (arith, lookup-purge gone k p.buckets h.held.valid.distinct))

  pub roll-Held :
      (time day : ℕ) (p : Protector)
      → HeldAt k n sl a time p
      → HeldAt k n sl a time (roll_global_day day p)
  unfolding roll_global_day
  roll-Held time day p h = elim (Bool-cases (is_day day p.global_day)) [
    | inl same ↦ rw same h
    | inr new ↦ rw new (record {
      held = record {
        valid = record {
          distinct = h.held.valid.distinct;
          buckets_pos = h.held.valid.buckets_pos;
          buckets_max = h.held.valid.buckets_max;
          bounded = h.held.valid.bounded;
          global_bound = omega arith;
          buckets = h.held.valid.buckets;
        };
        active = h.held.active;
        slots = h.held.slots;
        attempts = h.held.attempts;
      };
      clock = h.clock;
    })
  ]
