-- ===== src/RequestProtection/Guarded.antt =====
-- The counts of attempts in progress, along the steps of attempts in
-- app/services/request_protection.py.
use questock.Prelude.{ℕ, ◌+◌, ◌-◌, ◌≤◌, ◌≡◌, refl, Option, some, arith, String, string_eq, nat_eq}
use questock.Exec.{ok, raise}
use questock.Dict.{lookup, remove, Distinct, weight, size}
use questock.Dict.Laws.{
  Distinct-assign, Distinct-remove, weight-assign_absent, weight-remove_present,
}
use questock.RequestProtection.{Protector, ProtectionError, start, finish}
use questock.RequestProtection.Valid.{IsValid}
use questock.RequestProtection.Held.{active_of, Held}
use questock.RequestProtection.Attempts.{start-Triple, plus}
use questock.RequestProtection.Release.{finish-Held, minus}
use questock.RequestProtection.Concurrent.{
  System, Step, admitted, refused, ended, with_slot, slot_back, of_client,
}
use questock.Exec.{Result}
use questock.Exec.Triple.{Outcome}

-- An attempt in progress holds a slot, is counted, and is counted for its client.
pub record Guarded (y : System) : Type 0 where
  pub valid : IsValid y.protector
  pub numbered : Distinct y.attempts
  pub slots : size y.attempts + y.protector.slots ≤ 2
  pub counted : size y.attempts ≤ y.protector.active_attempts
  pub all_counted : y.protector.active_attempts + y.protector.slots ≤ 2
  pub clients : (k : String) → weight (of_client k) y.attempts ≤ active_of k y.protector

-- A client's attempts, whichever client is looked at.
with_slot-Held :
    (k : String) (y : System)
    → Guarded y
    → Held k
        (active_of k y.protector)
        (y.protector.slots - 1)
        y.protector.active_attempts
        (with_slot y.protector)
with_slot-Held k y g = record {
  valid = record {
    distinct = g.valid.distinct;
    buckets_pos = g.valid.buckets_pos;
    buckets_max = g.valid.buckets_max;
    bounded = g.valid.bounded;
    global_bound = g.valid.global_bound;
    buckets = g.valid.buckets;
  };
  active = refl;
  slots = refl;
  attempts = refl;
}

slot_back-IsValid : (p : Protector) → IsValid p → IsValid (slot_back p)
slot_back-IsValid p v = record {
  distinct = v.distinct;
  buckets_pos = v.buckets_pos;
  buckets_max = v.buckets_max;
  bounded = v.bounded;
  global_bound = v.global_bound;
  buckets = v.buckets;
}

pub started :
    (monotonic utc : Option ℕ) (key k : String) (y : System)
    → Guarded y
    → (let p = with_slot y.protector in
        Outcome {E = ProtectionError}
          (Held k (active_of k y.protector) (y.protector.slots - 1) y.protector.active_attempts)
          (λ _.
            Held k
              (plus key k (active_of k y.protector))
              (y.protector.slots - 1)
              (y.protector.active_attempts + 1))
          (start monotonic utc key p).0
          (start monotonic utc key p).1)
started monotonic utc key k y g =
    (start-Triple k _ _ _ monotonic utc key).at (with_slot y.protector) (with_slot-Held k y g)

pub held :
    (k : String) (y : System)
    → Guarded y
    → Held k (active_of k y.protector) y.protector.slots y.protector.active_attempts y.protector
held k y g = record { valid = g.valid; active = refl; slots = refl; attempts = refl }

-- The end of an attempt, whether the clock runs or not.
without :
    (i : ℕ) (key : String) (y : System)
    → Guarded y
    → lookup i y.attempts ≡ some key
    → (r : Result ProtectionError Unit) (q : Protector)
    → ((k : String)
        → Outcome {E = ProtectionError}
            (Held k
              (minus key k (active_of k y.protector))
              y.protector.slots
              y.protector.active_attempts)
            (λ _.
              Held k
                (minus key k (active_of k y.protector))
                (y.protector.slots + 1)
                (y.protector.active_attempts - 1))
            r
            q)
    → Guarded (record { protector = q; attempts = remove i y.attempts })
without i key y g there (ok _) q h =
    let one = weight-remove_present (λ _ _. 1) i key y.attempts g.numbered there in
    record {
      valid = (h "").valid;
      numbered = Distinct-remove i y.attempts g.numbered;
      slots = omega (arith, (h "").slots, g.slots, one);
      counted = omega (arith, (h "").attempts, g.counted, one);
      all_counted = omega (arith, (h "").attempts, (h "").slots, g.all_counted, g.counted, one);
      clients = λ k. ground (
        arith,
        (h k).active,
        g.clients k,
        weight-remove_present (of_client k) i key y.attempts g.numbered there,
      );
    }
without i key y g there (raise e) q h =
    let one = weight-remove_present (λ _ _. 1) i key y.attempts g.numbered there in
    record {
      valid = (h "").valid;
      numbered = Distinct-remove i y.attempts g.numbered;
      slots = omega (arith, (h "").slots, g.slots, one);
      counted = omega (arith, (h "").attempts, g.counted, one);
      all_counted = omega (arith, (h "").attempts, (h "").slots, g.all_counted);
      clients = λ k. ground (
        arith,
        (h k).active,
        g.clients k,
        weight-remove_present (of_client k) i key y.attempts g.numbered there,
      );
    }

pub Step-Guarded : {y u : System} → Step y u → Guarded y → Guarded u
Step-Guarded {y} (admitted i monotonic utc raw key p free on named slot done) g =
    let h : (k : String)
        → Held k (plus key k (active_of k y.protector)) (y.protector.slots - 1)
            (y.protector.active_attempts + 1) p =
      λ k. rw done at (started monotonic utc key k y g) in
    record {
      valid = (h "").valid;
      numbered = Distinct-assign i key y.attempts g.numbered;
      slots = omega (
        arith,
        (h "").slots,
        g.slots,
        slot,
        weight-assign_absent (λ _ _. 1) i key y.attempts free,
      );
      counted = omega (
        arith,
        (h "").attempts,
        g.counted,
        weight-assign_absent (λ _ _. 1) i key y.attempts free,
      );
      all_counted = omega (arith, (h "").attempts, (h "").slots, g.all_counted, slot);
      clients = λ k. ground (
        arith,
        (h k).active,
        g.clients k,
        weight-assign_absent (of_client k) i key y.attempts free,
      );
    }
Step-Guarded {y} (refused monotonic utc raw key e p on named slot done) g =
    let h : (k : String)
        → Held k (active_of k y.protector) (y.protector.slots - 1) y.protector.active_attempts p =
      λ k. rw done at (started monotonic utc key k y g) in
    record {
      valid = slot_back-IsValid p (h "").valid;
      numbered = g.numbered;
      slots = omega (arith, (h "").slots, g.slots, slot);
      counted = omega (arith, (h "").attempts, g.counted);
      all_counted = omega (arith, (h "").attempts, (h "").slots, g.all_counted, slot);
      clients = λ k. omega (arith, (h k).active, g.clients k);
    }
Step-Guarded {y} (ended i monotonic key there) g =
    without i key y g there (finish monotonic key y.protector).0
      (finish monotonic key y.protector).1
      (λ k. finish-Held k _ _ _ monotonic key y.protector (held k y g))
