-- ===== src/RequestProtection/Release.antt =====
-- The end of an attempt in app/services/request_protection.py: what it does to the attempts in
-- progress, on every branch.
use questock.Prelude.{
  ℕ, ◌+◌, ◌-◌, ◌≡◌, refl, subst, true, Option, none, some, ◌⊎◌, inl, inr, arith, Bool-cases, String,
  string_eq, ◌≟◌, if◌then◌else◌,
}
use questock.Clock.{runs_back}
use questock.Exec.{lift, ◌>>◌, modify, Result, ok, raise}
use questock.Exec.Triple.{Outcome}
use questock.Dict.{lookup, assign}
use questock.Dict.Laws.{
  lookup-assign, Distinct-assign, weight-assign_present, Each-assign, Each-lookup,
}
use questock.RequestProtection.{
  Protector, ClientBucket, ProtectionError, unavailable, now, finish_found, finish,
}
use questock.RequestProtection.Valid.{Until, BucketOk}
use questock.RequestProtection.Held.{active_in, Held, HeldAt, now-Held}
use questock.RequestProtection.Room.{rewritten}
use questock.RequestProtection.Attempts.{found-BucketOk}

-- One less for the client of the attempt.
abbrev pub minus : String → String → ℕ → ℕ
minus key k n = if key ≟ k then n - 1 else n

now-cases :
    (reading : Option ℕ) (p : Protector)
    → (now reading p ≡ (raise unavailable, p))
      ⊎ ((time : ℕ) × (now reading p ≡ (ok time, record p { last_now = some time })))
unfolding now
now-cases none p = inl refl
now-cases (some time) p = elim (Bool-cases (runs_back time p.last_now)) [
  | inl back ↦ inl (rw back)
  | inr on ↦ inr (time, rw on)
]

Until-active :
    (last : Option ℕ) (b : ClientBucket)
    → Until last b
    → Until last (record b { active = b.active - 1 })
Until-active none b h = h
Until-active (some l) b h = h

module _ (k : String) (n sl a : ℕ) where
  finished :
      (time : ℕ) (key : String) (b : ClientBucket) (p : Protector)
      → HeldAt k n sl a time p
      → lookup key p.buckets ≡ some b
      → (m : ℕ) → ((if key ≟ k then b.active else n) ≡ m)
      → Held k m sl a
          (record p { buckets = assign key (record b { last_access = time }) p.buckets })
  finished time key b p h there m count =
      let good = found-BucketOk k n sl a time key b p (h, there) in
      (rewritten k n sl a key (record b { last_access = time }) b p h there
        (record {
          window_bound = good.window_bound;
          day_bound = good.day_bound;
          times = (good.times.0, omega arith);
        })
        m count).held

module _ (k : String) (n sl a : ℕ) where
  -- A bucket that is written again at the same time of the clock.
  replaced :
      (key : String) (b old : ClientBucket) (p : Protector)
      → Held k n sl a p
      → lookup key p.buckets ≡ some old
      → BucketOk p.last_now b
      → (m : ℕ) → ((if key ≟ k then b.active else n) ≡ m)
      → Held k m sl a (record p { buckets = assign key b p.buckets })
  replaced key b old p h there good m count = record {
    valid = record {
      distinct = Distinct-assign key b p.buckets h.valid.distinct;
      buckets_pos = h.valid.buckets_pos;
      buckets_max = h.valid.buckets_max;
      bounded =
          omega
            (arith, weight-assign_present (λ _ _. 1) key b old p.buckets there, h.valid.bounded);
      global_bound = h.valid.global_bound;
      buckets = Each-assign (λ _ x. BucketOk p.last_now x) key b p.buckets good h.valid.buckets;
    };
    active =
        ground (arith, lookup-assign key k b p.buckets, count, h.active, string_eq.beq_iff key k);
    slots = h.slots;
    attempts = h.attempts;
  }

  released :
      (m : ℕ) (p : Protector)
      → Held k m sl a p
      → Held k m
          (sl + 1)
          (a - 1)
          (record p { active_attempts = p.active_attempts - 1; slots = p.slots + 1 })
  released m p h = record {
    valid = record {
      distinct = h.valid.distinct;
      buckets_pos = h.valid.buckets_pos;
      buckets_max = h.valid.buckets_max;
      bounded = h.valid.bounded;
      global_bound = h.valid.global_bound;
      buckets = h.valid.buckets;
    };
    active = h.active;
    slots = omega (arith, h.slots);
    attempts = omega (arith, h.attempts);
  }

  active_there :
      (key : String) (found : Option ClientBucket) (p : Protector)
      → Held k n sl a p
      → lookup key p.buckets ≡ found
      → (key ≟ k) ≡ true
      → active_in found ≡ n
  active_there key found p h there same =
      let here : lookup k p.buckets ≡ found =
        subst (λ (x : String). lookup x p.buckets ≡ found) ((string_eq.beq_iff key k).0 same)
          there in
      ground (arith, h.active, here)

  -- The bucket of the attempt has one attempt in progress less, and is used now if the clock runs.
  finish_found-Held :
      (monotonic : Option ℕ) (key : String) (found : Option ClientBucket) (p : Protector)
      → Held k n sl a p
      → lookup key p.buckets ≡ found
      → Outcome {E = ProtectionError}
          (Held k (minus key k n) sl a)
          (λ _. Held k (minus key k n) sl a)
          (finish_found found monotonic key p).0
          (finish_found found monotonic key p).1
  unfolding finish_found
  finish_found-Held monotonic key none p h absent = record {
    valid = h.valid;
    active = ground (arith, h.active, active_there key none p h absent);
    slots = h.slots;
    attempts = h.attempts;
  }
  finish_found-Held monotonic key (some b) p h there =
      let m = minus key k n in
      let less : ClientBucket = record b { active = b.active - 1 } in
      let p1 : Protector = record p { buckets = assign key less p.buckets } in
      let same = active_there key (some b) p h there in
      let ok' = Each-lookup (λ _ x. BucketOk p.last_now x) key b p.buckets h.valid.buckets there in
      let h1 : Held k m sl a p1 =
        replaced key less b p h there
          (record {
            window_bound = ok'.window_bound;
            day_bound = ok'.day_bound;
            times = Until-active p.last_now b ok'.times;
          })
          m (ground (arith, same)) in
      elim (now-cases monotonic p1) [
        | inl stopped ↦ rw stopped h1
        | inr (time, ticked) ↦
            let h2 : HeldAt k m sl a time (record p1 { last_now = some time }) =
              rw ticked at ((now-Held k m sl a monotonic).at p1 h1) in
            rw ticked (
              finished k m sl a time key less (record p1 { last_now = some time }) h2
                (ground (arith, lookup-assign key key less p.buckets, string_eq.beq_iff key key)) m
                (ground (arith, same)))
      ]

  -- `finish` takes one attempt from its client; it gives the slot back and counts one attempt in all
  -- less unless the clock raises.
  pub finish-Held :
      (monotonic : Option ℕ) (key : String) (p : Protector)
      → Held k n sl a p
      → Outcome {E = ProtectionError}
          (Held k (minus key k n) sl a)
          (λ _. Held k (minus key k n) (sl + 1) (a - 1))
          (finish monotonic key p).0
          (finish monotonic key p).1
  unfolding finish
  finish-Held monotonic key p h =
      settle (finish_found (lookup key p.buckets) monotonic key p).0
        (finish_found (lookup key p.buckets) monotonic key p).1
        (finish_found-Held monotonic key (lookup key p.buckets) p h refl)
    where
      settle :
          (r : Result ProtectionError Unit) (q : Protector)
          → Outcome (Held k (minus key k n) sl a) (λ _. Held k (minus key k n) sl a) r q
          → Outcome {E = ProtectionError}
              (Held k (minus key k n) sl a)
              (λ _. Held k (minus key k n) (sl + 1) (a - 1))
              ((lift r
                  >> modify (λ p. record p {
                    active_attempts = p.active_attempts - 1;
                    slots = p.slots + 1;
                  }))
                q).0
              ((lift r
                  >> modify (λ p. record p {
                    active_attempts = p.active_attempts - 1;
                    slots = p.slots + 1;
                  }))
                q).1
      settle (ok u) q o = released (minus key k n) q o
      settle (raise e) q o = o
