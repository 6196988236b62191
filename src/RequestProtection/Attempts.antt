-- ===== src/RequestProtection/Attempts.antt =====
-- The start of an attempt in app/services/request_protection.py: what it does to the attempts in
-- progress, on every branch.
use questock.Prelude.{
  ℕ, ◌+◌, ◌≡◌, refl, subst, false, Option, some, arith, String, string_eq, ◌≟◌, if◌then◌else◌,
}
use questock.Exec.{◌>>=◌, ◌>>◌, gets, raise_if, modify, gets}
use questock.Exec.Triple.{
  Triple, Triple-bind, Triple-bind-lift, Triple-modify, Triple-gets, Triple-raise_if,
}
use questock.Dict.{lookup, assign}
use questock.Dict.Laws.{lookup-assign, Each-lookup}
use questock.RequestProtection.{
  Protector, ClientBucket, limited, kst_day, purge_expired, roll_global_day, rolled, at_limit,
  counted, start, write,
}
use questock.RequestProtection.Valid.{BucketOk}
use questock.RequestProtection.Window.{rolled-BucketOk, counted-BucketOk}
use questock.RequestProtection.Held.{Held, HeldAt, now-Held, purge-Held, roll-Held}
use questock.RequestProtection.Room.{rewritten, Holds, bucket_for-Held}

-- One more for the client of the attempt.
abbrev pub plus : String → String → ℕ → ℕ
plus key k n = if key ≟ k then n + 1 else n

module _ (k : String) (n sl a : ℕ) where
  pub found-BucketOk :
      (time : ℕ) (key : String) (b : ClientBucket) (p : Protector)
      → Holds k n sl a time key b p
      → BucketOk (some time) b
  found-BucketOk time key b p h =
      subst (λ (l : Option ℕ). BucketOk l b) h.0.clock
        (Each-lookup (λ _ x. BucketOk p.last_now x) key b p.buckets h.0.held.valid.buckets h.1)

  found-active :
      (time : ℕ) (key : String) (b : ClientBucket) (p : Protector)
      → Holds k n sl a time key b p
      → key ≡ k
      → b.active ≡ n
  found-active time key b p h same =
      ground (arith, h.0.held.active, subst (λ (x : String). lookup x p.buckets ≡ some b) same h.1)

  rolled-Holds :
      (time day : ℕ) (key : String) (b : ClientBucket) (p : Protector)
      → Holds k n sl a time key b p
      → Holds k n sl a time key
          (rolled time day b)
          (record p { buckets = assign key (rolled time day b) p.buckets })
  rolled-Holds time day key b p h =
      let b' = rolled time day b in
      (
        rewritten k n sl a key b' b p h.0 h.1
            (rolled-BucketOk time time day b (found-BucketOk time key b p h)) n
            (ground (arith, found-active time key b p h, string_eq.beq_iff key k)),
        ground (arith, lookup-assign key key b' p.buckets, string_eq.beq_iff key key),
      )

  counted-Held :
      (time total : ℕ) (key : String) (b : ClientBucket) (p : Protector)
      → Holds k n sl a time key b p × (p.global_day_attempts ≡ total)
      → at_limit b total ≡ false
      → Held k (plus key k n) sl (a + 1) (record p {
        buckets = assign key (counted time b) p.buckets;
        global_day_attempts = p.global_day_attempts + 1;
        active_attempts = p.active_attempts + 1;
      })
  unfolding at_limit
  counted-Held time total key b p h room =
      let good = counted-BucketOk time total b (found-BucketOk time key b p h.0) room in
      let w =
        rewritten k n sl a key (counted time b) b p h.0.0 h.0.1 good (plus key k n)
          (ground (arith, found-active time key b p h.0, string_eq.beq_iff key k)) in
      record {
        valid = record {
          distinct = w.held.valid.distinct;
          buckets_pos = w.held.valid.buckets_pos;
          buckets_max = w.held.valid.buckets_max;
          bounded = w.held.valid.bounded;
          global_bound = ground (arith, room, h.1);
          buckets = w.held.valid.buckets;
        };
        active = w.held.active;
        slots = w.held.slots;
        attempts = omega (arith, w.held.attempts);
      }

  -- `start` adds an attempt of its client when it returns, and none when it raises.
  pub start-Triple :
      (monotonic utc : Option ℕ) (key : String)
      → Triple
          (Held k n sl a)
          (Held k n sl a)
          (start monotonic utc key)
          (λ _. Held k (plus key k n) sl (a + 1))
  unfolding start
  start-Triple monotonic utc key = Triple-bind _ _ (now-Held k n sl a monotonic) λ time.
      Triple-bind-lift (kst_day utc) _ (λ p h. h.held)
        λ day _.
          Triple-bind _ _
            (Triple-modify {Post = HeldAt k n sl a time} (purge_expired time)
              (purge-Held k n sl a time))
            λ _.
              Triple-bind _ _
                (Triple-modify {Post = HeldAt k n sl a time} (roll_global_day day)
                  (roll-Held k n sl a time day))
                λ _. Triple-bind _ _ (bucket_for-Held k n sl a time day key) λ b.
                  Triple-bind _ _
                    (Triple-modify {Post = Holds k n sl a time key (rolled time day b)}
                      (λ p. record p { buckets = assign key (rolled time day b) p.buckets })
                      (rolled-Holds time day key b))
                    λ _. limits time key (rolled time day b)
    where
      limits :
          (time : ℕ) (key : String) (b : ClientBucket)
          → Triple
              (Held k n sl a)
              (Holds k n sl a time key b)
              (gets (λ p. p.global_day_attempts) >>= λ total.
                (raise_if (at_limit b total) limited
                  >> (write key (counted time b)
                      >> modify (λ p. record p {
                        global_day_attempts = p.global_day_attempts + 1;
                        active_attempts = p.active_attempts + 1;
                      }))))
              (λ _. Held k (plus key k n) sl (a + 1))
      limits time key b =
          Triple-bind _ _
            (Triple-gets
              {Post = λ total p. Holds k n sl a time key b p × (p.global_day_attempts ≡ total)}
              (λ p. p.global_day_attempts) (λ p h. (h, refl)))
            λ total.
              Triple-bind _ _
                (Triple-raise_if
                  {Post = λ p.
                    (Holds k n sl a time key b p × (p.global_day_attempts ≡ total))
                    × (at_limit b total ≡ false)}
                  _ _ (λ p h _. h.0.0.held) (λ p h room. (h, room)))
                λ _. record { at = λ p h. counted-Held time total key b p h.0 h.1 }
