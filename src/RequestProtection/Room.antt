-- ===== src/RequestProtection/Room.antt =====
-- `_bucket` of app/services/request_protection.py: a bucket for a client, where an idle one may go.
use questock.Prelude.{
  ℕ, ◌≤◌, ◌<◌, ◌≡◌, refl, sym, subst, Option, none, some, List, [], ◌∷◌, ◌⊎◌, inl, inr, arith,
  Bool-cases, String, string_eq, All, min_by, min_by-All, leb, ◌≟◌, if◌then◌else◌, not_leb→lt,
  if_true, if_false, ◌∙◌,
}
use questock.Exec.{ok, raise}
use questock.Exec.Triple.{Triple, Outcome}
use questock.Dict.{Dict, lookup, assign, remove, Distinct, size}
use questock.Dict.Laws.{
  lookup-assign, lookup-remove, Distinct-assign, weight-assign_absent, weight-assign_present,
  weight-remove_present, Each-assign,
}
use questock.Dict.Purge.{All-items_where, Each-of_lookup}
use questock.Dict.Shrink.{Shrinks-remove, Shrinks-absent}
use questock.RequestProtection.{
  Protector, ClientBucket, ProtectionError, limited, candidates, evict, pair_lt, make_room,
  new_bucket, found_or_new, bucket_for,
}
use questock.RequestProtection.Valid.{BucketOk}
use questock.RequestProtection.Held.{active_in, Held, HeldAt, shrunk}

abbrev Idle : Dict String ClientBucket → ℕ × String → Type 0
Idle d x = (b : ClientBucket) × (lookup x.1 d ≡ some b) × (b.active ≡ 0)

All-Idle : (d : Dict String ClientBucket) → Distinct d → All (Idle d) (candidates d)
unfolding candidates
All-Idle d t =
    All-items_where _ _ (Idle d) d (Each-of_lookup _ d t (λ k b q idle. (b, q, ground arith)))

evict-cases :
    (p : Protector) (l : List (ℕ × String))
    → All (Idle p.buckets) l
    → (evict l p ≡ (raise limited, p))
      ⊎ ((j : String) × (b : ClientBucket) × (lookup j p.buckets ≡ some b)
          × (b.active ≡ 0)
          × (evict l p ≡ (ok tt, record p { buckets = remove j p.buckets })))
unfolding evict
evict-cases p [] h = inl refl
evict-cases p (x ∷ xs) h =
    let (b, there, idle) = min_by-All pair_lt (Idle p.buckets) x xs h.0 h.1 in
    inr ((min_by pair_lt x xs).1, b, there, idle, refl)

make_room-cases :
    (p : Protector)
    → Distinct p.buckets
    → (make_room p ≡ (raise limited, p))
      ⊎ (size p.buckets < p.max_client_buckets) × (make_room p ≡ (ok tt, p))
      ⊎ ((j : String) × (b : ClientBucket) × (lookup j p.buckets ≡ some b)
          × (b.active ≡ 0)
          × (make_room p ≡ (ok tt, record p { buckets = remove j p.buckets })))
unfolding make_room
make_room-cases p t = elim (Bool-cases (leb p.max_client_buckets (size p.buckets))) [
  | inr room ↦
      inr (inl (not_leb→lt p.max_client_buckets (size p.buckets) room, if_false _ _ _ room))
  | inl full ↦ elim (evict-cases p (candidates p.buckets) (All-Idle p.buckets t)) [
    | inl busy ↦ inl (if_true _ _ _ full ∙ busy)
    | inr (j, b, there, idle, done) ↦ inr (inr (j, b, there, idle, if_true _ _ _ full ∙ done))
  ]
]

new_bucket-BucketOk : (time day : ℕ) → BucketOk (some time) (new_bucket time day)
new_bucket-BucketOk time day = record {
  window_bound = omega arith;
  day_bound = omega arith;
  times = (omega arith, omega arith);
}

module _ (k : String) (n sl a : ℕ) where
  -- A bucket written in place of another, or where there is room for one more.
  pub written :
      {time : ℕ} (key : String) (b : ClientBucket) (p : Protector)
      → HeldAt k n sl a time p
      → BucketOk (some time) b
      → size (assign key b p.buckets) ≤ p.max_client_buckets
      → (m : ℕ) → (active_in (if key ≟ k then some b else lookup k p.buckets) ≡ m)
      → HeldAt k m sl a time (record p { buckets = assign key b p.buckets })
  written {time} key b p h good room m count = record {
    held = record {
      valid = record {
        distinct = Distinct-assign key b p.buckets h.held.valid.distinct;
        buckets_pos = h.held.valid.buckets_pos;
        buckets_max = h.held.valid.buckets_max;
        bounded = room;
        global_bound = h.held.valid.global_bound;
        buckets =
            Each-assign (λ _ x. BucketOk p.last_now x) key b p.buckets
              (subst (λ (l : Option ℕ). BucketOk l b) (sym h.clock) good) h.held.valid.buckets;
      };
      active = rw (lookup-assign key k b p.buckets) count;
      slots = h.held.slots;
      attempts = h.held.attempts;
    };
    clock = h.clock;
  }

  pub rewritten :
      {time : ℕ} (key : String) (b old : ClientBucket) (p : Protector)
      → HeldAt k n sl a time p
      → lookup key p.buckets ≡ some old
      → BucketOk (some time) b
      → (m : ℕ) → ((if key ≟ k then b.active else n) ≡ m)
      → HeldAt k m sl a time (record p { buckets = assign key b p.buckets })
  rewritten key b old p h there good m count =
      written key b p h good
        (omega
          (arith, weight-assign_present (λ _ _. 1) key b old p.buckets there, h.held.valid.bounded))
        m (ground (arith, count, h.held.active))

  abbrev pub Holds : ℕ → String → ClientBucket → Protector → Type 0
  Holds time key b p = HeldAt k n sl a time p × (lookup key p.buckets ≡ some b)

  added :
      (time day : ℕ) (key : String) (p : Protector)
      → HeldAt k n sl a time p
      → lookup key p.buckets ≡ none
      → size p.buckets < p.max_client_buckets
      → Holds time key
          (new_bucket time day)
          (record p { buckets = assign key (new_bucket time day) p.buckets })
  added time day key p h absent room =
      let b = new_bucket time day in
      (
        written key b p h (new_bucket-BucketOk time day)
            (omega (arith, weight-assign_absent (λ _ _. 1) key b p.buckets absent, room)) n
            (ground (arith, absent, h.held.active, string_eq.beq_iff key k)),
        ground (arith, lookup-assign key key b p.buckets, string_eq.beq_iff key key),
      )

  found_or_new-Held :
      (time day : ℕ) (key : String) (found : Option ClientBucket) (p : Protector)
      → HeldAt k n sl a time p
      → lookup key p.buckets ≡ found
      → Outcome {E = ProtectionError}
          (Held k n sl a)
          (Holds time key)
          (found_or_new found key time day p).0
          (found_or_new found key time day p).1
  unfolding found_or_new
  found_or_new-Held time day key (some b) p h there = (h, there)
  found_or_new-Held time day key none p h absent = elim (make_room-cases p h.held.valid.distinct) [
    | inl busy ↦ rw busy h.held
    | inr (inl (room, done)) ↦ rw done (added time day key p h absent room)
    | inr (inr (j, b, there, idle, done)) ↦
        let p' : Protector = record p { buckets = remove j p.buckets } in
        let shrinks = Shrinks-remove j p.buckets h.held.valid.distinct in
        rw done (
          added time day key p'
            (shrunk k n sl a time p (remove j p.buckets) h shrinks
              (ground (arith, lookup-remove j k p.buckets, there, idle, string_eq.beq_iff j k)))
            (Shrinks-absent key shrinks absent)
            (omega (
              arith,
              weight-remove_present (λ _ _. 1) j b p.buckets h.held.valid.distinct there,
              h.held.valid.bounded,
            )))
  ]

  pub bucket_for-Held :
      (time day : ℕ) (key : String)
      → Triple (Held k n sl a) (HeldAt k n sl a time) (bucket_for key time day) (Holds time key)
  unfolding bucket_for
  bucket_for-Held time day key = record {
    at = λ p h. found_or_new-Held time day key (lookup key p.buckets) p h refl;
  }
