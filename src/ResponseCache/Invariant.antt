-- ===== src/ResponseCache/Invariant.antt =====
-- Runs of calls of app/services/response_cache.py, and its well-formed states.
use questock.Prelude.{
  eq_iff, ℕ, ◌≤◌, ◌≡◌, refl, subst, Bool, false, Option, some, List, [], ◌∷◌, inl, inr, arith,
  Bool-cases, Option-cases, String, ◌≟◌, string_eq,
}
use questock.Clock.{AtMost, runs_back}
use questock.Exec.{ok}
use questock.Dict.{lookup, assign, weight, Each}
use questock.Dict.Laws.{
  Distinct-assign, weight-assign_absent, weight-assign_present, Each-assign, Each-lookup,
}
use questock.Dict.Shrink.{Shrinks, Shrinks-purge, Shrinks-trans, Each-Shrinks}
use questock.ResponseCache.Key.{CacheKey, key_eq, KeyParts, TextTools}
use questock.ResponseCache.{
  ResponseCache, CacheEntry, Entries, init, expired, in_session, hit, get, put, size_now,
}
use questock.ResponseCache.Evict.{count_of}
use questock.ResponseCache.Valid.{IsValid}
use questock.ResponseCache.Made.{unexpired, time_set, RoomMade}
use questock.ResponseCache.Outcome.{
  call-cases, size_now_refused, fresh_entry, reading-cases, put_lem, get_lem, put_refused,
  get_refused, size_now_lem,
}

-- One use of the cache, with the clock's reading at that use.
pub data Call (R O : Type 0) : Type 0 where
  call_get : Option ℕ → KeyParts → Call R O
  call_put : Option ℕ → KeyParts → R → O → Call R O
  call_size : Option ℕ → Call R O

module _ {R O : Type 0} where
  abbrev Times : Option ℕ → CacheKey → CacheEntry R O → Type 0
  Times last k e = (e.created_at ≤ e.last_access) × AtMost e.last_access last

  later :
      (c : ResponseCache R O) (time : ℕ) (d : Entries R O)
      → runs_back time c.last_now ≡ false
      → Each (Times c.last_now) d
      → Each (Times (some time)) d
  later c time [] h k = tt
  later c time ((j, e) ∷ d) h k = (ground (arith, k.0), later c time d h k.1)

  -- Entries that only went, at a later reading.
  pub Shrinks-IsValid :
      (c : ResponseCache R O) (time : ℕ) (d : Entries R O)
      → IsValid c
      → runs_back time c.last_now ≡ false
      → Shrinks c.entries d
      → IsValid (time_set time d c)
  Shrinks-IsValid c time d v on s = record {
    distinct = s.distinct;
    ttl_pos = v.ttl_pos;
    entries_pos = v.entries_pos;
    entries_max = v.entries_max;
    session_pos = v.session_pos;
    session_max = v.session_max;
    bounded = omega (arith, s.weights (λ _ _. 1), v.bounded);
    per_session =
        λ session. omega (arith, s.weights (count_of (in_session session)), v.per_session session);
    times = later c time d on (Each-Shrinks (Times c.last_now) s v.times);
  }

  session_count :
      (c : ResponseCache R O) (time : ℕ) (key : CacheKey) (e : CacheEntry R O) (d : Entries R O)
      (session : String)
      → IsValid c
      → RoomMade key time c d
      → weight (count_of (in_session session)) (assign key e d) ≤ c.max_entries_per_session
  session_count c time key e d session v made =
      let grown = weight-assign_absent (count_of (in_session session)) key e d made.absent in
      let less = made.shrinks.weights (count_of (in_session session)) in
      let purged =
        (Shrinks-purge (λ _. expired c.ttl_seconds time) c.entries v.distinct).weights
          (count_of (in_session session)) in
      elim (Bool-cases (key.session_id ≟ session)) [
        | inl same ↦
            subst
              (λ (x : String).
                weight (count_of (in_session x)) (assign key e d) ≤ c.max_entries_per_session)
              ((eq_iff key.session_id session).0 same)
              (ground (
                arith,
                weight-assign_absent (count_of (in_session key.session_id)) key e d made.absent,
                eq_iff key.session_id key.session_id,
                made.session_room,
              ))
        | inr other ↦ ground (arith, grown, less, purged, v.per_session session, other)
      ]

  pub assign-IsValid :
      (c : ResponseCache R O) (time : ℕ) (key : CacheKey) (response : R) (observation : O)
      (d : Entries R O)
      → IsValid c
      → runs_back time c.last_now ≡ false
      → RoomMade key time c d
      → IsValid (time_set time (assign key (fresh_entry time response observation) d) c)
  assign-IsValid c time key response observation d v on made =
      let e = fresh_entry time response observation in
      let purged = Shrinks-purge (λ _. expired c.ttl_seconds time) c.entries v.distinct in
      record {
        distinct = Distinct-assign key e d made.shrinks.distinct;
        ttl_pos = v.ttl_pos;
        entries_pos = v.entries_pos;
        entries_max = v.entries_max;
        session_pos = v.session_pos;
        session_max = v.session_max;
        bounded = omega (arith, weight-assign_absent (λ _ _. 1) key e d made.absent, made.room);
        per_session = λ session. session_count c time key e d session v made;
        times = Each-assign (Times (some time)) key e d (omega arith) (
            later c time d on
              (Each-Shrinks (Times c.last_now) (Shrinks-trans purged made.shrinks) v.times));
      }

  hit-IsValid :
      (c : ResponseCache R O) (time : ℕ) (key : CacheKey)
      → IsValid c
      → c.last_now ≡ some time
      → IsValid (hit key time (lookup key c.entries) c).1
  unfolding hit
  hit-IsValid c time key v last = elim (Option-cases (lookup key c.entries)) [
    | inl miss ↦ rw miss v
    | inr (e, found) ↦
        let e' : CacheEntry R O = record e { last_access = time } in
        rw found (record {
          distinct = Distinct-assign key e' c.entries v.distinct;
          ttl_pos = v.ttl_pos;
          entries_pos = v.entries_pos;
          entries_max = v.entries_max;
          session_pos = v.session_pos;
          session_max = v.session_max;
          bounded =
              omega (arith, weight-assign_present (λ _ _. 1) key e' e c.entries found, v.bounded);
          per_session = λ session. omega (
            arith,
            weight-assign_present (count_of (in_session session)) key e' e c.entries found,
            v.per_session session,
          );
          times =
              Each-assign (Times c.last_now) key e' c.entries
                (ground (arith, last, Each-lookup (Times c.last_now) key e c.entries v.times found))
                v.times;
        })
  ]

  pub put-IsValid :
      (tools : TextTools) (reading : Option ℕ) (parts : KeyParts) (response : R) (observation : O)
      (c : ResponseCache R O)
      → IsValid c
      → IsValid (put tools reading parts response observation c).1
  put-IsValid tools reading parts response observation c v =
      elim (call-cases tools reading parts c) [
        | inl refused ↦
            let (r, same) = put_refused tools reading parts c response observation refused in
            rw same v
        | inr (key, time, on, keyed, ticks) ↦
            let (d, made, done) =
              put_lem tools reading parts c response observation key time v on keyed ticks in
            rw done (assign-IsValid c time key response observation d v ticks.1 made)
      ]

  pub get-IsValid :
      (tools : TextTools) (reading : Option ℕ) (parts : KeyParts) (c : ResponseCache R O)
      → IsValid c
      → IsValid (get tools reading parts c).1
  get-IsValid tools reading parts c v = elim (call-cases tools reading parts c) [
    | inl refused ↦ let (r, same) = get_refused tools reading parts c refused in rw same v
    | inr (key, time, on, keyed, ticks) ↦
        rw (get_lem tools reading parts c key time on keyed ticks) (
          hit-IsValid (time_set time (unexpired time c) c) time key
            (Shrinks-IsValid c time (unexpired time c) v ticks.1
              (Shrinks-purge (λ _. expired c.ttl_seconds time) c.entries v.distinct))
            refl)
  ]

  pub size-IsValid :
      (reading : Option ℕ) (c : ResponseCache R O) → IsValid c → IsValid (size_now reading c).1
  size-IsValid reading c v = elim (Bool-cases c.enabled) [
    | inr off ↦ let (r, same) = size_now_refused reading c (inl off) in rw same v
    | inl on ↦ elim (reading-cases reading c) [
      | inl stops ↦ let (r, same) = size_now_refused reading c (inr stops) in rw same v
      | inr (time, ticks) ↦ rw (size_now_lem reading c time on ticks) (
          Shrinks-IsValid c time (unexpired time c) v ticks.1
            (Shrinks-purge (λ _. expired c.ttl_seconds time) c.entries v.distinct))
    ]
  ]

  pub init-IsValid :
      (enabled : Bool) (ttl max_entries max_per_session : ℕ) {c : ResponseCache R O}
      → init enabled ttl max_entries max_per_session ≡ ok c
      → IsValid c
  unfolding init
  init-IsValid enabled ttl max_entries max_per_session h = ground arith

  module _ (tools : TextTools) where
    pub run : List (Call R O) → ResponseCache R O → ResponseCache R O
    run [] c = c
    run (call_get reading parts ∷ calls) c = run calls (get tools reading parts c).1
    run (call_put reading parts response observation ∷ calls) c =
        run calls (put tools reading parts response observation c).1
    run (call_size reading ∷ calls) c = run calls (size_now reading c).1

    pub run-IsValid :
        (calls : List (Call R O)) (c : ResponseCache R O) → IsValid c → IsValid (run calls c)
    unfolding run
    run-IsValid [] c v = v
    run-IsValid (call_get reading parts ∷ calls) c v =
        run-IsValid calls _ (get-IsValid tools reading parts c v)
    run-IsValid (call_put reading parts response observation ∷ calls) c v =
        run-IsValid calls _ (put-IsValid tools reading parts response observation c v)
    run-IsValid (call_size reading ∷ calls) c v = run-IsValid calls _ (size-IsValid reading c v)

    -- A cache that the constructor makes stays well-formed under any calls of get, put and size,
    -- whatever they return or raise: distinct keys, at most max_entries entries and
    -- max_entries_per_session of a session, and no time after the last reading of the clock.
    pub init-run-IsValid :
        (enabled : Bool) (ttl max_entries max_per_session : ℕ) (calls : List (Call R O))
        {c : ResponseCache R O}
        → init enabled ttl max_entries max_per_session ≡ ok c
        → IsValid (run calls c)
    init-run-IsValid enabled ttl max_entries max_per_session calls {c} h =
        run-IsValid calls c (init-IsValid enabled ttl max_entries max_per_session h)
