-- ===== src/ResponseCache/Outcome.antt =====
-- What the methods of the response cache compute once the key and the clock are accepted.
use questock.Prelude.{
  ◌∙◌, if_false, if_true, refl, false, true, Bool-cases, Option, ℕ, ◌≡◌, none, some, ◌⊎◌, inl, inr,
  string_eq,
}
use questock.Exec.{Result, raise, ok}
use questock.Dict.{assign, lookup, remove, size}
use questock.ResponseCache.Key.{unavailable, CacheKey, key_eq}
use questock.ResponseCache.{
  CachedResponse, CacheError, hit, cache_key, get, purge_expired, size_now, put, KeyParts,
  runs_back, TextTools, now, ResponseCache, CacheEntry, Entries, in_session, any_session,
  evict_if_full,
}
use questock.ResponseCache.Valid.{IsValid}
use questock.ResponseCache.Made.{unexpired, time_set, RoomMade, make_room}

module _ {R O : Type 0} where
  abbrev pub fresh_entry : ℕ → R → O → CacheEntry R O
  fresh_entry time response observation = record {
    response = response;
    observation = observation;
    created_at = time;
    last_access = time;
  }

  -- The clock gives a reading that does not run back.
  abbrev pub Ticks : Option ℕ → ResponseCache R O → ℕ → Type 0
  Ticks reading c time = (reading ≡ some time) × (runs_back time c.last_now ≡ false)

  now_lem :
      (reading : Option ℕ) (c : ResponseCache R O) (time : ℕ)
      → Ticks reading c time
      → now reading c ≡ (ok time, time_set time c.entries c)
  unfolding now
  now_lem reading c time h = rw h.0 (rw h.1)

  -- The clock gives nothing, or a reading that runs back.
  abbrev pub Stops : Option ℕ → ResponseCache R O → Type 0
  Stops none c = Unit
  Stops (some time) c = runs_back time c.last_now ≡ true

  pub now-raises :
      (reading : Option ℕ) (c : ResponseCache R O)
      → Stops reading c
      → now reading c ≡ (raise unavailable, c)
  unfolding now
  now-raises none c h = refl
  now-raises (some time) c h = rw h

  pub reading-cases :
      (reading : Option ℕ) (c : ResponseCache R O)
      → Stops reading c ⊎ ((time : ℕ) × Ticks reading c time)
  reading-cases none c = inl tt
  reading-cases (some time) c = elim (Bool-cases (runs_back time c.last_now)) [
    | inl back ↦ inl back
    | inr on ↦ inr (time, (refl, on))
  ]

  module _ (tools : TextTools) (reading : Option ℕ) (parts : KeyParts) (c : ResponseCache R O) where
    put_run :
        (response : R) (observation : O) (key : CacheKey) (time : ℕ) (own d : Entries R O)
        → c.enabled ≡ true
        → cache_key tools parts ≡ ok key
        → Ticks reading c time
        → evict_if_full
            (in_session key.session_id)
            c.max_entries_per_session
            (time_set time (remove key (unexpired time c)) c)
          ≡ (ok tt, time_set time own c)
        → evict_if_full any_session c.max_entries (time_set time own c) ≡ (ok tt, time_set time d c)
        → put tools reading parts response observation c
          ≡ (ok tt, time_set time (assign key (fresh_entry time response observation) d) c)
    unfolding put purge_expired
    put_run response observation key time own d on keyed ticks first second =
        if_true _ _ _ on ∙ rw keyed (rw (now_lem reading c time ticks) (rw first (rw second)))

    pub put_lem :
        (response : R) (observation : O) (key : CacheKey) (time : ℕ)
        → IsValid c
        → c.enabled ≡ true
        → cache_key tools parts ≡ ok key
        → Ticks reading c time
        → (d : Entries R O) × RoomMade key time c d
          × (put tools reading parts response observation c
              ≡ (ok tt, time_set time (assign key (fresh_entry time response observation) d) c))
    put_lem response observation key time v on keyed ticks =
        let (d, made, (own, first, second)) = make_room key time c v in
        (d, made, put_run response observation key time own d on keyed ticks first second)

    pub get_lem :
        (key : CacheKey) (time : ℕ)
        → c.enabled ≡ true
        → cache_key tools parts ≡ ok key
        → Ticks reading c time
        → get tools reading parts c
          ≡ hit key time (lookup key (unexpired time c)) (time_set time (unexpired time c) c)
    unfolding get purge_expired
    get_lem key time on keyed ticks =
        if_true _ _ _ on ∙ rw keyed (rw (now_lem reading c time ticks))

    -- A call that is refused before the clock has ticked changes nothing.
    abbrev pub Refused : Type 0
    Refused =
        (c.enabled ≡ false)
        ⊎ ((e : CacheError) × (cache_key tools parts ≡ raise e))
        ⊎ ((key : CacheKey) × (cache_key tools parts ≡ ok key) × Stops reading c)

    pub put_refused :
        (response : R) (observation : O)
        → Refused
        → (r : Result CacheError Unit) × (put tools reading parts response observation c ≡ (r, c))
    unfolding put
    put_refused response observation (inl off) = (ok tt, if_false _ _ _ off)
    put_refused response observation (inr (inl (e, bad))) = elim (Bool-cases c.enabled) [
      | inl on ↦ (raise e, if_true _ _ _ on ∙ rw bad)
      | inr off ↦ (ok tt, if_false _ _ _ off)
    ]
    put_refused response observation (inr (inr (key, keyed, stops))) = elim (Bool-cases c.enabled) [
      | inl on ↦ (raise unavailable, if_true _ _ _ on ∙ rw keyed (rw (now-raises reading c stops)))
      | inr off ↦ (ok tt, if_false _ _ _ off)
    ]

    pub get_refused :
        Refused
        → (r : Result CacheError (Option (CachedResponse R O))) × (get tools reading parts c
            ≡ (r, c))
    unfolding get
    get_refused (inl off) = (ok none, if_false _ _ _ off)
    get_refused (inr (inl (e, bad))) = elim (Bool-cases c.enabled) [
      | inl on ↦ (raise e, if_true _ _ _ on ∙ rw bad)
      | inr off ↦ (ok none, if_false _ _ _ off)
    ]
    get_refused (inr (inr (key, keyed, stops))) = elim (Bool-cases c.enabled) [
      | inl on ↦ (raise unavailable, if_true _ _ _ on ∙ rw keyed (rw (now-raises reading c stops)))
      | inr off ↦ (ok none, if_false _ _ _ off)
    ]

    Key-cases :
        ((e : CacheError) × (cache_key tools parts ≡ raise e))
        ⊎ ((key : CacheKey) × (cache_key tools parts ≡ ok key))
    Key-cases = split (cache_key tools parts) refl
      where
        split :
            (r : Result CacheError CacheKey)
            → cache_key tools parts ≡ r
            → ((e : CacheError) × (cache_key tools parts ≡ raise e))
              ⊎ ((key : CacheKey) × (cache_key tools parts ≡ ok key))
        split (ok key) e = inr (key, e)
        split (raise x) e = inl (x, e)

    -- Either the call is refused, or it goes through with a key at a time.
    pub call-cases :
        Refused
        ⊎ ((key : CacheKey) × (time : ℕ) × (c.enabled ≡ true)
            × (cache_key tools parts ≡ ok key)
            × Ticks reading c time)
    call-cases = elim (Bool-cases c.enabled) [
      | inr off ↦ inl (inl off)
      | inl on ↦ elim Key-cases [
        | inl bad ↦ inl (inr (inl bad))
        | inr (key, keyed) ↦ elim (reading-cases reading c) [
          | inl stops ↦ inl (inr (inr (key, keyed, stops)))
          | inr (time, ticks) ↦ inr (key, time, on, keyed, ticks)
        ]
      ]
    ]

  module _ (reading : Option ℕ) (c : ResponseCache R O) where
    pub size_now_lem :
        (time : ℕ)
        → c.enabled ≡ true
        → Ticks reading c time
        → size_now reading c ≡ (ok (size (unexpired time c)), time_set time (unexpired time c) c)
    unfolding size_now purge_expired
    size_now_lem time on ticks = if_true _ _ _ on ∙ rw (now_lem reading c time ticks)

    pub size_now_refused :
        (c.enabled ≡ false) ⊎ Stops reading c
        → (r : Result CacheError ℕ) × (size_now reading c ≡ (r, c))
    unfolding size_now
    size_now_refused (inl off) = (ok 0, if_false _ _ _ off)
    size_now_refused (inr stops) = elim (Bool-cases c.enabled) [
      | inl on ↦ (raise unavailable, if_true _ _ _ on ∙ rw (now-raises reading c stops))
      | inr off ↦ (ok 0, if_false _ _ _ off)
    ]
