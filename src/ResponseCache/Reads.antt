-- ===== src/ResponseCache/Reads.antt =====
-- What `get` returns, and what a `put` does to the entries of the response cache.
use questock.Prelude.{
  ◌+◌, ◌≤◌, ◌⊎◌, ap, ◌∙◌, if_true, if_false, ℕ, ◌-◌, ◌<◌, ◌≡◌, refl, subst, true, Option, none,
  some, inl, inr, arith, Bool-cases, Option-cases,
}
use questock.Exec.{Result, ok}
use questock.Dict.{lookup, assign}
use questock.Dict.Laws.{lookup-assign}
use questock.Dict.Purge.{unless, lookup-purge}
use questock.ResponseCache.Key.{CacheError, CacheKey, key_eq, KeyParts, TextTools, cache_key}
use questock.ResponseCache.{
  CacheError, ResponseCache, CacheEntry, CachedResponse, expired, hit, get, put,
}
use questock.ResponseCache.Valid.{IsValid}
use questock.ResponseCache.Invariant.{assign-IsValid}
use questock.ResponseCache.Made.{unexpired, time_set}
use questock.ResponseCache.Outcome.{fresh_entry, Ticks, put_lem, get_lem}

module _ {R O : Type 0} where
  -- What a client gets from an entry.
  abbrev pub served : Option (CacheEntry R O) → Option (CachedResponse R O)
  served none = none
  served (some e) = some (record { response = e.response; observation = e.observation })

  hit-served :
      (key : CacheKey) (time : ℕ) (found : Option (CacheEntry R O)) (c : ResponseCache R O)
      → (hit key time found c).0 ≡ ok (served found)
  unfolding hit
  hit-served key time none c = refl
  hit-served key time (some e) c = refl

  unexpired-some :
      (time : ℕ) (c : ResponseCache R O) (j : CacheKey) {e : CacheEntry R O}
      → IsValid c
      → lookup j (unexpired time c) ≡ some e
      → lookup j c.entries ≡ some e
  unexpired-some time c j v h =
      ground (arith, lookup-purge (λ _. expired c.ttl_seconds time) j c.entries v.distinct)

  hit_keeps_age :
      (key : CacheKey) (time : ℕ) (c : ResponseCache R O) (j : CacheKey) (e : CacheEntry R O)
      → lookup j (hit key time (lookup key c.entries) c).1.entries ≡ some e
      → (e' : CacheEntry R O) × (lookup j c.entries ≡ some e') × (e.created_at ≡ e'.created_at)
  unfolding hit
  hit_keeps_age key time c j e h = elim (Option-cases (lookup key c.entries)) [
    | inl miss ↦ (e, rw miss at h, refl)
    | inr (e0, found) ↦ elim (Bool-cases (key_eq.beq key j)) [
      | inl same ↦ (
        e0,
        subst (λ (x : CacheKey). lookup x c.entries ≡ some e0) ((key_eq.beq_iff key j).0 same)
            found,
        ground (arith, lookup-assign key j (record e0 { last_access = time }) c.entries, same),
      )
      | inr other ↦ (
        e,
        ground (arith, lookup-assign key j (record e0 { last_access = time }) c.entries, other),
        refl,
      )
    ]
  ]

  -- The entry is younger than ttl_seconds at the time, and what an entry that old would be.
  abbrev pub IsYoung : ResponseCache R O → ℕ → CacheEntry R O → Type 0
  IsYoung c time e = time < e.created_at + c.ttl_seconds

  abbrev pub IsStale : ResponseCache R O → ℕ → CacheEntry R O → Type 0
  IsStale c time e = e.created_at + c.ttl_seconds ≤ time

  -- What a read at a time gives: the copy of a young entry, or nothing.
  abbrev pub Reads :
      ResponseCache R O → ℕ → CacheKey → Result CacheError (Option (CachedResponse R O)) → Type 0
  Reads c time key x =
      ((e : CacheEntry R O) × (lookup key c.entries ≡ some e)
        × IsYoung c time e
        × (x ≡ ok (some (record { response = e.response; observation = e.observation }))))
      ⊎ ((lookup key c.entries ≡ none) × (x ≡ ok none))
      ⊎ ((e : CacheEntry R O) × (lookup key c.entries ≡ some e) × IsStale c time e × (x ≡ ok none))

  unexpired-Reads :
      (time : ℕ) (c : ResponseCache R O) (key : CacheKey)
      (x : Result CacheError (Option (CachedResponse R O)))
      → 1 ≤ c.ttl_seconds
      → x ≡ ok (served (unless (expired c.ttl_seconds time) (lookup key c.entries)))
      → Reads c time key x
  unexpired-Reads time c key x positive h = elim (Option-cases (lookup key c.entries)) [
    | inl missing ↦
        let same =
          h
          ∙ ap
              (λ (o : Option (CacheEntry R O)). ok (served (unless (expired c.ttl_seconds time) o)))
              missing in
        inr (inl (missing, same))
    | inr (e, found) ↦
        let same =
          h
          ∙ ap
              (λ (o : Option (CacheEntry R O)). ok (served (unless (expired c.ttl_seconds time) o)))
              found in
        elim (Bool-cases (expired c.ttl_seconds time e)) [
          | inl old ↦
              let gone =
                same ∙ ap (λ (o : Option (CacheEntry R O)). ok (served o)) (if_true _ _ _ old) in
              inr (inr (e, found, ground (arith, old, positive), gone))
          | inr new ↦ inl (
            e,
            found,
            ground (arith, new),
            same ∙ ap (λ (o : Option (CacheEntry R O)). ok (served o)) (if_false _ _ _ new),
          )
        ]
  ]

  module _ (tools : TextTools) (parts : KeyParts) (key : CacheKey)
      (keyed : cache_key tools parts ≡ ok key) where
    get_unexpired :
        (reading : Option ℕ) (time : ℕ) (c : ResponseCache R O)
        → IsValid c
        → c.enabled ≡ true
        → Ticks reading c time
        → (get tools reading parts c).0
          ≡ ok (served (unless (expired c.ttl_seconds time) (lookup key c.entries)))
    get_unexpired reading time c v on ticks =
        rw (get_lem tools reading parts c key time on keyed ticks) (
          rw (lookup-purge (λ _. expired c.ttl_seconds time) key c.entries v.distinct)
            (hit-served key time (unless (expired c.ttl_seconds time) (lookup key c.entries)) _))

    -- In a valid cache, an enabled get at an accepted reading returns the copy of the entry under
    -- its key if that was made less than ttl_seconds before the reading, and None if there is none
    -- or it was made ttl_seconds or more before; the cases exclude each other.
    pub get_fresh :
        (reading : Option ℕ) (time : ℕ) (c : ResponseCache R O)
        → IsValid c
        → c.enabled ≡ true
        → Ticks reading c time
        → Reads c time key (get tools reading parts c).0
    get_fresh reading time c v on ticks =
        unexpired-Reads time c key _ v.ttl_pos (get_unexpired reading time c v on ticks)

    -- No get changes when an entry was made.
    pub get_keeps_age :
        (reading : Option ℕ) (time : ℕ) (c : ResponseCache R O) (j : CacheKey) (e : CacheEntry R O)
        → IsValid c
        → c.enabled ≡ true
        → Ticks reading c time
        → lookup j (get tools reading parts c).1.entries ≡ some e
        → (e' : CacheEntry R O) × (lookup j c.entries ≡ some e') × (e.created_at ≡ e'.created_at)
    get_keeps_age reading time c j e v on ticks h =
        let c' = time_set time (unexpired time c) c in
        let found : lookup j (hit key time (lookup key c'.entries) c').1.entries ≡ some e =
          rw (get_lem tools reading parts c key time on keyed ticks) at h in
        let (e', there, same) = hit_keeps_age key time c' j e found in
        (e', unexpired-some time c j v there, same)

    -- In a valid enabled cache, a get after a put under the same key returns what was put, as long
    -- as the entry is younger than ttl_seconds at the accepted second reading.
    pub get-put :
        (first second : Option ℕ) (t u : ℕ) (response : R) (observation : O) (c : ResponseCache R O)
        → IsValid c
        → c.enabled ≡ true
        → Ticks first c t
        → Ticks second (put tools first parts response observation c).1 u
        → u - t < c.ttl_seconds
        → (get tools second parts (put tools first parts response observation c).1).0
          ≡ ok (some (record { response = response; observation = observation }))
    get-put first second t u response observation c v on ticks ticks' young =
        let (d, made, done) =
          put_lem tools first parts c response observation key t v on keyed ticks in
        let e = fresh_entry t response observation in
        let c' = time_set t (assign key e d) c in
        let ticks2 : Ticks second c' u = rw done at ticks' in
        rw done (
          rw
            (get_unexpired second u c'
              (assign-IsValid c t key response observation d v ticks.1 made) on ticks2)
            (ground (arith, lookup-assign key key e d, key_eq.beq_iff key key)))
