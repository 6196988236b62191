-- ===== src/ResponseCache/Made.antt =====
-- The room that a `put` of app/services/response_cache.py makes: what the purge, the removal of the
-- key and the two evictions leave.
use questock.Prelude.{ℕ, ◌≤◌, ◌<◌, ◌≡◌, Bool, none, some, ◌⊎◌, inl, inr, arith, string_eq}
use questock.Exec.{ok}
use questock.Dict.{lookup, remove, Distinct, weight, size}
use questock.Dict.Laws.{lookup-remove}
use questock.Dict.Purge.{purge}
use questock.Dict.Shrink.{
  Shrinks, Shrinks-refl, Shrinks-trans, Shrinks-remove, Shrinks-purge, Shrinks-absent,
}
use questock.ResponseCache.Key.{CacheKey, key_eq}
use questock.ResponseCache.{
  ResponseCache, CacheEntry, Entries, expired, in_session, any_session, evict_if_full,
}
use questock.ResponseCache.Valid.{IsValid}
use questock.ResponseCache.Evict.{
  Evicted, count_of, evict_if_full_lem, Evicted-Shrinks, Evicted-weight,
}

module _ {R O : Type 0} where
  -- The entries after `_purge_expired`.
  abbrev pub unexpired : ℕ → ResponseCache R O → Entries R O
  unexpired time c = purge (λ _. expired c.ttl_seconds time) c.entries

  pub evict-room :
      (p : CacheKey → CacheEntry R O → Bool) (bound : ℕ) (c : ResponseCache R O)
      → Distinct c.entries
      → 1 ≤ bound
      → weight (count_of p) c.entries ≤ bound
      → (d' : Entries R O) × (evict_if_full p bound c ≡ (ok tt, record c { entries = d' }))
        × Shrinks c.entries d'
        × (weight (count_of p) d' < bound)
        × ((weight (count_of p) c.entries < bound) × (d' ≡ c.entries)
            ⊎ (bound ≤ weight (count_of p) c.entries) × Evicted p c.entries d')
  evict-room p bound c t h le = pack (evict_if_full_lem p bound c t h)
    where
      pack :
          (d' : Entries R O) × (evict_if_full p bound c ≡ (ok tt, record c { entries = d' }))
            × ((weight (count_of p) c.entries < bound) × (d' ≡ c.entries)
                ⊎ (bound ≤ weight (count_of p) c.entries) × Evicted p c.entries d')
          → (d' : Entries R O) × (evict_if_full p bound c ≡ (ok tt, record c { entries = d' }))
            × Shrinks c.entries d'
            × (weight (count_of p) d' < bound)
            × ((weight (count_of p) c.entries < bound) × (d' ≡ c.entries)
                ⊎ (bound ≤ weight (count_of p) c.entries) × Evicted p c.entries d')
      pack (d', done, inl (below, same)) =
          (d', done, rw same (Shrinks-refl c.entries t), rw same below, inl (below, same))
      pack (d', done, inr (full, ev)) =
          (d', done, Evicted-Shrinks p t ev, omega (arith, Evicted-weight p t ev), inr (full, ev))

  abbrev pub time_set : ℕ → Entries R O → ResponseCache R O → ResponseCache R O
  time_set time d c = record c { last_now = some time; entries = d }

  -- The state in which `put` writes its entry: at most one entry of the session and one of the
  -- cache went, and only when the bound was reached.
  pub record RoomMade (key : CacheKey) (time : ℕ) (c : ResponseCache R O) (d : Entries R O)
      : Type 0 where
    pub own : Entries R O
    pub own_evicted :
        (weight (count_of (in_session key.session_id)) (remove key (unexpired time c))
            < c.max_entries_per_session)
          × (own ≡ remove key (unexpired time c))
        ⊎ (c.max_entries_per_session
            ≤ weight (count_of (in_session key.session_id)) (remove key (unexpired time c)))
          × Evicted (in_session key.session_id) (remove key (unexpired time c)) own
    pub any_evicted :
        (size own < c.max_entries) × (d ≡ own)
        ⊎ (c.max_entries ≤ size own) × Evicted any_session own d
    pub shrinks : Shrinks (unexpired time c) d
    pub absent : lookup key d ≡ none
    pub session_room : weight (count_of (in_session key.session_id)) d < c.max_entries_per_session
    pub room : size d < c.max_entries

  module _ (key : CacheKey) (time : ℕ) (c : ResponseCache R O) (v : IsValid c) where
    abbrev base : Entries R O
    base = remove key (unexpired time c)

    base-Shrinks : Shrinks (unexpired time c) base
    base-Shrinks = Shrinks-remove key _ (Shrinks-purge _ c.entries v.distinct).distinct

    base-absent : lookup key base ≡ none
    base-absent = ground (arith, lookup-remove key key (unexpired time c), key_eq.beq_iff key key)

    base-weight : (f : CacheKey → CacheEntry R O → ℕ) → weight f base ≤ weight f c.entries
    base-weight f = omega (
      arith,
      base-Shrinks.weights f,
      (Shrinks-purge (λ _. expired c.ttl_seconds time) c.entries v.distinct).weights f,
    )

    pub make_room :
        (d : Entries R O) × RoomMade key time c d
        × ((own : Entries R O) × (evict_if_full
                (in_session key.session_id)
                c.max_entries_per_session
                (time_set time base c)
              ≡ (ok tt, time_set time own c))
            × (evict_if_full any_session c.max_entries (time_set time own c)
                ≡ (ok tt, time_set time d c)))
    make_room =
        let (own, done, own_shrinks, own_room, own_how) =
          evict-room (in_session key.session_id) c.max_entries_per_session (time_set time base c)
            base-Shrinks.distinct v.session_pos
            (omega (
              arith,
              base-weight (count_of (in_session key.session_id)),
              v.per_session key.session_id,
            )) in
        let (d, done', d_shrinks, d_room, d_how) =
          evict-room any_session c.max_entries (time_set time own c) own_shrinks.distinct
            v.entries_pos
            (omega (arith, own_shrinks.weights (λ _ _. 1), base-weight (λ _ _. 1), v.bounded)) in
        (
          d,
          record {
            own = own;
            own_evicted = own_how;
            any_evicted = d_how;
            shrinks = Shrinks-trans base-Shrinks (Shrinks-trans own_shrinks d_shrinks);
            absent = Shrinks-absent key (Shrinks-trans own_shrinks d_shrinks) base-absent;
            session_room =
                omega (arith, own_room, d_shrinks.weights (count_of (in_session key.session_id)));
            room = d_room;
          },
          (own, done, done'),
        )
