-- ===== src/ResponseCache/Eviction.antt =====
-- Which entries a `put` of app/services/response_cache.py may push out.
use questock.Prelude.{
  [], ◌∷◌, ℕ, ◌≤◌, ◌<◌, ◌≡◌, ◌≢◌, refl, subst, Bool, true, false, Option, none, some, ◌⊎◌, inl, inr,
  arith, Bool-cases, eq_iff,
}
use questock.Clock.{AtMost}
use questock.Exec.{ok}
use questock.Dict.{lookup, assign, remove, weight, size, Each, Distinct}
use questock.Dict.Laws.{
  weight-remove_present, lookup-assign, lookup-remove, Each-lookup, Each-assign,
}
use questock.Dict.Purge.{lookup-purge}
use questock.Dict.Shrink.{
  Shrinks-refl, Shrinks, Shrinks-purge, Shrinks-remove, Shrinks-trans, Each-Shrinks,
}
use questock.ResponseCache.Key.{CacheKey, key_eq, KeyParts, TextTools, cache_key}
use questock.ResponseCache.{
  ResponseCache, CacheEntry, Entries, expired, in_session, any_session, put,
}
use questock.ResponseCache.Evict.{count_of, Evicted, evicted, Evicted-Shrinks}
use questock.ResponseCache.Valid.{IsValid}
use questock.ResponseCache.Made.{unexpired, RoomMade}
use questock.ResponseCache.Outcome.{fresh_entry, Ticks, put_lem}

module _ {R O : Type 0} where
  -- An entry is still there after an eviction, or it was picked and none that is picked is older.
  Evicted-cases :
      (p : CacheKey → CacheEntry R O → Bool) {d d' : Entries R O} (j : CacheKey)
      (e : CacheEntry R O)
      → Evicted p d d'
      → lookup j d ≡ some e
      → (lookup j d' ≡ some e)
        ⊎ (p j e ≡ true) × Each (λ k x. p k x ≡ true → e.last_access ≤ x.last_access) d
  Evicted-cases p {d} j e (evicted k x at picked least gone) here =
      elim (Bool-cases (key_eq.beq k j)) [
        | inr other ↦ inl (rw gone (ground (arith, lookup-remove k j d, other, here)))
        | inl same ↦
            let at' : lookup j d ≡ some x =
              subst (λ (y : CacheKey). lookup y d ≡ some x) ((key_eq.beq_iff k j).0 same) at in
            let x≡e : x ≡ e = cc in
            inr (
              subst (λ (y : CacheEntry R O). p j y ≡ true) x≡e
                  (subst (λ (y : CacheKey). p y x ≡ true) ((key_eq.beq_iff k j).0 same) picked),
              subst
                  (λ (y : CacheEntry R O).
                    Each (λ k z. p k z ≡ true → y.last_access ≤ z.last_access) d)
                  x≡e least,
            )
      ]

  Each-any :
      (n : ℕ) (d : Entries R O)
      → Each (λ k x. any_session k x ≡ true → n ≤ x.last_access) d
      → Each (λ _ x. n ≤ x.last_access) d
  Each-any n [] h = tt
  Each-any n ((k, x) ∷ d) h = (h.0 refl, Each-any n d h.1)

  how-Shrinks :
      {A B : Type 0} (p : CacheKey → CacheEntry R O → Bool) {d d' : Entries R O}
      → Distinct d
      → A × (d' ≡ d) ⊎ B × Evicted p d d'
      → Shrinks d d'
  how-Shrinks p {d} t (inl (_, same)) = rw same (Shrinks-refl d t)
  how-Shrinks p t (inr (_, ev)) = Evicted-Shrinks p t ev

  module _ (tools : TextTools) (reading : Option ℕ) (parts : KeyParts) (key : CacheKey) (time : ℕ)
      (response : R) (observation : O) (c : ResponseCache R O) (v : IsValid c)
      (on : c.enabled ≡ true) (keyed : cache_key tools parts ≡ ok key)
      (ticks : Ticks reading c time) (j : CacheKey) (e : CacheEntry R O)
      (here : lookup j c.entries ≡ some e) (alive : expired c.ttl_seconds time e ≡ false)
      (other : j ≢ key) where
    abbrev base : Entries R O
    base = remove key (unexpired time c)

    base-Shrinks : Shrinks c.entries base
    base-Shrinks =
        let purged = Shrinks-purge (λ _. expired c.ttl_seconds time) c.entries v.distinct in
        Shrinks-trans purged (Shrinks-remove key (unexpired time c) purged.distinct)

    in_base : lookup j base ≡ some e
    in_base = ground (
      arith,
      lookup-remove key j (unexpired time c),
      lookup-purge (λ _. expired c.ttl_seconds time) j c.entries v.distinct,
      key_eq.beq_iff key j,
      here,
      alive,
    )

    written :
        (d : Entries R O)
        → lookup j d ≡ some e
        → lookup j (assign key (fresh_entry time response observation) d) ≡ some e
    written d h = ground (
      arith,
      lookup-assign key j (fresh_entry time response observation) d,
      key_eq.beq_iff key j,
      h,
    )

    own_size :
        (own : Entries R O)
        → Evicted (in_session key.session_id) base own
        → size own < c.max_entries
    own_size own (evicted k x at picked least gone) = rw gone (
        omega (
          arith,
          weight-remove_present (λ _ _. 1) k x base base-Shrinks.distinct at,
          base-Shrinks.weights (λ _ _. 1),
          v.bounded,
        ))

    kept_of_full :
        {d : Entries R O}
        → RoomMade key time c d
        → j.session_id ≢ key.session_id
        → c.max_entries_per_session ≤ weight (count_of (in_session key.session_id)) base
        → lookup j d ≡ some e
    kept_of_full made foreign full = elim made.own_evicted [
      | inl (below, _) ↦ absurd (omega arith)
      | inr (_, ev) ↦
          let own_size' = own_size made.own ev in
          elim (Evicted-cases (in_session key.session_id) j e ev in_base) [
            | inr (mine, _) ↦ absurd (foreign ((eq_iff j.session_id key.session_id).0 mine))
            | inl stays ↦ elim made.any_evicted [
              | inl (_, same) ↦ rw same stays
              | inr (full', _) ↦ absurd (omega arith)
            ]
          ]
    ]

    -- In a valid enabled cache, a session that has as many live entries as it may pushes out none
    -- of another session: its own put leaves every live entry of the others as it was.
    pub put_isolated :
        j.session_id ≢ key.session_id
        → c.max_entries_per_session
          ≤ weight (count_of (in_session key.session_id)) (remove key (unexpired time c))
        → lookup j (put tools reading parts response observation c).1.entries ≡ some e
    put_isolated foreign full =
        let (d, made, done) =
          put_lem tools reading parts c response observation key time v on keyed ticks in
        rw done (written d (kept_of_full made foreign full))

    Oldest : Entries R O → Type 0
    Oldest d =
        (j.session_id ≡ key.session_id)
          × Each (λ k x. in_session key.session_id k x ≡ true → e.last_access ≤ x.last_access) d
        ⊎ Each (λ _ x. e.last_access ≤ x.last_access) d

    -- The order of uses is not disturbed by what goes later, nor by the entry that is written.
    Oldest-written :
        (d own : Entries R O)
        → e.last_access ≤ time
        → Shrinks own d
        → Oldest own
        → Oldest (assign key (fresh_entry time response observation) d)
    unfolding Oldest
    Oldest-written d own recent s (inl (mine, least)) = inl (
      mine,
      Each-assign _ key (fresh_entry time response observation) d (λ _. recent)
          (Each-Shrinks _ s least),
    )
    Oldest-written d own recent s (inr least) = inr (
        Each-assign _ key (fresh_entry time response observation) d recent (Each-Shrinks _ s least))

    recent : e.last_access ≤ time
    recent = ground (
      arith,
      Each-lookup (λ _ x. (x.created_at ≤ x.last_access) × AtMost x.last_access c.last_now) j e
          c.entries v.times here,
      ticks.1,
    )

    lost_any :
        {d : Entries R O} (made : RoomMade key time c d)
        → Distinct made.own
        → lookup j made.own ≡ some e
        → (lookup j d ≡ some e) ⊎ Oldest (assign key (fresh_entry time response observation) d)
    unfolding Oldest
    lost_any {d} made t stays = elim made.any_evicted [
      | inl (_, same) ↦ inl (rw same stays)
      | inr (_, ev) ↦ elim (Evicted-cases any_session j e ev stays) [
        | inl there ↦ inl there
        | inr (_, least) ↦ inr (
            Oldest-written d made.own recent (Evicted-Shrinks any_session t ev)
              (inr (Each-any e.last_access made.own least)))
      ]
    ]

    lost-Oldest :
        {d : Entries R O}
        → RoomMade key time c d
        → (lookup j d ≡ some e) ⊎ Oldest (assign key (fresh_entry time response observation) d)
    unfolding Oldest
    lost-Oldest {d} made =
        let own_shrinks =
          how-Shrinks (in_session key.session_id) base-Shrinks.distinct made.own_evicted in
        let d_shrinks = how-Shrinks any_session own_shrinks.distinct made.any_evicted in
        elim made.own_evicted [
          | inl (_, same) ↦ lost_any made own_shrinks.distinct (rw same in_base)
          | inr (_, ev) ↦ elim (Evicted-cases (in_session key.session_id) j e ev in_base) [
            | inl stays ↦ lost_any made own_shrinks.distinct stays
            | inr (mine, least) ↦ inr (
                Oldest-written d base recent (Shrinks-trans own_shrinks d_shrinks)
                  (inl ((eq_iff j.session_id key.session_id).0 mine, least)))
          ]
        ]

    -- In a valid enabled cache, a live entry under another key that a put pushes out is one of the
    -- least recently used: among the entries of the session that is written to, if it is of that
    -- session, or among all.
    pub put_evicts_oldest :
        lookup j (put tools reading parts response observation c).1.entries ≡ none
        → (j.session_id ≡ key.session_id)
            × Each
                (λ k x. in_session key.session_id k x ≡ true → e.last_access ≤ x.last_access)
                (put tools reading parts response observation c).1.entries
          ⊎ Each
              (λ _ x. e.last_access ≤ x.last_access)
              (put tools reading parts response observation c).1.entries
    unfolding Oldest
    put_evicts_oldest lost =
        let (d, made, done) =
          put_lem tools reading parts c response observation key time v on keyed ticks in
        let e' = fresh_entry time response observation in
        let gone : lookup j (assign key e' d) ≡ none = rw done at lost in
        rw done (elim (lost-Oldest made) [
          | inl there ↦ absurd (cc (written d there))
          | inr oldest ↦ oldest
        ])
