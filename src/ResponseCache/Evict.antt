-- ===== src/ResponseCache/Evict.antt =====
-- The evictions of app/services/response_cache.py.
use questock.Prelude.{
  ℕ, ◌≤◌, ◌<◌, ◌≡◌, refl, sym, subst, Bool, true, false, some, List, [], ◌∷◌, ◌⊎◌, inl, inr,
  if◌then◌else◌, arith, leb, leb→le, not_leb→lt, Bool-cases, min_by, min_by-All, min_by-least, All,
  length,
}
use questock.Exec.{ok}
use questock.Dict.{lookup, remove, items_where, Distinct, weight, Each}
use questock.Dict.Purge.{All-items_where, Each-items_where, Each-of_lookup, length-items_where}
use questock.Dict.Shrink.{Shrinks, Shrinks-remove}
use questock.Dict.Laws.{weight-remove_present}
use questock.ResponseCache.Key.{CacheKey, key_eq, rank_lt}
use questock.ResponseCache.{
  ResponseCache, CacheEntry, Entries, ranks, evict_ranked, evict_oldest, evict_if_full, keys_where,
}

abbrev rank_time : ℕ × CacheKey → ℕ
rank_time (t, _) = t

rank_lt-le : (a b : ℕ × CacheKey) → rank_lt a b ≡ true → rank_time a ≤ rank_time b
unfolding rank_lt
rank_lt-le (t, a) (u, b) h = ground arith

not_rank_lt-le : (a b : ℕ × CacheKey) → rank_lt a b ≡ false → rank_time b ≤ rank_time a
unfolding rank_lt
not_rank_lt-le (t, a) (u, b) h = ground arith

module _ {R O : Type 0} where
  abbrev rank_of : CacheKey → CacheEntry R O → ℕ × CacheKey
  rank_of k e = (e.last_access, k)

  -- `d'` is `d` without one entry that `p` picks, and no entry that `p` picks was used before it.
  pub data Evicted (p : CacheKey → CacheEntry R O → Bool) (d d' : Entries R O) : Type 0 where
    evicted :
        (k : CacheKey) (e : CacheEntry R O)
        → lookup k d ≡ some e
        → p k e ≡ true
        → Each (λ j x. p j x ≡ true → e.last_access ≤ x.last_access) d
        → d' ≡ remove k d
        → Evicted p d d'

  -- Every key that was read off the dictionary is found again.
  ranks-items_where :
      (p : CacheKey → CacheEntry R O → Bool) (d d' : Entries R O)
      → Each (λ k e. lookup k d ≡ some e) d'
      → ranks (items_where p (λ k _. k) d') d ≡ ok (items_where p rank_of d')
  unfolding ranks items_where
  ranks-items_where p d [] h = refl
  ranks-items_where p d ((k, e) ∷ d') h = ground (arith, ranks-items_where p d d' h.1)

  abbrev Found : (p : CacheKey → CacheEntry R O → Bool) → Entries R O → ℕ × CacheKey → Type 0
  Found p d x =
      (e : CacheEntry R O) × (lookup x.1 d ≡ some e) × (p x.1 e ≡ true) × (e.last_access ≡ x.0)

  evict_ranked_lem :
      (p : CacheKey → CacheEntry R O → Bool) (c : ResponseCache R O) (l : List (ℕ × CacheKey))
      → 1 ≤ length l
      → All (Found p c.entries) l
      → ((t : ℕ)
          → All (λ x. t ≤ rank_time x) l
          → Each (λ j x. p j x ≡ true → t ≤ x.last_access) c.entries)
      → (d' : Entries R O) × (evict_ranked l c ≡ (ok tt, record c { entries = d' }))
        × Evicted p c.entries d'
  unfolding evict_ranked
  evict_ranked_lem p c [] h found least = absurd (omega arith)
  evict_ranked_lem p c (x ∷ xs) h found least =
      let v = min_by rank_lt x xs in
      let (e, at, picked, time) = min_by-All rank_lt (Found p c.entries) x xs found.0 found.1 in
      (
        remove v.1 c.entries,
        refl,
        evicted v.1 e at picked
            (subst (λ (t : ℕ). Each (λ j y. p j y ≡ true → t ≤ y.last_access) c.entries) (sym time)
              (least (rank_time v) (min_by-least rank_lt rank_time rank_lt-le not_rank_lt-le x xs)))
            refl,
      )

  abbrev pub count_of : (CacheKey → CacheEntry R O → Bool) → CacheKey → CacheEntry R O → ℕ
  count_of p k e = if p k e then 1 else 0

  pub evict_oldest_lem :
      (p : CacheKey → CacheEntry R O → Bool) (c : ResponseCache R O)
      → Distinct c.entries
      → 1 ≤ length (keys_where p c)
      → (d' : Entries R O) × (evict_oldest (keys_where p c) c ≡ (ok tt, record c { entries = d' }))
        × Evicted p c.entries d'
  unfolding evict_oldest
  evict_oldest_lem p c t h =
      rw (ranks-items_where p c.entries c.entries (Each-of_lookup _ c.entries t (λ k v q. q))) (
        evict_ranked_lem p c (items_where p rank_of c.entries)
          (omega (
            arith,
            length-items_where p (λ k _. k) c.entries,
            length-items_where p rank_of c.entries,
          ))
          (All-items_where p rank_of (Found p c.entries) c.entries
            (Each-of_lookup _ c.entries t (λ k v q picked. (v, q, picked, refl))))
          (λ time. Each-items_where p rank_of (λ x. time ≤ rank_time x) c.entries))

  -- Below the bound nothing happens; at the bound one entry goes.
  pub evict_if_full_lem :
      (p : CacheKey → CacheEntry R O → Bool) (bound : ℕ) (c : ResponseCache R O)
      → Distinct c.entries
      → 1 ≤ bound
      → (d' : Entries R O) × (evict_if_full p bound c ≡ (ok tt, record c { entries = d' }))
        × ((weight (count_of p) c.entries < bound) × (d' ≡ c.entries)
            ⊎ (bound ≤ weight (count_of p) c.entries) × Evicted p c.entries d')
  unfolding evict_if_full
  evict_if_full_lem p bound c t h =
      let counted = length-items_where p (λ k _. k) c.entries in
      elim (Bool-cases (leb bound (length (keys_where p c)))) [
        | inl full ↦
            let (d', done, ev) = evict_oldest_lem p c t (omega (arith, leb→le bound _ full)) in
            (d', rw full done, inr (omega (arith, counted, leb→le bound _ full), ev))
        | inr room ↦
            (c.entries, rw room, inl (omega (arith, counted, not_leb→lt bound _ room), refl))
      ]

  pub Evicted-Shrinks :
      (p : CacheKey → CacheEntry R O → Bool) {d d' : Entries R O}
      → Distinct d
      → Evicted p d d'
      → Shrinks d d'
  Evicted-Shrinks p {d} t (evicted k e at picked least gone) =
      subst (Shrinks d) (sym gone) (Shrinks-remove k d t)

  pub Evicted-weight :
      (p : CacheKey → CacheEntry R O → Bool) {d d' : Entries R O}
      → Distinct d
      → Evicted p d d'
      → weight (count_of p) d' < weight (count_of p) d
  Evicted-weight p {d} t (evicted k e at picked least gone) =
      rw gone (ground (arith, weight-remove_present (count_of p) k e d t at, picked))
