-- ===== src/ResponseCache/Ages.antt =====
-- That reads do not prolong the life of an entry of app/services/response_cache.py.
use questock.Prelude.{
  ℕ, ◌+◌, ◌≤◌, ◌≡◌, refl, ap, ◌∙◌, true, Option, none, some, List, [], ◌∷◌, inl, inr, arith,
}
use questock.Exec.{ok}
use questock.Dict.{lookup}
use questock.ResponseCache.Key.{CacheKey, key_eq, KeyParts, TextTools, cache_key}
use questock.ResponseCache.{ResponseCache, CacheEntry, hit, get}
use questock.ResponseCache.Valid.{IsValid}
use questock.ResponseCache.Invariant.{get-IsValid}
use questock.ResponseCache.Made.{unexpired, time_set}
use questock.ResponseCache.Outcome.{Ticks, call-cases, get_lem, get_refused}
use questock.ResponseCache.Reads.{get_keeps_age, get_fresh}

module _ {R O : Type 0} where
  -- What a get leaves of the settings, and of the time at which the entry of a key was made.
  record Ages (made : ℕ) (key : CacheKey) (ttl : ℕ) (c : ResponseCache R O) : Type 0 where
    valid : IsValid c
    on : c.enabled ≡ true
    same_ttl : c.ttl_seconds ≡ ttl
    aged : (e : CacheEntry R O) → lookup key c.entries ≡ some e → e.created_at ≡ made

  hit_settings :
      (key : CacheKey) (time : ℕ) (found : Option (CacheEntry R O)) (c : ResponseCache R O)
      → ((hit key time found c).1.enabled ≡ c.enabled)
        × ((hit key time found c).1.ttl_seconds ≡ c.ttl_seconds)
  unfolding hit
  hit_settings key time none c = (refl, refl)
  hit_settings key time (some e) c = (refl, refl)

  module _ (tools : TextTools) where
    -- Gets one after the other, each with its reading.
    unfoldable pub gets_all : List (Option ℕ × KeyParts) → ResponseCache R O → ResponseCache R O
    gets_all [] c = c
    gets_all ((reading, parts) ∷ rest) c = gets_all rest (get tools reading parts c).1

    get-Ages :
        (made : ℕ) (key : CacheKey) (ttl : ℕ) (reading : Option ℕ) (parts : KeyParts)
        (c : ResponseCache R O)
        → Ages made key ttl c
        → Ages made key ttl (get tools reading parts c).1
    get-Ages made key ttl reading parts c a = elim (call-cases tools reading parts c) [
      | inl refused ↦ let (r, same) = get_refused tools reading parts c refused in rw same a
      | inr (other, time, on, keyed, ticks) ↦
          let c' = time_set time (unexpired time c) c in
          let done = get_lem tools reading parts c other time on keyed ticks in
          let settings = hit_settings other time (lookup other (unexpired time c)) c' in
          record {
            valid = get-IsValid tools reading parts c a.valid;
            on = rw done (settings.0 ∙ a.on);
            same_ttl = rw done (settings.1 ∙ a.same_ttl);
            aged = λ e there.
                let (e', before, same) =
                  get_keeps_age tools parts other keyed reading time c key e a.valid a.on ticks
                    there in
                same ∙ a.aged e' before;
          }
    ]

    gets_all-Ages :
        (made : ℕ) (key : CacheKey) (ttl : ℕ) (rest : List (Option ℕ × KeyParts))
        (c : ResponseCache R O)
        → Ages made key ttl c
        → Ages made key ttl (gets_all rest c)
    unfolding gets_all
    gets_all-Ages made key ttl [] c a = a
    gets_all-Ages made key ttl ((reading, parts) ∷ rest) c a =
        gets_all-Ages made key ttl rest (get tools reading parts c).1
          (get-Ages made key ttl reading parts c a)

    -- Reads do not prolong the life of an entry: in a valid enabled cache that has an entry, after
    -- any gets with any readings, of that key or of others, refused ones included, a get at an
    -- accepted reading ttl_seconds or more after the entry was made returns None.
    pub gets_all-get :
        (before : List (Option ℕ × KeyParts)) (reading : Option ℕ) (time : ℕ) (parts : KeyParts)
        (key : CacheKey) (e : CacheEntry R O) (c : ResponseCache R O)
        → cache_key tools parts ≡ ok key
        → IsValid c
        → c.enabled ≡ true
        → lookup key c.entries ≡ some e
        → Ticks reading (gets_all before c) time
        → e.created_at + c.ttl_seconds ≤ time
        → (get tools reading parts (gets_all before c)).0 ≡ ok none
    gets_all-get before reading time parts key e c keyed v on there ticks old =
        let a = gets_all-Ages e.created_at key c.ttl_seconds before c (record {
          valid = v;
          on = on;
          same_ttl = refl;
          aged = λ e' found.
              let same : e' ≡ e = ground (arith, found, there) in
              ap (λ (x : CacheEntry R O). x.created_at) same;
        }) in
        let c' = gets_all before c in
        elim (get_fresh tools parts key keyed reading time c' a.valid a.on ticks) [
          | inl (e', found, young, given) ↦
              absurd (omega (arith, young, a.aged e' found, a.same_ttl, old))
          | inr (inl (missing, given)) ↦ given
          | inr (inr (e', found, stale, given)) ↦ given
        ]
