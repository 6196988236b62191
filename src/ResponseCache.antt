-- ===== src/ResponseCache.antt =====
-- app/services/response_cache.py: the bounded response cache. A float of seconds is a number of
-- clock ticks; a clock reading that raises, is no number or is not finite is `none`.
pub mod Key
mod Evict
pub mod Valid
mod Made
mod Outcome
pub mod Invariant
pub mod Reads
pub mod Ages
pub mod Eviction
mod Examples
use questock.Prelude.{
  ℕ, ◌+◌, ◌-◌, Bool, true, false, not, ◌||◌, ◌&&◌, Option, none, some, List, [], ◌∷◌, ltb, leb,
  String, ◌≟◌, string_eq, if◌then◌else◌, min_by, length,
}
use questock.Exec.{Result, ok, raise, Exec, ◌>>=◌, ◌>>◌, pure, throw, lift, gets, modify, raise_if}
use questock.Clock.{runs_back}
use questock.Dict.{Dict, lookup, remove, assign, items_where, size}
use questock.Dict.Purge.{purge}
use questock.ResponseCache.Key.{
  CacheError, unavailable, key_error, CacheKey, KeyParts, TextTools, cache_key, key_eq, rank_lt,
}

abbrev pub max_response_cache_entries : ℕ
max_response_cache_entries = 256

abbrev pub max_response_cache_entries_per_session : ℕ
max_response_cache_entries_per_session = 4

-- `ChatResponse` and `RequestObservation` are the types `R` and `O`: the cache only copies them.
pub record CachedResponse (R O : Type 0) : Type 0 where
  pub response : R
  pub observation : O

pub record CacheEntry (R O : Type 0) : Type 0 where
  pub response : R
  pub observation : O
  pub created_at : ℕ
  pub last_access : ℕ

abbrev pub Entries : Type 0 → Type 0 → Type 0
Entries R O = Dict CacheKey (CacheEntry R O)

pub record ResponseCache (R O : Type 0) : Type 0 where
  pub enabled : Bool
  pub ttl_seconds : ℕ
  pub max_entries : ℕ
  pub max_entries_per_session : ℕ
  pub entries : Entries R O
  pub last_now : Option ℕ

module _ {R O : Type 0} where
  -- `__init__`; the tests on the types of the arguments are their types here.
  pub init : Bool → ℕ → ℕ → ℕ → Result CacheError (ResponseCache R O)
  init enabled ttl_seconds max_entries max_entries_per_session =
      if leb ttl_seconds 0
        || not (leb 1 max_entries && leb max_entries max_response_cache_entries)
        || not (
            leb 1 max_entries_per_session
            && leb max_entries_per_session max_response_cache_entries_per_session)
        || ltb max_entries max_entries_per_session
      then raise unavailable
      else ok (record {
        enabled = enabled;
        ttl_seconds = ttl_seconds;
        max_entries = max_entries;
        max_entries_per_session = max_entries_per_session;
        entries = [];
        last_now = none;
      })

  -- `_now`
  pub now : Option ℕ → Exec CacheError (ResponseCache R O) ℕ
  now none c = (raise unavailable, c)
  now (some value) c =
      if runs_back value c.last_now
      then (raise unavailable, c)
      else (ok value, record c { last_now = some value })

  -- The test of `_purge_expired`.
  abbrev pub expired : ℕ → ℕ → CacheEntry R O → Bool
  expired ttl_seconds now entry = leb ttl_seconds (now - entry.created_at)

  -- `_purge_expired`
  pub purge_expired : ℕ → ResponseCache R O → ResponseCache R O
  purge_expired now c = record c { entries = purge (λ _. expired c.ttl_seconds now) c.entries }

  -- The keys that `min` compares, `self._entries[item].last_access` first.
  pub ranks :
      List CacheKey → Dict CacheKey (CacheEntry R O) → Result CacheError (List (ℕ × CacheKey))
  ranks [] d = ok []
  ranks (k ∷ ks) d = elim (lookup k d) [
    | none ↦ raise key_error
    | some entry ↦ elim (ranks ks d) [
      | raise e ↦ raise e
      | ok rest ↦ ok ((entry.last_access, k) ∷ rest)
    ]
  ]

  -- `min(keys, key=...)` over the ranks, and the deletion.
  pub evict_ranked : List (ℕ × CacheKey) → Exec CacheError (ResponseCache R O) Unit
  evict_ranked [] = throw unavailable
  evict_ranked (x ∷ xs) =
      modify (λ c. record c { entries = remove (min_by rank_lt x xs).1 c.entries })

  -- `_evict_oldest`
  pub evict_oldest : List CacheKey → Exec CacheError (ResponseCache R O) Unit
  unfolding evict_ranked ranks
  evict_oldest keys = do
    d ← gets (λ c. c.entries)
    ranked ← lift (ranks keys d)
    evict_ranked ranked

  abbrev pub in_session : String → CacheKey → CacheEntry R O → Bool
  in_session session_id k _ = k.session_id ≟ session_id

  abbrev pub any_session : CacheKey → CacheEntry R O → Bool
  any_session _ _ = true

  abbrev pub keys_where : (CacheKey → CacheEntry R O → Bool) → ResponseCache R O → List CacheKey
  keys_where p c = items_where p (λ k _. k) c.entries

  -- `if len(keys) >= bound: self._evict_oldest(keys)`
  pub evict_if_full :
      (CacheKey → CacheEntry R O → Bool) → ℕ → Exec CacheError (ResponseCache R O) Unit
  unfolding evict_oldest
  evict_if_full p bound c =
      let keys = keys_where p c in
      if leb bound (length keys) then evict_oldest keys c else (ok tt, c)

  -- A hit: the entry is marked as used, and copied out.
  pub hit :
      CacheKey
      → ℕ
      → Option (CacheEntry R O)
      → Exec CacheError (ResponseCache R O) (Option (CachedResponse R O))
  hit key now none = pure none
  hit key now (some entry) = do
    modify (λ c. record c { entries = assign key (record entry { last_access = now }) c.entries })
    pure (some (record { response = entry.response; observation = entry.observation }))

  module _ (tools : TextTools) where
    -- `get`
    pub get :
        Option ℕ → KeyParts → Exec CacheError (ResponseCache R O) (Option (CachedResponse R O))
    unfolding now purge_expired hit
    get reading parts c =
        if c.enabled
        then (do
          key ← lift (cache_key tools parts)
          time ← now reading
          modify (purge_expired time)
          found ← gets (λ c'. lookup key c'.entries)
          hit key time found)
            c
        else (ok none, c)

    -- `put`; the types of the response and the observation are tested by their types.
    pub put : Option ℕ → KeyParts → R → O → Exec CacheError (ResponseCache R O) Unit
    unfolding now purge_expired evict_if_full
    put reading parts response observation c =
        if c.enabled
        then (do
          key ← lift (cache_key tools parts)
          time ← now reading
          modify (purge_expired time)
          modify (λ c'. record c' { entries = remove key c'.entries })
          evict_if_full (in_session key.session_id) c.max_entries_per_session
          evict_if_full any_session c.max_entries
          modify (λ c'. record c' {
            entries =
                assign key
                  (record {
                    response = response;
                    observation = observation;
                    created_at = time;
                    last_access = time;
                  })
                  c'.entries;
          }))
            c
        else (ok tt, c)

  -- `size`
  pub size_now : Option ℕ → Exec CacheError (ResponseCache R O) ℕ
  unfolding now purge_expired
  size_now reading c =
      if c.enabled
      then (do time ← now reading; modify (purge_expired time); gets (λ c'. size c'.entries)) c
      else (ok 0, c)
