-- ===== src/ResponseCache/Valid.antt =====
-- The well-formed states of the response cache.
use questock.Prelude.{◌≤◌, String}
use questock.Clock.{AtMost}
use questock.Dict.{Distinct, weight, size, Each}
use questock.ResponseCache.Key.{key_eq}
use questock.ResponseCache.{
  ResponseCache, in_session, max_response_cache_entries, max_response_cache_entries_per_session,
}
use questock.ResponseCache.Evict.{count_of}

module _ {R O : Type 0} where
  -- Keys are unique; the bounds of the constructor hold and are kept, for the cache and for each
  -- session; no entry is used before it is made or after the last reading of the clock.
  pub record IsValid (c : ResponseCache R O) : Type 0 where
    pub distinct : Distinct c.entries
    pub ttl_pos : 1 ≤ c.ttl_seconds
    pub entries_pos : 1 ≤ c.max_entries
    pub entries_max : c.max_entries ≤ max_response_cache_entries
    pub session_pos : 1 ≤ c.max_entries_per_session
    pub session_max : c.max_entries_per_session ≤ max_response_cache_entries_per_session
    pub bounded : size c.entries ≤ c.max_entries
    pub per_session :
        (s : String) → weight (count_of (in_session s)) c.entries ≤ c.max_entries_per_session
    pub times :
        Each (λ _ e. (e.created_at ≤ e.last_access) × AtMost e.last_access c.last_now) c.entries
