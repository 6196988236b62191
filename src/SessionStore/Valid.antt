-- ===== src/SessionStore/Valid.antt =====
-- The well-formed session stores.
use questock.Prelude.{string_eq, ℕ, ◌+◌, ◌≤◌, ◌≡◌, Option, List, [], ◌∷◌, length, All}
use questock.Clock.{AtMost}
use questock.Exec.{ok}
use questock.Dict.{Distinct, size, Each}
use questock.SessionStore.Exchange.{SessionExchange, canonical_exchange, canonical_context}
use questock.SessionStore.{Store, SessionEntry, max_sessions_limit, max_recent_exchanges}

-- The exchanges bear consecutive revisions, the last of them `revision`.
abbrev pub Consecutive : ℕ → List SessionExchange → Type 0
Consecutive revision [] = Unit
Consecutive revision (x ∷ xs) = (x.revision + length xs ≡ revision) × Consecutive revision xs

-- A session keeps its last four exchanges at most, all canonical, numbered up to its revision, and
-- a canonical context; it was not used after the last reading of the clock.
pub record EntryOk (last : Option ℕ) (e : SessionEntry) : Type 0 where
  pub recent_bound : length e.recent_exchanges ≤ max_recent_exchanges
  pub consecutive : Consecutive e.revision e.recent_exchanges
  pub canonical : All (λ x. canonical_exchange x ≡ ok x) e.recent_exchanges
  pub context : canonical_context e.context ≡ ok e.context
  pub accessed : AtMost e.last_access last

pub record IsValid (s : Store) : Type 0 where
  pub distinct : Distinct s.entries
  pub sessions_pos : 1 ≤ s.max_sessions
  pub sessions_max : s.max_sessions ≤ max_sessions_limit
  pub ttl_pos : 1 ≤ s.ttl_seconds
  pub bounded : size s.entries ≤ s.max_sessions
  pub entries : Each (λ _ e. EntryOk s.last_now e) s.entries
