-- ===== src/SessionStore.antt =====
-- app/services/session_store.py: `InMemorySessionStore`. Each method that reads the clock takes
-- the reading: `none` stands for a clock that raises or gives no finite number.
pub mod Text
pub mod Exchange
pub mod Valid
mod Steps
mod Room
pub mod Serialized
mod Append
pub mod Conversation
pub mod ContextSize
pub mod Appending
mod Methods
pub mod Invariant
mod Users
pub mod Uses
pub mod Locking
pub mod Interleaving
pub mod Exclusion
pub mod SerializedValid
mod Examples
use questock.Prelude.{
  ℕ, zero, suc, ◌+◌, ◌-◌, Bool, true, false, not, ◌&&◌, ◌||◌, Option, none, some, List, [], ◌∷◌,
  ◌++◌, map, String, string_eq, ltb, leb, ◌==◌, if◌then◌else◌, min_by, length, take_last,
}
use questock.Prelude.Text.{str_lt, codes}
use questock.Clock.{runs_back}
use questock.Exec.{Result, ok, raise, Exec, ◌>>=◌, ◌>>◌, pure, throw, lift, gets, modify, raise_if}
use questock.Dict.{Dict, lookup, remove, assign, items_where, size}
use questock.Dict.Purge.{purge}
use questock.Core.Models.{SessionContext, empty_context}
use questock.SessionStore.Text.{session_id_ok}
use questock.SessionStore.Exchange.{
  StoreError, unavailable, SessionExchange, canonical_exchange, canonical_context,
}

abbrev pub max_sessions_limit : ℕ
max_sessions_limit = 256

abbrev pub max_recent_exchanges : ℕ
max_recent_exchanges = 4

abbrev pub max_session_conversation_chars : ℕ
max_session_conversation_chars = 16000

-- `lock` is the lock of the entry: held or free.
pub record SessionEntry : Type 0 where
  pub context : SessionContext
  pub recent_exchanges : List SessionExchange
  pub revision : ℕ
  pub last_access : ℕ
  pub locked : Bool
  pub users : ℕ

pub record SessionState : Type 0 where
  pub context : SessionContext
  pub recent_exchanges : List SessionExchange
  pub revision : ℕ

pub record Store : Type 0 where
  pub max_sessions : ℕ
  pub ttl_seconds : ℕ
  pub entries : Dict String SessionEntry
  pub last_now : Option ℕ

-- `__init__`
pub init : ℕ → ℕ → Result StoreError Store
init max_sessions ttl_seconds =
    if ltb max_sessions 1 || ltb max_sessions_limit max_sessions || leb ttl_seconds 0
    then raise unavailable
    else ok (record {
      max_sessions = max_sessions;
      ttl_seconds = ttl_seconds;
      entries = [];
      last_now = none;
    })

-- `_now`
unfoldable pub now : Option ℕ → Exec StoreError Store ℕ
now none s = (raise unavailable, s)
now (some value) s =
    if runs_back value s.last_now
    then (raise unavailable, s)
    else (ok value, record s { last_now = some value })

-- `_session_id`
pub session_id : String → Result StoreError String
session_id value = if session_id_ok value then ok value else raise unavailable

-- The test of `_purge_expired`.
abbrev pub expired : ℕ → ℕ → SessionEntry → Bool
expired ttl_seconds now entry = entry.users == 0 && leb ttl_seconds (now - entry.last_access)

-- `_purge_expired`
pub purge_expired : ℕ → Store → Store
purge_expired now s = record s { entries = purge (λ _. expired s.ttl_seconds now) s.entries }

-- `(entry.last_access, session_id)` of the entries that no request uses.
pub candidates : Dict String SessionEntry → List (ℕ × String)
candidates = items_where (λ _ e. e.users == 0) (λ k e. (e.last_access, k))

-- The order of Python on such pairs.
pub pair_lt : ℕ × String → ℕ × String → Bool
pair_lt (t, a) (u, b) = ltb t u || t == u && str_lt a b

-- `_, evicted_id = min(candidates)`, and the deletion.
pub evict : List (ℕ × String) → Exec StoreError Store Unit
evict [] = throw unavailable
evict (x ∷ xs) = modify (λ s. record s { entries = remove (min_by pair_lt x xs).1 s.entries })

abbrev pub new_session : ℕ → SessionEntry
new_session now = record {
  context = empty_context;
  recent_exchanges = [];
  revision = 0;
  last_access = now;
  locked = false;
  users = 0;
}

-- The first half of `_new_entry`: an idle session goes if the store is full.
pub make_room : Exec StoreError Store Unit
unfolding evict candidates
make_room s =
    if leb s.max_sessions (size s.entries) then evict (candidates s.entries) s else (ok tt, s)

-- `_new_entry`
pub new_entry : String → ℕ → Exec StoreError Store SessionEntry
unfolding make_room
new_entry key now = do
  make_room
  modify (λ s. record s { entries = assign key (new_session now) s.entries })
  pure (new_session now)

-- `if entry is None: entry = self._new_entry(key, now)`
pub or_new : Option SessionEntry → String → ℕ → Exec StoreError Store SessionEntry
unfolding new_entry
or_new (some entry) key now = pure entry
or_new none key now = new_entry key now

-- `self._entries.get(key)`, then `_new_entry` if there is none: `_entry_for_request` after its purge.
pub entry_or_new : String → ℕ → Exec StoreError Store SessionEntry
unfolding or_new
entry_or_new key now s = or_new (lookup key s.entries) key now s

-- A change of an entry in place.
abbrev pub write : String → SessionEntry → Exec StoreError Store Unit
write key entry = modify (λ s. record s { entries = assign key entry s.entries })

-- The start of every method: the key, the clock, the purge.
pub begin : Option ℕ → String → Exec StoreError Store (String × ℕ)
unfolding now purge_expired session_id
begin reading id = do
  key ← lift (session_id id)
  time ← now reading
  modify (purge_expired time)
  pure (key, time)

-- `if entry is None: return None`, else `entry.last_access = now`.
pub use_found : Option SessionEntry → String → ℕ → Exec StoreError Store (Option SessionEntry)
use_found none key now = pure none
use_found (some entry) key now = do
  let used = record entry { last_access = now }
  write key used
  pure (some used)

pub use_entry : String → ℕ → Exec StoreError Store (Option SessionEntry)
unfolding use_found
use_entry key now s = use_found (lookup key s.entries) key now s

-- `_canonical_context(entry.context)` of the entry, if there is one.
pub context_of : Option SessionEntry → Exec StoreError Store (Option SessionContext)
context_of none = pure none
context_of (some entry) = do context ← lift (canonical_context entry.context); pure (some context)

-- `get`
pub get : Option ℕ → String → Exec StoreError Store (Option SessionContext)
unfolding begin use_entry context_of
get reading id = do (key, time) ← begin reading id; found ← use_entry key time; context_of found

-- `put`; the context is tested before the clock is read.
pub put : Option ℕ → String → SessionContext → Exec StoreError Store Unit
unfolding now purge_expired session_id entry_or_new
put reading id context = do
  key ← lift (session_id id)
  canonical ← lift (canonical_context context)
  time ← now reading
  modify (purge_expired time)
  entry ← entry_or_new key time
  write key (record entry { context = canonical; last_access = time })

pub state_of : Option SessionEntry → Exec StoreError Store (Option SessionState)
state_of none = pure none
state_of (some entry) = do
  context ← lift (canonical_context entry.context)
  pure (
      some (record {
        context = context;
        recent_exchanges = entry.recent_exchanges;
        revision = entry.revision;
      }))

-- `state`
pub state : Option ℕ → String → Exec StoreError Store (Option SessionState)
unfolding begin use_entry state_of
state reading id = do (key, time) ← begin reading id; found ← use_entry key time; state_of found

-- `revision`
pub revision : Option ℕ → String → Exec StoreError Store ℕ
unfolding state
revision reading id = do
  found ← state reading id
  pure (elim found [ none ↦ 0 | some state ↦ state.revision ])

-- `size`
pub size_now : Option ℕ → Exec StoreError Store ℕ
unfolding now purge_expired
size_now reading = do time ← now reading; modify (purge_expired time); gets (λ s. size s.entries)

-- The arguments of `append_exchange`.
pub record NewExchange : Type 0 where
  pub user_question : String
  pub assistant_public_text : String
  pub status : String
  pub security_id : Option String
  pub intent : String
  pub selected_evidence_ids : List String
  pub snapshot_id : String

abbrev pub numbered : NewExchange → ℕ → SessionExchange
numbered x revision = record {
  user_question = x.user_question;
  assistant_public_text = x.assistant_public_text;
  status = x.status;
  security_id = x.security_id;
  intent = x.intent;
  selected_evidence_ids = x.selected_evidence_ids;
  snapshot_id = x.snapshot_id;
  revision = revision;
}

-- `sum(len(item.user_question) + len(item.assistant_public_text) for item in recent)`
abbrev pub conversation_chars : List SessionExchange → ℕ
conversation_chars [] = 0
conversation_chars (x ∷ xs) =
    length (codes x.user_question) + length (codes x.assistant_public_text) + conversation_chars xs

-- `append_exchange`; a session that is missing is made before the exchange is tested.
pub append_exchange : Option ℕ → String → NewExchange → Exec StoreError Store ℕ
unfolding begin entry_or_new
append_exchange reading id x = do
  (key, time) ← begin reading id
  entry ← entry_or_new key time
  let revision = entry.revision + 1
  exchange ← lift (canonical_exchange (numbered x revision))
  let recent = take_last max_recent_exchanges (entry.recent_exchanges ++ exchange ∷ [])
  raise_if (ltb max_session_conversation_chars (conversation_chars recent)) unavailable
  write key (record entry { recent_exchanges = recent; revision = revision; last_access = time })
  pure revision
