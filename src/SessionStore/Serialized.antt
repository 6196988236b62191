-- ===== src/SessionStore/Serialized.antt =====
-- The context manager `serialized` of app/services/session_store.py, cut where it waits: `enter`
-- runs to the wait for the lock, `begin_body` from the lock to the `yield`, `leave` and `abandon`
-- are its `finally`. The entry object of a request is the one that the store holds under its key.
use questock.Prelude.{
  ℕ, ◌+◌, ◌-◌, true, false, Option, none, some, [], String, string_eq, leb, if◌then◌else◌,
}
use questock.Exec.{Exec, ◌>>=◌, ◌>>◌, pure, gets}
use questock.Dict.{lookup}
use questock.Core.Models.{empty_context}
use questock.SessionStore.Exchange.{StoreError}
use questock.SessionStore.{Store, SessionEntry, now, write, begin, entry_or_new}

-- A change of the entry that a request holds.
unfoldable pub change_found :
    Option SessionEntry → String → (SessionEntry → SessionEntry) → Exec StoreError Store Unit
change_found none key f = pure tt
change_found (some entry) key f = write key (f entry)

unfoldable pub change : String → (SessionEntry → SessionEntry) → Exec StoreError Store Unit
unfolding change_found
change key f s = change_found (lookup key s.entries) key f s

-- `_entry_for_request`, and `entry.users += 1`.
unfoldable pub enter : Option ℕ → String → Exec StoreError Store String
enter reading id = do
  (key, time) ← begin reading id
  entry ← entry_or_new key time
  write key (record entry { users = entry.users + 1 })
  pure key

-- What is left of a session that went stale while the request waited.
abbrev pub refreshed : ℕ → ℕ → SessionEntry → SessionEntry
refreshed ttl_seconds now entry =
    if leb ttl_seconds (now - entry.last_access)
    then record entry {
      context = empty_context;
      recent_exchanges = [];
      revision = 0;
      last_access = now;
    }
    else record entry { last_access = now }

-- From `acquired = True` to the `yield`.
unfoldable pub begin_body : Option ℕ → String → Exec StoreError Store Unit
begin_body reading key = do
  change key (λ e. record e { locked = true })
  time ← now reading
  ttl ← gets (λ s. s.ttl_seconds)
  change key (refreshed ttl time)

-- The `finally` of a request that had the lock.
unfoldable pub leave : Option ℕ → String → Exec StoreError Store Unit
leave reading key = do
  time ← now reading
  change key (λ e. record e { last_access = time; locked = false })
  change key (λ e. record e { users = e.users - 1 })

-- The `finally` of a request that was cancelled while it waited.
unfoldable pub abandon : String → Exec StoreError Store Unit
abandon key = change key (λ e. record e { users = e.users - 1 })
