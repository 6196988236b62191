-- ===== src/SessionStore/Users.antt =====
-- The uses and the lock of one session, in the parts of the methods of
-- app/services/session_store.py.
use questock.Prelude.{
  ℕ, ◌≡◌, Bool, false, Option, none, some, ◌⊎◌, inl, inr, arith, Bool-cases, String, string_eq,
}
use questock.Exec.Triple.{Triple, Triple-pure, Triple-modify, Triple-bind, Triple-bind-lift}
use questock.Clock.{runs_back}
use questock.Dict.{lookup, assign, remove, Distinct}
use questock.Dict.Laws.{lookup-assign, lookup-remove, Distinct-assign, Distinct-remove}
use questock.Dict.Purge.{lookup-purge, Distinct-purge}
use questock.SessionStore.{
  Store, SessionEntry, now, session_id, expired, purge_expired, new_session, begin,
}

abbrev pub users_in : Option SessionEntry → ℕ
users_in none = 0
users_in (some e) = e.users

abbrev pub locked_in : Option SessionEntry → Bool
locked_in none = false
locked_in (some e) = e.locked

abbrev pub users_of : String → Store → ℕ
users_of k s = users_in (lookup k s.entries)

abbrev pub locked_of : String → Store → Bool
locked_of k s = locked_in (lookup k s.entries)

-- The session `k` has `n` users, and its lock is as `b` says if it has any.
pub record Held (k : String) (n : ℕ) (b : Bool) (s : Store) : Type 0 where
  pub distinct : Distinct s.entries
  pub users : users_of k s ≡ n
  pub lock : (n ≡ 0) ⊎ (locked_of k s ≡ b)

module _ (k : String) (n : ℕ) (b : Bool) where
  pub now-Held :
      (reading : Option ℕ) → Triple (Held k n b) (Held k n b) (now reading) (λ _. Held k n b)
  unfolding now
  now-Held none = record { at = λ s h. h }
  now-Held (some time) = record {
    at = λ s h. elim (Bool-cases (runs_back time s.last_now)) [
      | inl back ↦ rw back h
      | inr on ↦ rw on (record { distinct = h.distinct; users = h.users; lock = h.lock })
    ];
  }

  pub purge-Held : (time : ℕ) (s : Store) → Held k n b s → Held k n b (purge_expired time s)
  unfolding purge_expired
  purge-Held time s h =
      let after = lookup-purge (λ _. expired s.ttl_seconds time) k s.entries h.distinct in
      record {
        distinct = Distinct-purge _ s.entries h.distinct;
        users = ground (arith, after, h.users);
        lock = ground (arith, after, h.users, h.lock);
      }

  pub begin-Held :
      (reading : Option ℕ) (id : String)
      → Triple (Held k n b) (Held k n b) (begin reading id) (λ _. Held k n b)
  unfolding begin
  begin-Held reading id =
      Triple-bind-lift (session_id id) _ (λ s h. h)
        λ key _. Triple-bind _ _ (now-Held reading) λ time.
          Triple-bind _ _ (Triple-modify {Post = Held k n b} (purge_expired time) (purge-Held time))
            λ _. Triple-pure (key, time) (λ s h. h)

  -- A write that keeps the uses and the lock of the session it writes.
  pub write_same :
      (key : String) (e e' : SessionEntry) (s : Store)
      → Held k n b s
      → lookup key s.entries ≡ some e
      → e'.users ≡ e.users
      → e'.locked ≡ e.locked
      → Held k n b (record s { entries = assign key e' s.entries })
  write_same key e e' s h here users locked =
      let after = lookup-assign key k e' s.entries in
      record {
        distinct = Distinct-assign key e' s.entries h.distinct;
        users = ground (arith, after, here, users, h.users, string_eq.beq_iff key k);
        lock = ground (arith, after, here, locked, h.lock, string_eq.beq_iff key k);
      }

  -- A new session, where there was none.
  pub write_new :
      (key : String) (time : ℕ) (s : Store)
      → Held k n b s
      → lookup key s.entries ≡ none
      → Held k n b (record s { entries = assign key (new_session time) s.entries })
  write_new key time s h absent =
      let after = lookup-assign key k (new_session time) s.entries in
      record {
        distinct = Distinct-assign key (new_session time) s.entries h.distinct;
        users = ground (arith, after, absent, h.users, string_eq.beq_iff key k);
        lock = ground (arith, after, absent, h.users, h.lock, string_eq.beq_iff key k);
      }

  -- An idle session goes.
  pub remove_idle :
      (j : String) (e : SessionEntry) (s : Store)
      → Held k n b s
      → lookup j s.entries ≡ some e
      → e.users ≡ 0
      → Held k n b (record s { entries = remove j s.entries })
  remove_idle j e s h here idle =
      let after = lookup-remove j k s.entries in
      record {
        distinct = Distinct-remove j s.entries h.distinct;
        users = ground (arith, after, here, idle, h.users, string_eq.beq_iff j k);
        lock = ground (arith, after, here, idle, h.users, h.lock, string_eq.beq_iff j k);
      }
