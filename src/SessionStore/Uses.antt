-- ===== src/SessionStore/Uses.antt =====
-- Who uses a session, in the methods of app/services/session_store.py outside `serialized`.
use questock.Prelude.{
  ℕ, ◌+◌, ◌≡◌, refl, Bool, Option, none, some, ◌⊎◌, inl, inr, arith, String, string_eq,
}
use questock.Exec.{Exec}
use questock.Exec.Triple.{
  Triple, Triple-pure, Triple-modify, Triple-raise_if, Triple-bind, Triple-bind-lift, Triple-gets,
  Triple-keeps, Outcome,
}
use questock.Dict.{lookup, assign, remove, Distinct, size}
use questock.Dict.Laws.{lookup-assign}
use questock.Core.Models.{SessionContext}
use questock.SessionStore.Exchange.{StoreError, canonical_exchange, canonical_context}
use questock.SessionStore.{
  Store, SessionEntry, NewExchange, session_id, purge_expired, new_session, new_entry, or_new,
  entry_or_new, write, use_found, use_entry, context_of, get, put, state_of, state, revision,
  size_now, append_exchange, numbered,
}
use questock.SessionStore.Invariant.{
  Call, call_get, call_put, call_state, call_revision, call_append, call_size, call_context,
  run_call,
}
use questock.SessionStore.Conversation.{conversation_context}
use questock.SessionStore.Room.{make_room-cases}
use questock.SessionStore.Users.{
  users_of, locked_of, Held, now-Held, purge-Held, begin-Held, write_same, write_new, remove_idle,
}
use questock.Dict.Shrink.{Shrinks-remove, Shrinks-absent}

module _ (k : String) (n : ℕ) (b : Bool) where
  abbrev H : Store → Type 0
  H = Held k n b

  -- `entry` is what the store holds under `key`.
  abbrev Holds : String → SessionEntry → Store → Type 0
  Holds key e s = H s × (lookup key s.entries ≡ some e)

  new_entry-Held :
      (time : ℕ) (key : String) (s : Store)
      → H s
      → lookup key s.entries ≡ none
      → Outcome {E = StoreError} H (Holds key) (new_entry key time s).0 (new_entry key time s).1
  unfolding new_entry
  new_entry-Held time key s h absent = elim (make_room-cases s h.distinct) [
    | inl (room, done) ↦ rw done (write_new k n b key time s h absent, here s)
    | inr (inr (full, busy, done)) ↦ rw done h
    | inr (inl (j, e, oldest, full, done)) ↦
        let s' : Store = record s { entries = remove j s.entries } in
        rw done (
          write_new k n b key time s' (remove_idle k n b j e s h oldest.there oldest.idle)
              (Shrinks-absent key (Shrinks-remove j s.entries h.distinct) absent),
          here s',
        )
  ]
    where
      here :
          (s : Store)
          → lookup key (assign key (new_session time) s.entries) ≡ some (new_session time)
      here s =
          ground
            (arith, lookup-assign key key (new_session time) s.entries, string_eq.beq_iff key key)

  or_new-Held :
      (time : ℕ) (key : String) (found : Option SessionEntry) (s : Store)
      → H s
      → lookup key s.entries ≡ found
      → Outcome {E = StoreError} H
          (Holds key)
          (or_new found key time s).0
          (or_new found key time s).1
  unfolding or_new
  or_new-Held time key (some e) s h q = (h, q)
  or_new-Held time key none s h q = new_entry-Held time key s h q

  pub entry_or_new-Held : (time : ℕ) (key : String) → Triple H H (entry_or_new key time) (Holds key)
  unfolding entry_or_new
  entry_or_new-Held time key = record {
    at = λ s h. or_new-Held time key (lookup key s.entries) s h refl;
  }

  use_found-Held :
      (time : ℕ) (key : String) (found : Option SessionEntry) (s : Store)
      → H s
      → lookup key s.entries ≡ found
      → Outcome {E = StoreError} H
          (λ _. H)
          (use_found found key time s).0
          (use_found found key time s).1
  unfolding use_found
  use_found-Held time key none s h q = h
  use_found-Held time key (some e) s h q =
      write_same k n b key e (record e { last_access = time }) s h q refl refl

  use_entry-Held : (time : ℕ) (key : String) → Triple H H (use_entry key time) (λ _. H)
  unfolding use_entry
  use_entry-Held time key = record {
    at = λ s h. use_found-Held time key (lookup key s.entries) s h refl;
  }

  write-Held :
      (key : String) (e e' : SessionEntry)
      → e'.users ≡ e.users
      → e'.locked ≡ e.locked
      → Triple {E = StoreError} H (Holds key e) (write key e') (λ _. H)
  write-Held key e e' u l = record { at = λ s h. write_same k n b key e e' s h.0 h.1 u l }

  context_of-Held : (found : Option SessionEntry) → Triple H H (context_of found) (λ _. H)
  unfolding context_of
  context_of-Held none = Triple-pure none (λ s h. h)
  context_of-Held (some e) =
      Triple-bind-lift (canonical_context e.context) _ (λ s h. h)
        λ c _. Triple-pure (some c) (λ s h. h)

  state_of-Held : (found : Option SessionEntry) → Triple H H (state_of found) (λ _. H)
  unfolding state_of
  state_of-Held none = Triple-pure none (λ s h. h)
  state_of-Held (some e) =
      Triple-bind-lift (canonical_context e.context) _ (λ s h. h) λ c _. Triple-pure _ (λ s h. h)

  get-Held : (reading : Option ℕ) (id : String) → Triple H H (get reading id) (λ _. H)
  unfolding get
  get-Held reading id =
      Triple-bind _ _ (begin-Held k n b reading id)
        λ r. Triple-bind _ _ (use_entry-Held r.1 r.0) context_of-Held

  state-Held : (reading : Option ℕ) (id : String) → Triple H H (state reading id) (λ _. H)
  unfolding state
  state-Held reading id =
      Triple-bind _ _ (begin-Held k n b reading id)
        λ r. Triple-bind _ _ (use_entry-Held r.1 r.0) state_of-Held

  revision-Held : (reading : Option ℕ) (id : String) → Triple H H (revision reading id) (λ _. H)
  unfolding revision
  revision-Held reading id =
      Triple-bind _ _ (state-Held reading id) λ found. Triple-pure _ (λ s h. h)

  context-Held :
      (reading : Option ℕ) (id : String) (m c : ℕ)
      → Triple H H (conversation_context reading id m c) (λ _. H)
  unfolding conversation_context
  context-Held reading id m c =
      Triple-bind _ _ (Triple-raise_if {Post = H} _ _ (λ s h _. h) (λ s h _. h))
        λ _. Triple-bind _ _ (state-Held reading id) λ found. Triple-pure _ (λ s h. h)

  size-Held : (reading : Option ℕ) → Triple H H (size_now reading) (λ _. H)
  unfolding size_now
  size-Held reading = Triple-bind _ _ (now-Held k n b reading) λ time.
      Triple-bind _ _ (Triple-modify {Post = H} (purge_expired time) (purge-Held k n b time))
        λ _. Triple-gets (λ s. size s.entries) (λ s h. h)

  put-Held :
      (reading : Option ℕ) (id : String) (context : SessionContext)
      → Triple H H (put reading id context) (λ _. H)
  unfolding put
  put-Held reading id context =
      Triple-bind-lift (session_id id) _ (λ s h. h)
        λ key _.
          Triple-bind-lift (canonical_context context) _ (λ s h. h)
            λ canonical _. Triple-bind _ _ (now-Held k n b reading) λ time.
              Triple-bind _ _
                (Triple-modify {Post = H} (purge_expired time) (purge-Held k n b time))
                λ _. Triple-bind _ _ (entry_or_new-Held time key) λ e.
                  write-Held key e (record e { context = canonical; last_access = time }) refl refl

  append-Held :
      (reading : Option ℕ) (id : String) (x : NewExchange)
      → Triple H H (append_exchange reading id x) (λ _. H)
  unfolding append_exchange
  append-Held reading id x = Triple-bind _ _ (begin-Held k n b reading id) λ r.
      Triple-bind _ _ (entry_or_new-Held r.1 r.0) λ e.
        Triple-bind-lift (canonical_exchange (numbered x (e.revision + 1))) _ (λ s h. h.0)
          λ y _.
            Triple-bind _ _ (Triple-raise_if {Post = Holds r.0 e} _ _ (λ s h _. h.0) (λ s h _. h))
              λ _.
                Triple-bind _ _ (write-Held r.0 e _ refl refl)
                  λ _. Triple-pure (e.revision + 1) (λ s h. h)

  keeps :
      {A : Type 0} (m : Exec StoreError Store A)
      → Triple H H m (λ _. H)
      → (s : Store) → H s
      → H (m s).1
  keeps m t = Triple-keeps m t (λ a s h. h)

  pub run_call-Held : (c : Call) (s : Store) → H s → H (run_call c s)
  unfolding run_call
  run_call-Held (call_get reading id) = keeps _ (get-Held reading id)
  run_call-Held (call_state reading id) = keeps _ (state-Held reading id)
  run_call-Held (call_revision reading id) = keeps _ (revision-Held reading id)
  run_call-Held (call_put reading id context) = keeps _ (put-Held reading id context)
  run_call-Held (call_append reading id x) = keeps _ (append-Held reading id x)
  run_call-Held (call_size reading) = keeps _ (size-Held reading)
  run_call-Held (call_context reading id m c) = keeps _ (context-Held reading id m c)

-- The state of use of every session, as it is.
pub Held-now :
    (k : String) (s : Store) → Distinct s.entries → Held k (users_of k s) (locked_of k s) s
Held-now k s t = record { distinct = t; users = refl; lock = inr refl }

-- With distinct sessions, whatever the call outside serialized and whatever the clock, every
-- session keeps its number of users, so one that a request uses is neither purged nor evicted, and
-- a session with users keeps its lock as it was.
pub run_call_keeps_use :
    (c : Call) (k : String) (s : Store)
    → Distinct s.entries
    → (users_of k (run_call c s) ≡ users_of k s)
      × ((users_of k s ≡ 0) ⊎ (locked_of k (run_call c s) ≡ locked_of k s))
run_call_keeps_use c k s t =
    let h = run_call-Held k (users_of k s) (locked_of k s) c s (Held-now k s t) in (h.users, h.lock)
