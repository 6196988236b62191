-- ===== src/SessionStore/Methods.antt =====
-- The methods of app/services/session_store.py as triples over well-formed stores.
use questock.Prelude.{ap, ◌∙◌, ℕ, ◌+◌, ◌≡◌, refl, Option, none, some, arith, String, string_eq}
use questock.Exec.{Result, ok, raise, Exec, lift, ◌>>=◌}
use questock.Exec.Triple.{
  Triple-bind-lift, Triple-gets, Triple, Triple-pure, Triple-modify, Triple-raise_if, Triple-bind,
  Outcome,
}
use questock.Dict.{lookup, assign, size}
use questock.Core.Models.{SessionContext}
use questock.SessionStore.Exchange.{
  StoreError, SessionExchange, canonical_exchange, canonical_context,
}
use questock.SessionStore.{
  revision, Store, SessionEntry, NewExchange, session_id, purge_expired, write, begin, use_found,
  use_entry, context_of, get, put, state_of, state, size_now, append_exchange, numbered,
}
use questock.SessionStore.Conversation.{conversation_context}
use questock.SessionStore.Valid.{EntryOk, IsValid}
use questock.SessionStore.Steps.{At, now-At, purge-At, begin-At, rewrite-At, found-EntryOk}
use questock.SessionStore.Room.{entry_or_new-At}
use questock.SessionStore.Append.{kept, appended-EntryOk}

-- An entry is written in place.
write-At :
    (time : ℕ) (key : String) (e e' : SessionEntry)
    → EntryOk (some time) e'
    → Triple IsValid
        (λ s. At time s × (lookup key s.entries ≡ some e))
        (write key e')
        (λ _. At time)
write-At time key e e' h =
    Triple-modify (λ s. record s { entries = assign key e' s.entries })
      (λ s a. rewrite-At key e e' a.0 a.1 h)

used-EntryOk :
    {time : ℕ} (e : SessionEntry)
    → EntryOk (some time) e
    → EntryOk (some time) (record e { last_access = time })
used-EntryOk e h = record {
  recent_bound = h.recent_bound;
  consecutive = h.consecutive;
  canonical = h.canonical;
  context = h.context;
  accessed = omega arith;
}

use_found-At :
    (time : ℕ) (key : String) (found : Option SessionEntry) (s : Store)
    → At time s
    → lookup key s.entries ≡ found
    → Outcome {E = StoreError} IsValid
        (λ _. At time)
        (use_found found key time s).0
        (use_found found key time s).1
unfolding use_found
use_found-At time key none s a q = a
use_found-At time key (some e) s a q =
    rewrite-At key e (record e { last_access = time }) a q
      (used-EntryOk e (found-EntryOk key e a q))

use_entry-At :
    (time : ℕ) (key : String) → Triple IsValid (At time) (use_entry key time) (λ _. At time)
unfolding use_entry
use_entry-At time key = record { at = λ s a. use_found-At time key (lookup key s.entries) s a refl }

-- A raise or a return that changes nothing.
lift-At :
    {A : Type 0} (time : ℕ) (r : Result StoreError A)
    → Triple IsValid (At time) (lift r) (λ _. At time)
lift-At time (ok a) = record { at = λ s a'. a' }
lift-At time (raise e) = record { at = λ s a'. a'.valid }

context_of-At :
    (time : ℕ) (found : Option SessionEntry)
    → Triple IsValid (At time) (context_of found) (λ _. At time)
unfolding context_of
context_of-At time none = Triple-pure none (λ s a. a)
context_of-At time (some e) =
    Triple-bind _ _ (lift-At time (canonical_context e.context))
      λ c. Triple-pure (some c) (λ s a. a)

state_of-At :
    (time : ℕ) (found : Option SessionEntry)
    → Triple IsValid (At time) (state_of found) (λ _. At time)
unfolding state_of
state_of-At time none = Triple-pure none (λ s a. a)
state_of-At time (some e) =
    Triple-bind _ _ (lift-At time (canonical_context e.context)) λ c. Triple-pure _ (λ s a. a)

begun :
    {A : Type 0} (reading : Option ℕ) (id : String) (f : String × ℕ → Exec StoreError Store A)
    → ((key : String) (time : ℕ) → Triple IsValid (At time) (f (key, time)) (λ _. IsValid))
    → Triple IsValid IsValid (begin reading id >>= f) (λ _. IsValid)
begun reading id f h =
    Triple-bind _ _ (begin-At reading id) λ r. record { at = λ s a. (h r.0 r.1).at s a.0 }

-- From the time of the clock to the bare invariant.
ended :
    {A : Type 0} {time : ℕ} (m : Exec StoreError Store A)
    → Triple IsValid (At time) m (λ _. At time)
    → Triple IsValid (At time) m (λ _. IsValid)
ended {A} {time} m t = record { at = λ s a. weaken (m s).0 (m s).1 (t.at s a) }
  where
    weaken :
        (r : Result StoreError A) (s : Store)
        → Outcome IsValid (λ _. At time) r s
        → Outcome IsValid (λ _. IsValid) r s
    weaken (ok a) s o = o.valid
    weaken (raise e) s o = o

pub get-Triple :
    (reading : Option ℕ) (id : String) → Triple IsValid IsValid (get reading id) (λ _. IsValid)
unfolding get
get-Triple reading id =
    begun reading id _
      λ key time. ended _ (Triple-bind _ _ (use_entry-At time key) (context_of-At time))

pub state-Triple :
    (reading : Option ℕ) (id : String) → Triple IsValid IsValid (state reading id) (λ _. IsValid)
unfolding state
state-Triple reading id =
    begun reading id _
      λ key time. ended _ (Triple-bind _ _ (use_entry-At time key) (state_of-At time))

pub size-Triple : (reading : Option ℕ) → Triple IsValid IsValid (size_now reading) (λ _. IsValid)
unfolding size_now
size-Triple reading = Triple-bind _ _ (now-At reading) λ time.
    Triple-bind _ _ (Triple-modify {Post = At time} (purge_expired time) (purge-At time))
      λ _. Triple-gets (λ s. size s.entries) (λ s a. a.valid)

canonical_context_idem :
    (c c' : SessionContext) → canonical_context c ≡ ok c' → canonical_context c' ≡ ok c'
unfolding canonical_context
canonical_context_idem c c' h = ground arith

canonical_exchange_idem :
    (x x' : SessionExchange)
    → canonical_exchange x ≡ ok x'
    → (x' ≡ x) × (canonical_exchange x' ≡ ok x')
unfolding canonical_exchange
canonical_exchange_idem x x' h = ground arith

pub put-Triple :
    (reading : Option ℕ) (id : String) (context : SessionContext)
    → Triple IsValid IsValid (put reading id context) (λ _. IsValid)
unfolding put
put-Triple reading id context =
    Triple-bind-lift (session_id id) _ (λ s v. v)
      λ key _.
        Triple-bind-lift (canonical_context context) _ (λ s v. v)
          λ canonical good. Triple-bind _ _ (now-At reading) λ time.
            Triple-bind _ _ (Triple-modify {Post = At time} (purge_expired time) (purge-At time))
              λ _.
                Triple-bind _ _ (entry_or_new-At time key)
                  λ e. ended' time key e canonical (canonical_context_idem context canonical good)
  where
    ended' :
        (time : ℕ) (key : String) (e : SessionEntry) (c : SessionContext)
        → canonical_context c ≡ ok c
        → Triple IsValid
            (λ s. At time s × (lookup key s.entries ≡ some e))
            (write key (record e { context = c; last_access = time }))
            (λ _. IsValid)
    ended' time key e c good = record {
      at = λ s a.
          let h = found-EntryOk key e a.0 a.1 in
          (rewrite-At key e (record e { context = c; last_access = time }) a.0 a.1
            (record {
              recent_bound = h.recent_bound;
              consecutive = h.consecutive;
              canonical = h.canonical;
              context = good;
              accessed = omega arith;
            })).valid;
    }

pub append-Triple :
    (reading : Option ℕ) (id : String) (x : NewExchange)
    → Triple IsValid IsValid (append_exchange reading id x) (λ _. IsValid)
unfolding append_exchange
append-Triple reading id x = begun reading id _ λ key time.
    Triple-bind _ _ (entry_or_new-At time key) λ e.
      Triple-bind-lift (canonical_exchange (numbered x (e.revision + 1))) _ (λ s a. a.0.valid)
        λ y good.
          Triple-bind _ _
            (Triple-raise_if {Post = λ s. At time s × (lookup key s.entries ≡ some e)} _ _
              (λ s a _. a.0.valid) (λ s a _. a))
            λ _.
              Triple-bind _ _
                (stored time key e y (numbered x (e.revision + 1))
                  (canonical_exchange_idem _ y good) refl)
                λ _. Triple-pure (e.revision + 1) (λ s v. v)
  where
    stored :
        (time : ℕ) (key : String) (e : SessionEntry) (y z : SessionExchange)
        → (y ≡ z) × (canonical_exchange y ≡ ok y)
        → z.revision ≡ e.revision + 1
        → Triple IsValid
            (λ s. At time s × (lookup key s.entries ≡ some e))
            (write key (record e {
              recent_exchanges = kept e.recent_exchanges y;
              revision = e.revision + 1;
              last_access = time;
            }))
            (λ _. IsValid)
    stored time key e y z good rev = record {
      at = λ s a.
          (rewrite-At key e _ a.0 a.1 (
            appended-EntryOk e y (found-EntryOk key e a.0 a.1) good.1
              (ap (λ (w : SessionExchange). w.revision) good.0 ∙ rev))).valid;
    }

pub revision-Triple :
    (reading : Option ℕ) (id : String) → Triple IsValid IsValid (revision reading id) (λ _. IsValid)
unfolding revision
revision-Triple reading id =
    Triple-bind _ _ (state-Triple reading id) λ found. Triple-pure _ (λ s v. v)

pub conversation_context-Triple :
    (reading : Option ℕ) (id : String) (m c : ℕ)
    → Triple IsValid IsValid (conversation_context reading id m c) (λ _. IsValid)
unfolding conversation_context
conversation_context-Triple reading id m c =
    Triple-bind _ _ (Triple-raise_if {Post = IsValid} _ _ (λ s v _. v) (λ s v _. v))
      λ _. Triple-bind _ _ (state-Triple reading id) λ found. Triple-pure _ (λ s v. v)
