-- ===== src/SessionStore/SerializedValid.antt =====
-- The parts of `serialized` in app/services/session_store.py over well-formed stores.
use questock.Prelude.{
  ℕ, ◌+◌, ◌-◌, ◌≡◌, refl, sym, subst, Bool, true, false, Option, none, some, [], String, string_eq,
  arith, Bool-cases, inl, inr, leb,
}
use questock.Exec.{ok, Exec}
use questock.Exec.Triple.{
  Triple, Triple-bind, Triple-modify, Triple-pure, Triple-gets, Triple-keeps,
}
use questock.Dict.{lookup, assign}
use questock.Dict.Laws.{Distinct-assign, weight-assign_present, Each-assign, Each-lookup}
use questock.SessionStore.Exchange.{StoreError, canonical_context, context_ok}
use questock.SessionStore.{Store, SessionEntry, init}
use questock.SessionStore.Valid.{EntryOk, IsValid}
use questock.SessionStore.Steps.{At, now-At, begin-At, rewrite-At, found-EntryOk}
use questock.SessionStore.Room.{entry_or_new-At}
use questock.SessionStore.Serialized.{
  change_found, change, enter, refreshed, begin_body, leave, abandon,
}
use questock.SessionStore.Invariant.{run_call-IsValid, init-IsValid}
use questock.SessionStore.Interleaving.{
  System, Step, call, enter_ok, enter_refused, acquire, give_up, finish, Reach, here, next,
}

-- A change that keeps entries well-formed, at any time of the clock.
change_found-IsValid :
    (key : String) (f : SessionEntry → SessionEntry) (found : Option SessionEntry) (s : Store)
    → ((e : SessionEntry) → EntryOk s.last_now e → EntryOk s.last_now (f e))
    → IsValid s
    → lookup key s.entries ≡ found
    → IsValid (change_found found key f s).1
unfolding change_found
change_found-IsValid key f none s keep v q = v
change_found-IsValid key f (some e) s keep v q = record {
  distinct = Distinct-assign key (f e) s.entries v.distinct;
  sessions_pos = v.sessions_pos;
  sessions_max = v.sessions_max;
  ttl_pos = v.ttl_pos;
  bounded = omega (arith, weight-assign_present (λ _ _. 1) key (f e) e s.entries q, v.bounded);
  entries =
      Each-assign (λ _ x. EntryOk s.last_now x) key (f e) s.entries
        (keep e (Each-lookup (λ _ x. EntryOk s.last_now x) key e s.entries v.entries q)) v.entries;
}

change_found-ok :
    (key : String) (f : SessionEntry → SessionEntry) (found : Option SessionEntry) (s : Store)
    → (change_found found key f s).0 ≡ ok tt
unfolding change_found
change_found-ok key f none s = refl
change_found-ok key f (some e) s = refl

change-IsValid :
    (key : String) (f : SessionEntry → SessionEntry)
    → ((last : Option ℕ) (e : SessionEntry) → EntryOk last e → EntryOk last (f e))
    → Triple IsValid IsValid (change key f) (λ _. IsValid)
unfolding change
change-IsValid key f keep = record {
  at = λ s v.
      rw (change_found-ok key f (lookup key s.entries) s)
        (change_found-IsValid key f (lookup key s.entries) s (keep s.last_now) v refl);
}

change-At :
    (time : ℕ) (key : String) (f : SessionEntry → SessionEntry)
    → ((e : SessionEntry) → EntryOk (some time) e → EntryOk (some time) (f e))
    → Triple IsValid (At time) (change key f) (λ _. IsValid)
unfolding change
change-At time key f keep = record {
  at = λ s a. rw (change_found-ok key f (lookup key s.entries) s) (
      change_found-IsValid key f (lookup key s.entries) s
        (λ e. subst (λ (l : Option ℕ). EntryOk l e → EntryOk l (f e)) (sym a.clock) (keep e))
        a.valid refl);
}

locked-EntryOk :
    (b : Bool) (last : Option ℕ) (e : SessionEntry)
    → EntryOk last e
    → EntryOk last (record e { locked = b })
locked-EntryOk b last e h = record {
  recent_bound = h.recent_bound;
  consecutive = h.consecutive;
  canonical = h.canonical;
  context = h.context;
  accessed = h.accessed;
}

users-EntryOk :
    (n : ℕ) (last : Option ℕ) (e : SessionEntry)
    → EntryOk last e
    → EntryOk last (record e { users = n })
users-EntryOk n last e h = record {
  recent_bound = h.recent_bound;
  consecutive = h.consecutive;
  canonical = h.canonical;
  context = h.context;
  accessed = h.accessed;
}

freed-EntryOk :
    (time : ℕ) (e : SessionEntry)
    → EntryOk (some time) e
    → EntryOk (some time) (record e { last_access = time; locked = false })
freed-EntryOk time e h = record {
  recent_bound = h.recent_bound;
  consecutive = h.consecutive;
  canonical = h.canonical;
  context = h.context;
  accessed = omega arith;
}

refreshed-EntryOk :
    (ttl time : ℕ) (e : SessionEntry)
    → EntryOk (some time) e
    → EntryOk (some time) (refreshed ttl time e)
unfolding canonical_context context_ok
refreshed-EntryOk ttl time e h = elim (Bool-cases (leb ttl (time - e.last_access))) [
  | inl stale ↦ rw stale (record {
    recent_bound = omega arith;
    consecutive = tt;
    canonical = tt;
    context = refl;
    accessed = omega arith;
  })
  | inr young ↦ rw young (record {
    recent_bound = h.recent_bound;
    consecutive = h.consecutive;
    canonical = h.canonical;
    context = h.context;
    accessed = omega arith;
  })
]

enter-IsValid :
    (reading : Option ℕ) (id : String) → Triple IsValid IsValid (enter reading id) (λ _. IsValid)
unfolding enter
enter-IsValid reading id = Triple-bind _ _ (begin-At reading id) λ r.
    Triple-bind _ _ (record { at = λ s h. (entry_or_new-At r.1 r.0).at s h.0 })
      λ e.
        Triple-bind _ _
          (Triple-modify {Post = IsValid}
            (λ s. record s { entries = assign r.0 (record e { users = e.users + 1 }) s.entries })
            (λ s a.
              (rewrite-At r.0 e (record e { users = e.users + 1 }) a.0 a.1
                (users-EntryOk (e.users + 1) (some r.1) e (found-EntryOk r.0 e a.0 a.1))).valid))
          λ _. Triple-pure r.0 (λ s v. v)

begin_body-IsValid :
    (reading : Option ℕ) (key : String)
    → Triple IsValid IsValid (begin_body reading key) (λ _. IsValid)
unfolding begin_body
begin_body-IsValid reading key =
    Triple-bind _ _ (change-IsValid key (λ e. record e { locked = true }) (locked-EntryOk true))
      λ _. Triple-bind _ _ (now-At reading) λ time.
        Triple-bind _ _ (Triple-gets {Post = λ _. At time} (λ s. s.ttl_seconds) (λ s a. a))
          λ ttl. change-At time key (refreshed ttl time) (refreshed-EntryOk ttl time)

less-IsValid :
    (key : String)
    → Triple IsValid IsValid (change key (λ e. record e { users = e.users - 1 })) (λ _. IsValid)
less-IsValid key =
    change-IsValid key (λ e. record e { users = e.users - 1 })
      (λ last e. users-EntryOk (e.users - 1) last e)

leave-IsValid :
    (reading : Option ℕ) (key : String) → Triple IsValid IsValid (leave reading key) (λ _. IsValid)
unfolding leave
leave-IsValid reading key = Triple-bind _ _ (now-At reading) λ time.
    Triple-bind _ _
      (change-At time key (λ e. record e { last_access = time; locked = false })
        (freed-EntryOk time))
      λ _. less-IsValid key

abandon-IsValid : (key : String) → Triple IsValid IsValid (abandon key) (λ _. IsValid)
unfolding abandon
abandon-IsValid key = less-IsValid key

keeps :
    {A : Type 0} (m : Exec StoreError Store A)
    → Triple IsValid IsValid m (λ _. IsValid)
    → (s : Store) → IsValid s
    → IsValid (m s).1
keeps m t = Triple-keeps m t (λ a s v. v)

Step-IsValid : {y u : System} → Step y u → IsValid y.store → IsValid u.store
Step-IsValid {y} (call c) v = run_call-IsValid c y.store v
Step-IsValid {y} (enter_ok i reading id key s free done) v =
    rw done at (keeps (enter reading id) (enter-IsValid reading id) y.store v)
Step-IsValid {y} (enter_refused reading id e s refused) v =
    rw refused at (keeps (enter reading id) (enter-IsValid reading id) y.store v)
Step-IsValid {y} (acquire i reading key there free) v =
    keeps (begin_body reading key) (begin_body-IsValid reading key) y.store v
Step-IsValid {y} (give_up i key there) v = keeps (abandon key) (abandon-IsValid key) y.store v
Step-IsValid {y} (finish i reading key there) v =
    keeps (leave reading key) (leave-IsValid reading key) y.store v

Reach-IsValid : {y u : System} → Reach y u → IsValid y.store → IsValid u.store
Reach-IsValid here v = v
Reach-IsValid (next before step) v = Step-IsValid step (Reach-IsValid before v)

-- From a store that the constructor makes, however requests and calls interleave, and whatever they
-- return or raise, the store stays well-formed: distinct sessions, at most max_sessions of them,
-- each with at most four canonical exchanges numbered consecutively up to its revision and a
-- canonical context, used no later than the last reading of the clock.
pub interleaved-IsValid :
    (max_sessions ttl_seconds : ℕ) (s : Store) (u : System)
    → init max_sessions ttl_seconds ≡ ok s
    → Reach (record { store = s; requests = [] }) u
    → IsValid u.store
interleaved-IsValid max_sessions ttl_seconds s u made reach =
    Reach-IsValid reach (init-IsValid max_sessions ttl_seconds s made)
