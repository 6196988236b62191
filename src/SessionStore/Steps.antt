-- ===== src/SessionStore/Steps.antt =====
-- The parts of the methods of app/services/session_store.py over well-formed stores.
use questock.Prelude.{
  ℕ, suc, ◌≤◌, ◌≡◌, refl, sym, subst, false, Option, none, some, [], ◌∷◌, inl, inr, arith,
  Bool-cases, String, string_eq,
}
use questock.Clock.{runs_back}
use questock.Exec.{Result, ok, raise, lift}
use questock.Exec.Triple.{Triple, Triple-pure, Triple-modify, Triple-bind, Outcome}
use questock.Dict.{Dict, lookup, assign, size, Each}
use questock.Dict.Laws.{
  Distinct-assign, weight-assign_absent, weight-assign_present, Each-assign, Each-lookup,
}
use questock.Dict.Shrink.{Shrinks, Shrinks-purge, Each-Shrinks}
use questock.SessionStore.Exchange.{StoreError, canonical_context, context_ok}
use questock.SessionStore.Text.{session_id_ok}
use questock.SessionStore.{
  Store, SessionEntry, now, session_id, expired, purge_expired, new_session, begin,
}
use questock.SessionStore.Valid.{EntryOk, IsValid}

-- The store is valid and its clock stands at `time`.
pub record At (time : ℕ) (s : Store) : Type 0 where
  pub valid : IsValid s
  pub clock : s.last_now ≡ some time

EntryOk-later :
    {last : Option ℕ} {e : SessionEntry} (time : ℕ)
    → runs_back time last ≡ false
    → EntryOk last e
    → EntryOk (some time) e
EntryOk-later {last = none} time on h = absurd h.accessed
EntryOk-later {last = some l} time on h = record {
  recent_bound = h.recent_bound;
  consecutive = h.consecutive;
  canonical = h.canonical;
  context = h.context;
  accessed = ground (arith, h.accessed);
}

all_later :
    (last : Option ℕ) (time : ℕ) (d : Dict String SessionEntry)
    → runs_back time last ≡ false
    → Each (λ _ e. EntryOk last e) d
    → Each (λ _ e. EntryOk (some time) e) d
all_later last time [] on h = tt
all_later last time ((k, e) ∷ d) on h = (EntryOk-later time on h.0, all_later last time d on h.1)

pub now-At : (reading : Option ℕ) → Triple IsValid IsValid (now reading) At
unfolding now
now-At none = record { at = λ s v. v }
now-At (some time) = record {
  at = λ s v. elim (Bool-cases (runs_back time s.last_now)) [
    | inl back ↦ rw back v
    | inr on ↦ rw on (record {
      valid = record {
        distinct = v.distinct;
        sessions_pos = v.sessions_pos;
        sessions_max = v.sessions_max;
        ttl_pos = v.ttl_pos;
        bounded = v.bounded;
        entries = all_later s.last_now time s.entries on v.entries;
      };
      clock = refl;
    })
  ];
}

-- Sessions that only go leave a valid store.
pub Shrinks-At :
    {time : ℕ} {s : Store} (d : Dict String SessionEntry)
    → At time s
    → Shrinks s.entries d
    → At time (record s { entries = d })
Shrinks-At {s = s} d a h = record {
  valid = record {
    distinct = h.distinct;
    sessions_pos = a.valid.sessions_pos;
    sessions_max = a.valid.sessions_max;
    ttl_pos = a.valid.ttl_pos;
    bounded = omega (arith, h.weights (λ _ _. 1), a.valid.bounded);
    entries = Each-Shrinks (λ _ e. EntryOk s.last_now e) h a.valid.entries;
  };
  clock = a.clock;
}

pub purge-At : (time : ℕ) (s : Store) → At time s → At time (purge_expired time s)
unfolding purge_expired
purge-At time s a =
    Shrinks-At _ a (Shrinks-purge (λ _. expired s.ttl_seconds time) s.entries a.valid.distinct)

pub session_id-At :
    (id : String) → Triple IsValid IsValid (lift (session_id id)) (λ key s. IsValid s × (key ≡ id))
unfolding session_id
session_id-At id = record {
  at = λ s v. elim (Bool-cases (session_id_ok id)) [
    | inl good ↦ rw good (v, refl)
    | inr bad ↦ rw bad v
  ];
}

pub now-At' :
    (reading : Option ℕ) (key id : String)
    → Triple IsValid (λ s. IsValid s × (key ≡ id)) (now reading) (λ time s. At time s × (key ≡ id))
now-At' reading key id = record {
  at = λ s h. keep h.1 (now reading s).0 (now reading s).1 ((now-At reading).at s h.0);
}
  where
    keep :
        key ≡ id
        → (r : Result StoreError ℕ) (s : Store) → Outcome IsValid At r s
        → Outcome IsValid (λ time s'. At time s' × (key ≡ id)) r s
    keep q (ok time) s o = (o, q)
    keep q (raise e) s o = o

pub begin-At :
    (reading : Option ℕ) (id : String)
    → Triple IsValid IsValid (begin reading id) (λ r s. At r.1 s × (r.0 ≡ id))
unfolding begin session_id
begin-At reading id = Triple-bind _ _ (session_id-At id) λ key.
    Triple-bind _ _ (now-At' reading key id) λ time.
      Triple-bind _ _
        (Triple-modify {Post = λ s. At time s × (key ≡ id)} (purge_expired time)
          (λ s h. (purge-At time s h.0, h.1)))
        λ _. Triple-pure (key, time) (λ s h. h)

-- A session that is written again, with a well-formed entry.
pub rewrite-At :
    {time : ℕ} {s : Store} (key : String) (e e' : SessionEntry)
    → At time s
    → lookup key s.entries ≡ some e
    → EntryOk (some time) e'
    → At time (record s { entries = assign key e' s.entries })
rewrite-At {time} {s} key e e' a here h = record {
  valid = record {
    distinct = Distinct-assign key e' s.entries a.valid.distinct;
    sessions_pos = a.valid.sessions_pos;
    sessions_max = a.valid.sessions_max;
    ttl_pos = a.valid.ttl_pos;
    bounded =
        omega (arith, weight-assign_present (λ _ _. 1) key e' e s.entries here, a.valid.bounded);
    entries =
        Each-assign (λ _ x. EntryOk s.last_now x) key e' s.entries
          (subst (λ (l : Option ℕ). EntryOk l e') (sym a.clock) h) a.valid.entries;
  };
  clock = a.clock;
}

-- A session that is added, where there is room for one more.
pub add-At :
    {time : ℕ} {s : Store} (key : String) (e' : SessionEntry)
    → At time s
    → lookup key s.entries ≡ none
    → suc (size s.entries) ≤ s.max_sessions
    → EntryOk (some time) e'
    → At time (record s { entries = assign key e' s.entries })
add-At {time} {s} key e' a absent room h = record {
  valid = record {
    distinct = Distinct-assign key e' s.entries a.valid.distinct;
    sessions_pos = a.valid.sessions_pos;
    sessions_max = a.valid.sessions_max;
    ttl_pos = a.valid.ttl_pos;
    bounded = omega (arith, weight-assign_absent (λ _ _. 1) key e' s.entries absent, room);
    entries =
        Each-assign (λ _ x. EntryOk s.last_now x) key e' s.entries
          (subst (λ (l : Option ℕ). EntryOk l e') (sym a.clock) h) a.valid.entries;
  };
  clock = a.clock;
}

pub new_session-EntryOk : (time : ℕ) → EntryOk (some time) (new_session time)
unfolding canonical_context context_ok
new_session-EntryOk time = record {
  recent_bound = omega arith;
  consecutive = tt;
  canonical = tt;
  context = refl;
  accessed = omega arith;
}

-- What is found in a valid store is well-formed, at the time of its clock.
pub found-EntryOk :
    {time : ℕ} {s : Store} (key : String) (e : SessionEntry)
    → At time s
    → lookup key s.entries ≡ some e
    → EntryOk (some time) e
found-EntryOk {s = s} key e a here =
    subst (λ (l : Option ℕ). EntryOk l e) a.clock
      (Each-lookup (λ _ x. EntryOk s.last_now x) key e s.entries a.valid.entries here)
