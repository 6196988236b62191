-- ===== src/SessionStore/Locking.antt =====
-- What the parts of `serialized` in app/services/session_store.py do to the uses and the lock of
-- each session.
use questock.Prelude.{
  ◌≢◌, ℕ, ◌+◌, ◌-◌, ◌≤◌, ◌≡◌, refl, Bool, true, false, Option, none, some, ◌⊎◌, inl, inr, arith,
  Bool-cases, String, string_eq, ◌≟◌, if◌then◌else◌,
}
use questock.Exec.{ok, raise}
use questock.Exec.Triple.{Triple, Triple-modify, Triple-pure, Triple-bind, Outcome}
use questock.Clock.{runs_back, Fails, Runs}
use questock.Dict.{lookup, assign, Distinct}
use questock.Dict.Laws.{lookup-assign, Distinct-assign}
use questock.SessionStore.Exchange.{unavailable}
use questock.SessionStore.{Store, SessionEntry, now}
use questock.SessionStore.Serialized.{
  change_found, change, enter, refreshed, begin_body, leave, abandon,
}
use questock.SessionStore.Users.{users_of, locked_of, Held, begin-Held}
use questock.SessionStore.Uses.{entry_or_new-Held, Held-now}

runs_back-Fails : (time : ℕ) (last : Option ℕ) → runs_back time last ≡ true → Fails (some time) last
runs_back-Fails time none h = absurd (ground (arith, h))
runs_back-Fails time (some last) h = ground (arith, h)

not_back-Runs : (time : ℕ) (last : Option ℕ) → runs_back time last ≡ false → Runs (some time) last
not_back-Runs time none h = tt
not_back-Runs time (some last) h = ground (arith, h)

now-cases :
    (reading : Option ℕ) (s : Store)
    → Fails reading s.last_now × (now reading s ≡ (raise unavailable, s))
      ⊎ Runs reading s.last_now
        × (time : ℕ) × (now reading s ≡ (ok time, record s { last_now = some time }))
unfolding now
now-cases none s = inl (tt, refl)
now-cases (some time) s = elim (Bool-cases (runs_back time s.last_now)) [
  | inl back ↦ inl (runs_back-Fails time s.last_now back, rw back)
  | inr on ↦ inr (not_back-Runs time s.last_now on, time, rw on)
]

abbrev mapped : (SessionEntry → SessionEntry) → Option SessionEntry → Option SessionEntry
mapped f none = none
mapped f (some e) = some (f e)

-- A change of one entry, and of no other.
record Changed (key : String) (f : SessionEntry → SessionEntry) (s s' : Store) : Type 0 where
  distinct : Distinct s'.entries
  looked :
      (k : String)
      → lookup k s'.entries
        ≡ (if key ≟ k then mapped f (lookup k s.entries) else lookup k s.entries)
  ttl : s'.ttl_seconds ≡ s.ttl_seconds

change_found-Changed :
    (key : String) (f : SessionEntry → SessionEntry) (found : Option SessionEntry) (s : Store)
    → Distinct s.entries
    → lookup key s.entries ≡ found
    → (s' : Store) × (change_found found key f s ≡ (ok tt, s')) × Changed key f s s'
unfolding change_found
change_found-Changed key f none s t q = (
  s,
  refl,
  record { distinct = t; looked = λ k. ground (arith, q, string_eq.beq_iff key k); ttl = refl },
)
change_found-Changed key f (some e) s t q = (
  record s { entries = assign key (f e) s.entries },
  refl,
  record {
    distinct = Distinct-assign key (f e) s.entries t;
    looked = λ k. ground (arith, q, lookup-assign key k (f e) s.entries, string_eq.beq_iff key k);
    ttl = refl;
  },
)

change-Changed :
    (key : String) (f : SessionEntry → SessionEntry) (s : Store)
    → Distinct s.entries
    → (s' : Store) × (change key f s ≡ (ok tt, s')) × Changed key f s s'
unfolding change
change-Changed key f s t = change_found-Changed key f (lookup key s.entries) s t refl

-- `abandon` takes one use from its session.
pub abandon_lem :
    (key k : String) (s : Store)
    → Distinct s.entries
    → Distinct (abandon key s).1.entries
      × (users_of k (abandon key s).1 ≡ (if key ≟ k then users_of k s - 1 else users_of k s))
      × (locked_of k (abandon key s).1 ≡ locked_of k s)
unfolding abandon
abandon_lem key k s t =
    let (s', done, c) = change-Changed key (λ e. record e { users = e.users - 1 }) s t in
    rw done (c.distinct, ground (arith, c.looked k), ground (arith, c.looked k))

-- With distinct sessions, where the clock gives a reading that is not before the last, the end of a
-- request that had the lock frees it and takes one use from its session and from no other; where
-- the clock gives none, or one before the last, the error comes out and the store, the lock and the
-- use included, stays as it was.
pub leave_lem :
    (reading : Option ℕ) (key : String) (s : Store)
    → Distinct s.entries
    → Fails reading s.last_now × (leave reading key s ≡ (raise unavailable, s))
      ⊎ (Runs reading s.last_now
          × (s' : Store) × (leave reading key s ≡ (ok tt, s'))
          × Distinct s'.entries
          × ((k : String)
              → (users_of k s' ≡ (if key ≟ k then users_of k s - 1 else users_of k s))
                × (locked_of k s' ≡ (if key ≟ k then false else locked_of k s))))
unfolding leave
leave_lem reading key s t = elim (now-cases reading s) [
  | inl (fails, stopped) ↦ inl (fails, rw stopped)
  | inr (on, time, ticked) ↦
      let s1 : Store = record s { last_now = some time } in
      let (s2, done2, c2) =
        change-Changed key (λ e. record e { last_access = time; locked = false }) s1 t in
      let (s3, done3, c3) =
        change-Changed key (λ e. record e { users = e.users - 1 }) s2 c2.distinct in
      inr (
        on,
        s3,
        rw ticked (rw done2 done3),
        c3.distinct,
        λ k. (ground (arith, c2.looked k, c3.looked k), ground (arith, c2.looked k, c3.looked k)),
      )
]

-- `begin_body` takes the lock and no use, whether it returns or raises.
pub begin_body_lem :
    (reading : Option ℕ) (key : String) (s : Store)
    → Distinct s.entries
    → Distinct (begin_body reading key s).1.entries
      × ((k : String)
          → (users_of k (begin_body reading key s).1 ≡ users_of k s)
            × (key ≢ k → locked_of k (begin_body reading key s).1 ≡ locked_of k s)
            × (key ≡ k → 1 ≤ users_of k s → locked_of k (begin_body reading key s).1 ≡ true))
unfolding begin_body
begin_body_lem reading key s t =
    let (s1, done1, c1) = change-Changed key (λ e. record e { locked = true }) s t in
    elim (now-cases reading s1) [
      | inl (fails, stopped) ↦ rw done1 (
          rw stopped (
            c1.distinct,
            λ k. (
              ground (arith, c1.looked k),
              λ other. ground (arith, c1.looked k, string_eq.beq_iff key k),
              λ same used. ground (arith, c1.looked k, string_eq.beq_iff key k),
            ),
          ))
      | inr (on, time, ticked) ↦
          let s2 : Store = record s1 { last_now = some time } in
          let (s3, done3, c3) = change-Changed key (refreshed s1.ttl_seconds time) s2 c1.distinct in
          rw done1 (
            rw ticked (
              rw done3 (
                c3.distinct,
                λ k. (
                  ground (arith, c1.looked k, c3.looked k),
                  λ other. ground (arith, c1.looked k, c3.looked k, string_eq.beq_iff key k),
                  λ same used. ground (arith, c1.looked k, c3.looked k, string_eq.beq_iff key k),
                ),
              )))
    ]

-- What `enter` leaves when it returns `key`: one use more of that session.
pub record Entered (k : String) (n : ℕ) (b : Bool) (key : String) (s : Store) : Type 0 where
  pub distinct : Distinct s.entries
  pub users : users_of k s ≡ (if key ≟ k then n + 1 else n)
  pub lock : (n ≡ 0) ⊎ (locked_of k s ≡ b)

entered :
    (k : String) (n : ℕ) (b : Bool) (key : String) (e : SessionEntry) (s : Store)
    → Held k n b s
    → lookup key s.entries ≡ some e
    → Entered k n b key
        (record s { entries = assign key (record e { users = e.users + 1 }) s.entries })
entered k n b key e s h here =
    let e' : SessionEntry = record e { users = e.users + 1 } in
    let after = lookup-assign key k e' s.entries in
    record {
      distinct = Distinct-assign key e' s.entries h.distinct;
      users = ground (arith, after, here, h.users, string_eq.beq_iff key k);
      lock = ground (arith, after, here, h.lock, string_eq.beq_iff key k);
    }

enter-Triple :
    (k : String) (n : ℕ) (b : Bool) (reading : Option ℕ) (id : String)
    → Triple (Held k n b) (Held k n b) (enter reading id) (Entered k n b)
unfolding enter
enter-Triple k n b reading id = Triple-bind _ _ (begin-Held k n b reading id) λ r.
    Triple-bind _ _ (entry_or_new-Held k n b r.1 r.0) λ e.
      Triple-bind _ _
        (Triple-modify {Post = Entered k n b r.0}
          (λ s. record s { entries = assign r.0 (record e { users = e.users + 1 }) s.entries })
          (λ s h. entered k n b r.0 e s h.0 h.1))
        λ _. Triple-pure r.0 (λ s h. h)

-- `enter` adds one use to its session when it returns, and none when it raises.
pub enter_lem :
    (reading : Option ℕ) (id k : String) (s : Store)
    → Distinct s.entries
    → Outcome
        (Held k (users_of k s) (locked_of k s))
        (Entered k (users_of k s) (locked_of k s))
        (enter reading id s).0
        (enter reading id s).1
enter_lem reading id k s t =
    (enter-Triple k (users_of k s) (locked_of k s) reading id).at s (Held-now k s t)
