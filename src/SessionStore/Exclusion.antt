-- ===== src/SessionStore/Exclusion.antt =====
-- What holds of all orders in which requests interleave in app/services/session_store.py.
use questock.Prelude.{
  ◌≢◌, ℕ, ◌≤◌, ◌≡◌, sym, subst, false, Option, none, some, ◌⊎◌, inl, inr, arith, Bool-cases, String,
  string_eq, nat_eq, ◌≟◌, ◌∙◌, [], ◌∷◌,
}
use mathlib.Core.Bool.{false≢true}
use questock.Dict.{Dict, lookup, assign, Distinct, weight}
use questock.Dict.Laws.{
  weight-lookup-le, Distinct-assign, Distinct-remove, weight-assign_absent, weight-assign_present,
  weight-remove_present,
}
use questock.SessionStore.{Store}
use questock.SessionStore.Serialized.{begin_body}
use questock.SessionStore.Invariant.{run_call}
use questock.SessionStore.Users.{users_of, locked_of, Held}
use questock.SessionStore.Uses.{run_call_keeps_use, run_call-Held, Held-now}
use questock.SessionStore.Locking.{abandon_lem, leave_lem, begin_body_lem, enter_lem, Entered}
use questock.SessionStore.Interleaving.{
  room_of, waiting, inside, Request, System, uses, insides, Step, call, enter_ok, enter_refused,
  acquire, give_up, finish, Reach, here, next,
}

-- A session has at least as many users as requests in progress, and its lock covers those that have
-- passed the wait.
pub record Guarded (y : System) : Type 0 where
  pub distinct : Distinct y.store.entries
  pub numbered : Distinct y.requests
  pub used : (k : String) → weight (uses k) y.requests ≤ users_of k y.store
  pub covered : (k : String) → weight (insides k) y.requests ≤ room_of (locked_of k y.store)

insides-le-uses : (k : String) (d : Dict ℕ Request) → weight (insides k) d ≤ weight (uses k) d
insides-le-uses k [] = omega arith
insides-le-uses k ((i, r) ∷ d) = ground (arith, insides-le-uses k d)

-- A store whose sessions keep their users and, where there are users, their locks.
same_use :
    (y : System) (s : Store)
    → Guarded y
    → Distinct s.entries
    → ((k : String)
        → (users_of k s ≡ users_of k y.store)
          × ((users_of k y.store ≡ 0) ⊎ (locked_of k s ≡ locked_of k y.store)))
    → Guarded (record y { store = s })
same_use y s g t same = record {
  distinct = t;
  numbered = g.numbered;
  used = λ k. omega (arith, g.used k, same k);
  covered = λ k. ground (arith, g.used k, g.covered k, same k, insides-le-uses k y.requests);
}

-- The lock that a request takes was free, so it is the only one of its session inside.
acquired :
    (i : ℕ) (reading : Option ℕ) (key k : String) (y : System)
    → Guarded y
    → lookup i y.requests ≡ some (record { key = key; phase = waiting })
    → locked_of key y.store ≡ false
    → weight (insides k) (assign i (record { key = key; phase = inside }) y.requests)
      ≤ room_of (locked_of k (begin_body reading key y.store).1)
acquired i reading key k y g there free =
    let old : Request = record { key = key; phase = waiting } in
    let new : Request = record { key = key; phase = inside } in
    let (same_users, off, on) = (begin_body_lem reading key y.store g.distinct).1 k in
    let moved = weight-assign_present (insides k) i new old y.requests there in
    elim (Bool-cases (key ≟ k)) [
      | inl same ↦
          let one : key ≡ k = (string_eq.beq_iff key k).0 same in
          let before : locked_of k y.store ≡ false =
            subst (λ (x : String). locked_of x y.store ≡ false) one free in
          let held : 1 ≤ users_of k y.store =
            ground (arith, same, g.used k, weight-lookup-le (uses k) i old y.requests there) in
          rw (on one held) (ground (arith, before, same, g.covered k, moved))
      | inr other ↦
          rw (off (λ p. false≢true (sym other ∙ (string_eq.beq_iff key k).1 p)))
            (ground (arith, other, g.covered k, moved))
    ]

Step-Guarded : {y u : System} → Step y u → Guarded y → Guarded u
Step-Guarded {y} (call c) g =
    same_use y (run_call c y.store) g
      (run_call-Held "" _ _ c y.store (Held-now "" y.store g.distinct)).distinct
      (λ k. run_call_keeps_use c k y.store g.distinct)
Step-Guarded {y} (enter_refused reading id e s refused) g =
    let same : (k : String) → Held k (users_of k y.store) (locked_of k y.store) s =
      λ k. rw refused at (enter_lem reading id k y.store g.distinct) in
    same_use y s g (same "").distinct (λ k. ((same k).users, (same k).lock))
Step-Guarded {y} (enter_ok i reading id key s free done) g =
    let new : Request = record { key = key; phase = waiting } in
    let one : (k : String) → Entered k (users_of k y.store) (locked_of k y.store) key s =
      λ k. rw done at (enter_lem reading id k y.store g.distinct) in
    record {
      distinct = (one "").distinct;
      numbered = Distinct-assign i new y.requests g.numbered;
      used = λ k.
          ground
            (arith, (one k).users, g.used k, weight-assign_absent (uses k) i new y.requests free);
      covered = λ k. ground (
        arith,
        (one k).lock,
        g.used k,
        g.covered k,
        insides-le-uses k y.requests,
        weight-assign_absent (insides k) i new y.requests free,
      );
    }
Step-Guarded {y} (acquire i reading key there free) g =
    let old : Request = record { key = key; phase = waiting } in
    let new : Request = record { key = key; phase = inside } in
    let began = begin_body_lem reading key y.store g.distinct in
    record {
      distinct = began.0;
      numbered = Distinct-assign i new y.requests g.numbered;
      used = λ k. ground (
        arith,
        (began.1 k).0,
        g.used k,
        weight-assign_present (uses k) i new old y.requests there,
      );
      covered = λ k. acquired i reading key k y g there free;
    }
Step-Guarded {y} (give_up i key there) g =
    let old : Request = record { key = key; phase = waiting } in
    let left = λ (k : String). abandon_lem key k y.store g.distinct in
    record {
      distinct = (left "").0;
      numbered = Distinct-remove i y.requests g.numbered;
      used = λ k. ground (
        arith,
        left k,
        g.used k,
        weight-remove_present (uses k) i old y.requests g.numbered there,
      );
      covered = λ k. ground (
        arith,
        left k,
        g.covered k,
        weight-remove_present (insides k) i old y.requests g.numbered there,
      );
    }
Step-Guarded {y} (finish i reading key there) g =
    let old : Request = record { key = key; phase = inside } in
    let gone_use =
      λ (k : String). weight-remove_present (uses k) i old y.requests g.numbered there in
    let gone =
      λ (k : String). weight-remove_present (insides k) i old y.requests g.numbered there in
    elim (leave_lem reading key y.store g.distinct) [
      | inl (fails, stopped) ↦ rw stopped (record {
        distinct = g.distinct;
        numbered = Distinct-remove i y.requests g.numbered;
        used = λ k. omega (arith, g.used k, gone_use k);
        covered = λ k. omega (arith, g.covered k, gone k);
      })
      | inr (on, s, done, t, left) ↦ rw done (record {
        distinct = t;
        numbered = Distinct-remove i y.requests g.numbered;
        used = λ k. ground (arith, left k, g.used k, gone_use k);
        covered = λ k. ground (arith, left k, g.covered k, gone k, alone k y g);
      })
    ]
  where
    -- One request at most is inside.
    alone : (k : String) (y : System) → Guarded y → weight (insides k) y.requests ≤ 1
    alone k y g = ground (arith, g.covered k)

Reach-Guarded : {y u : System} → Reach y u → Guarded y → Guarded u
Reach-Guarded here g = g
Reach-Guarded (next before step) g = Step-Guarded step (Reach-Guarded before g)

-- A store whose sessions have distinct keys and no user, and no request in progress.
pub record Quiet (y : System) : Type 0 where
  pub distinct : Distinct y.store.entries
  pub no_request : y.requests ≡ []

Quiet-Guarded : (y : System) → Quiet y → Guarded y
Quiet-Guarded y q = record {
  distinct = q.distinct;
  numbered = rw q.no_request tt;
  used = λ k. rw q.no_request (omega arith);
  covered = λ k. rw q.no_request (omega arith);
}

-- From a store with distinct sessions and no request in progress, whatever requests and calls run
-- at once and however their steps interleave, clocks that raise included, at most one request of a
-- session is past the wait for its lock.
pub mutual_exclusion :
    (y u : System) (k : String) → Quiet y → Reach y u → weight (insides k) u.requests ≤ 1
mutual_exclusion y u k quiet reach =
    ground (arith, (Reach-Guarded reach (Quiet-Guarded y quiet)).covered k)

-- From a store with distinct sessions and no request in progress, whatever requests and calls run
-- at once, the session of each request in progress is in the store: neither the purge of stale
-- sessions nor the making of room takes it away.
pub in_progress_kept :
    (y u : System) (i : ℕ) (r : Request)
    → Quiet y
    → Reach y u
    → lookup i u.requests ≡ some r
    → lookup r.key u.store.entries ≢ none
in_progress_kept y u i r quiet reach there gone = ground (
  arith,
  gone,
  (Reach-Guarded reach (Quiet-Guarded y quiet)).used r.key,
  weight-lookup-le (uses r.key) i r u.requests there,
  string_eq.beq_iff r.key r.key,
)
