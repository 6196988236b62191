-- ===== src/SessionStore/Room.antt =====
-- `_new_entry` of app/services/session_store.py: which session goes when the store is full.
use questock.Prelude.{
  ℕ, ◌≤◌, ◌<◌, ◌≡◌, ◌≢◌, refl, sym, subst, true, false, Option, none, some, List, [], ◌∷◌, ◌⊎◌, inl,
  inr, arith, Bool-cases, String, string_eq, leb, ◌==◌, All, min_by, min_by-All, min_by-least,
  leb→le, not_leb→lt, if_true, if_false, ◌∙◌,
}
use questock.Exec.{ok, raise}
use questock.Exec.Triple.{Triple, Outcome}
use questock.Dict.{Dict, lookup, assign, remove, Distinct, size, Each}
use questock.Dict.Laws.{lookup-assign, weight-remove_present}
use questock.Dict.Purge.{All-items_where, Each-items_where, Each-of_lookup}
use questock.Dict.Shrink.{Shrinks-remove, Shrinks-absent}
use questock.SessionStore.Exchange.{unavailable}
use questock.SessionStore.{
  Store, SessionEntry, candidates, pair_lt, evict, new_session, make_room, new_entry, or_new,
  entry_or_new,
}
use questock.SessionStore.Valid.{IsValid}
use questock.SessionStore.Steps.{At, Shrinks-At, add-At, new_session-EntryOk}

abbrev pair_time : ℕ × String → ℕ
pair_time (t, _) = t

pair_lt-le : (a b : ℕ × String) → pair_lt a b ≡ true → pair_time a ≤ pair_time b
unfolding pair_lt
pair_lt-le (t, a) (u, b) h = ground arith

not_pair_lt-le : (a b : ℕ × String) → pair_lt a b ≡ false → pair_time b ≤ pair_time a
unfolding pair_lt
not_pair_lt-le (t, a) (u, b) h = ground arith

-- The session `k` is in no use, and no session in no use was used before it.
pub record IsOldestIdle (d : Dict String SessionEntry) (k : String) (e : SessionEntry)
    : Type 0 where
  pub there : lookup k d ≡ some e
  pub idle : e.users ≡ 0
  pub oldest : Each (λ _ x. x.users ≡ 0 → e.last_access ≤ x.last_access) d

abbrev Found : Dict String SessionEntry → ℕ × String → Type 0
Found d x = (e : SessionEntry) × (lookup x.1 d ≡ some e) × (e.users ≡ 0) × (e.last_access ≡ x.0)

All-Found : (d : Dict String SessionEntry) → Distinct d → All (Found d) (candidates d)
unfolding candidates
All-Found d t =
    All-items_where _ _ (Found d) d
      (Each-of_lookup _ d t (λ k e q idle. (e, q, ground arith, refl)))

Each-idle :
    (d : Dict String SessionEntry) (Q : ℕ × String → Type 0)
    → All Q (candidates d)
    → Each (λ k e. (e.users == 0) ≡ true → Q (e.last_access, k)) d
unfolding candidates
Each-idle d Q h = Each-items_where _ _ Q d h

-- A predicate by the test of `users` is one by the number.
Each-zero :
    (d : Dict String SessionEntry) (P : SessionEntry → Type 0)
    → Each (λ _ e. (e.users == 0) ≡ true → P e) d
    → Each (λ _ e. e.users ≡ 0 → P e) d
Each-zero [] P h = tt
Each-zero ((k, e) ∷ d) P h = ((λ z. h.0 (ground arith)), Each-zero d P h.1)

evict-IsOldestIdle :
    (s : Store) (l : List (ℕ × String))
    → All (Found s.entries) l
    → ((t : ℕ)
        → All (λ x. t ≤ pair_time x) l
        → Each (λ _ e. e.users ≡ 0 → t ≤ e.last_access) s.entries)
    → (l ≡ []) × (evict l s ≡ (raise unavailable, s))
      ⊎ ((k : String) × (e : SessionEntry) × IsOldestIdle s.entries k e
          × (evict l s ≡ (ok tt, record s { entries = remove k s.entries })))
unfolding evict
evict-IsOldestIdle s [] found least = inl (refl, refl)
evict-IsOldestIdle s (x ∷ xs) found least =
    let v = min_by pair_lt x xs in
    let (e, there, idle, time) = min_by-All pair_lt (Found s.entries) x xs found.0 found.1 in
    inr (
      v.1,
      e,
      record {
        there = there;
        idle = idle;
        oldest =
            subst (λ (t : ℕ). Each (λ _ y. y.users ≡ 0 → t ≤ y.last_access) s.entries) (sym time)
              (least (pair_time v) (min_by-least pair_lt pair_time pair_lt-le not_pair_lt-le x xs));
      },
      refl,
    )

-- With distinct sessions, making room for a session changes nothing if the store is not full; if it
-- is full, it removes a session in no use such that none in no use was used before it, or, if all
-- sessions are in use, raises and changes nothing. It raises in no other case.
pub make_room-cases :
    (s : Store)
    → Distinct s.entries
    → (size s.entries < s.max_sessions) × (make_room s ≡ (ok tt, s))
      ⊎ ((k : String) × (e : SessionEntry) × IsOldestIdle s.entries k e
          × (s.max_sessions ≤ size s.entries)
          × (make_room s ≡ (ok tt, record s { entries = remove k s.entries })))
      ⊎ (s.max_sessions ≤ size s.entries)
        × Each (λ _ e. e.users ≢ 0) s.entries
        × (make_room s ≡ (raise unavailable, s))
unfolding make_room
make_room-cases s t = elim (Bool-cases (leb s.max_sessions (size s.entries))) [
  | inr room ↦ inl (not_leb→lt s.max_sessions (size s.entries) room, if_false _ _ _ room)
  | inl full ↦
      elim (evict-IsOldestIdle s (candidates s.entries) (All-Found s.entries t) (λ time h.
        Each-zero s.entries (λ e. time ≤ e.last_access)
          (Each-idle s.entries (λ x. time ≤ pair_time x) h))) [
            | inr (k, e, oldest, done) ↦ inr (
                inl (
                  k,
                  e,
                  oldest,
                  leb→le s.max_sessions (size s.entries) full,
                  if_true _ _ _ full ∙ done,
                ))
            | inl (none_idle, done) ↦ inr (
                inr (
                  leb→le s.max_sessions (size s.entries) full,
                  Each-zero s.entries (λ _. ⊥) (Each-idle s.entries (λ _. ⊥) (rw none_idle tt)),
                  if_true _ _ _ full ∙ done,
                ))
          ]
]

-- `_new_entry` makes the session, or raises and leaves the store as it was.
pub new_entry-At :
    (time : ℕ) (key : String)
    → Triple IsValid
        (λ s. At time s × (lookup key s.entries ≡ none))
        (new_entry key time)
        (λ e s. At time s × (lookup key s.entries ≡ some e))
unfolding new_entry
new_entry-At time key = record {
  at = λ s h. elim (make_room-cases s h.0.valid.distinct) [
    | inl (room, done) ↦ rw done (written s h.0 h.1 room)
    | inr (inr (full, busy, done)) ↦ rw done h.0.valid
    | inr (inl (k, e, oldest, full, done)) ↦
        let shrinks = Shrinks-remove k s.entries h.0.valid.distinct in
        rw done (
          written (record s { entries = remove k s.entries })
            (Shrinks-At (remove k s.entries) h.0 shrinks) (Shrinks-absent key shrinks h.1)
            (omega (
              arith,
              weight-remove_present (λ _ _. 1) k e s.entries h.0.valid.distinct oldest.there,
              h.0.valid.bounded,
            )))
  ];
}
  where
    written :
        (s : Store)
        → At time s
        → lookup key s.entries ≡ none
        → size s.entries < s.max_sessions
        → At time (record s { entries = assign key (new_session time) s.entries })
          × (lookup key (assign key (new_session time) s.entries) ≡ some (new_session time))
    written s a absent room = (
      add-At key (new_session time) a absent room (new_session-EntryOk time),
      ground (arith, lookup-assign key key (new_session time) s.entries, string_eq.beq_iff key key),
    )

or_new-At :
    (time : ℕ) (key : String) (found : Option SessionEntry) (s : Store)
    → At time s
    → lookup key s.entries ≡ found
    → Outcome IsValid
        (λ e s'. At time s' × (lookup key s'.entries ≡ some e))
        (or_new found key time s).0
        (or_new found key time s).1
unfolding or_new
or_new-At time key (some e) s a q = (a, q)
or_new-At time key none s a q = (new_entry-At time key).at s (a, q)

-- The entry that a request works with is the one that the store holds under its key.
pub entry_or_new-At :
    (time : ℕ) (key : String)
    → Triple IsValid
        (At time)
        (entry_or_new key time)
        (λ e s. At time s × (lookup key s.entries ≡ some e))
unfolding entry_or_new
entry_or_new-At time key = record { at = λ s a. or_new-At time key (lookup key s.entries) s a refl }
