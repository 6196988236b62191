-- ===== src/SessionStore/Examples.antt =====
-- Runs of the session store, and the properties at concrete stores.
use questock.Prelude.{
  if◌then◌else◌, ◌≟◌, string_eq, ◌<◌, ◌+◌, ◌*◌, ◌-◌, string_eq, ℕ, ◌≤◌, ◌≡◌, ◌≢◌, refl, true, false,
  none, some, List, [], ◌∷◌, ◌++◌, ◌⊎◌, arith, String, length, take_last,
}
use questock.Exec.{ok, raise}
use questock.Dict.{
  Distinct, Distinct, lookup, remove, remove_all, assign, items_where, weight, Each, size,
}
use questock.Dict.Purge.{purge}
use questock.SessionStore.Text.{session_id_ok, memory_text, safe_identifier}
use questock.SessionStore.Exchange.{
  canonical_exchange, canonical_context, SessionExchange, texts_ok, labels_ok, context_ok,
  unavailable,
}
use questock.SessionStore.{
  Store, SessionEntry, NewExchange, numbered, new_session, init, state, append_exchange, make_room,
  candidates, evict, begin, purge_expired, now, session_id,
}
use questock.SessionStore.Valid.{IsValid}
use questock.SessionStore.Invariant.{call_append, run_call}
use questock.SessionStore.Serialized.{enter, begin_body, leave, change, change_found}
use questock.SessionStore.Interleaving.{
  System, Request, waiting, Reach, here, next, enter_ok, insides,
}
use questock.SessionStore.SerializedValid.{interleaved-IsValid}
use questock.SessionStore.Exclusion.{Quiet, mutual_exclusion, in_progress_kept}
use questock.SessionStore.Room.{IsOldestIdle, make_room-cases}
use questock.SessionStore.Users.{users_of, locked_of}
use questock.SessionStore.Uses.{run_call_keeps_use}
use questock.Clock.{Fails, Runs}
use questock.SessionStore.Locking.{leave_lem}
use questock.SessionStore.Appending.{Live, state-append}
use questock.SessionStore.Conversation.{limits_ok, conversation_context, context_text, block}
use questock.SessionStore.ContextSize.{conversation_context-le, context_text-two}

program : Unit {0}
unfolding init state append_exchange make_room candidates evict begin purge_expired now session_id
    lookup remove remove_all assign items_where purge enter begin_body leave change change_found
    run_call limits_ok session_id_ok memory_text safe_identifier context_text block
    conversation_context canonical_exchange canonical_context texts_ok labels_ok context_ok
program = tt

abbrev store : Store
store = record { max_sessions = 2; ttl_seconds = 60; entries = []; last_now = none }

abbrev ask : NewExchange
ask = record {
  user_question = "why?";
  assistant_public_text = "because";
  status = "complete";
  security_id = some "KRX:005930";
  intent = "price";
  selected_evidence_ids = "news:1" ∷ [];
  snapshot_id = "svc-1";
}

asked : (append_exchange (some 5) "s1" ask store).0 ≡ ok 1
unfolding program
asked = refl

rejects_space : (append_exchange (some 5) "s1 " ask store).0 ≡ raise unavailable
unfolding program
rejects_space = refl

abbrev used : ℕ → ℕ → SessionEntry
used time users = record (new_session time) { users = users }

-- A full store: one session in use, one idle.
abbrev full : Store
full = record store { entries = ("s1", used 5 1) ∷ ("s2", used 6 0) ∷ []; last_now = some 6 }

make_room-cases_example :
    (size full.entries < full.max_sessions) × (make_room full ≡ (ok tt, full))
    ⊎ ((k : String) × (e : SessionEntry) × IsOldestIdle full.entries k e
        × (full.max_sessions ≤ size full.entries)
        × (make_room full ≡ (ok tt, record full { entries = remove k full.entries })))
    ⊎ (full.max_sessions ≤ size full.entries)
      × Each (λ _ e. e.users ≢ 0) full.entries
      × (make_room full ≡ (raise unavailable, full))
make_room-cases_example = make_room-cases full (unfold lookup in (refl, (refl, tt)))

run_call_keeps_use_example :
    (users_of "s1" (run_call (call_append (some 100) "s3" ask) full) ≡ users_of "s1" full)
    × ((users_of "s1" full ≡ 0)
        ⊎ (locked_of "s1" (run_call (call_append (some 100) "s3" ask) full) ≡ locked_of "s1" full))
run_call_keeps_use_example =
    run_call_keeps_use (call_append (some 100) "s3" ask) "s1" full
      (unfold lookup in (refl, (refl, tt)))

-- The only user of "s1", past the wait.
abbrev busy : Store
busy = record store {
  entries = ("s1", record (used 5 1) { locked = true }) ∷ [];
  last_now = some 5;
}

-- The clock runs, so the lock is free and the use is gone; a failed reading keeps both.
left_behind :
    ((leave (some 9) "s1" busy).1.entries ≡ ("s1", used 9 0) ∷ [])
    × (leave none "s1" busy ≡ (raise unavailable, busy))
unfolding program
left_behind = (refl, refl)

leave_lem_example :
    Fails (some 9) (some 5) × (leave (some 9) "s1" busy ≡ (raise unavailable, busy))
    ⊎ (Runs (some 9) (some 5)
        × (s' : Store) × (leave (some 9) "s1" busy ≡ (ok tt, s'))
        × Distinct s'.entries
        × ((k : String)
            → (users_of k s' ≡ (if "s1" ≟ k then users_of k busy - 1 else users_of k busy))
              × (locked_of k s' ≡ (if "s1" ≟ k then false else locked_of k busy))))
leave_lem_example = leave_lem (some 9) "s1" busy (unfold lookup in (refl, tt))

abbrev idle : System
idle = record { store = store; requests = [] }

abbrev first : Request
first = record { key = "s1"; phase = waiting }

entered :
    enter (some 5) "s1" store
    ≡ (ok "s1", record store { entries = ("s1", used 5 1) ∷ []; last_now = some 5 })
unfolding program
entered = refl

abbrev one_in : System
one_in = record {
  store = record store { entries = ("s1", used 5 1) ∷ []; last_now = some 5 };
  requests = (7, first) ∷ [];
}

idle-Reach : Reach idle one_in
unfolding program
idle-Reach = next here (enter_ok 7 (some 5) "s1" "s1" one_in.store refl entered)

idle-Quiet : Quiet idle
idle-Quiet = record { distinct = tt; no_request = refl }

mutual_exclusion_example : weight (insides "s1") one_in.requests ≤ 1
mutual_exclusion_example = mutual_exclusion idle one_in "s1" idle-Quiet idle-Reach

in_progress_kept_example : lookup "s1" one_in.store.entries ≢ none
in_progress_kept_example =
    in_progress_kept idle one_in 7 first idle-Quiet idle-Reach (unfold lookup in refl)

abbrev exchanges : List SessionExchange
exchanges = numbered ask 1 ∷ numbered ask 2 ∷ []

abbrev talk : Store
talk = record store {
  entries = ("s1", record (used 5 0) { recent_exchanges = exchanges; revision = 2 }) ∷ [];
  last_now = some 5;
}

talked : (conversation_context (some 9) "s1" 2 30 talk).0 ≡ ok (context_text 2 30 exchanges)
unfolding program
talked = refl

conversation_context-le_example :
    (length (context_text 2 30 exchanges) ≤ 30 + 2 * (2 - 1))
    × (length (context_text 2 30 exchanges) ≤ 4002)
conversation_context-le_example =
    conversation_context-le (some 9) "s1" 2 30 talk (context_text 2 30 exchanges) talked

abbrev talk_entry : SessionEntry
talk_entry = record (used 5 0) { recent_exchanges = exchanges; revision = 2 }

talk-IsValid : IsValid talk
unfolding program
talk-IsValid = record {
  distinct = (refl, tt);
  sessions_pos = omega arith;
  sessions_max = omega arith;
  ttl_pos = omega arith;
  bounded = omega arith;
  entries = (
    record {
      recent_bound = omega arith;
      consecutive = (refl, (refl, tt));
      canonical = (refl, (refl, tt));
      context = refl;
      accessed = omega arith;
    },
    tt,
  );
}

talk-Live : Live "s1" 9 talk_entry talk
unfolding program
talk-Live = record { named = refl; on = refl; there = refl; young = refl }

state-append_example :
    ((append_exchange (some 9) "s1" ask talk).0 ≡ ok 3)
    × ((state (some 60) "s1" (append_exchange (some 9) "s1" ask talk).1).0
        ≡ ok (
            some (record {
              context = talk_entry.context;
              recent_exchanges = take_last 4 (exchanges ++ numbered ask 3 ∷ []);
              revision = 3;
            })))
state-append_example =
    state-append "s1" 9 60 ask talk_entry talk talk-IsValid talk-Live (unfold program in refl)
      (omega arith) (omega arith)

context_text-two_example :
    length (context_text 2 58 exchanges)
    ≡ length (block (numbered ask 1)) + length (block (numbered ask 2)) + 2
context_text-two_example =
    context_text-two 58 (numbered ask 1) (numbered ask 2) (unfold block in omega arith)

interleaved-IsValid_example : IsValid one_in.store
interleaved-IsValid_example = interleaved-IsValid 2 60 store one_in (unfold init in refl) idle-Reach
