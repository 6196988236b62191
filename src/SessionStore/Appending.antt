-- ===== src/SessionStore/Appending.antt =====
-- What `append_exchange` of app/services/session_store.py returns and leaves, and what `state` then
-- reads.
use questock.Prelude.{
  ◌≤◌, ◌<◌, ◌-◌, take_last, ◌++◌, ◌∷◌, [], ℕ, ◌+◌, ◌≡◌, refl, true, false, some, arith, String,
  string_eq, ltb,
}
use questock.Clock.{runs_back}
use questock.Exec.{ok}
use questock.Dict.{Distinct, lookup, assign}
use questock.Dict.Purge.{Distinct-purge, purge, lookup-purge}
use questock.Dict.Laws.{lookup-assign, Distinct-assign, Each-lookup}
use questock.SessionStore.Text.{session_id_ok}
use questock.SessionStore.Exchange.{canonical_exchange}
use questock.SessionStore.{
  canonical_context, state_of, use_found, use_entry, state, Store, SessionEntry, NewExchange, now,
  session_id, expired, purge_expired, begin, entry_or_new, or_new, append_exchange, numbered,
  conversation_chars, max_session_conversation_chars,
}
use questock.SessionStore.Valid.{EntryOk, IsValid}
use questock.SessionStore.Append.{kept, kept-chars-le}

-- The session `id` is in the store and does not go at the reading `time`.
pub record Live (id : String) (time : ℕ) (e : SessionEntry) (s : Store) : Type 0 where
  pub named : session_id_ok id ≡ true
  pub on : runs_back time s.last_now ≡ false
  pub there : lookup id s.entries ≡ some e
  pub young : expired s.ttl_seconds time e ≡ false

-- The entry after `x` is appended.
abbrev pub appended : ℕ → NewExchange → SessionEntry → SessionEntry
appended time x e = record e {
  recent_exchanges = kept e.recent_exchanges (numbered x (e.revision + 1));
  revision = e.revision + 1;
  last_access = time;
}

abbrev pub purged : ℕ → Store → Store
purged time s = record s {
  entries = purge (λ _. expired s.ttl_seconds time) s.entries;
  last_now = some time;
}

Live-now :
    (id : String) (time : ℕ) (e : SessionEntry) (s : Store)
    → Distinct s.entries
    → Live id time e s
    → lookup id (purged time s).entries ≡ some e
Live-now id time e s v l =
    ground (arith, lookup-purge (λ _. expired s.ttl_seconds time) id s.entries v, l.there, l.young)

begin_lem :
    (id : String) (time : ℕ) (s : Store)
    → session_id_ok id ≡ true
    → runs_back time s.last_now ≡ false
    → begin (some time) id s ≡ (ok (id, time), purged time s)
unfolding begin session_id now purge_expired
begin_lem id time s named on = rw named (rw on refl)

append_lem :
    (id : String) (time : ℕ) (x : NewExchange) (e : SessionEntry) (s : Store)
    → IsValid s
    → Live id time e s
    → canonical_exchange (numbered x (e.revision + 1)) ≡ ok (numbered x (e.revision + 1))
    → append_exchange (some time) id x s ≡ (
      ok (e.revision + 1),
      record s {
        entries = assign id (appended time x e) (purged time s).entries;
        last_now = some time;
      },
    )
unfolding append_exchange entry_or_new or_new
append_lem id time x e s v l good =
    let ok_entry = Each-lookup (λ _ y. EntryOk s.last_now y) id e s.entries v.entries l.there in
    let chars : ltb max_session_conversation_chars
          (conversation_chars (kept e.recent_exchanges (numbered x (e.revision + 1))))
        ≡ false =
      ground (
        arith,
        kept-chars-le e.recent_exchanges (numbered x (e.revision + 1)) ok_entry.canonical good,
      ) in
    rw (begin_lem id time s l.named l.on)
      (rw (Live-now id time e s v.distinct l) (rw good (rw chars refl)))

state_lem :
    (id : String) (time : ℕ) (e : SessionEntry) (s : Store)
    → Distinct s.entries
    → canonical_context e.context ≡ ok e.context
    → Live id time e s
    → (state (some time) id s).0
      ≡ ok (
          some (record {
            context = e.context;
            recent_exchanges = e.recent_exchanges;
            revision = e.revision;
          }))
unfolding state use_entry use_found state_of
state_lem id time e s t canonical l =
    rw (begin_lem id time s l.named l.on) (rw (Live-now id time e s t l) (rw canonical refl))

-- In a valid store, for a session that is there and does not go at the reading, a canonical
-- exchange is accepted: append_exchange returns the next revision, and a state less than
-- ttl_seconds later returns that revision, the same context, and the last four of the exchanges
-- with the new one after them.
pub state-append :
    (id : String) (t u : ℕ) (x : NewExchange) (e : SessionEntry) (s : Store)
    → IsValid s
    → Live id t e s
    → canonical_exchange (numbered x (e.revision + 1)) ≡ ok (numbered x (e.revision + 1))
    → t ≤ u
    → u - t < s.ttl_seconds
    → ((append_exchange (some t) id x s).0 ≡ ok (e.revision + 1))
      × ((state (some u) id (append_exchange (some t) id x s).1).0
          ≡ ok (
              some (record {
                context = e.context;
                recent_exchanges =
                    take_last 4 (e.recent_exchanges ++ numbered x (e.revision + 1) ∷ []);
                revision = e.revision + 1;
              })))
state-append id t u x e s v l good later soon =
    let d = (purged t s).entries in
    let d-Distinct = Distinct-purge (λ _. expired s.ttl_seconds t) s.entries v.distinct in
    let entry_ok = Each-lookup (λ _ y. EntryOk s.last_now y) id e s.entries v.entries l.there in
    rw (append_lem id t x e s v l good) (
      refl,
      state_lem id u (appended t x e) _ (Distinct-assign id (appended t x e) d d-Distinct)
          entry_ok.context
          (record {
            named = l.named;
            on = ground (arith, later);
            there = ground (arith, lookup-assign id id (appended t x e) d, string_eq.beq_iff id id);
            young = ground (arith, soon);
          }),
    )
