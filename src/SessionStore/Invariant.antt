-- ===== src/SessionStore/Invariant.antt =====
-- A call of each method of app/services/session_store.py keeps the well-formed states.
use questock.Prelude.{ℕ, ◌≡◌, Option, arith, String, string_eq}
use questock.Exec.{ok, Exec}
use questock.Exec.Triple.{Triple-keeps, Triple}
use questock.Core.Models.{SessionContext}
use questock.SessionStore.Exchange.{StoreError}
use questock.SessionStore.{
  init, revision, Store, NewExchange, get, put, state, size_now, append_exchange,
}
use questock.SessionStore.Valid.{IsValid}
use questock.SessionStore.Conversation.{conversation_context}
use questock.SessionStore.Methods.{
  get-Triple, state-Triple, size-Triple, put-Triple, append-Triple, revision-Triple,
  conversation_context-Triple,
}

keeps :
    {A : Type 0} (m : Exec StoreError Store A)
    → Triple IsValid IsValid m (λ _. IsValid)
    → (s : Store) → IsValid s
    → IsValid (m s).1
keeps m t = Triple-keeps m t (λ a s v. v)

-- A use of the store, with the reading of the clock.
pub data Call : Type 0 where
  call_get call_state call_revision : Option ℕ → String → Call
  call_put : Option ℕ → String → SessionContext → Call
  call_append : Option ℕ → String → NewExchange → Call
  call_size : Option ℕ → Call
  call_context : Option ℕ → String → ℕ → ℕ → Call

unfoldable pub run_call : Call → Store → Store
run_call (call_get reading id) s = (get reading id s).1
run_call (call_state reading id) s = (state reading id s).1
run_call (call_revision reading id) s = (revision reading id s).1
run_call (call_put reading id context) s = (put reading id context s).1
run_call (call_append reading id x) s = (append_exchange reading id x s).1
run_call (call_size reading) s = (size_now reading s).1
run_call (call_context reading id m c) s = (conversation_context reading id m c s).1

pub run_call-IsValid : (c : Call) (s : Store) → IsValid s → IsValid (run_call c s)
unfolding run_call
run_call-IsValid (call_get reading id) = keeps _ (get-Triple reading id)
run_call-IsValid (call_state reading id) = keeps _ (state-Triple reading id)
run_call-IsValid (call_revision reading id) = keeps _ (revision-Triple reading id)
run_call-IsValid (call_put reading id context) = keeps _ (put-Triple reading id context)
run_call-IsValid (call_append reading id x) = keeps _ (append-Triple reading id x)
run_call-IsValid (call_size reading) = keeps _ (size-Triple reading)
run_call-IsValid (call_context reading id m c) =
    keeps _ (conversation_context-Triple reading id m c)

pub init-IsValid :
    (max_sessions ttl_seconds : ℕ) (s : Store) → init max_sessions ttl_seconds ≡ ok s → IsValid s
unfolding init
init-IsValid max_sessions ttl_seconds s h = ground arith
