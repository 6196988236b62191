-- ===== src/SessionStore/Interleaving.antt =====
-- Requests that use app/services/session_store.py at once: each runs its own `serialized` block,
-- the event loop interleaves them at the wait for the lock and inside the body, and any other
-- method may be called in between.
use questock.Prelude.{
  ℕ, ◌≡◌, Bool, true, false, Option, none, some, String, string_eq, nat_eq, ◌≟◌, ◌&&◌,
  if◌then◌else◌,
}
use questock.Exec.{ok, raise}
use questock.Dict.{Dict, lookup, assign, remove}
use questock.SessionStore.Exchange.{StoreError}
use questock.SessionStore.{Store}
use questock.SessionStore.Serialized.{enter, begin_body, leave, abandon}
use questock.SessionStore.Invariant.{Call, run_call}
use questock.SessionStore.Users.{locked_of}

-- Where a request stands in its block: at the wait for the lock, or after it.
pub data Phase : Type 0 where
  waiting inside : Phase

pub record Request : Type 0 where
  pub key : String
  pub phase : Phase

-- The store, and the requests in progress by number.
pub record System : Type 0 where
  pub store : Store
  pub requests : Dict ℕ Request

abbrev pub is_inside : Phase → Bool
is_inside waiting = false
is_inside inside = true

abbrev pub uses : String → ℕ → Request → ℕ
uses k _ r = if r.key ≟ k then 1 else 0

abbrev pub insides : String → ℕ → Request → ℕ
insides k _ r = if is_inside r.phase && r.key ≟ k then 1 else 0

-- One step of one request, or one call from elsewhere. A clock that raises is part of the steps: a
-- refused `enter` has no request, and after a failed `begin_body` the `finally` runs at once.
pub data Step (y : System) : System → Type 0 where
  call : (c : Call) → Step y (record y { store = run_call c y.store })
  enter_ok :
      (i : ℕ) (reading : Option ℕ) (id key : String) (s : Store)
      → lookup i y.requests ≡ none
      → enter reading id y.store ≡ (ok key, s)
      → Step y (record {
        store = s;
        requests = assign i (record { key = key; phase = waiting }) y.requests;
      })
  enter_refused :
      (reading : Option ℕ) (id : String) (e : StoreError) (s : Store)
      → enter reading id y.store ≡ (raise e, s)
      → Step y (record y { store = s })
  acquire :
      (i : ℕ) (reading : Option ℕ) (key : String)
      → lookup i y.requests ≡ some (record { key = key; phase = waiting })
      → locked_of key y.store ≡ false
      → Step y (record {
        store = (begin_body reading key y.store).1;
        requests = assign i (record { key = key; phase = inside }) y.requests;
      })
  give_up :
      (i : ℕ) (key : String)
      → lookup i y.requests ≡ some (record { key = key; phase = waiting })
      → Step y (record { store = (abandon key y.store).1; requests = remove i y.requests })
  finish :
      (i : ℕ) (reading : Option ℕ) (key : String)
      → lookup i y.requests ≡ some (record { key = key; phase = inside })
      → Step y (record { store = (leave reading key y.store).1; requests = remove i y.requests })

pub data Reach (y : System) : System → Type 0 where
  here : Reach y y
  next : {u w : System} → Reach y u → Step u w → Reach y w

abbrev pub room_of : Bool → ℕ
room_of true = 1
room_of false = 0
