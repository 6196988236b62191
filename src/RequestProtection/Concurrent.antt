-- ===== src/RequestProtection/Concurrent.antt =====
-- Attempts that `admit` of app/services/request_protection.py lets run at once. The semaphore lets
-- one past while a slot is free; what follows under the state lock runs without a suspension.
use questock.Prelude.{
  ℕ, ◌+◌, ◌-◌, ◌≤◌, ◌≡◌, true, Option, none, some, [], String, string_eq, nat_eq, ◌≟◌,
  if◌then◌else◌,
}
use questock.Exec.{ok, raise}
use questock.Dict.{Dict, lookup, assign, remove}
use questock.RequestProtection.{Protector, ProtectionError, canonical_client_key, start, finish}

-- The protector, and the clients of the attempts past the `yield` by number.
pub record System : Type 0 where
  pub protector : Protector
  pub attempts : Dict ℕ String

-- `admit` takes a slot for the time of `start`.
abbrev pub with_slot : Protector → Protector
with_slot p = record p { slots = p.slots - 1 }

abbrev pub slot_back : Protector → Protector
slot_back p = record p { slots = p.slots + 1 }

-- An attempt that waits too long for a slot, or whose key or timeout is refused, changes nothing,
-- nor does one while the protection is disabled.
pub data Step (y : System) : System → Type 0 where
  admitted :
      (i : ℕ) (monotonic utc : Option ℕ) (raw : Option String) (key : String) (p : Protector)
      → lookup i y.attempts ≡ none
      → y.protector.enabled ≡ true
      → canonical_client_key raw ≡ ok key
      → 1 ≤ y.protector.slots
      → start monotonic utc key (with_slot y.protector) ≡ (ok tt, p)
      → Step y (record { protector = p; attempts = assign i key y.attempts })
  refused :
      (monotonic utc : Option ℕ) (raw : Option String) (key : String) (e : ProtectionError)
      (p : Protector)
      → y.protector.enabled ≡ true
      → canonical_client_key raw ≡ ok key
      → 1 ≤ y.protector.slots
      → start monotonic utc key (with_slot y.protector) ≡ (raise e, p)
      → Step y (record { protector = slot_back p; attempts = y.attempts })
  ended :
      (i : ℕ) (monotonic : Option ℕ) (key : String)
      → lookup i y.attempts ≡ some key
      → Step y (record {
        protector = (finish monotonic key y.protector).1;
        attempts = remove i y.attempts;
      })

pub data Reach (y : System) : System → Type 0 where
  here : Reach y y
  next : {u w : System} → Reach y u → Step u w → Reach y w

-- Nothing has run yet.
abbrev pub at_rest : Protector → System
at_rest p = record { protector = p; attempts = [] }

abbrev pub of_client : String → ℕ → String → ℕ
of_client k _ key = if key ≟ k then 1 else 0
