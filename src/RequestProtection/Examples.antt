-- ===== src/RequestProtection/Examples.antt =====
-- Runs of the request protection, and the properties at concrete states.
use questock.Prelude.{
  ◌+◌, ◌≤◌, ◌≡◌, ◌≢◌, refl, true, none, some, [], ◌∷◌, arith, String, string_eq, nat_eq,
}
use questock.Prelude.Text.{is_digit}
use questock.Exec.{ok, raise}
use questock.Dict.{lookup, remove, remove_all, assign, items_where, size}
use questock.Dict.Purge.{purge}
use questock.RequestProtection.{
  Protector, ClientBucket, limited, init, now, kst_day, canonical_client_key, purge_expired,
  roll_global_day, candidates, evict, make_room, found_or_new, bucket_for, prune, at_limit, start,
  finish, finish_found,
}
use questock.RequestProtection.Valid.{IsValid}
use questock.RequestProtection.Window.{within_window, prune-within_window}
use questock.RequestProtection.Concurrent.{System, Reach, here, next, admitted, at_rest, with_slot}
use questock.RequestProtection.Limits.{two_at_once, limits_kept, in_progress_bucket}
use questock.RequestProtection.Lost.{lost_slot}

program : Unit {0}
unfolding init now kst_day canonical_client_key purge_expired roll_global_day candidates evict
    make_room found_or_new is_digit bucket_for prune at_limit start finish finish_found lookup
    remove remove_all assign items_where purge
program = tt

abbrev client : String
client = "00112233445566778899aabbccddeeff00112233445566778899aabbccddeeff"

abbrev fresh : Protector
fresh = record {
  enabled = true;
  max_client_buckets = 2;
  client_bucket_ttl_seconds = 86400;
  buckets = [];
  global_day = none;
  global_day_attempts = 0;
  active_attempts = 0;
  last_now = none;
  slots = 2;
}

abbrev bucket : ClientBucket
bucket = record { window_attempts = 5 ∷ []; day = 1; day_attempts = 1; last_access = 5; active = 1 }

abbrev one : Protector
one = record fresh {
  buckets = (client, bucket) ∷ [];
  global_day = some 1;
  global_day_attempts = 1;
  active_attempts = 1;
  last_now = some 5;
  slots = 1;
}

started_one : start (some 5) (some 86400) client (with_slot fresh) ≡ (ok tt, one)
unfolding program
started_one = refl

refuses_key : canonical_client_key (some "00FF") ≡ raise limited
unfolding program
refuses_key = refl

abbrev running : System
running = record { protector = one; attempts = (1, client) ∷ [] }

running-Reach : Reach (at_rest fresh) running
unfolding program
running-Reach = next here (
    admitted 1 (some 5) (some 86400) (some client) client one refl refl refl (omega arith)
      started_one)

fresh_made : init true 2 86400 ≡ ok fresh
unfolding program
fresh_made = refl

two_at_once_example :
    (size running.attempts ≤ 2)
    × (size running.attempts + running.protector.slots ≤ 2)
    × (size running.attempts ≤ running.protector.active_attempts)
    × (running.protector.active_attempts ≤ 2)
two_at_once_example = two_at_once 2 86400 fresh running fresh_made running-Reach

limits_kept_example : IsValid one
limits_kept_example = limits_kept 2 86400 fresh running fresh_made running-Reach

in_progress_bucket_example : lookup client one.buckets ≢ none
in_progress_bucket_example =
    in_progress_bucket 2 86400 fresh running 1 client fresh_made running-Reach
      (unfold program in refl)

prune-within_window_example : prune 310 (5 ∷ 10 ∷ 11 ∷ []) ≡ within_window 310 (5 ∷ 10 ∷ 11 ∷ [])
prune-within_window_example =
    prune-within_window 310 0 400 (5 ∷ 10 ∷ 11 ∷ [])
      (omega arith, (omega arith, (omega arith, omega arith)))

-- A client with ten attempts in the last 300 seconds.
abbrev busy_bucket : ClientBucket
busy_bucket = record bucket {
  window_attempts = 5 ∷ 5 ∷ 5 ∷ 5 ∷ 5 ∷ 5 ∷ 5 ∷ 5 ∷ 5 ∷ 5 ∷ [];
  day_attempts = 10;
}

abbrev busy : Protector
busy = record one { buckets = (client, busy_bucket) ∷ []; global_day_attempts = 10 }

-- The system after the clock raised at the end of the attempt.
abbrev lost : System
lost = record { protector = (finish none client one).1; attempts = remove 1 running.attempts }

lost_slot_example :
    size lost.attempts + lost.protector.slots + 1 ≤ size running.attempts + one.slots
lost_slot_example =
    lost_slot 2 86400 fresh running lost 1 client fresh_made running-Reach (unfold program in refl)
      here
