-- ===== src/RequestProtection/Lost.antt =====
-- What an attempt leaves behind in app/services/request_protection.py when the clock raises in the
-- `finally` of `admit`.
use questock.Prelude.{
  ℕ, ◌+◌, ◌-◌, ◌≤◌, ◌≡◌, refl, true, none, some, String, string_eq, nat_eq, arith, Option-cases,
  inl, inr,
}
use questock.Exec.{Result, ok, raise}
use questock.Exec.Triple.{Outcome}
use questock.Dict.{lookup, remove, size}
use questock.Dict.Laws.{weight-assign_absent, weight-remove_present}
use questock.RequestProtection.{
  Protector, ClientBucket, ProtectionError, unavailable, init, now, finish, finish_found,
}
use questock.RequestProtection.Held.{Held, active_of}
use questock.RequestProtection.Release.{finish-Held, minus}
use questock.RequestProtection.Concurrent.{
  System, Step, admitted, refused, ended, Reach, here, next, at_rest,
}
use questock.RequestProtection.Guarded.{Guarded, Step-Guarded, held, started}
use questock.RequestProtection.Limits.{Reach-Guarded, at_rest-Guarded, in_progress_bucket}

-- The attempts in progress and the slots that are free.
abbrev pub room : System → ℕ
room y = size y.attempts + y.protector.slots

-- An end of an attempt gives its slot back or loses it.
ended-room :
    (i : ℕ) (key : String) (y : System)
    → Guarded y
    → lookup i y.attempts ≡ some key
    → (r : Result ProtectionError Unit) (q : Protector)
    → Outcome {E = ProtectionError}
        (Held key
          (minus key key (active_of key y.protector))
          y.protector.slots
          y.protector.active_attempts)
        (λ _.
          Held key
            (minus key key (active_of key y.protector))
            (y.protector.slots + 1)
            (y.protector.active_attempts - 1))
        r
        q
    → size (remove i y.attempts) + q.slots ≤ room y
ended-room i key y g there (ok _) q h =
    omega (arith, h.slots, weight-remove_present (λ _ _. 1) i key y.attempts g.numbered there)
ended-room i key y g there (raise e) q h =
    omega (arith, h.slots, weight-remove_present (λ _ _. 1) i key y.attempts g.numbered there)

Step-room : {y u : System} → Step y u → Guarded y → room u ≤ room y
Step-room {y} (admitted i monotonic utc raw key p free on named slot done) g =
    let h = rw done at (started monotonic utc key key y g) in
    omega (arith, h.slots, slot, weight-assign_absent (λ _ _. 1) i key y.attempts free)
Step-room {y} (refused monotonic utc raw key e p on named slot done) g =
    let h = rw done at (started monotonic utc key key y g) in omega (arith, h.slots, slot)
Step-room {y} (ended i monotonic key there) g =
    ended-room i key y g there (finish monotonic key y.protector).0
      (finish monotonic key y.protector).1
      (finish-Held key _ _ _ monotonic key y.protector (held key y g))

Reach-room : {y u : System} → Reach y u → Guarded y → room u ≤ room y
Reach-room here g = omega arith
Reach-room (next before step) g =
    omega (arith, Reach-room before g, Step-room step (Reach-Guarded before g))

finish-none :
    (key : String) (b : ClientBucket) (p : Protector)
    → lookup key p.buckets ≡ some b
    → (finish none key p).0 ≡ raise unavailable
unfolding finish finish_found now
finish-none key b p there = rw there refl

-- From a new protector, an attempt that ends while the clock raises loses its slot for good:
-- whatever happens afterwards, the attempts in progress and the free slots together are at least
-- one fewer than before.
pub lost_slot :
    (max_client_buckets ttl_seconds : ℕ) (p : Protector) (y u : System) (i : ℕ) (key : String)
    → init true max_client_buckets ttl_seconds ≡ ok p
    → Reach (at_rest p) y
    → lookup i y.attempts ≡ some key
    → Reach
        (record { protector = (finish none key y.protector).1; attempts = remove i y.attempts })
        u
    → size u.attempts + u.protector.slots + 1 ≤ size y.attempts + y.protector.slots
lost_slot max_client_buckets ttl_seconds p y u i key made before there after =
    elim (Option-cases (lookup key y.protector.buckets)) [
      | inl gone ↦
          absurd
            (in_progress_bucket max_client_buckets ttl_seconds p y i key made before there gone)
      | inr (b, bucket) ↦
          let h : Held key _ y.protector.slots y.protector.active_attempts
              (finish none key y.protector).1 =
            rw (finish-none key b y.protector bucket) at
              (finish-Held key _ _ _ none key y.protector (held key y g)) in
          omega (
            arith,
            h.slots,
            weight-remove_present (λ _ _. 1) i key y.attempts g.numbered there,
            Reach-room after (Step-Guarded (ended i none key there) g),
          )
    ]
  where
    g : Guarded y
    g = Reach-Guarded before (at_rest-Guarded max_client_buckets ttl_seconds p made)
