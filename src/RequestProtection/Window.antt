-- ===== src/RequestProtection/Window.antt =====
-- The attempts of the window in app/services/request_protection.py: what the loop of `admit` drops.
use questock.Prelude.{
  ℕ, ◌+◌, ◌≤◌, ◌≡◌, refl, false, List, [], ◌∷◌, ◌++◌, arith, leb, if◌then◌else◌, length, Bool-cases,
  inl, inr, length-append, some,
}
use questock.RequestProtection.{
  ClientBucket, client_window_seconds, prune, rolled, at_limit, counted,
}
use questock.RequestProtection.Valid.{Ascending, BucketOk}

pub Ascending-widen :
    (lo lo' hi hi' : ℕ) (ts : List ℕ)
    → Ascending lo hi ts
    → lo' ≤ lo
    → hi ≤ hi'
    → Ascending lo' hi' ts
Ascending-widen lo lo' hi hi' [] h p q = omega (arith, h)
Ascending-widen lo lo' hi hi' (t ∷ ts) h p q =
    (omega (arith, h.0), Ascending-widen t t hi hi' ts h.1 (omega arith) q)

Ascending-append : (lo hi : ℕ) (ts : List ℕ) → Ascending lo hi ts → Ascending lo hi (ts ++ hi ∷ [])
Ascending-append lo hi [] h = (h, omega arith)
Ascending-append lo hi (t ∷ ts) h = (h.0, Ascending-append t hi ts h.1)

length-prune-le : (now : ℕ) (ts : List ℕ) → length (prune now ts) ≤ length ts
unfolding prune
length-prune-le now [] = omega arith
length-prune-le now (t ∷ ts) = ground (arith, length-prune-le now ts)

Ascending-prune :
    (now lo hi : ℕ) (ts : List ℕ) → Ascending lo hi ts → Ascending lo hi (prune now ts)
unfolding prune
Ascending-prune now lo hi [] h = h
Ascending-prune now lo hi (t ∷ ts) h = elim (Bool-cases (leb (t + client_window_seconds) now)) [
  | inl old ↦ rw old (
      Ascending-widen t lo hi hi (prune now ts) (Ascending-prune now t hi ts h.1) h.0 (omega arith))
  | inr new ↦ rw new h
]

-- The attempts of the last 300 seconds.
abbrev pub within_window : ℕ → List ℕ → List ℕ
within_window now [] = []
within_window now (t ∷ ts) =
    if leb (t + client_window_seconds) now then within_window now ts else t ∷ within_window now ts

all_within :
    (now lo hi : ℕ) (ts : List ℕ)
    → Ascending lo hi ts
    → leb (lo + client_window_seconds) now ≡ false
    → within_window now ts ≡ ts
all_within now lo hi [] h new = refl
all_within now lo hi (t ∷ ts) h new =
    let later : leb (t + client_window_seconds) now ≡ false = ground (arith, h.0, new) in
    rw later (rw (all_within now t hi ts h.1 later) refl)

-- On attempts in the order of their times, the loop that drops attempts from the left leaves
-- exactly those of the last 300 seconds.
pub prune-within_window :
    (now lo hi : ℕ) (ts : List ℕ) → Ascending lo hi ts → prune now ts ≡ within_window now ts
unfolding prune
prune-within_window now lo hi [] h = refl
prune-within_window now lo hi (t ∷ ts) h = elim (Bool-cases (leb (t + client_window_seconds) now)) [
  | inl old ↦ rw old (prune-within_window now t hi ts h.1)
  | inr new ↦ rw new (rw (all_within now t hi ts h.1 new) refl)
]

pub rolled-BucketOk :
    (time now day : ℕ) (b : ClientBucket)
    → BucketOk (some time) b
    → BucketOk (some time) (rolled now day b)
rolled-BucketOk time now day b h = record {
  window_bound = ground (arith, h.window_bound, length-prune-le now b.window_attempts);
  day_bound = ground (arith, h.day_bound);
  times = ground (arith, h.times, Ascending-prune now 0 time b.window_attempts h.times.0);
}

pub counted-BucketOk :
    (time total : ℕ) (b : ClientBucket)
    → BucketOk (some time) b
    → at_limit b total ≡ false
    → BucketOk (some time) (counted time b)
unfolding at_limit
counted-BucketOk time total b h room = record {
  window_bound = ground (arith, room, length-append b.window_attempts (time ∷ []));
  day_bound = ground (arith, room);
  times = (Ascending-append 0 time b.window_attempts h.times.0, omega arith);
}
