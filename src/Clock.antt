-- ===== src/Clock.antt =====
-- The monotonic clock that app/services/session_store.py, request_protection.py and
-- response_cache.py read in the same way. Time is counted in ticks.
use questock.Prelude.{ℕ, ◌≤◌, ◌<◌, Bool, false, Option, none, some, ltb}

-- `self._last_now is not None and value < self._last_now`
abbrev pub runs_back : ℕ → Option ℕ → Bool
runs_back value none = false
runs_back value (some last) = ltb value last

-- No later than the last reading; nothing is before the first reading.
abbrev pub AtMost : ℕ → Option ℕ → Type 0
AtMost t none = ⊥
AtMost t (some last) = t ≤ last

-- The clock gives no reading, or one before the last.
abbrev pub Fails : Option ℕ → Option ℕ → Type 0
Fails none last = Unit
Fails (some time) none = ⊥
Fails (some time) (some last) = time < last

-- The clock gives a reading that is not before the last.
abbrev pub Runs : Option ℕ → Option ℕ → Type 0
Runs none last = ⊥
Runs (some time) none = Unit
Runs (some time) (some last) = last ≤ time
