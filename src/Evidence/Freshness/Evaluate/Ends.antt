-- ===== src/Evidence/Freshness/Evaluate/Ends.antt =====
-- Runs of the functions of app/evidence/freshness.py that do not run out of rounds.
use questock.Prelude.{◌≡◌, refl, Bool, true, false, string_eq, if◌then◌else◌, inl, inr, ◌⊎◌}
use questock.Exec.{Result, ok, raise, and_then}
use questock.Evidence.Freshness.Candidates.{FreshnessError, endless}

abbrev pub is_endless : FreshnessError → Bool
is_endless endless = true
is_endless _ = false

-- The computation does not run for ever.
abbrev pub Ends : {A : Type 0} → Result FreshnessError A → Type 0
Ends (ok a) = Unit
Ends (raise e) = is_endless e ≡ false

pub Ends-and_then :
    {A B : Type 0} (m : Result FreshnessError A) (f : A → Result FreshnessError B)
    → Ends m
    → ((a : A) → m ≡ ok a → Ends (f a))
    → Ends (and_then m f)
Ends-and_then (ok a) f h k = k a refl
Ends-and_then (raise e) f h k = h

pub Result-cases :
    {A : Type 0} (m : Result FreshnessError A)
    → ((a : A) × (m ≡ ok a)) ⊎ ((e : FreshnessError) × (m ≡ raise e))
Result-cases (ok a) = inl (a, refl)
Result-cases (raise e) = inr (e, refl)

pub Ends-if :
    {A : Type 0} (b : Bool) (x y : Result FreshnessError A)
    → Ends x
    → Ends y
    → Ends (if b then x else y)
Ends-if true x y h k = h
Ends-if false x y h k = k
