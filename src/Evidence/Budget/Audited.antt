-- ===== src/Evidence/Budget/Audited.antt =====
-- The audit of `select_evidence_context` in app/evidence/budget.py, on results that it builds itself.
use questock.Prelude.{
  ℕ, zero, suc, ◌+◌, ◌≤◌, ◌≡◌, refl, sym, subst, Bool, true, false, ◌&&◌, List, [], ◌∷◌, String,
  length, take, arith, Bool-cases, inl, inr, All,
}
use questock.Exec.{Result, ok, raise, and_then}
use questock.Core.Models.{elem}
use questock.Core.Evidence.{Evidence, evidence_ok}
use questock.Evidence.Budget.{
  payload_of, ContextError, invalid_input, Limits, Json, CanonicalEvidence, fields_ok, payloads,
  canonical_sequence, deduplicate, apply_source_cap, tokens_of, chars_of, fits, evidence_of,
}
use questock.Evidence.Budget.Select.{SelectionState, diagnose, diagnostics_ok, same_flag, exhausted}

abbrev pub Canonical : Json → CanonicalEvidence → Type 0
Canonical json x =
    (x ≡ payloads json x.evidence)
    × ((evidence_ok x.evidence && fields_ok x.evidence && json.can_dump (payload_of x.evidence))
        ≡ true)

and_then-cons :
    (json : Json) (e : Evidence) (r : Result ContextError (List CanonicalEvidence))
    (xs : List CanonicalEvidence)
    → and_then r (λ rest. ok (payloads json e ∷ rest)) ≡ ok xs
    → (rest : List CanonicalEvidence) × (r ≡ ok rest) × (xs ≡ payloads json e ∷ rest)
and_then-cons json e (ok rest) xs h = (rest, refl, ground (arith, h))
and_then-cons json e (raise error) xs h = absurd (ground (arith, h))

pub canonical_sequence-Canonical :
    (json : Json) (es : List Evidence) (xs : List CanonicalEvidence)
    → canonical_sequence json es ≡ ok xs
    → All (Canonical json) xs
unfolding canonical_sequence
canonical_sequence-Canonical json [] xs h =
    let none : [] ≡ xs = ground (arith, h) in subst (All (Canonical json)) none tt
canonical_sequence-Canonical json (e ∷ es) xs h =
    elim (Bool-cases (evidence_ok e && fields_ok e && json.can_dump (payload_of e))) [
      | inr bad ↦ let refused : raise invalid_input ≡ ok xs = rw bad at h in absurd (ground arith)
      | inl good ↦
          let (rest, read, same) =
            and_then-cons json e (canonical_sequence json es) xs (rw good at h) in
          subst (All (Canonical json)) (sym same)
            ((refl, good), canonical_sequence-Canonical json es rest read)
    ]

-- Items that were read once are read again as they are.
pub canonical_sequence-evidence_of :
    (json : Json) (xs : List CanonicalEvidence)
    → All (Canonical json) xs
    → canonical_sequence json (evidence_of xs) ≡ ok xs
unfolding canonical_sequence
canonical_sequence-evidence_of json [] h = refl
canonical_sequence-evidence_of json (x ∷ xs) h =
    rw h.0.1 (rw (canonical_sequence-evidence_of json xs h.1) (rw (sym h.0.0) refl))

pub deduplicate-All :
    (P : CanonicalEvidence → Type 0) (seen : List String) (xs : List CanonicalEvidence)
    → All P xs
    → All P (deduplicate seen xs)
unfolding deduplicate
deduplicate-All P seen [] h = tt
deduplicate-All P seen (x ∷ xs) h = elim (Bool-cases (elem x.content_fingerprint seen)) [
  | inl old ↦ rw old (deduplicate-All P seen xs h.1)
  | inr new ↦ rw new (h.0, deduplicate-All P (x.content_fingerprint ∷ seen) xs h.1)
]

pub length-deduplicate-le :
    (seen : List String) (xs : List CanonicalEvidence) → length (deduplicate seen xs) ≤ length xs
unfolding deduplicate
length-deduplicate-le seen [] = omega arith
length-deduplicate-le seen (x ∷ xs) =
    ground (
      arith,
      length-deduplicate-le seen xs,
      length-deduplicate-le (x.content_fingerprint ∷ seen) xs,
    )

pub length-source_cap-le :
    (m : ℕ) (counted : List String) (xs : List CanonicalEvidence)
    → length (apply_source_cap m counted xs) ≤ length xs
unfolding apply_source_cap
length-source_cap-le m counted [] = omega arith
length-source_cap-le m counted (x ∷ xs) = ground (
  arith,
  length-source_cap-le m counted xs,
  length-source_cap-le m (x.evidence.source_type ∷ counted) xs,
)

pub length-evidence_of : (xs : List CanonicalEvidence) → length (evidence_of xs) ≡ length xs
length-evidence_of [] = refl
length-evidence_of (x ∷ xs) = omega (arith, length-evidence_of xs)

pub length-take-shorter : (n : ℕ) (xs : List CanonicalEvidence) → length (take n xs) ≤ length xs
length-take-shorter zero xs = omega arith
length-take-shorter (suc n) [] = omega arith
length-take-shorter (suc n) (x ∷ xs) = omega (arith, length-take-shorter n xs)

-- What the context may cost.
pub record Fitting (json : Json) (limits : Limits) (reserved : ℕ) (es : List Evidence)
    : Type 0 where
  pub tokens : reserved + tokens_of json es ≤ limits.max_context_tokens
  pub chars : chars_of json es ≤ limits.max_context_chars

pub fits-Fitting :
    (json : Json) (limits : Limits) (reserved : ℕ) (xs : List CanonicalEvidence)
    → fits json limits reserved xs ≡ true
    → Fitting json limits reserved (evidence_of xs)
unfolding fits
fits-Fitting json limits reserved xs h = record {
  tokens = ground (arith, h);
  chars = ground (arith, h);
}

pub none-Fitting :
    (json : Json) (limits : Limits) (reserved : ℕ)
    → reserved ≤ limits.max_context_tokens
    → Fitting json limits reserved []
unfolding tokens_of chars_of
none-Fitting json limits reserved h = record { tokens = omega (arith, h); chars = omega arith }

-- The counts of the state, each no larger than the one before.
pub record Falling (state : SelectionState) (n : ℕ) : Type 0 where
  pub unique : state.unique_count ≤ state.input_count
  pub source : state.after_source_cap_count ≤ state.unique_count
  pub count : state.after_count_cap_count ≤ state.after_source_cap_count
  pub selected : n ≤ state.after_count_cap_count

same_flag_refl : (b : Bool) → same_flag b b ≡ true
same_flag_refl true = refl
same_flag_refl false = refl

pub diagnose-diagnostics_ok :
    (json : Json) (limits : Limits) (reserved : ℕ) (state : SelectionState) (es : List Evidence)
    → Fitting json limits reserved es
    → Falling state (length es)
    → diagnostics_ok json limits reserved state es (diagnose json limits reserved state es) ≡ true
unfolding diagnostics_ok diagnose
diagnose-diagnostics_ok json limits reserved state es fit fall =
    ground (arith, fit, fall, same_flag_refl (exhausted state.after_count_cap_count (length es)))
