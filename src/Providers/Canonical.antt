-- ===== src/Providers/Canonical.antt =====
-- The results that app/providers/base.py makes pass the check of app/evidence/policy.py.
use questock.Prelude.{
  is_some, ℕ, ◌≡◌, refl, sym, subst, Bool, true, false, not, ◌||◌, Option, none, some, String,
  str_eq, eq_iff, string_eq, if◌then◌else◌, arith, Bool-cases, inl, inr,
}
use questock.Exec.{ok, raise}
use questock.Core.Plan.{
  ProviderStatus, provider_ok, no_data, invalid_query, unauthorized, rate_limited, timeout,
  provider_unavailable, parse_error, ProviderResult,
}
use questock.Evidence.Policy.Inputs.{provider_result_ok, result_fits}
use questock.Providers.{
  contract_error, code_or, other_code, failed_with, create_by, create_provider_result,
}

timeout-fits :
    (name : String) (time : ℕ) (from_cache : Bool)
    → (str_eq name "attempt_timeout" || str_eq name "total_deadline_exceeded") ≡ true
    → provider_result_ok (failed_with timeout name time from_cache) ≡ true
unfolding provider_result_ok
timeout-fits name time from_cache h = elim (Bool-cases (str_eq name "attempt_timeout")) [
  | inl first ↦
      let q : name ≡ "attempt_timeout" = (eq_iff name "attempt_timeout").0 first in
      subst (λ (x : String). result_fits timeout (failed_with timeout x time from_cache) ≡ true)
        (sym q) refl
  | inr other ↦
      let q : name ≡ "total_deadline_exceeded" =
        (eq_iff name "total_deadline_exceeded").0 (ground (arith, other, h)) in
      subst (λ (x : String). result_fits timeout (failed_with timeout x time from_cache) ≡ true)
        (sym q) refl
]

-- A result that is made in a branch has what all results of that branch have.
made-fits :
    (refused : Bool) (x r : ProviderResult)
    → (refused ≡ false → provider_result_ok x ≡ true)
    → (if refused then raise contract_error else ok x) ≡ ok r
    → provider_result_ok r ≡ true
made-fits true x r fits h = absurd (ground (arith, h))
made-fits false x r fits h =
    let q : x ≡ r = cc in subst (λ (y : ProviderResult). provider_result_ok y ≡ true) q (fits refl)

create_by-fits :
    (status : ProviderStatus) (has_data : Bool) (error_code message : Option String) (time : ℕ)
    (from_cache : Bool) (r : ProviderResult)
    → create_by status has_data error_code message time from_cache ≡ ok r
    → provider_result_ok r ≡ true
unfolding provider_result_ok
create_by-fits provider_ok d e m t c r h = made-fits (not d || is_some e) _ r (λ _. refl) h
create_by-fits no_data d e m t c r h = made-fits (d || is_some e) _ r (λ _. refl) h
create_by-fits timeout d e m t c r h =
    let name = code_or e "attempt_timeout" in
    made-fits (d || not (str_eq name "attempt_timeout" || str_eq name "total_deadline_exceeded")) _
      r (λ fine. timeout-fits name t c (ground (arith, fine))) h
create_by-fits invalid_query d e m t c r h =
    made-fits (d || other_code e "invalid_query") _ r (λ _. refl) h
create_by-fits unauthorized d e m t c r h =
    made-fits (d || other_code e "unauthorized") _ r (λ _. refl) h
create_by-fits rate_limited d e m t c r h =
    made-fits (d || other_code e "rate_limited") _ r (λ _. refl) h
create_by-fits provider_unavailable d e m t c r h =
    made-fits (d || other_code e "provider_unavailable") _ r (λ _. refl) h
create_by-fits parse_error d e m t c r h =
    made-fits (d || other_code e "parse_error") _ r (λ _. refl) h

pub create_provider_result-fits :
    (status : ProviderStatus) (has_data : Bool) (error_code message : Option String)
    (fetched_at : Option ℕ) (from_cache : Bool) (r : ProviderResult)
    → create_provider_result status has_data error_code message fetched_at from_cache ≡ ok r
    → provider_result_ok r ≡ true
unfolding create_provider_result
create_provider_result-fits status d e m none c r h = absurd (ground (arith, h))
create_provider_result-fits status d e m (some time) c r h = create_by-fits status d e m time c r h
