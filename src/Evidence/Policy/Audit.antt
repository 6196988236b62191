-- ===== src/Evidence/Policy/Audit.antt =====
-- The audit at the end of `EvidencePolicy.evaluate` of app/evidence/policy.py never fails.
use questock.Evidence.Policy.Coverage.{
  unless-passed, then_check-passed, coverage-CoversWell, sources_ok-parts,
}
use questock.Prelude.{
  ◌≡◌, ◌≢◌, if_cong, refl, ◌∙◌, Bool, true, false, not, ◌&&◌, Option, none, some, List, [], ◌∷◌,
  String, str_eq, string_eq, if◌then◌else◌, if_true, if_false, arith, Bool-cases, inl, inr,
}
use questock.Exec.{ok, raise}
use questock.Dict.{Dict, lookup}
use questock.Core.Models.{elem}
use questock.Core.Evidence.{Evidence}
use questock.Core.Plan.{
  QueryPlan, ProviderResult, ProviderStatus, provider_ok, no_data, invalid_query, unauthorized,
  rate_limited, timeout, provider_unavailable, parse_error,
}
use questock.Evidence.Freshness.{FreshnessResult}
use questock.Retrieval.Retriever.{RetrievalResult, Status, ok_status, empty, low_relevance, is_nil}
use questock.Evidence.Policy.Inputs.{
  bad_providers, inconsistent, unless, passed, then_check, strings_eq, check_plan, providers_ok,
}
use questock.Evidence.Policy.Results.{
  check_freshness, check_retrieval, contract_ok, window_sources, sources_among, use_first,
  occurrences_ok, target_ok, status_fits,
}
use questock.Evidence.Policy.Decide.{
  EvidenceDecision, coverage_sources, returned_sources, no_data_status, failure_status, status_is,
  has_limiting, falls_short, status_of, draft, sources_ok, status_ok, is_blocked, invariants_ok,
  check_inputs, clarification, decision, evaluate,
}

no_data-not_failure :
    (r : Option ProviderResult)
    → status_is no_data_status r ≡ true
    → status_is failure_status r ≡ false
no_data-not_failure none h = refl
no_data-not_failure (some r) h = by_status r.status h
  where
    by_status :
        (status : ProviderStatus) → no_data_status status ≡ true → failure_status status ≡ false
    by_status no_data h = refl
    by_status provider_ok h = refl
    by_status invalid_query h = absurd (ground arith)
    by_status unauthorized h = absurd (ground arith)
    by_status rate_limited h = absurd (ground arith)
    by_status timeout h = absurd (ground arith)
    by_status provider_unavailable h = absurd (ground arith)
    by_status parse_error h = absurd (ground arith)

-- The status that is chosen passes its own test.
status_of-ok :
    (status : Status) (d : EvidenceDecision) (required : List String) (limiting : Bool)
    → (status ≡ ok_status → (is_nil d.evidence ≡ false) × (is_nil required ≡ false))
    → (status ≢ ok_status → is_nil d.evidence ≡ true)
    → (is_blocked (status_of status d.failed_sources (falls_short d limiting)) ≡ false)
      × (status_ok (status_of status d.failed_sources (falls_short d limiting)) required d limiting
          ≡ true)
status_of-ok ok_status d required limiting full none_left =
    let (found, asked) = full refl in
    elim (Bool-cases (falls_short d limiting)) [
      | inl short ↦ rw short (refl, ground (arith, found, short))
      | inr whole ↦ rw whole (refl, ground (arith, found, asked, whole))
    ]
status_of-ok empty d required limiting full none_left =
    let nothing = none_left (λ e. cc) in
    elim (Bool-cases (is_nil d.failed_sources)) [
      | inl fine ↦ rw fine (refl, ground (arith, nothing, fine))
      | inr broken ↦ rw broken (refl, ground (arith, nothing, broken))
    ]
status_of-ok low_relevance d required limiting full none_left =
    let nothing = none_left (λ e. cc) in
    elim (Bool-cases (is_nil d.failed_sources)) [
      | inl fine ↦ rw fine (refl, ground (arith, nothing, fine))
      | inr broken ↦ rw broken (refl, ground (arith, nothing, broken))
    ]

use_first-some :
    (same : Evidence → Evidence → Bool) (available : List Evidence) (es : List Evidence)
    → occurrences_ok same available es ≡ true
    → is_nil es ≡ false
    → is_nil available ≡ false
unfolding occurrences_ok use_first
use_first-some same available [] h k = absurd (ground arith)
use_first-some same [] (e ∷ es) h k = absurd (ground arith)
use_first-some same (c ∷ cs) (e ∷ es) h k = refl

windows-required :
    (es : List Evidence) (sources required : List String)
    → sources_among es sources ≡ true
    → is_nil es ≡ false
    → strings_eq sources required ≡ true
    → is_nil required ≡ false
windows-required [] sources required h k q = absurd (ground arith)
windows-required (e ∷ es) [] required h k q = absurd (ground arith)
windows-required (e ∷ es) (s ∷ ss) [] h k q = absurd (ground arith)
windows-required (e ∷ es) (s ∷ ss) (r ∷ rs) h k q = refl

-- Which evidence a retrieval that passes its check has.
fits-evidence :
    (r : RetrievalResult) (status : Status)
    → status_fits status r ≡ true
    → (status ≡ ok_status → is_nil r.evidence ≡ false)
      × (status ≢ ok_status → is_nil r.evidence ≡ true)
fits-evidence r ok_status h = (λ e. ground (arith, h), λ n. absurd (n refl))
fits-evidence r empty h = (λ e. absurd (ground (arith, e)), λ n. ground (arith, h))
fits-evidence r low_relevance h = (λ e. absurd (ground (arith, e)), λ n. ground (arith, h))

module _ (plan : QueryPlan) (providers : Dict String ProviderResult) (freshness : FreshnessResult)
    (retrieval : RetrievalResult)
    (checked : check_inputs plan providers freshness retrieval ≡ passed) where
  inputs-passed :
      (check_plan plan ≡ passed)
      × (check_freshness freshness plan (not plan.requires_clarification) ≡ passed)
      × (check_retrieval retrieval ≡ passed)
  inputs-passed =
      let fresh = check_freshness freshness plan (not plan.requires_clarification) in
      let rest = then_check fresh (check_retrieval retrieval) in
      let a =
        then_check-passed (check_plan plan) (unless (providers_ok providers) bad_providers rest)
          checked in
      let b = unless-passed (providers_ok providers) bad_providers rest a.1 in
      let c = then_check-passed fresh (check_retrieval retrieval) b.1 in (a.0, c.0, c.1)

  required-some :
      (same : Evidence → Evidence → Bool)
      → plan.requires_clarification ≡ false
      → occurrences_ok same freshness.evidence retrieval.evidence ≡ true
      → is_nil retrieval.evidence ≡ false
      → is_nil plan.required_sources ≡ false
  unfolding check_freshness contract_ok
  required-some same answers taken found =
      let (a, fresh, c) = inputs-passed in
      let available = use_first-some same freshness.evidence retrieval.evidence taken found in
      windows-required freshness.evidence (window_sources freshness.windows) plan.required_sources
        (ground (arith, fresh)) available (ground (arith, fresh, answers))

  decision-ok :
      (same : Evidence → Evidence → Bool)
      → plan.requires_clarification ≡ false
      → occurrences_ok same freshness.evidence retrieval.evidence ≡ true
      → invariants_ok plan
          (decision plan providers freshness retrieval)
          (has_limiting (coverage_sources plan) freshness.warnings)
        ≡ true
  unfolding invariants_ok draft check_retrieval
  decision-ok same answers taken =
      let (planned, b, retrieved) = inputs-passed in
      let coverage = coverage_sources plan in
      let limiting = has_limiting coverage freshness.warnings in
      let d = decision plan providers freshness retrieval in
      let returned = returned_sources retrieval.evidence in
      let fits : status_fits retrieval.status retrieval ≡ true = ground (arith, retrieved) in
      let (full, none_left) = fits-evidence retrieval retrieval.status fits in
      let parts : sources_ok plan.required_sources coverage d ≡ true =
        sources_ok-parts plan.required_sources coverage (coverage-CoversWell plan planned answers)
          (λ s. elem s returned) (λ s. status_is no_data_status (lookup s providers))
          (λ s. status_is failure_status (lookup s providers)) d
          (λ s h. no_data-not_failure (lookup s providers) h) refl refl refl refl in
      let (open_status, settled) =
        status_of-ok retrieval.status d plan.required_sources limiting
          (λ e. (full e, required-some same answers taken (full e))) none_left in
      if_false (is_blocked d.status) _ _ open_status
      ∙ if_false plan.requires_clarification _ _ answers
      ∙ ground (arith, parts, settled)

clarification-ok :
    (plan : QueryPlan)
    → plan.requires_clarification ≡ true
    → invariants_ok plan (clarification plan) false ≡ true
unfolding invariants_ok
clarification-ok plan asks = elim (Bool-cases (str_eq plan.intent "prohibited_advice")) [
  | inl advice ↦ rw advice (ground (arith, asks))
  | inr other ↦ rw other (ground (arith, asks))
]

-- On inputs that pass their checks the audit of the decision never fails: a plan that asks for
-- clarification gets an empty decision, BLOCKED for prohibited advice and NO_EVIDENCE otherwise;
-- for any other plan the evidence must be an occurrence in the freshness result and name the
-- target, and then the decision that was drawn up is returned.
pub evaluate_lem :
    (same : Evidence → Evidence → Bool) (plan : QueryPlan) (providers : Dict String ProviderResult)
    (freshness : FreshnessResult) (retrieval : RetrievalResult)
    → check_inputs plan providers freshness retrieval ≡ passed
    → evaluate same plan providers freshness retrieval ≡ (
        if plan.requires_clarification
        then ok (clarification plan)
        else if occurrences_ok same freshness.evidence retrieval.evidence
            && target_ok plan retrieval.evidence
        then ok (decision plan providers freshness retrieval)
        else raise inconsistent)
unfolding evaluate
evaluate_lem same plan providers freshness retrieval checked = rw checked (
    if_cong plan.requires_clarification _ _ _ _ (λ asks. if_true _ _ _ (clarification-ok plan asks))
      (λ answers.
        if_cong
          (occurrences_ok same freshness.evidence retrieval.evidence
            && target_ok plan retrieval.evidence)
          _ _ _ _
          (λ both. if_true _ _ _ (
            decision-ok plan providers freshness retrieval checked same answers
              (ground (arith, both))))
          (λ _. refl)))
