-- ===== src/Evidence/Policy/Decide.antt =====
-- `EvidencePolicy.evaluate` of app/evidence/policy.py, and its audit of the decision.
use questock.Prelude.{
  ℕ, ◌+◌, Bool, true, false, not, ◌&&◌, ◌||◌, Option, none, some, List, [], ◌∷◌, String, str_eq,
  string_eq, ltb, if◌then◌else◌,
}
use questock.Exec.{Result, ok, raise, and_then}
use questock.Dict.{Dict, lookup}
use questock.Core.Models.{elem, has_duplicates}
use questock.Core.Evidence.{Evidence, overlap}
use questock.Core.Plan.{
  QueryPlan, ProviderStatus, provider_ok, no_data, ProviderResult, DecisionStatus, complete,
  partial, provider_failed, no_evidence, blocked,
}
use questock.Evidence.Freshness.{FreshnessWarning, FreshnessResult}
use questock.Retrieval.Retriever.{RetrievalResult, Status, ok_status, is_nil}
use questock.Evidence.Policy.Inputs.{
  PolicyError, bad_providers, inconsistent, unless, then_check, strings_eq, check_plan,
  providers_ok,
}
use questock.Evidence.Policy.Results.{check_freshness, check_retrieval, occurrences_ok, target_ok}

pub record EvidenceDecision : Type 0 where
  pub status : DecisionStatus
  pub evidence : List Evidence
  pub warnings : List FreshnessWarning
  pub satisfied_sources : List String
  pub missing_sources : List String
  pub no_data_sources : List String
  pub failed_sources : List String

-- `_coverage_sources`
abbrev pub coverage_sources : QueryPlan → List String
coverage_sources plan =
    if str_eq plan.intent "price_move" then "news" ∷ [] else plan.required_sources

-- `returned_sources`
abbrev pub returned_sources : List Evidence → List String
returned_sources [] = []
returned_sources (e ∷ es) = e.source_type ∷ returned_sources es

-- A comprehension over sources.
abbrev pub sources_where : (String → Bool) → List String → List String
sources_where p [] = []
sources_where p (s ∷ ss) = if p s then s ∷ sources_where p ss else sources_where p ss

abbrev pub no_data_status : ProviderStatus → Bool
no_data_status no_data = true
no_data_status _ = false

-- The status is a key of `_FAILURE_ERROR_CODES`.
abbrev pub failure_status : ProviderStatus → Bool
failure_status provider_ok = false
failure_status no_data = false
failure_status _ = true

-- `source in providers and test(providers[source].status)`
abbrev pub status_is : (ProviderStatus → Bool) → Option ProviderResult → Bool
status_is test none = false
status_is test (some r) = test r.status

-- `_LIMITING_WARNINGS`
abbrev pub limiting_codes : List String
limiting_codes =
    "stale_news" ∷ "stale_research_report" ∷ "insufficient_disclosure_coverage"
    ∷ "unresolved_disclosure_correction" ∷ []

abbrev pub has_limiting : List String → List FreshnessWarning → Bool
has_limiting coverage [] = false
has_limiting coverage (w ∷ ws) =
    elem w.warning_code limiting_codes && elem w.source_type coverage || has_limiting coverage ws

abbrev pub covered_warnings : List String → List FreshnessWarning → List FreshnessWarning
covered_warnings coverage [] = []
covered_warnings coverage (w ∷ ws) =
    if elem w.source_type coverage
    then w ∷ covered_warnings coverage ws
    else covered_warnings coverage ws

-- `bool(a or b or c or limiting_warning)`
abbrev pub falls_short : EvidenceDecision → Bool → Bool
falls_short d limiting =
    not (is_nil d.missing_sources)
    || not (is_nil d.no_data_sources)
    || not (is_nil d.failed_sources)
    || limiting

-- The status by that of the retrieval, by the failed sources and by whether the evidence falls
-- short.
abbrev pub status_of : Status → List String → Bool → DecisionStatus
status_of ok_status failed short = if short then partial else complete
status_of _ failed short = if is_nil failed then no_evidence else provider_failed

-- The decision, its status left open.
unfoldable pub draft :
    QueryPlan → Dict String ProviderResult → FreshnessResult → RetrievalResult → EvidenceDecision
draft plan providers freshness retrieval =
    let coverage = coverage_sources plan in
    let returned = returned_sources retrieval.evidence in
    record {
      status = no_evidence;
      evidence = retrieval.evidence;
      warnings = covered_warnings coverage freshness.warnings;
      satisfied_sources = sources_where (λ s. elem s returned) plan.required_sources;
      missing_sources = sources_where (λ s. not (elem s returned)) coverage;
      no_data_sources = sources_where (λ s. status_is no_data_status (lookup s providers)) coverage;
      failed_sources = sources_where (λ s. status_is failure_status (lookup s providers)) coverage;
    }

abbrev pub empty_decision : DecisionStatus → EvidenceDecision
empty_decision status = record {
  status = status;
  evidence = [];
  warnings = [];
  satisfied_sources = [];
  missing_sources = [];
  no_data_sources = [];
  failed_sources = [];
}

abbrev pub or_else {ℓ} : {A : Type ℓ} → Option A → Option A → Option A
or_else (some a) other = some a
or_else none other = other

-- `positions.get(value)`: the last place of a value.
abbrev pub last_place : ℕ → String → List String → Option ℕ
last_place at s [] = none
last_place at s (x ∷ xs) = or_else (last_place (at + 1) s xs) (if str_eq x s then some at else none)

abbrev pub place_after : Option ℕ → Option ℕ → Bool
place_after none previous = false
place_after (some i) none = true
place_after (some i) (some j) = ltb j i

-- `_is_ordered_subsequence`, from the place of the value before on.
unfoldable pub ordered_from : List String → Option ℕ → List String → Bool
ordered_from expected previous [] = true
ordered_from expected previous (v ∷ vs) =
    let place = last_place 0 v expected in
    place_after place previous && ordered_from expected place vs

-- `set(values).issubset(coverage)`
abbrev pub subset : List String → List String → Bool
subset [] coverage = true
subset (v ∷ vs) coverage = elem v coverage && subset vs coverage

abbrev pub all_empty : EvidenceDecision → Bool
all_empty d =
    is_nil d.evidence
    && is_nil d.warnings
    && is_nil d.satisfied_sources
    && is_nil d.missing_sources
    && is_nil d.no_data_sources
    && is_nil d.failed_sources

-- The tests on the lists of sources.
unfoldable pub sources_ok : List String → List String → EvidenceDecision → Bool
sources_ok required coverage d =
    not (has_duplicates d.satisfied_sources)
    && not (has_duplicates d.missing_sources)
    && not (overlap d.satisfied_sources d.missing_sources)
    && strings_eq d.missing_sources (sources_where (λ s. not (elem s d.satisfied_sources)) coverage)
    && ordered_from required none d.satisfied_sources
    && ordered_from coverage none d.missing_sources
    && subset d.no_data_sources coverage
    && subset d.failed_sources coverage
    && not (overlap d.no_data_sources d.failed_sources)
    && ordered_from coverage none d.no_data_sources
    && ordered_from coverage none d.failed_sources

abbrev pub status_ok : DecisionStatus → List String → EvidenceDecision → Bool → Bool
status_ok complete required d limiting =
    not (is_nil d.evidence) && not (is_nil required) && not (falls_short d limiting)
status_ok partial required d limiting = not (is_nil d.evidence) && falls_short d limiting
status_ok provider_failed required d limiting = is_nil d.evidence && not (is_nil d.failed_sources)
status_ok no_evidence required d limiting = is_nil d.evidence && is_nil d.failed_sources
status_ok blocked required d limiting = false

abbrev pub is_blocked : DecisionStatus → Bool
is_blocked blocked = true
is_blocked _ = false

abbrev pub is_no_evidence : DecisionStatus → Bool
is_no_evidence no_evidence = true
is_no_evidence _ = false

-- `_validate_decision_invariants`
unfoldable pub invariants_ok : QueryPlan → EvidenceDecision → Bool → Bool
invariants_ok plan d limiting =
    if is_blocked d.status
    then str_eq plan.intent "prohibited_advice" && plan.requires_clarification && all_empty d
    else if plan.requires_clarification
    then is_no_evidence d.status && all_empty d
    else sources_ok plan.required_sources (coverage_sources plan) d
      && status_ok d.status plan.required_sources d limiting

-- `_create_decision`
abbrev pub create_decision :
    QueryPlan → EvidenceDecision → Bool → Result PolicyError EvidenceDecision
create_decision plan d limiting = if invariants_ok plan d limiting then ok d else raise inconsistent

-- The inputs up to the retrieval.
abbrev pub check_inputs :
    QueryPlan
    → Dict String ProviderResult
    → FreshnessResult
    → RetrievalResult
    → Result PolicyError (Unit {0})
check_inputs plan providers freshness retrieval = then_check (check_plan plan) (
    unless (providers_ok providers) bad_providers (
      then_check (check_freshness freshness plan (not plan.requires_clarification))
        (check_retrieval retrieval)))

-- What a plan that asks for clarification gets.
abbrev pub clarification : QueryPlan → EvidenceDecision
clarification plan =
    empty_decision (if str_eq plan.intent "prohibited_advice" then blocked else no_evidence)

-- The decision of all other plans.
abbrev pub decision :
    QueryPlan → Dict String ProviderResult → FreshnessResult → RetrievalResult → EvidenceDecision
decision plan providers freshness retrieval =
    let d = draft plan providers freshness retrieval in
    record d {
      status =
          status_of retrieval.status d.failed_sources
            (falls_short d (has_limiting (coverage_sources plan) freshness.warnings));
    }

-- `EvidencePolicy.evaluate`; `same` is the equality of two pieces of evidence without their scores.
unfoldable pub evaluate :
    (Evidence → Evidence → Bool)
    → QueryPlan
    → Dict String ProviderResult
    → FreshnessResult
    → RetrievalResult
    → Result PolicyError EvidenceDecision
evaluate same plan providers freshness retrieval =
    and_then (check_inputs plan providers freshness retrieval) (λ _.
      if plan.requires_clarification
      then create_decision plan (clarification plan) false
      else if occurrences_ok same freshness.evidence retrieval.evidence
          && target_ok plan retrieval.evidence
      then create_decision plan (decision plan providers freshness retrieval)
          (has_limiting (coverage_sources plan) freshness.warnings)
      else raise inconsistent)
