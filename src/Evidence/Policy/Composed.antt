-- ===== src/Evidence/Policy/Composed.antt =====
-- The freshness, the retriever (app/retrieval/retriever.py) and the policy (app/evidence/policy.py),
-- one after the other as in `_run_evidence_pipeline` of app/services/chat_service.py.
use questock.Evidence.Policy.Accepted.{retrieved, retrieve_evidence-runs, retrieved-passes}
use questock.Evidence.Policy.Occurrences.{IsSame, occurrences_ok-matches}
use questock.Prelude.{
  some, List, ℕ, ◌≤◌, ◌≡◌, ap, ◌∙◌, Bool, true, false, not, ◌&&◌, ◌||◌, Option, none, [], String,
  if◌then◌else◌, if_false, arith,
}
use questock.Exec.{ok, raise}
use questock.Dict.{Dict}
use questock.Core.Unicode.{Unicode}
use questock.Core.Evidence.{Evidence}
use questock.Core.Plan.{QueryPlan, ProviderResult}
use questock.Evidence.Freshness.{FreshnessResult}
use questock.Retrieval.Filters.{FinancialDocument, RetrievalRequest, documents_ok}
use questock.Retrieval.Scores.{Floats}
use questock.Retrieval.Retriever.{RetrievalResult, retrieve_evidence}
use questock.Retrieval.Retriever.Matches.{matches-retrieve_filtered}
use questock.Evidence.Policy.Coverage.{unless-passed}
use questock.Evidence.Policy.Inputs.{
  bad_freshness, inconsistent, unless, passed, check_plan, providers_ok,
}
use questock.Evidence.Policy.Results.{
  all_canonical, check_freshness, dated_ok, windows_ok, sources_among, warnings_ok, latest_ok,
  window_sources, contract_ok, occurrences_ok, target_ok,
}
use questock.Evidence.Policy.Decide.{check_inputs, decision, evaluate}
use questock.Evidence.Freshness.Evaluate.{evaluate_freshness}
use questock.Evidence.Policy.FreshAccepted.{Follows, evaluate_freshness-accepted}
use questock.Evidence.Policy.Audit.{evaluate_lem}

check_freshness-canonical :
    (freshness : FreshnessResult) (plan : QueryPlan) (enforce : Bool)
    → check_freshness freshness plan enforce ≡ passed
    → all_canonical freshness.evidence ≡ true
unfolding check_freshness
check_freshness-canonical freshness plan enforce h =
    let sources = window_sources freshness.windows in
    let (sound, rest) =
      unless-passed
        (dated_ok freshness.basis_at freshness.basis_date
          && windows_ok [] freshness.windows
          && all_canonical freshness.evidence
          && sources_among freshness.evidence sources
          && warnings_ok sources none freshness.warnings
          && latest_ok freshness.latest_effective_disclosure_at sources)
        bad_freshness (unless (not enforce || contract_ok freshness plan) inconsistent passed) h in
    ground (arith, sound)

-- On the evidence of a freshness result, retrieval with documents under their own ids and top_k at
-- least 1 returns a result that the policy accepts: for a plan that does not ask for clarification,
-- and plan, providers and freshness that pass their checks, evaluate returns the decision that was
-- drawn up, unless an item does not name the target, and then it raises. The equality of evidence
-- is any that leaves out scores, is reflexive and lets equal items equal the same items; the
-- rounded score of 0.0 is 0.
pub evaluate-retrieve_evidence :
    (same : Evidence → Evidence → Bool) (f : Floats) (u : Unicode) (plan : QueryPlan)
    (providers : Dict String ProviderResult) (freshness : FreshnessResult)
    (request : RetrievalRequest) (documents : Option (Dict String FinancialDocument))
    → IsSame same
    → f.millionths (f.hundredths 0) ≡ 0
    → documents_ok documents ≡ true
    → 1 ≤ request.top_k
    → plan.requires_clarification ≡ false
    → check_plan plan ≡ passed
    → providers_ok providers ≡ true
    → check_freshness freshness plan true ≡ passed
    → (x : RetrievalResult) × (retrieve_evidence f u freshness.evidence request documents ≡ ok x)
      × (evaluate same plan providers freshness x ≡ (
          if target_ok plan x.evidence
          then ok (decision plan providers freshness x)
          else raise inconsistent))
evaluate-retrieve_evidence same f u plan providers freshness request documents good zero_score
      linked wanted answers planned provided fresh =
    let x = retrieved f u freshness.evidence request documents in
    let canonical = check_freshness-canonical freshness plan true fresh in
    let passes =
      retrieved-passes f u freshness.evidence request documents zero_score linked wanted
        canonical in
    let occur : occurrences_ok same freshness.evidence x.evidence ≡ true =
      occurrences_ok-matches same good freshness.evidence x.evidence (λ d.
        matches-retrieve_filtered (same d) (λ e s. good.rescored d e s) f u documents request
          freshness.evidence) in
    let fresh' : check_freshness freshness plan (not plan.requires_clarification) ≡ passed =
      ap (λ (b : Bool). check_freshness freshness plan (not b)) answers ∙ fresh in
    let checked : check_inputs plan providers freshness x ≡ passed =
      rw planned (rw provided (rw fresh' passes)) in
    (
      x,
      retrieve_evidence-runs f u freshness.evidence request documents linked,
      evaluate_lem same plan providers freshness x checked
          ∙ if_false _ _ _ answers
          ∙ ap
              (λ (b : Bool).
                if b && target_ok plan x.evidence
                then ok (decision plan providers freshness x)
                else raise inconsistent)
              occur,
    )

-- Where evaluate_freshness returns a result for a request with the sources and the dates of a plan,
-- retrieval on its evidence returns a result, and the policy accepts both: for a plan that does not
-- ask for clarification, and plan, providers and items of the input that pass their checks,
-- evaluate returns the decision that was drawn up, unless an item does not name the target, and
-- then it raises. The equality of evidence is any that leaves out scores, is reflexive and lets
-- equal items equal the same items; the rounded score of 0.0 is 0.
pub evaluate_freshness-evaluate :
    (same : Evidence → Evidence → Bool) (f : Floats) (u : Unicode) (plan : QueryPlan)
    (providers : Dict String ProviderResult) (request : RetrievalRequest)
    (documents : Dict String FinancialDocument) (basis : ℕ) (evidence : List Evidence)
    (freshness : FreshnessResult)
    → IsSame same
    → f.millionths (f.hundredths 0) ≡ 0
    → plan.requires_clarification ≡ false
    → check_plan plan ≡ passed
    → providers_ok providers ≡ true
    → Follows plan request
    → all_canonical evidence ≡ true
    → evaluate_freshness u evidence request documents (some basis) ≡ ok freshness
    → (x : RetrievalResult) × (retrieve_evidence f u freshness.evidence request (some documents)
        ≡ ok x)
      × (evaluate same plan providers freshness x ≡ (
          if target_ok plan x.evidence
          then ok (decision plan providers freshness x)
          else raise inconsistent))
evaluate_freshness-evaluate same f u plan providers request documents basis evidence freshness good
      zero_score answers planned provided follows canonical made =
    let (fresh, fits, wanted) =
      evaluate_freshness-accepted plan request planned follows documents basis evidence canonical u
        freshness made in
    evaluate-retrieve_evidence same f u plan providers freshness request (some documents) good
      zero_score fits (ground (arith, wanted)) answers planned provided fresh
