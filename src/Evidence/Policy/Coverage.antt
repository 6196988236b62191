-- ===== src/Evidence/Policy/Coverage.antt =====
-- The sources that the checks and the decision of app/evidence/policy.py name.
use questock.Prelude.{
  ◌≡◌, refl, sym, ◌∙◌, subst, Bool, true, false, not, List, [], ◌∷◌, String, str_eq, eq_iff,
  string_eq, if_true, if_false, arith, Bool-cases, inl, inr,
}
use questock.Exec.{Result, ok, raise}
use questock.Core.Models.{elem, has_duplicates}
use questock.Core.Plan.{QueryPlan}
use questock.Evidence.Policy.Inputs.{
  PolicyError, unless, passed, then_check, strings_eq, check_plan, check_shape, check_security,
  check_range, three_sources, plan_matrix, contract_of, fits_contract, matrix_ok, string_list_ok,
}
use questock.Evidence.Policy.Decide.{EvidenceDecision, coverage_sources, sources_where, sources_ok}
use questock.Evidence.Policy.Sources.{
  elem-sources_where, has_duplicates-sources_where, overlap-sources_where, sources_where-cong,
  strings_eq_refl, strings_eq-eq, subset-sources_where, ordered_from-sources_where,
}

pub unless-passed :
    (test : Bool) (error : PolicyError) (rest : Result PolicyError (Unit {0}))
    → unless test error rest ≡ passed
    → (test ≡ true) × (rest ≡ passed)
unless-passed true error rest h = (refl, h)
unless-passed false error rest h = absurd (ground arith)

pub then_check-passed :
    (first second : Result PolicyError (Unit {0}))
    → then_check first second ≡ passed
    → (first ≡ passed) × (second ≡ passed)
then_check-passed (ok tt) second h = (refl, h)
then_check-passed (raise error) second h = absurd (ground arith)

-- What the checks of the plan say of its sources.
check_plan-passed :
    (plan : QueryPlan)
    → check_plan plan ≡ passed
    → (has_duplicates plan.required_sources ≡ false) × (matrix_ok plan ≡ true)
unfolding check_plan string_list_ok
check_plan-passed plan h =
    let a =
      then_check-passed (check_security plan.security)
        (then_check (check_range plan.date_range) (check_shape plan)) h in
    let b = then_check-passed (check_range plan.date_range) (check_shape plan) a.1 in
    ground (arith, b.1)

price_move-sources :
    (plan : QueryPlan)
    → matrix_ok plan ≡ true
    → plan.requires_clarification ≡ false
    → str_eq plan.intent "price_move" ≡ true
    → plan.required_sources ≡ three_sources
unfolding matrix_ok
price_move-sources plan h answers named =
    let fits : fits_contract (contract_of plan.intent plan_matrix) plan ≡ true =
      sym (if_false plan.requires_clarification _ _ answers) ∙ h in
    let here : fits_contract (contract_of "price_move" plan_matrix) plan ≡ true =
      subst (λ (x : String). fits_contract (contract_of x plan_matrix) plan ≡ true)
        ((eq_iff plan.intent "price_move").0 named) fits in
    strings_eq-eq plan.required_sources three_sources (ground (arith, here))

-- The sources that must be covered are required, and none stands twice.
pub record CoversWell (required coverage : List String) : Type 0 where
  pub once : has_duplicates required ≡ false
  pub covered_once : has_duplicates coverage ≡ false
  pub required_too : (s : String) → elem s coverage ≡ true → elem s required ≡ true

pub coverage-CoversWell :
    (plan : QueryPlan)
    → check_plan plan ≡ passed
    → plan.requires_clarification ≡ false
    → CoversWell plan.required_sources (coverage_sources plan)
coverage-CoversWell plan h answers =
    let (once, fits) = check_plan-passed plan h in
    elim (Bool-cases (str_eq plan.intent "price_move")) [
      | inr other ↦
          let same : plan.required_sources ≡ coverage_sources plan =
            sym (if_false (str_eq plan.intent "price_move") _ _ other) in
          subst (λ (l : List String). CoversWell plan.required_sources l) same
            (record { once = once; covered_once = once; required_too = λ s k. k })
      | inl named ↦
          let three = price_move-sources plan fits answers named in
          let news : "news" ∷ [] ≡ coverage_sources plan =
            sym (if_true (str_eq plan.intent "price_move") _ _ named) in
          subst (λ (l : List String). CoversWell plan.required_sources l) news
            (record {
              once = once;
              covered_once = refl;
              required_too = λ s k.
                  subst (λ (l : List String). elem s l ≡ true) (sym three) (ground (arith, k));
            })
    ]

-- The lists of a decision are parts of the required sources and of those to be covered.
module _ (required coverage : List String) (good : CoversWell required coverage) where
  missing-expected :
      (p : String → Bool)
      → strings_eq
          (sources_where (λ s. not (p s)) coverage)
          (sources_where (λ s. not (elem s (sources_where p required))) coverage)
        ≡ true
  missing-expected p =
      let same =
        sources_where-cong (λ s. not (p s)) (λ s. not (elem s (sources_where p required))) coverage
          (λ s h. ground (arith, elem-sources_where p s required, good.required_too s h)) in
      subst (λ (l : List String). strings_eq (sources_where (λ s. not (p s)) coverage) l ≡ true)
        same (strings_eq_refl (sources_where (λ s. not (p s)) coverage))

  pub sources_ok-parts :
      (p n f : String → Bool) (d : EvidenceDecision)
      → ((s : String) → n s ≡ true → f s ≡ false)
      → d.satisfied_sources ≡ sources_where p required
      → d.missing_sources ≡ sources_where (λ s. not (p s)) coverage
      → d.no_data_sources ≡ sources_where n coverage
      → d.failed_sources ≡ sources_where f coverage
      → sources_ok required coverage d ≡ true
  unfolding sources_ok
  sources_ok-parts p n f d apart satisfied missing lacking failed = ground (
    arith,
    has_duplicates-sources_where p required good.once,
    has_duplicates-sources_where (λ s. not (p s)) coverage good.covered_once,
    overlap-sources_where p (λ s. not (p s)) required coverage (λ s h. ground (arith, h)),
    missing-expected p,
    ordered_from-sources_where p required good.once,
    ordered_from-sources_where (λ s. not (p s)) coverage good.covered_once,
    subset-sources_where n coverage,
    subset-sources_where f coverage,
    overlap-sources_where n f coverage coverage apart,
    ordered_from-sources_where n coverage good.covered_once,
    ordered_from-sources_where f coverage good.covered_once,
  )
