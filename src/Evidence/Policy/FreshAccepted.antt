-- ===== src/Evidence/Policy/FreshAccepted.antt =====
-- What `evaluate_freshness` of app/evidence/freshness.py returns for the sources and the dates of a
-- plan passes the checks of app/evidence/policy.py.
use questock.Prelude.{
  ℕ, ◌≡◌, refl, sym, ap, ◌∙◌, subst, Bool, true, false, not, ◌&&◌, ◌||◌, inl, inr, ◌⊎◌, Option,
  some, none, List, [], ◌∷◌, String, string_eq, eq_iff, ltb, if◌then◌else◌, if_true, if_false,
  arith, Bool-cases, All,
}
use questock.Exec.{ok}
use questock.Dict.{Dict}
use questock.Core.Unicode.{Unicode}
use questock.Core.Models.{elem, has_duplicates, DateRange, date_range_ok}
use questock.Core.Evidence.{Evidence}
use questock.Core.Plan.{QueryPlan}
use questock.Evidence.Freshness.{FreshnessResult, FreshnessWindow}
use questock.Evidence.Freshness.Candidates.{Candidate, is_disclosure, request_ok}
use questock.Evidence.Freshness.Disclosures.{Metadata}
use questock.Evidence.Freshness.Corrections.{Edges}
use questock.Evidence.Freshness.Windows.{
  meaningful_range, own_window, own_windows, user_windows, windows_for, latest_timestamp,
}
use questock.Evidence.Freshness.Evaluate.{
  unique_from, evidence_of, retained_of, latest_of, result_of, evaluate_freshness,
}
use questock.Evidence.Freshness.Evaluate.OwnWindows.{IsFresh}
use questock.Evidence.Freshness.Evaluate.Linked.{link_all-IsLinked}
use questock.Evidence.Freshness.Evaluate.Retained.{result-IsFresh, evaluate_freshness-result}
use questock.Retrieval.Filters.{keys_match, FinancialDocument, RetrievalRequest, local_day}
use questock.Evidence.Policy.Inputs.{
  bad_freshness, inconsistent, supported_sources, all_in, string_list_ok, strings_eq, unless,
  passed, then_check, check_security, check_range, check_shape, check_plan,
}
use questock.Evidence.Policy.Results.{
  all_canonical, window_sources, sources_among, same_day, own_mode, user_windows as all_by_user,
  own_windows as all_own, range_windows, contract_ok, dated_ok, latest_ok, windows_ok, warnings_ok,
  check_freshness, meaningful,
}
use questock.Evidence.Policy.Coverage.{then_check-passed}
use questock.Evidence.Policy.Sources.{strings_eq_refl}
use questock.Evidence.Policy.Accepted.{all_canonical-in}
use questock.Evidence.Policy.FreshWindows.{
  Supported, supported-cases, windows_for-sources, windows_for-ok, unique_from-once,
}
use questock.Evidence.Policy.FreshWarnings.{keys-Matched, ordered_warnings-ok}

all_in-Supported : (ss : List String) → all_in ss supported_sources ≡ true → Supported ss
all_in-Supported [] h = tt
all_in-Supported (s ∷ ss) h = (ground (arith, h), all_in-Supported ss (ground (arith, h)))

check_plan-Supported :
    (plan : QueryPlan)
    → check_plan plan ≡ passed
    → Supported plan.required_sources × (has_duplicates plan.required_sources ≡ false)
unfolding check_plan string_list_ok
check_plan-Supported plan h =
    let a =
      then_check-passed (check_security plan.security)
        (then_check (check_range plan.date_range) (check_shape plan)) h in
    let b = then_check-passed (check_range plan.date_range) (check_shape plan) a.1 in
    (all_in-Supported plan.required_sources (ground (arith, b.1)), ground (arith, b.1))

own_window-own :
    (day : ℕ) (extended : Bool) (s : String)
    → elem s supported_sources ≡ true
    → own_mode (own_window day extended s) ≡ true
own_window-own day true s h =
    supported-cases (λ (x : String). own_mode (own_window day true x) ≡ true) (ground arith)
      (ground arith) (ground arith) (ground arith) s h
own_window-own day false s h =
    supported-cases (λ (x : String). own_mode (own_window day false x) ≡ true) (ground arith)
      (ground arith) (ground arith) (ground arith) s h

own_windows-own_mode :
    (day : ℕ) (extended : Bool) (ss : List String)
    → Supported ss
    → all_own (own_windows day extended ss) ≡ true
own_windows-own_mode day extended [] h = refl
own_windows-own_mode day extended (s ∷ ss) h =
    ground (arith, own_window-own day extended s h.0, own_windows-own_mode day extended ss h.1)

same_day_refl : (o : Option ℕ) → same_day o o ≡ true
same_day_refl none = refl
same_day_refl (some a) = ground arith

user_windows-user : (r : DateRange) (ss : List String) → all_by_user r (user_windows r ss) ≡ true
user_windows-user r [] = refl
user_windows-user r (s ∷ ss) =
    ground (arith, same_day_refl r.start, same_day_refl r.end, user_windows-user r ss)

windows_for-range :
    (range : Option DateRange) (day : ℕ) (extended : Bool) (ss : List String)
    → Supported ss
    → range_windows range (windows_for range day extended ss) ≡ true
windows_for-range none day extended ss h = own_windows-own_mode day extended ss h
windows_for-range (some r) day extended ss h = elim (Bool-cases (meaningful_range (some r))) [
  | inl told ↦
      let same : windows_for (some r) day extended ss ≡ user_windows r ss = if_true _ _ _ told in
      if_true (meaningful (some r)) _ _ told ∙ ap (all_by_user r) same ∙ user_windows-user r ss
  | inr plain ↦
      let same : windows_for (some r) day extended ss ≡ own_windows day extended ss =
        if_false _ _ _ plain in
      if_false (meaningful (some r)) _ _ plain
      ∙ ap all_own same
      ∙ own_windows-own_mode day extended ss h
]

all_two : (a b : Bool) → a ≡ true → b ≡ true → a && b ≡ true
all_two a b h k = ground (arith, h, k)

all_six :
    (a b c d e f : Bool)
    → a ≡ true
    → b ≡ true
    → c ≡ true
    → d ≡ true
    → e ≡ true
    → f ≡ true
    → a && b && c && d && e && f ≡ true
all_six a b c d e f h i j k l m = ground (arith, h, i, j, k, l, m)

latest_of-asked :
    (o : Option ℕ) (sources : List String)
    → elem "disclosure" sources ≡ true
    → latest_ok (latest_of o) sources ≡ true
latest_of-asked none sources h = refl
latest_of-asked (some time) sources h = h

module _ (request : RetrievalRequest) (documents : Dict String FinancialDocument) (basis : ℕ)
    (evidence : List Evidence) (windows : List FreshnessWindow) where
  fresh-canonical :
      (es : List Evidence)
      → all_canonical evidence ≡ true
      → All (IsFresh request documents basis evidence windows) es
      → all_canonical es && sources_among es request.source_types ≡ true
  fresh-canonical [] h fresh = refl
  fresh-canonical (e ∷ es) h (first, fresh) = ground (
    arith,
    all_canonical-in evidence e h first.from_input,
    first.requested,
    fresh-canonical es h fresh,
  )

  latest-requested :
      (cs : List Candidate)
      → All (IsFresh request documents basis evidence windows) (evidence_of cs)
      → (latest_timestamp cs ≡ none) ⊎ (elem "disclosure" request.source_types ≡ true)
  unfolding latest_timestamp
  latest-requested [] fresh = inl refl
  latest-requested (c ∷ cs) (first, fresh) = elim (Bool-cases (is_disclosure c)) [
    | inl same ↦ inr (
        subst (λ (x : String). elem x request.source_types ≡ true)
          ((eq_iff c.evidence.source_type "disclosure").0 same) first.requested)
    | inr other ↦ elim (latest-requested cs fresh) [
      | inl nothing ↦ inl (rw other nothing)
      | inr asked ↦ inr asked
    ]
  ]

  latest_of-ok :
      (cs : List Candidate) (unresolved : Bool)
      → All (IsFresh request documents basis evidence windows) (evidence_of cs)
      → latest_ok
          (if unresolved then none else latest_of (latest_timestamp cs))
          request.source_types
        ≡ true
  latest_of-ok cs true fresh = refl
  latest_of-ok cs false fresh = elim (latest-requested cs fresh) [
    | inl nothing ↦ ap (λ (o : Option ℕ). latest_ok (latest_of o) request.source_types) nothing
    | inr asked ↦ latest_of-asked (latest_timestamp cs) request.source_types asked
  ]

-- The request asks for the sources and the dates of the plan.
pub record Follows (plan : QueryPlan) (request : RetrievalRequest) : Type 0 where
  pub sources : request.source_types ≡ plan.required_sources
  pub dates : request.date_range ≡ plan.date_range

module _ (plan : QueryPlan) (request : RetrievalRequest) (planned : check_plan plan ≡ passed)
    (follows : Follows plan request) (documents : Dict String FinancialDocument) (basis : ℕ)
    (evidence : List Evidence) (canonical : all_canonical evidence ≡ true) where
  result_of-accepted :
      (metadata : Metadata) (edges : Edges) (cs : List Candidate) (unresolved : Bool)
      → date_range_ok request.date_range ≡ true
      → All
          (IsFresh request documents basis evidence
            (result_of request basis metadata edges cs unresolved).windows)
          (result_of request basis metadata edges cs unresolved).evidence
      → check_freshness (result_of request basis metadata edges cs unresolved) plan true ≡ passed
  unfolding check_freshness contract_ok
  result_of-accepted metadata edges cs unresolved ordered fresh =
      let x = result_of request basis metadata edges cs unresolved in
      let asked = request.source_types in
      let (supported, once) = check_plan-Supported plan planned in
      let asked_once : has_duplicates asked ≡ false = ap has_duplicates follows.sources ∙ once in
      let same : unique_from [] asked ≡ asked = unique_from-once asked asked_once in
      let listed : unique_from [] asked ≡ plan.required_sources = same ∙ follows.sources in
      let all_supported : Supported (unique_from [] asked) =
        subst Supported (sym listed) supported in
      let all_once : has_duplicates (unique_from [] asked) ≡ false =
        ap has_duplicates same ∙ asked_once in
      let sources : window_sources x.windows ≡ unique_from [] asked =
        windows_for-sources request.date_range (local_day basis) _ (unique_from [] asked) in
      let windows : windows_ok [] x.windows ≡ true =
        windows_for-ok request.date_range (local_day basis) _ (unique_from [] asked) all_supported
          all_once ordered in
      let items : all_canonical x.evidence && sources_among x.evidence asked ≡ true =
        fresh-canonical request documents basis evidence x.windows x.evidence canonical fresh in
      let among : sources_among x.evidence (window_sources x.windows) ≡ true =
        ap (sources_among x.evidence) (sources ∙ same) ∙ ground (arith, items) in
      let warned : warnings_ok (window_sources x.windows) none x.warnings ≡ true =
        ap (λ (l : List String). warnings_ok l none x.warnings) sources
        ∙ ordered_warnings-ok (unique_from [] asked) _ all_once
            (keys-Matched basis cs _ _ _ (unique_from [] asked) _) in
      let latest : latest_ok x.latest_effective_disclosure_at (window_sources x.windows) ≡ true =
        ap (latest_ok x.latest_effective_disclosure_at) (sources ∙ same)
        ∙ latest_of-ok request documents basis evidence x.windows
            (retained_of request (unique_from [] asked) metadata edges cs) unresolved fresh in
      let dated : dated_ok x.basis_at x.basis_date ≡ true = ground arith in
      let exact : strings_eq (window_sources x.windows) plan.required_sources ≡ true =
        ap (λ (l : List String). strings_eq l plan.required_sources) (sources ∙ listed)
        ∙ strings_eq_refl plan.required_sources in
      let ranged : range_windows plan.date_range x.windows ≡ true =
        ap (λ (o : Option DateRange). range_windows o x.windows) (sym follows.dates)
        ∙ windows_for-range request.date_range (local_day basis) _ (unique_from [] asked)
            all_supported in
      let canon : all_canonical x.evidence ≡ true = ground (arith, items) in
      let whole : (dated_ok x.basis_at x.basis_date
            && windows_ok [] x.windows
            && all_canonical x.evidence
            && sources_among x.evidence (window_sources x.windows)
            && warnings_ok (window_sources x.windows) none x.warnings
            && latest_ok x.latest_effective_disclosure_at (window_sources x.windows))
          ≡ true =
        all_six _ _ _ _ _ _ dated windows canon among warned latest in
      ap
        (λ (b : Bool).
          unless b bad_freshness (unless (not true || contract_ok x plan) inconsistent passed))
        whole
      ∙ ap (λ (b : Bool). unless b inconsistent passed) (all_two _ _ exact ranged)

  pub evaluate_freshness-accepted :
      (u : Unicode) (x : FreshnessResult)
      → evaluate_freshness u evidence request documents (some basis) ≡ ok x
      → (check_freshness x plan true ≡ passed)
        × (keys_match documents ≡ true)
        × (ltb 0 request.top_k ≡ true)
  unfolding request_ok
  evaluate_freshness-accepted u x h =
      let (good, fits, cs, metadata, edges, unresolved, linked, q) =
        evaluate_freshness-result u evidence request documents basis x h in
      let fresh =
        result-IsFresh request documents basis evidence metadata edges cs unresolved
          (link_all-IsLinked request documents basis evidence cs linked) in
      (
        subst (λ (y : FreshnessResult). check_freshness y plan true ≡ passed) q
            (result_of-accepted metadata edges cs unresolved (ground (arith, good)) fresh),
        fits,
        ground (arith, good),
      )
