-- ===== src/Evidence/Policy/ComposedExamples.antt =====
-- The freshness, the retriever and the policy one after the other at concrete inputs.
use questock.Prelude.{
  ℕ, ◌≡◌, refl, true, none, some, List, [], ◌∷◌, String, string_eq, Bool, false, if◌then◌else◌,
  str_eq, eq_iff, ap, ◌+◌, ◌-◌, ◌*◌, ◌/◌,
}
use questock.Prelude.Text.{between, has_text, is_space, is_letter}
use questock.Exec.{ok, raise}
use questock.Dict.{Dict, lookup, assign}
use questock.Core.Evidence.{
  Evidence, Json, company_specific, no_member, member, atom, looks_like_local_absolute_path,
  no_local_paths, source_url_ok, locator_ok, scope_ok, evidence_ok,
}
use questock.Core.Unicode.{Unicode}
use questock.Evidence.Freshness.{FreshnessResult}
use questock.Evidence.Freshness.Candidates.{document_ok, request_ok, link, link_all}
use questock.Evidence.Freshness.Corrections.{
  edges_of, follow, follow_all, active_graph, root, terminal_roots, has_unresolved,
}
use questock.Evidence.Freshness.Disclosures.{
  is_disclosure_id, target_ok as correction_ok, read_metadata, add_metadata, metadata_of,
}
use questock.Evidence.Freshness.Windows.{
  is_extended, stale_warnings, apply_windows, coverage_warnings, ordered_warnings, latest_timestamp,
}
use questock.Evidence.Freshness.Evaluate.{visible, evaluate_candidates, evaluate_freshness}
use questock.Retrieval.Filters.{FinancialDocument, RetrievalRequest, matches_document}
use questock.Core.Plan.{SecurityIdentifier, QueryPlan, ProviderResult, provider_ok}
use questock.Retrieval.Retriever.{RetrievalResult, retrieve_evidence}
use questock.Evidence.Policy.Inputs.{
  inconsistent, string_list_ok, matrix_ok, check_plan, provider_result_ok, providers_ok,
}
use questock.Evidence.Policy.Results.{
  canonical_evidence, windows_ok, warnings_ok, contract_ok, check_freshness, check_retrieval,
  use_first, occurrences_ok, target_ok,
}
use questock.Evidence.Policy.Decide.{
  draft, ordered_from, sources_ok, invariants_ok, decision, evaluate,
}
use questock.Evidence.Policy.Occurrences.{IsSame}
use questock.Evidence.Policy.Composed.{evaluate_freshness-evaluate}
use questock.Retrieval.Scores.{Floats}

program : Unit {0}
unfolding correction_ok has_text is_space is_letter lookup assign looks_like_local_absolute_path
    no_local_paths source_url_ok locator_ok scope_ok evidence_ok document_ok request_ok link
    link_all is_disclosure_id target_ok read_metadata add_metadata metadata_of edges_of follow
    follow_all active_graph root terminal_roots has_unresolved is_extended stale_warnings
    apply_windows coverage_warnings ordered_warnings latest_timestamp visible evaluate_candidates
    evaluate_freshness matches_document string_list_ok matrix_ok check_plan provider_result_ok
    providers_ok canonical_evidence windows_ok warnings_ok contract_ok check_freshness
    check_retrieval use_first occurrences_ok draft ordered_from sources_ok invariants_ok evaluate
program = tt

abbrev unicode : Unicode
unicode = record {
  nfkc = λ cs. cs;
  casefold = λ cs. cs;
  upper = λ cs. cs;
  is_decimal = λ c. between b'0' b'9' c;
}

-- Numbers of millionths, and the first term of the logarithm's series.
abbrev floats : Floats
floats = record {
  Float = ℕ;
  hundredths = λ n. n * 10000;
  of_nat = λ n. n * 1000000;
  add = λ a b. a + b;
  sub = λ a b. a - b;
  mul = λ a b. a * b / 1000000;
  div = λ a b. a * 1000000 / b;
  log = λ a. a - 1000000;
  millionths = λ a. a;
}

abbrev document : String → String → ℕ → Dict String Json → FinancialDocument
document id source time metadata = record {
  document_id = id;
  source_type = source;
  provider = "p";
  primary_security_ids = "KRX:005930" ∷ [];
  mentioned_security_ids = [];
  title = "t";
  published_at = some time;
  source_url = none;
  body = "b";
  locator = member "row" atom no_member;
  metadata = metadata;
  ingestion_version = "1";
}

abbrev evidence : String → String → String → Evidence
evidence id document_id source = record {
  evidence_id = id;
  document_id = document_id;
  source_type = source;
  title = "t";
  source_url = none;
  published_at = none;
  subject_security_ids = "KRX:005930" ∷ [];
  mentioned_security_ids = [];
  scope = company_specific;
  snippet = "s";
  locator = member "row" atom no_member;
  retrieval_score = none;
}

abbrev request : RetrievalRequest
request = record {
  query = "t";
  security_id = "KRX:005930";
  source_types = "news" ∷ [];
  date_range = none;
  as_of = none;
  document_types = none;
  top_k = 10;
}

abbrev security : SecurityIdentifier
security = record {
  market = "KRX";
  ticker = "005930";
  security_name = "Samsung";
  security_type = "common_stock";
  corp_code = none;
  corp_name = "Samsung";
}

abbrev plan : QueryPlan
plan = record {
  security = some security;
  intent = "recent_issue";
  answer_focus = "general";
  date_range = none;
  required_sources = "news" ∷ [];
  required_evidence = "recent_news" ∷ [];
  requires_clarification = false;
}

abbrev answered : ProviderResult
answered = record {
  status = provider_ok;
  has_data = true;
  error_code = none;
  message = none;
  fetched_at = some 172800;
  from_cache = false;
}

-- Day 40 of the epoch, in Seoul.
abbrev basis : ℕ
basis = 3456000

abbrev items : List Evidence
items = evidence "e1" "n1" "news" ∷ evidence "e2" "n2" "news" ∷ []

abbrev documents : Dict String FinancialDocument
documents = ("n1", document "n1" "news" 100000 []) ∷ ("n2", document "n2" "news" 3400000 []) ∷ []

-- The old item goes.
abbrev fresh : FreshnessResult
fresh = record {
  basis_at = some basis;
  basis_date = 40;
  windows =
      record { source_type = "news"; start = some 10; end = some 40; applied_by = "default" } ∷ [];
  evidence = evidence "e2" "n2" "news" ∷ [];
  warnings = [];
  latest_effective_disclosure_at = none;
}

abbrev same_id : Evidence → Evidence → Bool
same_id a b = str_eq a.evidence_id b.evidence_id

same_id-IsSame : IsSame same_id
same_id-IsSame = record {
  reflexive = λ a. (eq_iff a.evidence_id a.evidence_id).1 refl;
  alike = λ a b c h.
      ap (λ (id : String). str_eq c.evidence_id id) ((eq_iff a.evidence_id b.evidence_id).0 h);
  rescored = λ a b s. refl;
}

evaluate_freshness-evaluate_example :
    (x : RetrievalResult) × (retrieve_evidence floats unicode fresh.evidence request
        (some documents)
      ≡ ok x)
    × (evaluate same_id plan (("news", answered) ∷ []) fresh x ≡ (
        if target_ok plan x.evidence
        then ok (decision plan (("news", answered) ∷ []) fresh x)
        else raise inconsistent))
evaluate_freshness-evaluate_example =
    evaluate_freshness-evaluate same_id floats unicode plan (("news", answered) ∷ []) request
      documents basis items fresh same_id-IsSame refl refl (unfold program in refl)
      (unfold program in refl) (record { sources = refl; dates = refl }) (unfold program in refl)
      (unfold program in refl)
