-- ===== src/Evidence/Policy/Examples.antt =====
-- The policy at concrete inputs.
use questock.Prelude.{
  ℕ, ◌≡◌, refl, Bool, true, false, ◌&&◌, if◌then◌else◌, Option, none, some, [], ◌∷◌, str_eq,
  string_eq,
}
use questock.Prelude.Text.{has_text, is_space, is_letter}
use questock.Exec.{ok, raise}
use questock.Dict.{lookup}
use questock.Core.Evidence.{
  Evidence, company_specific, no_member, member, atom, looks_like_local_absolute_path,
  no_local_paths, source_url_ok, locator_ok, scope_ok, evidence_ok,
}
use questock.Core.Plan.{
  SecurityIdentifier, QueryPlan, ProviderResult, provider_ok, timeout, complete, partial,
}
use questock.Evidence.Freshness.{FreshnessWindow, FreshnessResult}
use questock.Retrieval.Retriever.{RetrievalResult, ok_status}
use questock.Evidence.Policy.Inputs.{
  inconsistent, string_list_ok, matrix_ok, check_plan, provider_result_ok, providers_ok,
}
use questock.Evidence.Policy.Results.{
  canonical_evidence, windows_ok, warnings_ok, contract_ok, check_freshness, check_retrieval,
  use_first, occurrences_ok, target_ok,
}
use questock.Evidence.Policy.Decide.{
  draft, ordered_from, sources_ok, invariants_ok, decision, evaluate,
}
use questock.Evidence.Policy.Audit.{evaluate_lem}

program : Unit {0}
unfolding has_text is_space is_letter lookup looks_like_local_absolute_path no_local_paths
    source_url_ok locator_ok scope_ok evidence_ok string_list_ok matrix_ok check_plan
    provider_result_ok providers_ok canonical_evidence windows_ok warnings_ok contract_ok
    check_freshness check_retrieval use_first occurrences_ok target_ok draft ordered_from sources_ok
    invariants_ok evaluate
program = tt

abbrev security : SecurityIdentifier
security = record {
  market = "KRX";
  ticker = "005930";
  security_name = "Samsung";
  security_type = "common_stock";
  corp_code = none;
  corp_name = "Samsung";
}

abbrev plan : QueryPlan
plan = record {
  security = some security;
  intent = "recent_issue";
  answer_focus = "general";
  date_range = none;
  required_sources = "news" ∷ [];
  required_evidence = "recent_news" ∷ [];
  requires_clarification = false;
}

abbrev advice : QueryPlan
advice = record {
  security = none;
  intent = "prohibited_advice";
  answer_focus = "general";
  date_range = none;
  required_sources = [];
  required_evidence = [];
  requires_clarification = true;
}

abbrev item : Option ℕ → Evidence
item score = record {
  evidence_id = "e1";
  document_id = "d1";
  source_type = "news";
  title = "t";
  source_url = none;
  published_at = some 100000;
  subject_security_ids = "KRX:005930" ∷ [];
  mentioned_security_ids = [];
  scope = company_specific;
  snippet = "s";
  locator = member "row" atom no_member;
  retrieval_score = score;
}

abbrev window : FreshnessWindow
window = record { source_type = "news"; start = some 1; end = some 2; applied_by = "default" }

abbrev freshness : FreshnessResult
freshness = record {
  basis_at = some 172800;
  basis_date = 2;
  windows = window ∷ [];
  evidence = item none ∷ [];
  warnings = [];
  latest_effective_disclosure_at = none;
}

abbrev retrieval : RetrievalResult
retrieval = record {
  evidence = item (some 600000) ∷ [];
  status = ok_status;
  strategy = "lexical";
  is_low_relevance = false;
  diagnostics = record {
    input_count = 1;
    filtered_count = 1;
    scored_count = 1;
    eligible_count = 1;
    returned_count = 1;
    query_token_count = 1;
    requested_top_k = 6;
    effective_top_k = 6;
  };
}

abbrev answered : ProviderResult
answered = record {
  status = provider_ok;
  has_data = true;
  error_code = none;
  message = none;
  fetched_at = some 172800;
  from_cache = false;
}

abbrev late : ProviderResult
late = record {
  status = timeout;
  has_data = false;
  error_code = some "attempt_timeout";
  message = some "provider attempt timed out";
  fetched_at = some 172800;
  from_cache = false;
}

abbrev same_id : Evidence → Evidence → Bool
same_id a b = str_eq a.evidence_id b.evidence_id

is_complete :
    evaluate same_id plan (("news", answered) ∷ []) freshness retrieval
    ≡ ok (record {
      status = complete;
      evidence = item (some 600000) ∷ [];
      warnings = [];
      satisfied_sources = "news" ∷ [];
      missing_sources = [];
      no_data_sources = [];
      failed_sources = [];
    })
unfolding program
is_complete = refl

-- The items of a source that failed are not enough for COMPLETE.
is_partial :
    evaluate same_id plan (("news", late) ∷ []) freshness retrieval
    ≡ ok (record {
      status = partial;
      evidence = item (some 600000) ∷ [];
      warnings = [];
      satisfied_sources = "news" ∷ [];
      missing_sources = [];
      no_data_sources = [];
      failed_sources = "news" ∷ [];
    })
unfolding program
is_partial = refl

-- An item that the freshness result does not have.
is_foreign :
    evaluate same_id plan [] (record freshness { evidence = [] }) retrieval ≡ raise inconsistent
unfolding program
is_foreign = refl

evaluate_lem_example : evaluate same_id plan (("news", answered) ∷ []) freshness retrieval ≡ (
    if occurrences_ok same_id (item none ∷ []) (item (some 600000) ∷ [])
      && target_ok plan (item (some 600000) ∷ [])
    then ok (decision plan (("news", answered) ∷ []) freshness retrieval)
    else raise inconsistent)
evaluate_lem_example =
    evaluate_lem same_id plan (("news", answered) ∷ []) freshness retrieval (unfold program in refl)
