-- ===== src/Evidence/Freshness/Evaluate/Examples.antt =====
-- The evaluation of freshness at concrete inputs.
use questock.Prelude.{ℕ, ◌≡◌, ◌≢◌, refl, true, none, some, List, [], ◌∷◌, String, string_eq, All}
use questock.Prelude.Text.{between, has_text, is_space, is_letter}
use questock.Exec.{ok, raise}
use questock.Dict.{Dict, lookup, assign}
use questock.Core.Evidence.{
  Evidence, Json, flag, text, company_specific, no_member, member, atom,
  looks_like_local_absolute_path, no_local_paths, source_url_ok, locator_ok, scope_ok, evidence_ok,
}
use questock.Core.Unicode.{Unicode}
use questock.Evidence.Freshness.{FreshnessResult}
use questock.Evidence.Freshness.Candidates.{
  bad_relation, endless, document_ok, request_ok, link, link_all,
}
use questock.Evidence.Freshness.Corrections.{
  edges_of, follow, follow_all, active_graph, root, terminal_roots, has_unresolved,
}
use questock.Evidence.Freshness.Disclosures.{
  is_disclosure_id, target_ok, read_metadata, add_metadata, metadata_of,
}
use questock.Evidence.Freshness.Windows.{
  warning, is_extended, stale_warnings, apply_windows, coverage_warnings, ordered_warnings,
  latest_timestamp,
}
use questock.Evidence.Freshness.Evaluate.{visible, evaluate_candidates, evaluate_freshness}
use questock.Evidence.Freshness.Evaluate.Walk.{evaluate_freshness-ends}
use questock.Evidence.Freshness.Evaluate.Retained.{evaluate_freshness-IsFresh}
use questock.Evidence.Freshness.Evaluate.OwnWindows.{IsFresh}
use questock.Retrieval.Filters.{FinancialDocument, RetrievalRequest, matches_document}

program : Unit {0}
unfolding has_text is_space is_letter lookup assign looks_like_local_absolute_path no_local_paths
    source_url_ok locator_ok scope_ok evidence_ok document_ok request_ok link link_all
    is_disclosure_id target_ok read_metadata add_metadata metadata_of edges_of follow follow_all
    active_graph root terminal_roots has_unresolved is_extended stale_warnings apply_windows
    coverage_warnings ordered_warnings latest_timestamp visible evaluate_candidates
    evaluate_freshness matches_document
program = tt

abbrev unicode : Unicode
unicode = record {
  nfkc = λ cs. cs;
  casefold = λ cs. cs;
  upper = λ cs. cs;
  is_decimal = λ c. between b'0' b'9' c;
}

abbrev document : String → String → ℕ → Dict String Json → FinancialDocument
document id source time metadata = record {
  document_id = id;
  source_type = source;
  provider = "p";
  primary_security_ids = "KRX:005930" ∷ [];
  mentioned_security_ids = [];
  title = "t";
  published_at = some time;
  source_url = none;
  body = "b";
  locator = member "row" atom no_member;
  metadata = metadata;
  ingestion_version = "1";
}

abbrev evidence : String → String → String → Evidence
evidence id document_id source = record {
  evidence_id = id;
  document_id = document_id;
  source_type = source;
  title = "t";
  source_url = none;
  published_at = none;
  subject_security_ids = "KRX:005930" ∷ [];
  mentioned_security_ids = [];
  scope = company_specific;
  snippet = "s";
  locator = member "row" atom no_member;
  retrieval_score = none;
}

abbrev request : RetrievalRequest
request = record {
  query = "q";
  security_id = "KRX:005930";
  source_types = "news" ∷ "disclosure" ∷ [];
  date_range = none;
  as_of = none;
  document_types = none;
  top_k = 6;
}

abbrev first_id : String
first_id = "disclosure:20240101000001"

abbrev second_id : String
second_id = "disclosure:20240101000002"

abbrev corrects : String → Dict String Json
corrects receipt = ("is_correction", flag true) ∷ ("correction_of", text receipt) ∷ []

-- Day 40 of the epoch, in Seoul.
abbrev basis : ℕ
basis = 3456000

abbrev items : List Evidence
items =
    evidence "e1" "n1" "news"
    ∷ evidence "e2" "n2" "news"
    ∷ evidence "e3" first_id "disclosure"
    ∷ evidence "e4" second_id "disclosure"
    ∷ []

abbrev documents : Dict String FinancialDocument
documents =
    ("n1", document "n1" "news" 100000 [])
    ∷ ("n2", document "n2" "news" 3400000 [])
    ∷ (first_id, document first_id "disclosure" 3000000 [])
    ∷ (second_id, document second_id "disclosure" 3100000 (corrects "20240101000001"))
    ∷ []

-- Old news goes, and so does the disclosure that is corrected.
abbrev fresh : FreshnessResult
fresh = record {
  basis_at = some basis;
  basis_date = 40;
  windows =
      record { source_type = "news"; start = some 10; end = some 40; applied_by = "default" }
      ∷ record {
        source_type = "disclosure";
        start = some 0;
        end = some 40;
        applied_by = "fallback";
      }
      ∷ [];
  evidence = evidence "e2" "n2" "news" ∷ evidence "e4" second_id "disclosure" ∷ [];
  warnings =
      warning "disclosure_window_extended" "disclosure"
      ∷ warning "insufficient_disclosure_coverage" "disclosure"
      ∷ [];
  latest_effective_disclosure_at = some (some 3100000);
}

evaluates : evaluate_freshness unicode items request documents (some basis) ≡ ok fresh
unfolding program
evaluates = refl

-- Two corrections of each other are refused, so the walk to a root is never started on them.
circular :
    evaluate_freshness unicode
      (evidence "e3" first_id "disclosure" ∷ evidence "e4" second_id "disclosure" ∷ [])
      request
      ((first_id, document first_id "disclosure" 3000000 (corrects "20240101000002"))
        ∷ (second_id, document second_id "disclosure" 3100000 (corrects "20240101000001"))
        ∷ [])
      (some basis)
    ≡ raise bad_relation
unfolding program
circular = refl

evaluate_freshness-ends_example :
    evaluate_freshness unicode items request documents (some basis) ≢ raise endless
evaluate_freshness-ends_example =
    evaluate_freshness-ends unicode items request documents (some basis)

evaluate_freshness-IsFresh_example :
    All (IsFresh request documents basis items fresh.windows) fresh.evidence
evaluate_freshness-IsFresh_example =
    evaluate_freshness-IsFresh unicode items request documents basis fresh evaluates
