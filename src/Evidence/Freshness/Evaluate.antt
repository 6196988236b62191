-- ===== src/Evidence/Freshness/Evaluate.antt =====
-- `evaluate_freshness` of app/evidence/freshness.py.
pub mod Follow
pub mod Ends
pub mod OwnWindows
pub mod Linked
pub mod Walk
pub mod Retained
mod Examples
use questock.Prelude.{
  ℕ, ◌+◌, Bool, true, false, not, ◌&&◌, ◌||◌, Option, none, some, List, [], ◌∷◌, ◌++◌, String,
  if◌then◌else◌,
}
use questock.Exec.{Result, ok, raise, and_then}
use questock.Dict.{Dict}
use questock.Core.Models.{elem}
use questock.Core.Evidence.{Evidence}
use questock.Core.Unicode.{Unicode}
use questock.Evidence.Freshness.{FreshnessWarning, FreshnessResult}
use questock.Evidence.Freshness.Candidates.{
  FreshnessError, bad_request, bad_basis, bad_documents, Candidate, request_ok, link_all,
  warnings_of,
}
use questock.Evidence.Freshness.Corrections.{
  Edges, is_withdrawn, active_graph, targets, has_unresolved,
}
use questock.Evidence.Freshness.Disclosures.{Metadata, metadata_of}
use questock.Evidence.Freshness.Windows.{
  meaningful_range, is_extended, windows_for, warn_if, stale_warnings, apply_windows,
  coverage_warnings, ordered_warnings, latest_timestamp,
}
use questock.Retrieval.Filters.{FinancialDocument, RetrievalRequest, keys_match, local_day}

-- `_unique_sources`, with those seen.
abbrev pub unique_from : List String → List String → List String
unique_from seen [] = []
unique_from seen (s ∷ ss) =
    let again = unique_from seen ss in
    let new = s ∷ unique_from (s ∷ seen) ss in if elem s seen then again else new

-- `visible_candidates`
unfoldable pub visible : Metadata → Edges → List Candidate → List Candidate
visible metadata edges [] = []
visible metadata edges (c ∷ cs) =
    let rest = visible metadata edges cs in
    if c.date_eligible
      && not (is_withdrawn metadata c)
      && not (elem c.evidence.document_id (targets edges))
    then c ∷ rest
    else rest

abbrev pub evidence_of : List Candidate → List Evidence
evidence_of [] = []
evidence_of (c ∷ cs) = c.evidence ∷ evidence_of cs

-- The candidates that are retained.
abbrev pub retained_of :
    RetrievalRequest → List String → Metadata → Edges → List Candidate → List Candidate
retained_of request sources metadata edges cs =
    let by_user = meaningful_range request.date_range in
    let seen = visible metadata edges cs in
    apply_windows by_user (not by_user && is_extended sources seen) seen

-- A time that there is, as a time in UTC.
abbrev pub latest_of : Option ℕ → Option (Option ℕ)
latest_of none = none
latest_of (some time) = some (some time)

-- The result, given whether a correction is unresolved.
abbrev pub result_of :
    RetrievalRequest → ℕ → Metadata → Edges → List Candidate → Bool → FreshnessResult
result_of request basis metadata edges cs unresolved =
    let sources = unique_from [] request.source_types in
    let by_user = meaningful_range request.date_range in
    let extended = not by_user && is_extended sources (visible metadata edges cs) in
    let retained = retained_of request sources metadata edges cs in
    let keys =
      warnings_of basis cs
      ++ warn_if extended "disclosure_window_extended" "disclosure"
      ++ stale_warnings by_user cs
      ++ coverage_warnings by_user sources retained
      ++ warn_if (unresolved && elem "disclosure" sources) "unresolved_disclosure_correction"
          "disclosure" in
    record {
      basis_at = some basis;
      basis_date = local_day basis;
      windows = windows_for request.date_range (local_day basis) extended sources;
      evidence = evidence_of retained;
      warnings = ordered_warnings sources keys;
      latest_effective_disclosure_at =
          if unresolved then none else latest_of (latest_timestamp retained);
    }

-- From the candidates on.
unfoldable pub evaluate_candidates :
    Unicode
    → RetrievalRequest
    → Dict String FinancialDocument
    → ℕ
    → List Candidate
    → Result FreshnessError FreshnessResult
evaluate_candidates u request documents basis cs =
    and_then (metadata_of u documents cs []) (λ metadata.
      and_then (active_graph metadata cs) (λ edges.
        let retained =
          retained_of request (unique_from [] request.source_types) metadata edges cs in
        and_then (has_unresolved retained metadata edges)
          (λ unresolved. ok (result_of request basis metadata edges cs unresolved))))

abbrev pub with_basis :
    Option ℕ → (ℕ → Result FreshnessError FreshnessResult) → Result FreshnessError FreshnessResult
with_basis none f = raise bad_basis
with_basis (some basis) f = f basis

-- `evaluate_freshness`
unfoldable pub evaluate_freshness :
    Unicode
    → List Evidence
    → RetrievalRequest
    → Dict String FinancialDocument
    → Option ℕ
    → Result FreshnessError FreshnessResult
evaluate_freshness u evidence request documents basis_at =
    if not (request_ok request)
    then raise bad_request
    else with_basis basis_at (λ basis.
      if not (keys_match documents)
      then raise bad_documents
      else and_then (link_all request documents basis evidence)
          (evaluate_candidates u request documents basis))
