-- ===== src/Evidence/Freshness/Candidates.antt =====
-- The first half of `evaluate_freshness` of app/evidence/freshness.py: its inputs and the candidates.
use questock.Prelude.{
  ℕ, ◌-◌, Bool, true, false, not, ◌&&◌, ◌||◌, Option, none, some, List, [], ◌∷◌, ◌++◌, String,
  str_eq, string_eq, ltb, if◌then◌else◌,
}
use questock.Prelude.Text.{codes, has_text}
use questock.Exec.{Result, ok, raise, and_then}
use questock.Dict.{Dict, lookup}
use questock.Core.Models.{elem, has_duplicates, date_range_ok}
use questock.Core.Evidence.{Evidence, evidence_ok, source_url_ok, locator_ok, overlap}
use questock.Evidence.Freshness.{FreshnessWarning}
use questock.Retrieval.Filters.{FinancialDocument, RetrievalRequest, matches_document, local_day}

-- What a `FreshnessValidationError` says; `endless` would be a loop without an end.
pub data FreshnessError : Type 0 where
  bad_evidence bad_request bad_basis bad_documents missing_document bad_link : FreshnessError
  not_requested bad_metadata bad_relation endless : FreshnessError

-- `_SUPPORTED_SOURCES`
abbrev pub dated_sources : List String
dated_sources = "news" ∷ "disclosure" ∷ "research_report" ∷ []

abbrev pub some_id : List String → Bool
some_id [] = false
some_id (_ ∷ _) = true

-- The validators of `FinancialDocument`.
unfoldable pub document_ok : FinancialDocument → Bool
document_ok d =
    let primary = d.primary_security_ids in
    let mentioned = d.mentioned_security_ids in
    source_url_ok d.source_url
    && locator_ok d.locator
    && (some_id primary || some_id mentioned)
    && not (has_duplicates primary)
    && not (has_duplicates mentioned)
    && not (overlap primary mentioned)

abbrev pub none_blank : List String → Bool
none_blank [] = true
none_blank (s ∷ ss) = has_text (codes s) && none_blank ss

-- `_validate_request`
unfoldable pub request_ok : RetrievalRequest → Bool
request_ok request =
    date_range_ok request.date_range && ltb 0 request.top_k && none_blank request.source_types

-- `_Candidate`
pub record Candidate : Type 0 where
  pub evidence : Evidence
  pub document : FinancialDocument
  pub effective_at : Option ℕ
  pub age_days : Option ℕ
  pub date_eligible : Bool

-- `_effective_timestamp`
abbrev pub effective_at_of : Option ℕ → Option ℕ → Option ℕ
effective_at_of (some time) other = some time
effective_at_of none other = other

-- Whether a time may count: always for a source without dates.
abbrev pub is_eligible : Bool → Option ℕ → ℕ → Bool
is_eligible false time basis = true
is_eligible true none basis = false
is_eligible true (some time) basis = not (ltb basis time)

-- The age of a time that is not after the basis, whose day is then no later either.
abbrev pub age_of : Bool → Option ℕ → ℕ → Option ℕ
age_of false time basis = none
age_of true none basis = none
age_of true (some time) basis =
    if ltb basis time then none else some (local_day basis - local_day time)

abbrev pub date_warnings : Bool → Option ℕ → ℕ → String → List FreshnessWarning
date_warnings false time basis source = []
date_warnings true none basis source =
    record { warning_code = "missing_published_at"; source_type = source } ∷ []
date_warnings true (some time) basis source =
    if ltb basis time
    then record { warning_code = "future_published_at"; source_type = source } ∷ []
    else []

abbrev pub candidate_of : ℕ → Evidence → FinancialDocument → Candidate
candidate_of basis e d =
    let dated = elem e.source_type dated_sources in
    let time = effective_at_of e.published_at d.published_at in
    record {
      evidence = e;
      document = d;
      effective_at = time;
      age_days = age_of dated time basis;
      date_eligible = is_eligible dated time basis;
    }

-- `_linked_document`; a document that was checked before passes again.
abbrev pub linked_document : Option FinancialDocument → Result FreshnessError FinancialDocument
linked_document none = raise missing_document
linked_document (some d) = if document_ok d then ok d else raise bad_link

-- The checks of the loop over the evidence.
unfoldable pub link :
    RetrievalRequest
    → Dict String FinancialDocument
    → ℕ
    → Evidence
    → Result FreshnessError Candidate
link request documents basis e =
    if not (evidence_ok e)
    then raise bad_evidence
    else and_then (linked_document (lookup e.document_id documents)) (λ d.
      if not (str_eq e.source_type d.source_type && matches_document e d)
      then raise bad_link
      else if not (elem e.source_type request.source_types)
      then raise not_requested
      else ok (candidate_of basis e d))

-- The loop over the evidence.
unfoldable pub link_all :
    RetrievalRequest
    → Dict String FinancialDocument
    → ℕ
    → List Evidence
    → Result FreshnessError (List Candidate)
link_all request documents basis [] = ok []
link_all request documents basis (e ∷ es) =
    and_then (link request documents basis e)
      (λ c. and_then (link_all request documents basis es) (λ cs. ok (c ∷ cs)))

-- What the loop adds to `warning_keys`.
abbrev pub warnings_of : ℕ → List Candidate → List FreshnessWarning
warnings_of basis [] = []
warnings_of basis (c ∷ cs) =
    let source = c.evidence.source_type in
    date_warnings (elem source dated_sources) c.effective_at basis source ++ warnings_of basis cs

abbrev pub is_disclosure : Candidate → Bool
is_disclosure c = str_eq c.evidence.source_type "disclosure"
