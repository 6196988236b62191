-- ===== src/Retrieval/Filters.antt =====
-- app/retrieval/filters.py, and what it takes from app/core/models.py. A time is in seconds since the
-- epoch; one without a zone stands as `none`, which the filters treat alike.
pub mod Sound
mod Examples
use questock.Prelude.{
  ℕ, ◌+◌, ◌/◌, Bool, true, false, not, ◌&&◌, ◌||◌, Option, none, some, List, [], ◌∷◌, String,
  string_eq, str_eq, ltb, leb, if◌then◌else◌,
}
use questock.Prelude.Text.{codes, has_text}
use questock.Exec.{Result, ok, raise}
use questock.Dict.{Dict, lookup}
use questock.Core.Models.{elem, DateRange}
use questock.Core.Evidence.{
  Evidence, EvidenceScope, company_specific, industry_common, multi_company, Json, text, Members,
}

pub record FinancialDocument : Type 0 where
  pub document_id : String
  pub source_type : String
  pub provider : String
  pub primary_security_ids : List String
  pub mentioned_security_ids : List String
  pub title : String
  pub published_at : Option ℕ
  pub source_url : Option String
  pub body : String
  pub locator : Members
  pub metadata : Dict String Json
  pub ingestion_version : String

-- `as_of` is `some none` if it is given without a zone.
pub record RetrievalRequest : Type 0 where
  pub query : String
  pub security_id : String
  pub source_types : List String
  pub date_range : Option DateRange
  pub as_of : Option (Option ℕ)
  pub document_types : Option (List String)
  pub top_k : ℕ

pub data FilterError : Type 0 where
  invalid : FilterError

-- `_document_has_target_connection`
unfoldable pub has_target : FinancialDocument → String → Bool
has_target document target =
    elem target document.primary_security_ids || elem target document.mentioned_security_ids

abbrev pub type_value : Option Json → List String → Bool
type_value (some (text value)) types = has_text (codes value) && elem value types
type_value _ types = false

abbrev pub any_key : List String → Dict String Json → List String → Bool
any_key [] metadata types = false
any_key (key ∷ keys) metadata types =
    type_value (lookup key metadata) types || any_key keys metadata types

abbrev pub type_keys : List String
type_keys = "document_type" ∷ "report_type" ∷ "content_level" ∷ []

-- `_document_type_match`; with no types at all, no value is among them.
abbrev pub type_among : Option (List String) → Dict String Json → Bool
type_among none metadata = true
type_among (some types) metadata = any_key type_keys metadata types

unfoldable pub document_type_match : FinancialDocument → RetrievalRequest → Bool
document_type_match document request = type_among request.document_types document.metadata

-- `_document_structural_match`
unfoldable pub structural_match : FinancialDocument → RetrievalRequest → Bool
structural_match document request =
    elem document.source_type request.source_types
    && has_target document request.security_id
    && document_type_match document request

-- The test on `as_of`.
abbrev pub not_after : Option ℕ → Option (Option ℕ) → Bool
not_after value none = true
not_after none (some as_of) = false
not_after (some time) (some none) = false
not_after (some time) (some (some as_of)) = leb time as_of

-- The day of Seoul, which has been nine hours ahead of UTC since its last summer time ended in 1988;
-- earlier times are left out.
abbrev pub local_day : ℕ → ℕ
local_day time = (time + 32400) / 86400

abbrev pub from_start : ℕ → Option ℕ → Bool
from_start day none = true
from_start day (some start) = not (ltb day start)

abbrev pub to_end : ℕ → Option ℕ → Bool
to_end day none = true
to_end day (some end) = not (ltb end day)

abbrev pub in_range : Option ℕ → Option DateRange → Bool
in_range value none = true
in_range none (some range) = false
in_range (some time) (some range) =
    from_start (local_day time) range.start && to_end (local_day time) range.end

-- `_date_in_range`
unfoldable pub date_in_range : Option ℕ → RetrievalRequest → Bool
date_in_range value request = not_after value request.as_of && in_range value request.date_range

-- `filter_financial_documents`
unfoldable pub filter_financial_documents :
    List FinancialDocument → RetrievalRequest → List FinancialDocument
filter_financial_documents [] request = []
filter_financial_documents (d ∷ ds) request =
    let rest = filter_financial_documents ds request in
    if structural_match d request && date_in_range d.published_at request then d ∷ rest else rest

-- `invalid_ids` is empty.
abbrev pub all_known : List String → FinancialDocument → Bool
all_known [] document = true
all_known (id ∷ ids) document =
    (elem id document.primary_security_ids || elem id document.mentioned_security_ids)
    && all_known ids document

-- `ensure_evidence_matches_document` does not raise.
unfoldable pub matches_document : Evidence → FinancialDocument → Bool
matches_document e document =
    str_eq e.document_id document.document_id
    && all_known e.subject_security_ids document
    && all_known e.mentioned_security_ids document

-- `_linked_document_integrity_match`
unfoldable pub integrity_match : Evidence → FinancialDocument → RetrievalRequest → Bool
integrity_match e document request =
    str_eq e.source_type document.source_type
    && matches_document e document
    && structural_match document request

abbrev pub is_only : List String → String → Bool
is_only (s ∷ []) target = str_eq s target
is_only _ target = false

abbrev pub no_ids : List String → Bool
no_ids [] = true
no_ids (_ ∷ _) = false

abbrev pub all_primary : List String → FinancialDocument → Bool
all_primary [] document = true
all_primary (id ∷ ids) document = elem id document.primary_security_ids && all_primary ids document

-- The part of `_evidence_scope_match` that looks at the document.
abbrev pub if_linked : Option FinancialDocument → (FinancialDocument → Bool) → Bool
if_linked none p = true
if_linked (some document) p = p document

abbrev pub linked_and : Option FinancialDocument → (FinancialDocument → Bool) → Bool
linked_and none p = false
linked_and (some document) p = p document

-- `_evidence_scope_match`
abbrev pub scope_case : EvidenceScope → Evidence → String → Option FinancialDocument → Bool
scope_case company_specific e target linked =
    is_only e.subject_security_ids target
    && if_linked linked (λ d. elem target d.primary_security_ids)
scope_case multi_company e target linked =
    elem target e.subject_security_ids && if_linked linked (all_primary e.subject_security_ids)
scope_case industry_common e target linked =
    no_ids e.subject_security_ids
    && (elem target e.mentioned_security_ids || linked_and linked (λ d. has_target d target))

unfoldable pub scope_match : Evidence → RetrievalRequest → Option FinancialDocument → Bool
scope_match e request linked = scope_case e.scope e request.security_id linked

-- `effective_timestamp`
abbrev pub published : Option FinancialDocument → Option ℕ
published none = none
published (some document) = document.published_at

abbrev pub effective_timestamp : Option ℕ → Option FinancialDocument → Option ℕ
effective_timestamp (some time) linked = some time
effective_timestamp none linked = published linked

-- `_evidence_document_type_match`
abbrev pub evidence_type_match :
    Option (List String) → RetrievalRequest → Option FinancialDocument → Bool
evidence_type_match none request linked = true
evidence_type_match (some types) request linked =
    linked_and linked (λ d. document_type_match d request)

-- `_linked_document_for`
abbrev pub linked_for : Evidence → Option (Dict String FinancialDocument) → Option FinancialDocument
linked_for e none = none
linked_for e (some documents) = lookup e.document_id documents

-- The first two tests of the loop on the linked document.
abbrev pub linked_ok :
    Evidence
    → RetrievalRequest
    → Option (Dict String FinancialDocument)
    → Option FinancialDocument
    → Bool
linked_ok e request none linked = true
linked_ok e request (some documents) linked = linked_and linked (λ d. integrity_match e d request)

-- The body of the loop of `filter_evidence`: whether the item is kept.
unfoldable pub kept : Option (Dict String FinancialDocument) → RetrievalRequest → Evidence → Bool
kept documents request e =
    let linked = linked_for e documents in
    linked_ok e request documents linked
    && elem e.source_type request.source_types
    && scope_match e request linked
    && date_in_range (effective_timestamp e.published_at linked) request
    && evidence_type_match request.document_types request linked

unfoldable pub kept_all :
    Option (Dict String FinancialDocument) → RetrievalRequest → List Evidence → List Evidence
kept_all documents request [] = []
kept_all documents request (e ∷ es) =
    let rest = kept_all documents request es in if kept documents request e then e ∷ rest else rest

-- `_validate_documents_by_id`
abbrev pub keys_match : Dict String FinancialDocument → Bool
keys_match [] = true
keys_match ((key, d) ∷ ds) = str_eq key d.document_id && keys_match ds

abbrev pub documents_ok : Option (Dict String FinancialDocument) → Bool
documents_ok none = true
documents_ok (some documents) = keys_match documents

-- `filter_evidence`
unfoldable pub filter_evidence :
    List Evidence
    → RetrievalRequest
    → Option (Dict String FinancialDocument)
    → Result FilterError (List Evidence)
filter_evidence evidence request documents =
    if documents_ok documents then ok (kept_all documents request evidence) else raise invalid
