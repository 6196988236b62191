-- ===== src/Evidence/Policy/Inputs.antt =====
-- The checks of the inputs of app/evidence/policy.py. What is canonical is the input itself.
use questock.Prelude.{
  is_some, Bool, true, false, not, ◌&&◌, ◌||◌, Option, none, some, List, [], ◌∷◌, String, str_eq,
  if◌then◌else◌,
}
use Prim.Native.String.{◌++◌ as str_append}
use questock.Prelude.Text.{codes, has_text}
use questock.Exec.{Result, ok, raise, and_then}
use questock.Dict.{Dict}
use questock.Core.Models.{elem, has_duplicates, DateRange, in_order}
use questock.Core.Plan.{
  SecurityIdentifier, QueryPlan, ProviderStatus, provider_ok, no_data, invalid_query, unauthorized,
  rate_limited, timeout, provider_unavailable, parse_error, ProviderResult,
}
use questock.Retrieval.Retriever.{is_nil}

-- `EvidencePolicyValidationError`, by its message.
pub data PolicyError : Type 0 where
  bad_plan bad_providers bad_freshness bad_retrieval inconsistent : PolicyError

-- `if not test: raise error`
abbrev pub unless :
    Bool → PolicyError → Result PolicyError (Unit {0}) → Result PolicyError (Unit {0})
unless true error rest = rest
unless false error rest = raise error

abbrev pub passed : Result PolicyError (Unit {0})
passed = ok tt

abbrev pub then_check :
    Result PolicyError (Unit {0}) → Result PolicyError (Unit {0}) → Result PolicyError (Unit {0})
then_check first second = and_then first (λ _. second)

-- `_SUPPORTED_SOURCES`
abbrev pub supported_sources : List String
supported_sources = "news" ∷ "disclosure" ∷ "research_report" ∷ "glossary" ∷ []

abbrev pub supported_security_ids : List String
supported_security_ids = "KRX:005930" ∷ "KRX:000660" ∷ "KRX:005380" ∷ []

-- `_SECURITY_REQUIRED_INTENTS`
abbrev pub security_required_intents : List String
security_required_intents =
    "recent_issue" ∷ "disclosure_summary" ∷ "research_report_summary" ∷ "risk_factors"
    ∷ "multi_source_summary" ∷ "price" ∷ "price_move" ∷ []

-- A value of `_PLAN_MATRIX`.
pub record Contract : Type 0 where
  pub sources : List String
  pub evidence : List String
  pub needs_security : Bool

abbrev pub three_sources : List String
three_sources = "news" ∷ "disclosure" ∷ "research_report" ∷ []

abbrev pub three_kinds : List String
three_kinds = "recent_news" ∷ "disclosure" ∷ "research_report" ∷ []

-- `_PLAN_MATRIX`
abbrev pub plan_matrix : List (String × Contract)
plan_matrix =
    (
      "financial_term",
      record { sources = "glossary" ∷ []; evidence = "definition" ∷ []; needs_security = false },
    )
    ∷ (
      "disclosure_summary",
      record { sources = "disclosure" ∷ []; evidence = "disclosure" ∷ []; needs_security = true },
    )
    ∷ (
      "research_report_summary",
      record {
        sources = "research_report" ∷ [];
        evidence = "research_report" ∷ [];
        needs_security = true;
      },
    )
    ∷ (
      "recent_issue",
      record { sources = "news" ∷ []; evidence = "recent_news" ∷ []; needs_security = true },
    )
    ∷ (
      "risk_factors",
      record { sources = three_sources; evidence = "risk" ∷ three_kinds; needs_security = true },
    )
    ∷ (
      "multi_source_summary",
      record { sources = three_sources; evidence = three_kinds; needs_security = true },
    )
    ∷ ("price", record { sources = []; evidence = []; needs_security = true })
    ∷ (
      "price_move",
      record { sources = three_sources; evidence = three_kinds; needs_security = true },
    )
    ∷ []

-- `_PLAN_MATRIX.get(intent)`
abbrev pub contract_of : String → List (String × Contract) → Option Contract
contract_of intent [] = none
contract_of intent ((name, c) ∷ rest) =
    if str_eq name intent then some c else contract_of intent rest

-- `_CLARIFICATION_INTENTS`
abbrev pub clarification_intent : String → Bool
clarification_intent intent =
    is_some (contract_of intent plan_matrix)
    || str_eq "prohibited_advice" intent
    || str_eq "out_of_scope" intent

abbrev pub supported_requirements : List String
supported_requirements =
    "definition" ∷ "disclosure" ∷ "research_report" ∷ "recent_news" ∷ "risk" ∷ []

abbrev pub blank : String → Bool
blank s = not (has_text (codes s))

abbrev pub all_in : List String → List String → Bool
all_in [] allowed = true
all_in (s ∷ ss) allowed = not (blank s) && elem s allowed && all_in ss allowed

-- `_validate_string_list`
unfoldable pub string_list_ok : List String → List String → Bool
string_list_ok values allowed = all_in values allowed && not (has_duplicates values)

abbrev pub strings_eq : List String → List String → Bool
strings_eq [] [] = true
strings_eq (s ∷ ss) (t ∷ ts) = str_eq s t && strings_eq ss ts
strings_eq _ _ = false

-- `f"{security.market}:{security.ticker}"`
abbrev pub security_id : SecurityIdentifier → String
security_id s = str_append s.market (str_append ":" s.ticker)

abbrev pub code_ok : Option String → Bool
code_ok none = true
code_ok (some value) = not (blank value)

-- `_canonical_security`
abbrev pub check_security : Option SecurityIdentifier → Result PolicyError (Unit {0})
check_security none = passed
check_security (some s) =
    unless
      (not (blank s.market)
        && not (blank s.ticker)
        && not (blank s.security_name)
        && not (blank s.security_type)
        && not (blank s.corp_name)
        && code_ok s.corp_code)
      bad_plan
      (unless (elem (security_id s) supported_security_ids && str_eq s.security_type "common_stock")
        inconsistent passed)

-- `_canonical_date_range`
abbrev pub check_range : Option DateRange → Result PolicyError (Unit {0})
check_range none = passed
check_range (some r) = unless (in_order r.start r.end) bad_plan passed

abbrev pub fits_contract : Option Contract → QueryPlan → Bool
fits_contract none plan = false
fits_contract (some c) plan =
    strings_eq plan.required_sources c.sources
    && strings_eq plan.required_evidence c.evidence
    && (not c.needs_security || is_some plan.security)

-- `_validate_plan_matrix`
unfoldable pub matrix_ok : QueryPlan → Bool
matrix_ok plan =
    if plan.requires_clarification
    then clarification_intent plan.intent
      && is_nil plan.required_sources
      && is_nil plan.required_evidence
      && not (is_some plan.security)
    else fits_contract (contract_of plan.intent plan_matrix) plan

-- The tests of `_canonical_plan` on the plan itself.
abbrev pub check_shape : QueryPlan → Result PolicyError (Unit {0})
check_shape plan = unless (not (blank plan.intent)) bad_plan (
    unless (string_list_ok plan.required_sources supported_sources) bad_plan (
      unless (string_list_ok plan.required_evidence supported_requirements) bad_plan
        (unless (matrix_ok plan) inconsistent passed)))

-- `_canonical_plan`
unfoldable pub check_plan : QueryPlan → Result PolicyError (Unit {0})
check_plan plan =
    then_check (check_security plan.security)
      (then_check (check_range plan.date_range) (check_shape plan))

-- `_FAILURE_ERROR_CODES`
abbrev pub failure_codes : ProviderStatus → List String
failure_codes provider_ok = []
failure_codes no_data = []
failure_codes invalid_query = "invalid_query" ∷ []
failure_codes unauthorized = "unauthorized" ∷ []
failure_codes rate_limited = "rate_limited" ∷ []
failure_codes timeout = "attempt_timeout" ∷ "total_deadline_exceeded" ∷ []
failure_codes provider_unavailable = "provider_unavailable" ∷ []
failure_codes parse_error = "parse_error" ∷ []

-- `_FAILURE_MESSAGES`
abbrev pub failure_messages : List (String × String)
failure_messages =
    ("invalid_query", "provider rejected the query")
    ∷ ("unauthorized", "provider authorization failed")
    ∷ ("rate_limited", "provider rate limit reached")
    ∷ ("attempt_timeout", "provider attempt timed out")
    ∷ ("total_deadline_exceeded", "provider total deadline exceeded")
    ∷ ("provider_unavailable", "provider unavailable")
    ∷ ("parse_error", "provider response could not be parsed")
    ∷ []

abbrev pub message_is : String → Option String → List (String × String) → Bool
message_is error message [] = false
message_is error none ((name, text) ∷ rest) = false
message_is error (some m) ((name, text) ∷ rest) =
    if str_eq name error then str_eq m text else message_is error (some m) rest

abbrev pub failure_ok : Option String → Option String → List String → Bool
failure_ok none message codes = false
failure_ok (some error) message codes =
    elem error codes && message_is error message failure_messages

abbrev pub result_fits : ProviderStatus → ProviderResult → Bool
result_fits provider_ok r = r.has_data && not (is_some r.error_code)
result_fits no_data r = not r.has_data && not (is_some r.error_code)
result_fits status r = not r.has_data && failure_ok r.error_code r.message (failure_codes status)

-- `_canonical_provider_result`
unfoldable pub provider_result_ok : ProviderResult → Bool
provider_result_ok r = is_some r.fetched_at && result_fits r.status r

-- `_canonical_provider_mapping`
unfoldable pub providers_ok : Dict String ProviderResult → Bool
providers_ok [] = true
providers_ok ((source, r) ∷ rest) =
    not (blank source) && elem source supported_sources && provider_result_ok r && providers_ok rest
