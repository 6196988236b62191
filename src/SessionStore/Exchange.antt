-- ===== src/SessionStore/Exchange.antt =====
-- `SessionExchange`, `_canonical_exchange` and `_canonical_context` of
-- app/services/session_store.py. The deep copies are the values themselves.
use questock.Prelude.{
  ℕ, Bool, true, not, ◌&&◌, Option, none, some, List, [], ◌∷◌, String, leb, if◌then◌else◌, length,
}
use questock.Core.Models.{SessionContext, elem, has_duplicates, date_range_ok}
use questock.Exec.{Result, ok, raise}
use questock.SessionStore.Text.{memory_text, safe_identifier}

pub data StoreError : Type 0 where
  unavailable : StoreError

pub record SessionExchange : Type 0 where
  pub user_question : String
  pub assistant_public_text : String
  pub status : String
  pub security_id : Option String
  pub intent : String
  pub selected_evidence_ids : List String
  pub snapshot_id : String
  pub revision : ℕ

abbrev pub max_exchange_user_chars : ℕ
max_exchange_user_chars = 2000

abbrev pub max_exchange_assistant_chars : ℕ
max_exchange_assistant_chars = 2000

security_ids : List String
security_ids = "KRX:005930" ∷ "KRX:000660" ∷ "KRX:005380" ∷ []

intents : List String
intents =
    "recent_issue" ∷ "disclosure_summary" ∷ "research_report_summary" ∷ "risk_factors"
    ∷ "financial_term" ∷ "multi_source_summary" ∷ "price" ∷ "price_move" ∷ []

exchange_intents : List String
unfolding intents
exchange_intents = "prohibited_advice" ∷ "out_of_scope" ∷ intents

sources : List String
sources = "news" ∷ "disclosure" ∷ "research_report" ∷ "glossary" ∷ []

response_statuses : List String
response_statuses = "complete" ∷ "partial" ∷ "provider_failed" ∷ "no_evidence" ∷ "blocked" ∷ []

-- `value is not None and value not in allowed`, negated.
abbrev none_or_in : Option String → List String → Bool
none_or_in none allowed = true
none_or_in (some x) allowed = elem x allowed

abbrev all_strings : (String → Bool) → List String → Bool
all_strings p [] = true
all_strings p (x ∷ xs) = p x && all_strings p xs

-- What a text of the exchange may be.
unfoldable pub texts_ok : SessionExchange → Bool
texts_ok value =
    memory_text max_exchange_user_chars value.user_question
    && memory_text max_exchange_assistant_chars value.assistant_public_text

-- The other fields that `_canonical_exchange` tests; the revision is tested by `leb 1`.
unfoldable pub labels_ok : SessionExchange → Bool
unfolding response_statuses security_ids exchange_intents
labels_ok value =
    elem value.status response_statuses
    && none_or_in value.security_id security_ids
    && elem value.intent exchange_intents
    && leb (length value.selected_evidence_ids) 6
    && all_strings safe_identifier value.selected_evidence_ids
    && not (has_duplicates value.selected_evidence_ids)
    && safe_identifier value.snapshot_id

-- `_canonical_exchange`
unfoldable pub canonical_exchange : SessionExchange → Result StoreError SessionExchange
canonical_exchange value =
    if texts_ok value && labels_ok value && leb 1 value.revision
    then ok value
    else raise unavailable

-- The tests of `_canonical_context`.
unfoldable pub context_ok : SessionContext → Bool
unfolding intents sources
context_ok value =
    date_range_ok value.current_date_range
    && none_or_in value.previous_intent intents
    && all_strings (λ source. elem source sources) value.previous_source_types
    && not (has_duplicates value.previous_source_types)

-- `_canonical_context`
unfoldable pub canonical_context : SessionContext → Result StoreError SessionContext
canonical_context value = if context_ok value then ok value else raise unavailable
