-- ===== src/Evidence/Budget.antt =====
-- The steps of `select_evidence_context` of app/evidence/budget.py: which evidence goes to the model.
pub mod Caps
pub mod Select
mod Parts
mod Order
mod Audited
pub mod Total
mod Examples
use questock.Prelude.{
  ℕ, zero, suc, ◌+◌, ◌-◌, ◌/◌, Bool, true, false, not, ◌&&◌, ◌||◌, Option, none, some, List, [],
  ◌∷◌, ◌++◌, map, String, str_eq, string_eq, ltb, leb, ◌==◌, if◌then◌else◌, length, take,
}
use questock.Prelude.Text.{codes, has_text}
use questock.Exec.{Result, ok, raise, and_then}
use questock.Dict.{Dict, lookup, assign}
use questock.Core.Models.{elem, has_duplicates}
use questock.Core.Evidence.{Members, Evidence, EvidenceScope, evidence_ok}
use questock.Evidence.Selection.{source_diverse_indexes}

-- `ContextBudgetValidationError` by its message, and the `IndexError` of a subscript.
pub data ContextError : Type 0 where
  invalid_input invalid_limits inconsistent invalid_output index_error : ContextError

pub record Limits : Type 0 where
  pub max_evidence_count : ℕ
  pub max_evidence_per_source : ℕ
  pub max_context_tokens : ℕ
  pub max_context_chars : ℕ

-- What of an item goes to the model.
pub record Projection : Type 0 where
  pub evidence_id : String
  pub source_type : String
  pub title : String
  pub published_at : Option ℕ
  pub subject_security_ids : List String
  pub mentioned_security_ids : List String
  pub scope : EvidenceScope
  pub snippet : String

-- `model_dump` of an item; a key that is popped is `none`.
pub record Payload : Type 0 where
  pub evidence_id : Option String
  pub retrieval_score : Option (Option ℕ)
  pub document_id : String
  pub source_type : String
  pub title : String
  pub source_url : Option String
  pub published_at : Option ℕ
  pub subject_security_ids : List String
  pub mentioned_security_ids : List String
  pub scope : EvidenceScope
  pub snippet : String
  pub locator : Members

abbrev pub payload_of : Evidence → Payload
payload_of e = record {
  evidence_id = some e.evidence_id;
  retrieval_score = some e.retrieval_score;
  document_id = e.document_id;
  source_type = e.source_type;
  title = e.title;
  source_url = e.source_url;
  published_at = e.published_at;
  subject_security_ids = e.subject_security_ids;
  mentioned_security_ids = e.mentioned_security_ids;
  scope = e.scope;
  snippet = e.snippet;
  locator = e.locator;
}

-- The JSON of pydantic and of `json.dumps`, which is outside the repository. A payload whose values
-- have no JSON, NaN among them, raises; the parts of one that has are written without a raise.
pub record Json : Type 0 where
  pub can_dump : Payload → Bool
  pub dump : Payload → String
  pub dump_projections : List Projection → List ℕ

pub record CanonicalEvidence : Type 0 where
  pub evidence : Evidence
  pub full_payload : String
  pub content_fingerprint : String

-- `_validate_limits`
unfoldable pub limits_ok : Limits → Bool
limits_ok l =
    leb 1 l.max_evidence_count
    && leb l.max_evidence_count 10
    && leb 1 l.max_evidence_per_source
    && leb l.max_evidence_per_source 4
    && leb 1 l.max_context_tokens
    && leb l.max_context_tokens 6000
    && leb 1 l.max_context_chars
    && leb l.max_context_chars 12000

abbrev pub supported_sources : List String
supported_sources = "news" ∷ "disclosure" ∷ "research_report" ∷ "glossary" ∷ []

abbrev pub all_supported : List String → Bool
all_supported [] = true
all_supported (s ∷ ss) = has_text (codes s) && elem s supported_sources && all_supported ss

-- `_validate_required_sources`
unfoldable pub required_ok : List String → Bool
required_ok sources = all_supported sources && not (has_duplicates sources)

-- The score of `LOW_RELEVANCE_THRESHOLD`, in millionths.
abbrev pub relevant : Option ℕ → Bool
relevant none = false
relevant (some score) = leb 500000 score

-- `_validate_evidence_fields`
unfoldable pub fields_ok : Evidence → Bool
fields_ok e =
    has_text (codes e.evidence_id)
    && has_text (codes e.document_id)
    && has_text (codes e.source_type)
    && has_text (codes e.title)
    && has_text (codes e.snippet)
    && elem e.source_type supported_sources
    && relevant e.retrieval_score

module _ (json : Json) where
  -- `_canonical_payloads`; the content is the payload without its id and its score.
  abbrev pub payloads : Evidence → CanonicalEvidence
  payloads e = record {
    evidence = e;
    full_payload = json.dump (payload_of e);
    content_fingerprint =
        json.dump (record (payload_of e) { evidence_id = none; retrieval_score = none });
  }

  -- `_canonical_evidence_sequence`
  unfoldable pub canonical_sequence : List Evidence → Result ContextError (List CanonicalEvidence)
  canonical_sequence [] = ok []
  canonical_sequence (e ∷ es) =
      if evidence_ok e && fields_ok e && json.can_dump (payload_of e)
      then and_then (canonical_sequence es) (λ rest. ok (payloads e ∷ rest))
      else raise invalid_input

-- `_validate_repeated_ids`; a payload is noted under an id the first time.
abbrev pub agrees : Option String → String → Bool
agrees none payload = true
agrees (some previous) payload = str_eq previous payload

abbrev pub noted : Option String → String → String → Dict String String → Dict String String
noted none id payload d = assign id payload d
noted (some _) id payload d = d

unfoldable pub repeated_ids_ok : Dict String String → List CanonicalEvidence → Bool
repeated_ids_ok d [] = true
repeated_ids_ok d (x ∷ xs) =
    let previous = lookup x.evidence.evidence_id d in
    agrees previous x.full_payload
    && repeated_ids_ok (noted previous x.evidence.evidence_id x.full_payload d) xs

-- `_deduplicate`
unfoldable pub deduplicate : List String → List CanonicalEvidence → List CanonicalEvidence
deduplicate seen [] = []
deduplicate seen (x ∷ xs) =
    let rest = deduplicate (x.content_fingerprint ∷ seen) xs in
    let skipped = deduplicate seen xs in
    if elem x.content_fingerprint seen then skipped else x ∷ rest

-- `unique_items[index]`
abbrev pub item_at : ℕ → List CanonicalEvidence → Option CanonicalEvidence
item_at i [] = none
item_at zero (x ∷ xs) = some x
item_at (suc i) (x ∷ xs) = item_at i xs

-- `tuple(unique_items[index] for index in source_order)`
abbrev pub cons_found :
    Option CanonicalEvidence
    → Result ContextError (List CanonicalEvidence)
    → Result ContextError (List CanonicalEvidence)
cons_found none rest = raise index_error
cons_found (some x) rest = and_then rest (λ xs. ok (x ∷ xs))

unfoldable pub items_at :
    List ℕ → List CanonicalEvidence → Result ContextError (List CanonicalEvidence)
items_at [] items = ok []
items_at (i ∷ is) items = cons_found (item_at i items) (items_at is items)

-- `counts[source_type]`, of the sources selected so far.
abbrev pub count_of : String → List String → ℕ
count_of s [] = 0
count_of s (t ∷ ts) = (if str_eq t s then 1 else 0) + count_of s ts

-- `_apply_source_cap`
unfoldable pub apply_source_cap : ℕ → List String → List CanonicalEvidence → List CanonicalEvidence
apply_source_cap max_per_source counted [] = []
apply_source_cap max_per_source counted (x ∷ xs) =
    let source = x.evidence.source_type in
    let skipped = apply_source_cap max_per_source counted xs in
    let rest = apply_source_cap max_per_source (source ∷ counted) xs in
    if leb max_per_source (count_of source counted) then skipped else x ∷ rest

abbrev pub project : Evidence → Projection
project e = record {
  evidence_id = e.evidence_id;
  source_type = e.source_type;
  title = e.title;
  published_at = e.published_at;
  subject_security_ids = e.subject_security_ids;
  mentioned_security_ids = e.mentioned_security_ids;
  scope = e.scope;
  snippet = e.snippet;
}

-- `len(serialized.encode("utf-8"))`
abbrev pub utf8_bytes : List ℕ → ℕ
utf8_bytes [] = 0
utf8_bytes (c ∷ cs) =
    (if ltb c 128 then 1 else if ltb c 2048 then 2 else if ltb c 65536 then 3 else 4)
    + utf8_bytes cs

abbrev pub evidence_of : List CanonicalEvidence → List Evidence
evidence_of [] = []
evidence_of (x ∷ xs) = x.evidence ∷ evidence_of xs

module _ (json : Json) where
  -- `_serialize_projection`
  abbrev pub serialize : List Evidence → List ℕ
  serialize [] = []
  serialize (e ∷ es) = json.dump_projections (map project (e ∷ es))

  -- `_estimate_projection`
  unfoldable pub tokens_of : List Evidence → ℕ
  tokens_of es = (utf8_bytes (serialize es) + 2) / 3

  unfoldable pub chars_of : List Evidence → ℕ
  chars_of es = length (serialize es)

  -- The test of the loop of `_apply_context_caps`.
  unfoldable pub fits : Limits → ℕ → List CanonicalEvidence → Bool
  fits limits reserved xs =
      let es = evidence_of xs in
      leb (reserved + tokens_of es) limits.max_context_tokens
      && leb (chars_of es) limits.max_context_chars

  -- The loop of `_apply_context_caps` when `n` items are left.
  unfoldable pub apply_context_caps :
      Limits → ℕ → ℕ → List CanonicalEvidence → List CanonicalEvidence
  apply_context_caps limits reserved zero xs = []
  apply_context_caps limits reserved (suc n) xs =
      let fewer = apply_context_caps limits reserved n xs in
      if fits limits reserved (take (suc n) xs) then take (suc n) xs else fewer

-- `tuple(item.content_fingerprint for item in output)`, and the source types.
abbrev pub fingerprints : List CanonicalEvidence → List String
fingerprints [] = []
fingerprints (x ∷ xs) = x.content_fingerprint ∷ fingerprints xs

abbrev pub sources_of : List CanonicalEvidence → List String
sources_of [] = []
sources_of (x ∷ xs) = x.evidence.source_type ∷ sources_of xs
