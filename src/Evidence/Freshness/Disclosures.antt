-- ===== src/Evidence/Freshness/Disclosures.antt =====
-- The metadata of disclosures in app/evidence/freshness.py and their checks.
use questock.Prelude.{
  ℕ, zero, suc, Bool, true, false, not, ◌&&◌, Option, none, some, List, [], ◌∷◌, String, str_eq,
  string_eq, ◌==◌, if◌then◌else◌, length,
}
use Prim.Native.String.{◌++◌ as str_append}
use questock.Prelude.Text.{codes, starts_with, all_codes}
use questock.Exec.{Result, ok, raise, and_then}
use questock.Dict.{Dict, lookup, assign}
use questock.Core.Models.{elem}
use questock.Core.Evidence.{Json, text, flag, null}
use questock.Core.Unicode.{Unicode}
use questock.Evidence.Freshness.Candidates.{
  FreshnessError, bad_link, bad_metadata, bad_relation, Candidate, document_ok, is_disclosure,
}
use questock.Retrieval.Filters.{FinancialDocument}

-- `_RECEIPT.fullmatch`
abbrev pub is_receipt : Unicode → List ℕ → Bool
is_receipt u cs = all_codes u.is_decimal cs && length cs == 14

abbrev pub skip : ℕ → List ℕ → List ℕ
skip zero cs = cs
skip (suc n) [] = []
skip (suc n) (c ∷ cs) = skip n cs

-- `_DISCLOSURE_ID.fullmatch`
unfoldable pub is_disclosure_id : Unicode → String → Bool
is_disclosure_id u id =
    starts_with (codes "disclosure:") (codes id) && is_receipt u (skip 11 (codes id))

-- `_DisclosureMetadata`
pub record DisclosureMetadata : Type 0 where
  pub is_correction : Bool
  pub has_subsequent_correction : Bool
  pub is_withdrawn : Bool
  pub correction_of : Option String

-- `metadata.get(key, False)`, if it is a Boolean.
abbrev pub flag_of : Option Json → Result FreshnessError Bool
flag_of none = ok false
flag_of (some (flag value)) = ok value
flag_of (some other) = raise bad_metadata

-- `metadata.get("correction_of")`, if it is None or a receipt.
abbrev pub receipt_of : Unicode → Option Json → Result FreshnessError (Option String)
receipt_of u none = ok none
receipt_of u (some null) = ok none
receipt_of u (some (text value)) =
    if is_receipt u (codes value) then ok (some value) else raise bad_metadata
receipt_of u (some other) = raise bad_metadata

abbrev pub target_id : String → String
target_id receipt = str_append "disclosure:" receipt

abbrev pub subset : List String → List String → Bool
subset [] ys = true
subset (x ∷ xs) ys = elem x ys && subset xs ys

-- `_validate_correction_target`
unfoldable pub target_ok : Unicode → FinancialDocument → FinancialDocument → Bool
target_ok u correction target =
    str_eq target.source_type "disclosure"
    && is_disclosure_id u target.document_id
    && subset correction.primary_security_ids target.primary_security_ids
    && subset target.primary_security_ids correction.primary_security_ids

abbrev pub check_target :
    Unicode → FinancialDocument → Option FinancialDocument → Result FreshnessError (Unit {0})
check_target u correction none = ok tt
check_target u correction (some target) =
    if not (document_ok target)
    then raise bad_link
    else if target_ok u correction target
    then ok tt
    else raise bad_relation

-- The tests on `correction_of`. The documents of candidates are those of the mapping, so one lookup
-- stands for the two.
abbrev pub check_correction :
    Unicode
    → Dict String FinancialDocument
    → FinancialDocument
    → Bool
    → Option String
    → Result FreshnessError (Unit {0})
check_correction u documents d is_correction none = ok tt
check_correction u documents d is_correction (some receipt) =
    if not is_correction
    then raise bad_metadata
    else if str_eq (target_id receipt) d.document_id
    then raise bad_relation
    else check_target u d (lookup (target_id receipt) documents)

-- The metadata of a document.
unfoldable pub read_metadata :
    Unicode
    → Dict String FinancialDocument
    → FinancialDocument
    → Result FreshnessError DisclosureMetadata
read_metadata u documents d =
    and_then (flag_of (lookup "is_correction" d.metadata)) (λ is_correction.
      and_then (flag_of (lookup "has_subsequent_correction" d.metadata)) (λ subsequent.
        and_then (flag_of (lookup "is_withdrawn" d.metadata)) (λ withdrawn.
          and_then (receipt_of u (lookup "correction_of" d.metadata)) (λ correction_of.
            and_then (check_correction u documents d is_correction correction_of) (λ _. ok (record {
              is_correction = is_correction;
              has_subsequent_correction = subsequent;
              is_withdrawn = withdrawn;
              correction_of = correction_of;
            }))))))

abbrev pub Metadata : Type 0
Metadata = Dict String DisclosureMetadata

abbrev pub known : Option DisclosureMetadata → Bool
known none = false
known (some m) = true

-- The body of the loop of `_validate_disclosure_metadata`.
unfoldable pub add_metadata :
    Unicode → Dict String FinancialDocument → Candidate → Metadata → Result FreshnessError Metadata
add_metadata u documents c found =
    let id = c.document.document_id in
    if not (is_disclosure c)
    then ok found
    else if not (is_disclosure_id u id)
    then raise bad_metadata
    else if known (lookup id found)
    then ok found
    else and_then (read_metadata u documents c.document) (λ m. ok (assign id m found))

-- `_validate_disclosure_metadata`
unfoldable pub metadata_of :
    Unicode
    → Dict String FinancialDocument
    → List Candidate
    → Metadata
    → Result FreshnessError Metadata
metadata_of u documents [] found = ok found
metadata_of u documents (c ∷ cs) found =
    and_then (add_metadata u documents c found) (metadata_of u documents cs)
