-- ===== src/Evidence/Budget/Select.antt =====
-- `select_evidence_context` of app/evidence/budget.py as a whole, with its diagnostics and its audit
-- of its own result. A difference that would be below zero in the source is zero here.
use questock.Prelude.{
  ℕ, ◌+◌, ◌-◌, Bool, true, false, not, ◌&&◌, Option, none, some, List, [], ◌∷◌, String, str_eq, leb,
  ◌==◌, if◌then◌else◌, length, take,
}
use questock.Exec.{Result, ok, raise, and_then}
use questock.Core.Models.{has_duplicates}
use questock.Core.Evidence.{Evidence}
use questock.Evidence.Selection.{source_diverse_indexes}
use questock.Evidence.Budget.{
  ContextError, invalid_input, invalid_limits, inconsistent, invalid_output, Limits, Json,
  CanonicalEvidence, limits_ok, required_ok, canonical_sequence, repeated_ids_ok, deduplicate,
  items_at, count_of, apply_source_cap, tokens_of, chars_of, apply_context_caps, fingerprints,
  sources_of, evidence_of,
}

pub record SelectionState : Type 0 where
  pub input_count : ℕ
  pub unique_count : ℕ
  pub after_source_cap_count : ℕ
  pub after_count_cap_count : ℕ

-- `ContextBudgetDiagnostics`, less the version of the estimator, which is a constant.
pub record Diagnostics : Type 0 where
  pub input_count : ℕ
  pub unique_count : ℕ
  pub duplicate_drop_count : ℕ
  pub source_cap_drop_count : ℕ
  pub count_cap_drop_count : ℕ
  pub context_drop_count : ℕ
  pub selected_count : ℕ
  pub estimated_context_tokens : ℕ
  pub estimated_evidence_chars : ℕ
  pub reserved_tokens : ℕ
  pub limits : Limits
  pub budget_exhausted : Bool

abbrev pub payloads_of : List CanonicalEvidence → List String
payloads_of [] = []
payloads_of (x ∷ xs) = x.full_payload ∷ payloads_of xs

-- `bool(count and not evidence)`
abbrev pub exhausted : ℕ → ℕ → Bool
exhausted count selected = not (count == 0) && selected == 0

-- The inner `while` of `_ordered_subsequence`, and the step past what it found.
abbrev pub skip_to : String → List String → Option (List String)
skip_to v [] = none
skip_to v (x ∷ xs) = if str_eq x v then some xs else skip_to v xs

abbrev after_found : Option (List String) → (List String → Bool) → Bool
after_found none rest = false
after_found (some xs) rest = rest xs

-- `_ordered_subsequence`
unfoldable pub ordered_subsequence : List String → List String → Bool
unfolding after_found
ordered_subsequence [] expected = true
ordered_subsequence (v ∷ vs) expected = after_found (skip_to v expected) (ordered_subsequence vs)

abbrev pub within_cap : ℕ → List String → List String → Bool
within_cap m [] sources = true
within_cap m (s ∷ ss) sources = leb (count_of s sources) m && within_cap m ss sources

abbrev pub same_limits : Limits → Limits → Bool
same_limits a b =
    a.max_evidence_count == b.max_evidence_count
    && a.max_evidence_per_source == b.max_evidence_per_source
    && a.max_context_tokens == b.max_context_tokens
    && a.max_context_chars == b.max_context_chars

abbrev pub same_flag : Bool → Bool → Bool
same_flag true b = b
same_flag false b = not b

module _ (json : Json) (limits : Limits) (reserved : ℕ) (state : SelectionState) where
  -- The diagnostics of `_build_result`.
  unfoldable pub diagnose : List Evidence → Diagnostics
  diagnose es = record {
    input_count = state.input_count;
    unique_count = state.unique_count;
    duplicate_drop_count = state.input_count - state.unique_count;
    source_cap_drop_count = state.unique_count - state.after_source_cap_count;
    count_cap_drop_count = state.after_source_cap_count - state.after_count_cap_count;
    context_drop_count = state.after_count_cap_count - length es;
    selected_count = length es;
    estimated_context_tokens = reserved + tokens_of json es;
    estimated_evidence_chars = chars_of json es;
    reserved_tokens = reserved;
    limits = limits;
    budget_exhausted = exhausted state.after_count_cap_count (length es);
  }

  -- The tests of `_audit_result` on the items.
  unfoldable pub items_ok : List CanonicalEvidence → List CanonicalEvidence → Bool
  items_ok prioritized output =
      ordered_subsequence (payloads_of output) (payloads_of prioritized)
      && not (has_duplicates (fingerprints output))
      && leb (length output) limits.max_evidence_count
      && within_cap limits.max_evidence_per_source (sources_of output) (sources_of output)

  -- The tests of `_audit_result` on the diagnostics.
  unfoldable pub diagnostics_ok : List Evidence → Diagnostics → Bool
  diagnostics_ok es d =
      d.input_count == state.input_count
      && d.unique_count == state.unique_count
      && d.duplicate_drop_count == (state.input_count - state.unique_count)
      && d.source_cap_drop_count == (state.unique_count - state.after_source_cap_count)
      && d.count_cap_drop_count == (state.after_source_cap_count - state.after_count_cap_count)
      && d.context_drop_count == (state.after_count_cap_count - length es)
      && d.selected_count == length es
      && d.input_count == (
          d.duplicate_drop_count + d.source_cap_drop_count + d.count_cap_drop_count
          + d.context_drop_count + d.selected_count)
      && d.estimated_context_tokens == (reserved + tokens_of json es)
      && d.estimated_evidence_chars == chars_of json es
      && d.reserved_tokens == reserved
      && same_limits d.limits limits
      && same_flag d.budget_exhausted (exhausted state.after_count_cap_count (length es))
      && leb d.estimated_context_tokens limits.max_context_tokens
      && leb d.estimated_evidence_chars limits.max_context_chars

  abbrev audit_output :
      List CanonicalEvidence → Diagnostics → Result ContextError (List CanonicalEvidence) → Bool
  audit_output prioritized d (raise _) = false
  audit_output prioritized d (ok output) =
      items_ok prioritized output && diagnostics_ok (evidence_of output) d

  -- `_audit_result`
  unfoldable pub audit_ok : List CanonicalEvidence → List Evidence → Diagnostics → Bool
  unfolding audit_output
  audit_ok prioritized es d = audit_output prioritized d (canonical_sequence json es)

  -- The end of `select_evidence_context`; the copy that is audited again is the same value.
  unfoldable pub checked :
      List CanonicalEvidence → List Evidence → Result ContextError (List Evidence × Diagnostics)
  checked prioritized es =
      let audited = audit_ok prioritized es (diagnose es) in
      if audited && audited then ok (es, diagnose es) else raise invalid_output

module _ (json : Json) (limits : Limits) (reserved : ℕ) where
  -- From the prioritized items on.
  unfoldable pub finish :
      ℕ → ℕ → List CanonicalEvidence → Result ContextError (List Evidence × Diagnostics)
  finish input_count unique_count prioritized =
      let capped = apply_source_cap limits.max_evidence_per_source [] prioritized in
      let counted = take limits.max_evidence_count capped in
      let selected = apply_context_caps json limits reserved (length counted) counted in
      checked json limits reserved
        (record {
          input_count = input_count;
          unique_count = unique_count;
          after_source_cap_count = length capped;
          after_count_cap_count = length counted;
        })
        prioritized (evidence_of selected)

  -- `select_evidence_context`
  unfoldable pub select_evidence_context :
      List String → List Evidence → Result ContextError (List Evidence × Diagnostics)
  select_evidence_context required evidence =
      if limits_ok limits && leb reserved limits.max_context_tokens
      then (if required_ok required
          then and_then (canonical_sequence json evidence) (λ items.
            if repeated_ids_ok [] items
            then (let unique = deduplicate [] items in
                and_then (items_at (source_diverse_indexes (sources_of unique) required) unique)
                  (finish (length items) (length unique)))
            else raise inconsistent)
          else raise invalid_input)
      else raise invalid_limits
