-- ===== src/Evidence/Budget/Total.antt =====
-- `select_evidence_context` of app/evidence/budget.py on inputs that it accepts.
use questock.Prelude.{
  ℕ, ◌≤◌, ◌≡◌, refl, true, false, List, [], ◌∷◌, String, leb, length, take, length-take-le, arith,
  inl, inr, ◌⊎◌, All,
}
use questock.Exec.{ok}
use questock.Core.Models.{has_duplicates}
use questock.Core.Evidence.{Evidence}
use questock.Evidence.Selection.{source_diverse_indexes}
use questock.Evidence.Budget.{
  Limits, Json, CanonicalEvidence, limits_ok, required_ok, canonical_sequence, repeated_ids_ok,
  deduplicate, count_of, apply_source_cap, fits, fingerprints, sources_of, evidence_of,
}
use questock.Evidence.Budget.Select.{
  SelectionState, Diagnostics, diagnose, items_ok, audit_ok, checked, finish,
  select_evidence_context,
}
use questock.Evidence.Budget.Caps.{
  deduplicate-once, apply_source_cap-count, apply_context_caps-longest,
}
use questock.Evidence.Budget.Parts.{
  Sub, take-Sub, source_cap-Sub, All-Sub, distinct-Sub, count_of-Sub-le, ordered_subsequence-Sub,
  within_cap_lem,
}
use questock.Evidence.Budget.Order.{
  Picked-All, Picked-distinct, order-Picked, order_once, length-order-le,
}
use questock.Evidence.Budget.Audited.{
  Canonical, canonical_sequence-Canonical, canonical_sequence-evidence_of, deduplicate-All,
  length-deduplicate-le, length-source_cap-le, length-evidence_of, length-take-shorter, Fitting,
  fits-Fitting, none-Fitting, Falling, diagnose-diagnostics_ok,
}

-- A selection that keeps the limits.
pub record Within (json : Json) (limits : Limits) (reserved : ℕ) (xs : List CanonicalEvidence)
    : Type 0 where
  pub count : length xs ≤ limits.max_evidence_count
  pub source : (s : String) → count_of s (sources_of xs) ≤ limits.max_evidence_per_source
  pub distinct : has_duplicates (fingerprints xs) ≡ false
  pub fitting : Fitting json limits reserved (evidence_of xs)

Within-items_ok :
    (json : Json) (limits : Limits) (reserved : ℕ) (state : SelectionState)
    (xs ys : List CanonicalEvidence)
    → Sub xs ys
    → Within json limits reserved xs
    → items_ok json limits reserved state ys xs ≡ true
unfolding items_ok
Within-items_ok json limits reserved state xs ys s w = ground (
  arith,
  w.count,
  w.distinct,
  ordered_subsequence-Sub xs s,
  within_cap_lem limits.max_evidence_per_source (sources_of xs) (sources_of xs) w.source,
)

checked_lem :
    (json : Json) (limits : Limits) (reserved : ℕ) (state : SelectionState)
    (xs ys : List CanonicalEvidence)
    → All (Canonical json) xs
    → Sub xs ys
    → Within json limits reserved xs
    → Falling state (length xs)
    → checked json limits reserved state ys (evidence_of xs)
      ≡ ok (evidence_of xs, diagnose json limits reserved state (evidence_of xs))
unfolding checked audit_ok
checked_lem json limits reserved state xs ys canonical s w fall =
    let numbers =
      diagnose-diagnostics_ok json limits reserved state (evidence_of xs) w.fitting (record {
        unique = fall.unique;
        source = fall.source;
        count = fall.count;
        selected = omega (arith, fall.selected, length-evidence_of xs);
      }) in
    rw (canonical_sequence-evidence_of json xs canonical)
      (rw (Within-items_ok json limits reserved state xs ys s w) (rw numbers refl))

-- From prioritized items that are canonical and distinct on.
finish_lem :
    (json : Json) (limits : Limits) (reserved input_count unique_count : ℕ)
    (ys : List CanonicalEvidence)
    → reserved ≤ limits.max_context_tokens
    → All (Canonical json) ys
    → has_duplicates (fingerprints ys) ≡ false
    → unique_count ≤ input_count
    → length ys ≤ unique_count
    → (xs : List CanonicalEvidence) × (d : Diagnostics) × (finish json limits reserved input_count
          unique_count ys
        ≡ ok (evidence_of xs, d))
      × Within json limits reserved xs
      × Sub xs ys
unfolding finish
finish_lem json limits reserved input_count unique_count ys room canonical distinct fewer short =
    let capped = apply_source_cap limits.max_evidence_per_source [] ys in
    let counted = take limits.max_evidence_count capped in
    let (k, small, same, good, _) =
      apply_context_caps-longest json limits reserved (length counted) counted in
    let counted-Sub =
      take-Sub limits.max_evidence_count (source_cap-Sub limits.max_evidence_per_source [] ys) in
    let state : SelectionState = record {
      input_count = input_count;
      unique_count = unique_count;
      after_source_cap_count = length capped;
      after_count_cap_count = length counted;
    } in
    let w =
      within counted k good (length-take-le limits.max_evidence_count capped) counted-Sub (λ s.
        omega (
          arith,
          count_of-Sub-le s (take-Sub limits.max_evidence_count (Sub-self capped)),
          capped_count s,
        )) in
    (
      take k counted,
      diagnose json limits reserved state (evidence_of (take k counted)),
      rw same (
          checked_lem json limits reserved state (take k counted) ys
            (All-Sub (Canonical json) (take-Sub k counted-Sub) canonical) (take-Sub k counted-Sub) w
            (record {
              unique = fewer;
              source =
                  omega (arith, length-source_cap-le limits.max_evidence_per_source [] ys, short);
              count = length-take-shorter limits.max_evidence_count capped;
              selected = length-take-shorter k counted;
            })),
      w,
      take-Sub k counted-Sub,
    )
  where
    Sub-self : (xs : List CanonicalEvidence) → Sub xs xs
    Sub-self [] = Sub.stop []
    Sub-self (x ∷ xs) = Sub.keep x (Sub-self xs)

    capped_count :
        (s : String)
        → count_of s (sources_of (apply_source_cap limits.max_evidence_per_source [] ys))
          ≤ limits.max_evidence_per_source
    capped_count s = ground (arith, apply_source_cap-count limits.max_evidence_per_source ys s)

    within :
        (zs : List CanonicalEvidence) (k : ℕ)
        → ((k ≡ 0) ⊎ (fits json limits reserved (take k zs) ≡ true))
        → length zs ≤ limits.max_evidence_count
        → Sub zs ys
        → ((s : String) → count_of s (sources_of zs) ≤ limits.max_evidence_per_source)
        → Within json limits reserved (take k zs)
    within zs k good few s per_source = record {
      count = omega (arith, few, length-take-shorter k zs);
      source = λ t. omega (arith, per_source t, count_of-Sub-le t (take-Sub k (Sub-self zs)));
      distinct = distinct-Sub (take-Sub k s) distinct;
      fitting = fitted zs k good;
    }
      where
        fitted :
            (zs : List CanonicalEvidence) (k : ℕ)
            → ((k ≡ 0) ⊎ (fits json limits reserved (take k zs) ≡ true))
            → Fitting json limits reserved (evidence_of (take k zs))
        fitted zs k (inl zero') = rw zero' (none-Fitting json limits reserved room)
        fitted zs k (inr fit) = fits-Fitting json limits reserved (take k zs) fit

-- On limits in their ranges, a reserve within the tokens, required sources that are supported and
-- distinct, and evidence that is valid, consistent and has a JSON, whatever that JSON is,
-- select_evidence_context returns a result, so its audit passes twice; the result has at most
-- max_evidence_count items, at most max_evidence_per_source of any source, no content twice, and
-- costs with the reserve at most max_context_tokens tokens and max_context_chars characters.
pub select_evidence_context-total :
    (json : Json) (limits : Limits) (reserved : ℕ) (required : List String) (es : List Evidence)
    (items : List CanonicalEvidence)
    → limits_ok limits ≡ true
    → reserved ≤ limits.max_context_tokens
    → required_ok required ≡ true
    → canonical_sequence json es ≡ ok items
    → repeated_ids_ok [] items ≡ true
    → (xs : List CanonicalEvidence) × (d : Diagnostics) × (select_evidence_context json limits
          reserved required es
        ≡ ok (evidence_of xs, d))
      × Within json limits reserved xs
unfolding select_evidence_context
select_evidence_context-total json limits reserved required es items good room sources read same =
    let unique = deduplicate [] items in
    let (ys, found, picked) = order-Picked unique required in
    let is = source_diverse_indexes (sources_of unique) required in
    let canonical = Picked-All (Canonical json) is unique ys picked (
      deduplicate-All (Canonical json) [] items
        (canonical_sequence-Canonical json es items read)) in
    let distinct =
      Picked-distinct is unique ys picked (order_once (sources_of unique) required)
        (deduplicate-once items).0 in
    let (xs, d, done, w, _) =
      finish_lem json limits reserved (length items) (length unique) ys room canonical distinct
        (length-deduplicate-le [] items) (length-order-le unique ys required picked) in
    let tokens : leb reserved limits.max_context_tokens ≡ true = ground (arith, room) in
    (xs, d, rw good (rw tokens (rw sources (rw read (rw same (rw found done))))), w)
