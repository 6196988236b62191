-- ===== src/Evidence/Freshness/Evaluate/Retained.antt =====
-- Which evidence `evaluate_freshness` of app/evidence/freshness.py retains.
use questock.Evidence.Freshness.Evaluate.OwnWindows.{
  InWindow, IsFresh, max_age-le, own_windows-own, own_window-source, own_window-InWindow,
  windows_for-own, age_within-le,
}
use questock.Evidence.Freshness.Evaluate.Linked.{
  IsLinked, link_all-IsLinked, IsVisible, visible-in, apply_windows-in, evidence_of-All, dated-time,
}
use questock.Prelude.{
  ℕ, ◌≡◌, sym, ap, ◌∙◌, subst, Bool, true, not, ◌&&◌, some, List, [], String, string_eq, if_false,
  arith, Bool-cases, inl, inr, All, All-imp,
}
use questock.Prelude.Order.{IsIn, All-IsIn}
use questock.Exec.{ok, and_then-ok}
use questock.Dict.{Dict}
use questock.Core.Evidence.{Evidence}
use questock.Core.Unicode.{Unicode}
use questock.Evidence.Freshness.{FreshnessResult, FreshnessWindow}
use questock.Evidence.Freshness.Candidates.{Candidate, request_ok, link_all}
use questock.Evidence.Freshness.Corrections.{Edges, active_graph, has_unresolved}
use questock.Evidence.Freshness.Disclosures.{Metadata, metadata_of}
use questock.Evidence.Freshness.Windows.{
  meaningful_range, is_extended, windows_for, own_windows, own_window, max_age, age_within,
  in_window, apply_windows,
}
use questock.Evidence.Freshness.Evaluate.{
  unique_from, visible, result_of, evaluate_candidates, evaluate_freshness,
}
use questock.Retrieval.Filters.{FinancialDocument, RetrievalRequest, keys_match, local_day}

module _ (request : RetrievalRequest) (documents : Dict String FinancialDocument) (basis : ℕ)
    (evidence : List Evidence) where
  candidate-IsFresh :
      (extended : Bool) (sources : List String) (c : Candidate)
      → IsLinked request documents basis evidence c
      → c.date_eligible ≡ true
      → in_window (meaningful_range request.date_range) extended c ≡ true
      → IsFresh request documents basis evidence
          (windows_for request.date_range (local_day basis) extended sources)
          c.evidence
  candidate-IsFresh extended sources c (there, asked, found, built) eligible inside =
      let source = c.evidence.source_type in
      record {
        from_input = there;
        requested = asked;
        dated = λ dated.
            let (t, time, early, age) = dated-time documents basis c found built eligible dated in
            (
              t,
              (c.document, found, time),
              early,
              λ own.
                  let within : age_within c.age_days (max_age extended source) ≡ true =
                    ground (arith, inside, own, dated) in
                  let young = age_within-le c.age_days _ (max_age extended source) age within in
                  (
                    omega (arith, young, max_age-le extended source),
                    λ w listed same.
                        let among : IsIn w (own_windows (local_day basis) extended sources) =
                          subst (IsIn w)
                            (windows_for-own request.date_range (local_day basis) extended sources
                              own)
                            listed in
                        let (s, q) = own_windows-own (local_day basis) extended sources w among in
                        let one : s ≡ source =
                          sym (
                            ap (λ (x : FreshnessWindow). x.source_type) q
                            ∙ own_window-source (local_day basis) extended s)
                          ∙ same in
                        subst (λ (x : FreshnessWindow). InWindow x (local_day t))
                          (ap (own_window (local_day basis) extended) (sym one) ∙ sym q)
                          (own_window-InWindow basis t extended source dated early young),
                  ),
            );
      }

  pub result-IsFresh :
      (metadata : Metadata) (edges : Edges) (cs : List Candidate) (unresolved : Bool)
      → All (IsLinked request documents basis evidence) cs
      → All
          (IsFresh request documents basis evidence
            (result_of request basis metadata edges cs unresolved).windows)
          (result_of request basis metadata edges cs unresolved).evidence
  result-IsFresh metadata edges cs unresolved linked =
      let sources = unique_from [] request.source_types in
      let by_user = meaningful_range request.date_range in
      let seen = visible metadata edges cs in
      let extended = not by_user && is_extended sources seen in
      evidence_of-All _ (apply_windows by_user extended seen) (
        All-imp _ _
          (λ c (in_seen, inside).
            let (in_all, facts) =
              All-IsIn (λ (c : Candidate). IsIn c cs × IsVisible metadata edges c) seen c
                (visible-in metadata edges cs) in_seen in
            candidate-IsFresh extended sources c
              (All-IsIn (IsLinked request documents basis evidence) cs c linked in_all)
              facts.eligible inside)
          (apply_windows by_user extended seen) (apply_windows-in by_user extended seen))

-- A result of `evaluate_freshness` is built from candidates that are linked.
pub evaluate_freshness-result :
    (u : Unicode) (evidence : List Evidence) (request : RetrievalRequest)
    (documents : Dict String FinancialDocument) (basis : ℕ) (x : FreshnessResult)
    → evaluate_freshness u evidence request documents (some basis) ≡ ok x
    → (request_ok request ≡ true)
      × (keys_match documents ≡ true)
      × (cs : List Candidate) × (metadata : Metadata) × (edges : Edges) × (unresolved : Bool)
      × (link_all request documents basis evidence ≡ ok cs)
      × (result_of request basis metadata edges cs unresolved ≡ x)
unfolding evaluate_freshness evaluate_candidates
evaluate_freshness-result u evidence request documents basis x h =
    elim (Bool-cases (request_ok request)) [
      | inr bad ↦ absurd (ground (arith, bad, h))
      | inl good ↦ elim (Bool-cases (keys_match documents)) [
        | inr off ↦ absurd (ground (arith, good, off, h))
        | inl fits ↦
            let a =
              sym (
                if_false (not (request_ok request)) _ _ (ap not good)
                ∙ if_false (not (keys_match documents)) _ _ (ap not fits))
              ∙ h in
            let (cs, linked, b) = and_then-ok (link_all request documents basis evidence) _ x a in
            let (metadata, read, c) = and_then-ok (metadata_of u documents cs []) _ x b in
            let (edges, made, d) = and_then-ok (active_graph metadata cs) _ x c in
            let (unresolved, told, e) = and_then-ok (has_unresolved _ metadata edges) _ x d in
            let q : result_of request basis metadata edges cs unresolved ≡ x = cc in
            (good, fits, cs, metadata, edges, unresolved, linked, q)
      ]
    ]

-- Each item of a result of evaluate_freshness is an item of the input of a requested source; one of
-- news, disclosure or research_report has a time, its own or that of its document, that is no later
-- than the basis; and unless the user gave a range, its day in Seoul is at most 30 (news), 365
-- (disclosure) or 180 days old and lies in the window that the result has for its source.
pub evaluate_freshness-IsFresh :
    (u : Unicode) (evidence : List Evidence) (request : RetrievalRequest)
    (documents : Dict String FinancialDocument) (basis : ℕ) (x : FreshnessResult)
    → evaluate_freshness u evidence request documents (some basis) ≡ ok x
    → All (IsFresh request documents basis evidence x.windows) x.evidence
evaluate_freshness-IsFresh u evidence request documents basis x h =
    let (good, fits, cs, metadata, edges, unresolved, linked, q) =
      evaluate_freshness-result u evidence request documents basis x h in
    subst
      (λ (y : FreshnessResult). All (IsFresh request documents basis evidence y.windows) y.evidence)
      q
      (result-IsFresh request documents basis evidence metadata edges cs unresolved
        (link_all-IsLinked request documents basis evidence cs linked))
