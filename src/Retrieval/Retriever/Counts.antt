-- ===== src/Retrieval/Retriever/Counts.antt =====
-- The counts and the status of a result of app/retrieval/retriever.py.
use questock.Retrieval.Retriever.Lengths.{
  length-select, length-rank, length-with_scores, length-eligible_from, length-kept_all,
}
use questock.Prelude.{
  ℕ, ◌≤◌, ◌≡◌, refl, sym, ap, ◌∙◌, true, ◌↔◌, inl, inr, Option, List, [], ◌∷◌, String, length,
  arith, Bool-cases,
}
use questock.Exec.{ok}
use questock.Dict.{Dict}
use questock.Core.Unicode.{Unicode}
use questock.Core.Evidence.{Evidence}
use questock.Retrieval.Filters.{
  FinancialDocument, RetrievalRequest, kept_all, documents_ok, filter_evidence,
}
use questock.Retrieval.Tokens.{Token, tokenize_query}
use questock.Retrieval.Scores.{Floats}
use questock.Retrieval.Retriever.{
  Entry, RetrievalResult, ok_status, empty, low_relevance, max_top_k, min, rank, with_scores,
  is_nil, answer, retrieve_filtered, retrieve_evidence,
}

-- The counts fit each other, the evidence and the status.
pub record IsConsistent (request : RetrievalRequest) (x : RetrievalResult) : Type 0 where
  pub returned : x.diagnostics.returned_count ≡ length x.evidence
  pub limited : length x.evidence ≡ min (min request.top_k max_top_k) x.diagnostics.eligible_count
  pub eligible : x.diagnostics.eligible_count ≤ x.diagnostics.scored_count
  pub scored : x.diagnostics.scored_count ≤ x.diagnostics.filtered_count
  pub filtered : x.diagnostics.filtered_count ≤ x.diagnostics.input_count
  pub found : (x.status ≡ ok_status) ↔ (1 ≤ x.diagnostics.eligible_count)
  pub nothing : (x.status ≡ empty) ↔ (x.diagnostics.filtered_count ≡ 0)
  pub low : (x.is_low_relevance ≡ true) ↔ (x.status ≡ low_relevance)

min-zero : (k : ℕ) → min k 0 ≡ 0
min-zero k = ground arith

answer-IsConsistent :
    (request : RetrievalRequest) (input : ℕ) (filtered : List Evidence) (query : List Token)
    (eligible : List Entry)
    → length eligible ≤ length filtered
    → length filtered ≤ input
    → 1 ≤ length filtered
    → IsConsistent request (answer request input filtered query eligible)
unfolding answer
answer-IsConsistent request input filtered query [] fits small some_left = record {
  returned = refl;
  limited = sym (min-zero (min request.top_k max_top_k));
  eligible = omega arith;
  scored = omega arith;
  filtered = small;
  found = ground arith;
  nothing = ground arith;
  low = ground arith;
}
answer-IsConsistent request input filtered query (x ∷ xs) fits small some_left =
    let k = min request.top_k max_top_k in
    record {
      returned = refl;
      limited =
          length-select (with_scores (rank (x ∷ xs))) request.source_types k
          ∙ ap (min k) (length-with_scores (rank (x ∷ xs)) ∙ length-rank (x ∷ xs));
      eligible = fits;
      scored = omega arith;
      filtered = small;
      found = ground arith;
      nothing = ground arith;
      low = ground arith;
    }

retrieve_filtered-IsConsistent :
    (f : Floats) (u : Unicode) (request : RetrievalRequest) (input : ℕ) (filtered : List Evidence)
    → length filtered ≤ input
    → IsConsistent request (retrieve_filtered f u request input filtered)
unfolding retrieve_filtered
retrieve_filtered-IsConsistent f u request input [] small = record {
  returned = refl;
  limited = sym (min-zero (min request.top_k max_top_k));
  eligible = omega arith;
  scored = omega arith;
  filtered = omega arith;
  found = ground arith;
  nothing = ground arith;
  low = ground arith;
}
retrieve_filtered-IsConsistent f u request input (e ∷ es) small =
    elim (Bool-cases (is_nil (tokenize_query u request.query))) [
      | inl no_query ↦ rw no_query (record {
        returned = refl;
        limited = sym (min-zero (min request.top_k max_top_k));
        eligible = omega arith;
        scored = omega arith;
        filtered = small;
        found = ground arith;
        nothing = ground arith;
        low = ground arith;
      })
      | inr query ↦ rw query (
          answer-IsConsistent request input (e ∷ es) (tokenize_query u request.query) _
            (length-eligible_from 0 (e ∷ es) _) small (omega arith))
    ]

-- With documents under their own ids retrieval returns a result in which the items number
-- min(top_k, 10, eligible), eligible is no more than scored, scored than filtered and filtered than
-- the input; the status is OK exactly when some candidate is eligible, EMPTY exactly when nothing
-- passes the filter, and the flag of low relevance is set exactly with its status.
pub retrieve_evidence-IsConsistent :
    (f : Floats) (u : Unicode) (evidence : List Evidence) (request : RetrievalRequest)
    (documents : Option (Dict String FinancialDocument))
    → documents_ok documents ≡ true
    → (x : RetrievalResult) × (retrieve_evidence f u evidence request documents ≡ ok x)
      × IsConsistent request x
unfolding retrieve_evidence filter_evidence
retrieve_evidence-IsConsistent f u evidence request documents good =
    let filtered = kept_all documents request evidence in
    (
      retrieve_filtered f u request (length evidence) filtered,
      rw good refl,
      retrieve_filtered-IsConsistent f u request (length evidence) filtered
          (length-kept_all documents request evidence),
    )
