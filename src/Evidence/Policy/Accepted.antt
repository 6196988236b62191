-- ===== src/Evidence/Policy/Accepted.antt =====
-- What retrieve_evidence of app/retrieval/retriever.py returns passes the checks of app/evidence/policy.py.
use questock.Prelude.{
  ℕ, ◌≤◌, ◌≡◌, ◌≢◌, refl, sym, ap, ◌∙◌, subst, Bool, true, false, not, ◌&&◌, inl, inr, Option, some,
  List, [], ◌∷◌, String, leb, length, arith, Bool-cases, All,
}
use questock.Prelude.Order.{IsIn}
use questock.Exec.{ok}
use questock.Dict.{Dict}
use questock.Core.Unicode.{Unicode}
use questock.Core.Evidence.{Evidence, evidence_ok, scope_ok}
use questock.Retrieval.Filters.{
  FinancialDocument, RetrievalRequest, kept_all, documents_ok, filter_evidence,
}
use questock.Retrieval.Scores.{Floats}
use questock.Retrieval.Tokens.{Token, tokenize_query}
use questock.Retrieval.Retriever.{
  Entry, answer, RetrievalResult, Status, ok_status, empty, low_relevance, is_nil,
  retrieve_filtered, retrieve_evidence,
}
use questock.Retrieval.Retriever.Counts.{IsConsistent, retrieve_evidence-IsConsistent}
use questock.Retrieval.Retriever.Relevant.{IsReturned, retrieve_evidence-IsReturned}
use questock.Prelude.Text.{has_text}
use questock.Evidence.Policy.Inputs.{bad_retrieval, unless, passed, blank}
use questock.Evidence.Policy.Results.{
  canonical_evidence, all_canonical, check_retrieval, scores_ok, status_fits,
}

pub all_canonical-in :
    (es : List Evidence) (e : Evidence)
    → all_canonical es ≡ true
    → IsIn e es
    → canonical_evidence e ≡ true
all_canonical-in [] e h there = absurd there
all_canonical-in (x ∷ es) e h (inl q) =
    subst (λ (y : Evidence). canonical_evidence y ≡ true) (sym q) (ground (arith, h))
all_canonical-in (x ∷ es) e h (inr there) = all_canonical-in es e (ground (arith, h)) there

canonical_evidence-rescored :
    (e : Evidence) (s : Option ℕ)
    → canonical_evidence (record e { retrieval_score = s }) ≡ canonical_evidence e
unfolding canonical_evidence evidence_ok scope_ok
canonical_evidence-rescored e s = refl

module _ (u : Unicode) (documents : Option (Dict String FinancialDocument))
    (request : RetrievalRequest) (evidence : List Evidence) where
  returned-canonical :
      (es : List Evidence)
      → all_canonical evidence ≡ true
      → All (IsReturned u documents request evidence) es
      → all_canonical es && scores_ok es ≡ true
  returned-canonical [] h found = refl
  returned-canonical (e ∷ es) h ((original, score, there, sound, same, high, shared), found) =
      let scored = record original { retrieval_score = some score } in
      let canonical : canonical_evidence e ≡ true =
        subst (λ (x : Evidence). canonical_evidence x ≡ true) (sym same)
          (canonical_evidence-rescored original (some score)
            ∙ all_canonical-in evidence original h there) in
      let reached : scores_ok (e ∷ []) ≡ true =
        subst (λ (x : Evidence). scores_ok (x ∷ []) ≡ true) (sym same) (ground (arith, high)) in
      ground (arith, canonical, reached, returned-canonical es h found)

nil-of_length : (es : List Evidence) → length es ≡ 0 → is_nil es ≡ true
nil-of_length [] h = refl
nil-of_length (e ∷ es) h = absurd (omega (arith, h))

some-of_length : (es : List Evidence) → 1 ≤ length es → is_nil es ≡ false
some-of_length [] h = absurd (omega (arith, h))
some-of_length (e ∷ es) h = refl

-- A status that is not of low relevance comes without its flag, and one that is not OK without items.
no_low :
    (request : RetrievalRequest) (x : RetrievalResult)
    → IsConsistent request x
    → x.status ≢ low_relevance
    → x.is_low_relevance ≡ false
no_low request x c other = elim (Bool-cases x.is_low_relevance) [
  | inl flagged ↦ absurd (other (c.low.0 flagged))
  | inr clear ↦ clear
]

no_items :
    (request : RetrievalRequest) (x : RetrievalResult)
    → IsConsistent request x
    → x.status ≢ ok_status
    → is_nil x.evidence ≡ true
no_items request x c other = elim (Bool-cases (leb 1 x.diagnostics.eligible_count)) [
  | inl found ↦ absurd (other (c.found.1 (ground (arith, found))))
  | inr nothing ↦ nil-of_length x.evidence (ground (arith, nothing, c.limited))
]

status_of-fits :
    (request : RetrievalRequest) (x : RetrievalResult) (status : Status)
    → 1 ≤ request.top_k
    → x.status ≡ status
    → IsConsistent request x
    → scores_ok x.evidence ≡ true
    → status_fits status x ≡ true
status_of-fits request x ok_status some_wanted is c scores =
    let low : x.is_low_relevance ≡ false = no_low request x c (ground (arith, is)) in
    let there : is_nil x.evidence ≡ false =
      some-of_length x.evidence (ground (arith, some_wanted, c.limited, c.found.0 is)) in
    ground (arith, low, there, scores)
status_of-fits request x empty some_wanted is c scores =
    let low : x.is_low_relevance ≡ false = no_low request x c (ground (arith, is)) in
    let there : is_nil x.evidence ≡ true = no_items request x c (ground (arith, is)) in
    ground (arith, low, there)
status_of-fits request x low_relevance some_wanted is c scores =
    let there : is_nil x.evidence ≡ true = no_items request x c (ground (arith, is)) in
    ground (arith, there, c.low.1 is)

answer-strategy :
    (request : RetrievalRequest) (input : ℕ) (es : List Evidence) (query : List Token)
    (eligible : List Entry)
    → blank (answer request input es query eligible).strategy ≡ false
unfolding answer has_text
answer-strategy request input es query [] = refl
answer-strategy request input es query (x ∷ xs) = refl

retrieve_filtered-strategy :
    (f : Floats) (u : Unicode) (request : RetrievalRequest) (input : ℕ) (es : List Evidence)
    → blank (retrieve_filtered f u request input es).strategy ≡ false
unfolding retrieve_filtered has_text
retrieve_filtered-strategy f u request input [] = refl
retrieve_filtered-strategy f u request input (e ∷ es) =
    let query = tokenize_query u request.query in
    elim (Bool-cases (is_nil query)) [
      | inl no_query ↦ rw no_query refl
      | inr asked ↦ rw asked (answer-strategy request input (e ∷ es) query _)
    ]

-- What `retrieve_evidence` returns passes the checks of the policy.
module _ (f : Floats) (u : Unicode) (evidence : List Evidence) (request : RetrievalRequest)
    (documents : Option (Dict String FinancialDocument)) where
  abbrev pub retrieved : RetrievalResult
  retrieved = retrieve_filtered f u request (length evidence) (kept_all documents request evidence)

  pub retrieve_evidence-runs :
      documents_ok documents ≡ true
      → retrieve_evidence f u evidence request documents ≡ ok retrieved
  unfolding retrieve_evidence filter_evidence
  retrieve_evidence-runs linked = rw linked refl

  pub retrieved-passes :
      f.millionths (f.hundredths 0) ≡ 0
      → documents_ok documents ≡ true
      → 1 ≤ request.top_k
      → all_canonical evidence ≡ true
      → check_retrieval retrieved ≡ passed
  unfolding check_retrieval
  retrieved-passes zero_score linked wanted canonical =
      let (x, made, consistent) =
        retrieve_evidence-IsConsistent f u evidence request documents linked in
      let (y, made', returned) =
        retrieve_evidence-IsReturned f u evidence request documents zero_score linked in
      let q : x ≡ retrieved = ground (arith, sym made ∙ retrieve_evidence-runs linked) in
      let q' : y ≡ retrieved = ground (arith, sym made' ∙ retrieve_evidence-runs linked) in
      let fine : all_canonical retrieved.evidence && scores_ok retrieved.evidence ≡ true =
        returned-canonical u documents request evidence retrieved.evidence canonical (
          subst (λ (z : RetrievalResult). All (IsReturned u documents request evidence) z.evidence)
            q' returned) in
      let fits =
        status_of-fits request retrieved retrieved.status wanted refl
          (subst (IsConsistent request) q consistent) (ground (arith, fine)) in
      let named =
        retrieve_filtered-strategy f u request (length evidence)
          (kept_all documents request evidence) in
      let sound : (all_canonical retrieved.evidence
            && not (blank retrieved.strategy)
            && status_fits retrieved.status retrieved)
          ≡ true =
        ground (arith, fine, named, fits) in
      ap (λ (b : Bool). unless b bad_retrieval passed) sound
