-- ===== src/Retrieval/Retriever/Shares.antt =====
-- A document that scores in app/retrieval/retriever.py shares a token with the query.
use questock.Prelude.{
  ℕ, ◌+◌, ◌≤◌, ◌≡◌, refl, ap, ◌∙◌, true, false, ◌⊎◌, inl, inr, List, [], ◌∷◌, leb, leb→le, ◌==◌,
  arith, Bool-cases, All,
}
use questock.Core.Unicode.{Unicode}
use questock.Core.Evidence.{Evidence}
use questock.Retrieval.Tokens.{Token, token_eq, token_in}
use questock.Retrieval.Scores.{
  Floats, count, distinct, total_length, add_terms, document_score, score_each, zeros,
  score_documents, candidate_tokens, all_tokens, score_candidates,
}
use questock.Retrieval.Retriever.{Entry, low_relevance_threshold, eligible_from}

token_eq_refl : (t : Token) → token_eq t t ≡ true
token_eq_refl [] = refl
token_eq_refl (c ∷ cs) = ground (arith, token_eq_refl cs)

token_in_count : (t : Token) (d : List Token) → (count t d == 0) ≡ false → token_in t d ≡ true
token_in_count t [] h = ground arith
token_in_count t (u ∷ us) h = ground (arith, token_in_count t us)

distinct-in :
    (t : Token) (seen ts : List Token) → token_in t (distinct seen ts) ≡ true → token_in t ts ≡ true
distinct-in t seen [] h = h
distinct-in t seen (u ∷ us) h = elim (Bool-cases (token_in u seen)) [
  | inl old ↦ ground (arith, old, distinct-in t seen us)
  | inr new ↦ ground (arith, new, distinct-in t (u ∷ seen) us)
]

-- A token of the query stands in the document.
abbrev pub Shares : List Token → List Token → Type 0
Shares query document = (t : Token) × (token_in t query ≡ true) × (token_in t document ≡ true)

module _ (f : Floats) where
  add_terms-Shares :
      (documents : List (List Token)) (document query tokens : List Token) (score : Floats.Float f)
      → (add_terms f documents document query tokens score ≡ score) ⊎ Shares tokens document
  unfolding add_terms
  add_terms-Shares documents document query [] score = inl refl
  add_terms-Shares documents document query (t ∷ ts) score =
      elim (Bool-cases (count t document == 0)) [
        | inr present ↦ inr (t, ground (arith, token_eq_refl t), token_in_count t document present)
        | inl absent ↦ elim (add_terms-Shares documents document query ts score) [
          | inl same ↦ inl (rw absent same)
          | inr (v, there, shared) ↦ inr (v, ground (arith, there), shared)
        ]
      ]

  module _ (zero_score : f.millionths (f.hundredths 0) ≡ 0) where
    document_score-Shares :
        (documents : List (List Token)) (query document : List Token)
        → low_relevance_threshold ≤ document_score f documents query document
        → Shares query document
    document_score-Shares documents query document h =
        elim (add_terms-Shares documents document query (distinct [] query) (f.hundredths 0)) [
          | inl same ↦
              let none_left = ap f.millionths same ∙ zero_score in absurd (omega (arith, none_left))
          | inr (t, there, shared) ↦ (t, distinct-in t [] query there, shared)
        ]

    -- The score reaches the threshold, and the item shares a token with the query.
    abbrev pub IsEligible : Unicode → List Token → Entry → Type 0
    IsEligible u query x =
        (low_relevance_threshold ≤ x.score) × Shares query (candidate_tokens u x.item)

    score_each-IsEligible :
        (u : Unicode) (documents : List (List Token)) (query : List Token) (at : ℕ)
        (es : List Evidence)
        → All
            (IsEligible u query)
            (eligible_from at es (score_each f documents query (all_tokens u es)))
    unfolding eligible_from
    score_each-IsEligible u documents query at [] = tt
    score_each-IsEligible u documents query at (e ∷ es) =
        let rest = score_each-IsEligible u documents query (at + 1) es in
        let score = document_score f documents query (candidate_tokens u e) in
        elim (Bool-cases (leb low_relevance_threshold score)) [
          | inl high ↦
              let reached : low_relevance_threshold ≤ score =
                leb→le low_relevance_threshold score high in
              rw high (
                (reached, document_score-Shares documents query (candidate_tokens u e) reached),
                rest,
              )
          | inr low ↦ rw low rest
        ]

    zeros-nil :
        (u : Unicode) (at : ℕ) (es : List Evidence)
        → eligible_from at es (zeros f (all_tokens u es)) ≡ []
    unfolding eligible_from
    zeros-nil u at [] = refl
    zeros-nil u at (e ∷ es) = zeros-nil u (at + 1) es

    pub score_candidates-IsEligible :
        (u : Unicode) (query : List Token) (es : List Evidence)
        → All (IsEligible u query) (eligible_from 0 es (score_candidates f u es query))
    unfolding score_candidates score_documents
    score_candidates-IsEligible u query es =
        elim (Bool-cases (total_length (all_tokens u es) == 0)) [
          | inl no_token ↦ rw no_token (rw (zeros-nil u 0 es) tt)
          | inr tokens ↦ rw tokens (score_each-IsEligible u (all_tokens u es) query 0 es)
        ]
