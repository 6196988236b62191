-- ===== src/Retrieval/Retriever/Relevant.antt =====
-- What every item that `retrieve_evidence` of app/retrieval/retriever.py returns has.
use questock.Retrieval.Retriever.Shares.{score_candidates-IsEligible, Shares}
use questock.Prelude.{
  All-imp, ℕ, zero, suc, ◌+◌, ◌≤◌, ◌≡◌, refl, sym, subst, true, inl, inr, Option, some, List, [],
  ◌∷◌, String, leb, All-imp, if_true, if_false, length, arith, Bool-cases, Option-cases, All,
}
use questock.Prelude.Order.{IsIn, All-IsIn, All-of_IsIn}
use questock.Exec.{ok}
use questock.Dict.{Dict}
use questock.Core.Unicode.{Unicode}
use questock.Core.Evidence.{Evidence}
use questock.Retrieval.Filters.{
  FinancialDocument, RetrievalRequest, kept, kept_all, documents_ok, filter_evidence,
}
use questock.Retrieval.Filters.Sound.{IsSound, kept_all-IsSound}
use questock.Retrieval.Tokens.{tokenize_query}
use questock.Retrieval.Scores.{Floats, candidate_tokens, score_candidates}
use questock.Retrieval.Retriever.{
  Entry, RetrievalResult, low_relevance_threshold, eligible_from, rank, with_score, with_scores,
  item_at, pick, select, is_nil, retrieve_filtered, retrieve_evidence,
}
use questock.Retrieval.Retriever.Ranking.{rank-SameMembers}
use questock.Retrieval.Retriever.Refines.{candidates, retrieve_filtered-evidence}

eligible_from-item :
    (at : ℕ) (es : List Evidence) (scores : List ℕ)
    → All (λ (x : Entry). IsIn x.item es) (eligible_from at es scores)
unfolding eligible_from
eligible_from-item at [] scores = tt
eligible_from-item at (e ∷ es) [] = tt
eligible_from-item at (e ∷ es) (s ∷ ss) =
    let later : All (λ (x : Entry). IsIn x.item (e ∷ es)) (eligible_from (at + 1) es ss) =
      All-imp (λ (x : Entry). IsIn x.item es) (λ (x : Entry). IsIn x.item (e ∷ es)) (λ x h. inr h) _
        (eligible_from-item (at + 1) es ss) in
    elim (Bool-cases (leb low_relevance_threshold s)) [
      | inl high ↦ rw high (inl refl, later)
      | inr low ↦ rw low later
    ]

item_at-All {κ} :
    (P : Evidence → Type κ) (i : ℕ) (es : List Evidence) (e : Evidence)
    → All P es
    → item_at i es ≡ some e
    → P e
item_at-All P i [] e h k = absurd (ground (arith, k))
item_at-All P zero (x ∷ es) e h k = subst P (cc) h.0
item_at-All P (suc i) (x ∷ es) e h k = item_at-All P i es e h.1 k

pick-All {κ} :
    (P : Evidence → Type κ) (es : List Evidence) (is : List ℕ) → All P es → All P (pick es is)
unfolding pick
pick-All P es [] h = tt
pick-All P es (i ∷ is) h = elim (Option-cases (item_at i es)) [
  | inl outside ↦ rw outside (pick-All P es is h)
  | inr (e, found) ↦ rw found (item_at-All P i es e h found, pick-All P es is h)
]

with_scores-All {κ} :
    (P : Evidence → Type κ) (r : List Entry)
    → All (λ (x : Entry). P (with_score x)) r
    → All P (with_scores r)
with_scores-All P [] h = tt
with_scores-All P (x ∷ r) h = (h.0, with_scores-All P r h.1)

kept_all-in :
    (documents : Option (Dict String FinancialDocument)) (request : RetrievalRequest)
    (es : List Evidence) (x : Evidence)
    → IsIn x (kept_all documents request es)
    → IsIn x es
unfolding kept_all
kept_all-in documents request [] x h = h
kept_all-in documents request (e ∷ es) x h = elim (Bool-cases (kept documents request e)) [
  | inr out ↦ inr (
      kept_all-in documents request es x
        (subst (λ (l : List Evidence). IsIn x l) (if_false (kept documents request e) _ _ out) h))
  | inl into ↦
      let k : IsIn x (e ∷ kept_all documents request es) =
        subst (λ (l : List Evidence). IsIn x l) (if_true (kept documents request e) _ _ into) h in
      elim k [ inl q ↦ inl q | inr t ↦ inr (kept_all-in documents request es x t) ]
]

-- An item of the input that passes the hard filter, with its score filled in.
abbrev pub IsReturned :
    Unicode
    → Option (Dict String FinancialDocument)
    → RetrievalRequest
    → List Evidence
    → Evidence
    → Type 0
IsReturned u documents request evidence e =
    (original : Evidence) × (score : ℕ) × IsIn original evidence
    × IsSound documents request original
    × (e ≡ record original { retrieval_score = some score })
    × (low_relevance_threshold ≤ score)
    × Shares (tokenize_query u request.query) (candidate_tokens u original)

candidates-IsReturned :
    (f : Floats) (u : Unicode) (documents : Option (Dict String FinancialDocument))
    (request : RetrievalRequest) (evidence : List Evidence)
    → f.millionths (f.hundredths 0) ≡ 0
    → All
        (λ (x : Entry). IsReturned u documents request evidence (with_score x))
        (candidates f u request (kept_all documents request evidence))
candidates-IsReturned f u documents request evidence zero_score =
    elim (Bool-cases (is_nil (tokenize_query u request.query))) [
      | inl no_query ↦ rw no_query tt
      | inr query ↦ rw query (all_from_query)
    ]
  where
    filtered : List Evidence
    filtered = kept_all documents request evidence

    entries : List Entry
    entries =
        eligible_from 0 filtered (score_candidates f u filtered (tokenize_query u request.query))

    all_from_query :
        All (λ (x : Entry). IsReturned u documents request evidence (with_score x)) entries
    all_from_query = All-of_IsIn _ entries (λ x there.
        let item = All-IsIn _ entries x (eligible_from-item 0 filtered _) there in
        let (reached, shared) =
          All-IsIn _ entries x
            (score_candidates-IsEligible f zero_score u (tokenize_query u request.query) filtered)
            there in
        (
          x.item,
          x.score,
          kept_all-in documents request evidence x.item item,
          All-IsIn _ filtered x.item (kept_all-IsSound documents request evidence) item,
          refl,
          reached,
          shared,
        ))

-- The score of 0.0 being 0, retrieval with documents under their own ids returns a result, and each
-- item of it is an item of the input that passes the hard filter, unchanged but for its score,
-- which is at least 0.5; and a token of the query stands in its title or snippet.
pub retrieve_evidence-IsReturned :
    (f : Floats) (u : Unicode) (evidence : List Evidence) (request : RetrievalRequest)
    (documents : Option (Dict String FinancialDocument))
    → f.millionths (f.hundredths 0) ≡ 0
    → documents_ok documents ≡ true
    → (x : RetrievalResult) × (retrieve_evidence f u evidence request documents ≡ ok x)
      × All (IsReturned u documents request evidence) x.evidence
unfolding retrieve_evidence filter_evidence select
retrieve_evidence-IsReturned f u evidence request documents zero_score good =
    let filtered = kept_all documents request evidence in
    let eligible = candidates f u request filtered in
    let found = candidates-IsReturned f u documents request evidence zero_score in
    let ranked : All (λ (x : Entry). IsReturned u documents request evidence (with_score x))
        (rank eligible) =
      All-of_IsIn _ (rank eligible)
        (λ x there. All-IsIn _ eligible x found ((rank-SameMembers eligible x).0 there)) in
    (
      retrieve_filtered f u request (length evidence) filtered,
      rw good refl,
      subst (All (IsReturned u documents request evidence))
          (sym (retrieve_filtered-evidence f u request (length evidence) filtered))
          (pick-All _ (with_scores (rank eligible)) _ (with_scores-All _ (rank eligible) ranked)),
    )
