-- ===== src/Retrieval/Retriever/Refines.antt =====
-- What `retrieve_evidence` of app/retrieval/retriever.py returns, without its loops and its sort.
use mathlib.Core.List.{append_assoc, append-nil}
use questock.Prelude.{
  ℕ, zero, suc, ◌+◌, ◌≤◌, ◌<◌, ◌≡◌, refl, sym, ap, ◌∙◌, false, inl, inr, Option, List, [], ◌∷◌,
  ◌++◌, String, ltb, if◌then◌else◌, if_false, length, take, arith, Bool-cases,
}
use questock.Exec.{Result, ok, and_then}
use questock.Dict.{Dict}
use questock.Core.Unicode.{Unicode}
use questock.Core.Evidence.{Evidence}
use questock.Evidence.Selection.{is_in, fill, source_diverse_indexes, choose}
use questock.Retrieval.Filters.{FinancialDocument, RetrievalRequest, FilterError, filter_evidence}
use questock.Retrieval.Tokens.{Token, tokenize_query}
use questock.Retrieval.Scores.{Floats, score_candidates}
use questock.Retrieval.Retriever.{
  Entry, RetrievalResult, max_top_k, min, eligible_from, rank, with_score, with_scores, sources_of,
  required_sources, item_at, put_found, pick, select, is_nil, answer, retrieve_filtered,
  retrieve_evidence,
}
use questock.Retrieval.Retriever.Ranking.{IsRanking, IsRanking-unique}

-- The candidates that may be returned; none for a query without tokens.
abbrev pub candidates : Floats → Unicode → RetrievalRequest → List Evidence → List Entry
candidates f u request filtered =
    let query = tokenize_query u request.query in
    if is_nil query then [] else eligible_from 0 filtered (score_candidates f u filtered query)

abbrev range : ℕ → ℕ → List ℕ
range at zero = []
range at (suc n) = at ∷ range (at + 1) n

abbrev sucs : List ℕ → List ℕ
sucs [] = []
sucs (i ∷ is) = suc i ∷ sucs is

range-sucs : (at n : ℕ) → range (at + 1) n ≡ sucs (range at n)
range-sucs at zero = refl
range-sucs at (suc n) = ground (arith, range-sucs (at + 1) n)

take-sucs : (k : ℕ) (is : List ℕ) → take k (sucs is) ≡ sucs (take k is)
take-sucs zero is = refl
take-sucs (suc k) [] = refl
take-sucs (suc k) (i ∷ is) = ap (λ (l : List ℕ). suc i ∷ l) (take-sucs k is)

pick-sucs : (e : Evidence) (es : List Evidence) (is : List ℕ) → pick (e ∷ es) (sucs is) ≡ pick es is
unfolding pick
pick-sucs e es [] = refl
pick-sucs e es (i ∷ is) = ap (put_found (item_at i es)) (pick-sucs e es is)

pick-take-range : (k : ℕ) (es : List Evidence) → pick es (take k (range 0 (length es))) ≡ take k es
unfolding pick
pick-take-range zero es = refl
pick-take-range (suc k) [] = refl
pick-take-range (suc k) (e ∷ es) =
    ap (λ (l : List Evidence). e ∷ l)
      (ap (λ (is : List ℕ). pick (e ∷ es) (take k is)) (range-sucs 0 (length es))
        ∙ ap (pick (e ∷ es)) (take-sucs k (range 0 (length es)))
        ∙ pick-sucs e es (take k (range 0 (length es)))
        ∙ pick-take-range k es)

is_in-last_ne :
    (i at : ℕ) (xs : List ℕ) → at < i → is_in i xs ≡ false → is_in i (xs ++ at ∷ []) ≡ false
is_in-last_ne i at [] h k = ground arith
is_in-last_ne i at (x ∷ xs) h k = ground (arith, is_in-last_ne i at xs)

fill-range :
    (at n : ℕ) (xs : List ℕ)
    → ((i : ℕ) → at ≤ i → is_in i xs ≡ false)
    → fill at n xs ≡ xs ++ range at n
unfolding fill
fill-range at zero xs new = sym (append-nil xs)
fill-range at (suc n) xs new = rw (new at (omega arith)) (
    fill-range (at + 1) n (xs ++ at ∷ [])
      (λ i h. is_in-last_ne i at xs (omega arith) (new i (omega arith)))
    ∙ append_assoc xs (at ∷ []) (range (at + 1) n))

length-sources_of : (es : List Evidence) → length (sources_of es) ≡ length es
length-sources_of [] = refl
length-sources_of (e ∷ es) = ap suc (length-sources_of es)

-- Where at most one source is requested, the first ones are selected.
select-take :
    (es : List Evidence) (sources : List String) (k : ℕ)
    → length sources ≤ 1
    → select es sources k ≡ take k es
unfolding select source_diverse_indexes choose
select-take es sources k h =
    let few : required_sources sources ≡ [] =
      if_false (ltb 1 (length sources)) _ _ (ground arith) in
    ap
      (λ (required : List String).
        pick es (take k (source_diverse_indexes (sources_of es) required)))
      few
    ∙ ap (λ (is : List ℕ). pick es (take k is))
        (fill-range 0 (length (sources_of es)) [] (λ i h. refl))
    ∙ ap (λ (n : ℕ). pick es (take k (range 0 n))) (length-sources_of es)
    ∙ pick-take-range k es

pick-nil : (is : List ℕ) → pick [] is ≡ []
unfolding pick
pick-nil [] = refl
pick-nil (i ∷ is) = pick-nil is

select-nil : (sources : List String) (k : ℕ) → select [] sources k ≡ []
unfolding select
select-nil sources k = pick-nil (take k (source_diverse_indexes [] (required_sources sources)))

take-with_scores : (k : ℕ) (r : List Entry) → take k (with_scores r) ≡ with_scores (take k r)
take-with_scores zero r = refl
take-with_scores (suc k) [] = refl
take-with_scores (suc k) (x ∷ r) =
    ap (λ (l : List Evidence). with_score x ∷ l) (take-with_scores k r)

module _ (f : Floats) (u : Unicode) (request : RetrievalRequest) where
  abbrev pub selection : List Evidence → List Evidence
  selection filtered =
      select (with_scores (rank (candidates f u request filtered))) request.source_types
        (min request.top_k max_top_k)

  answer-evidence :
      (input : ℕ) (filtered : List Evidence) (query : List Token) (eligible : List Entry)
      → (answer request input filtered query eligible).evidence
        ≡ select (with_scores (rank eligible)) request.source_types (min request.top_k max_top_k)
  unfolding answer rank
  answer-evidence input filtered query [] = sym (select-nil request.source_types _)
  answer-evidence input filtered query (x ∷ xs) = refl

  pub retrieve_filtered-evidence :
      (input : ℕ) (filtered : List Evidence)
      → (retrieve_filtered f u request input filtered).evidence ≡ selection filtered
  unfolding retrieve_filtered rank eligible_from
  retrieve_filtered-evidence input [] =
      elim (Bool-cases (is_nil (tokenize_query u request.query))) [
        | inl no_query ↦ rw no_query (sym (select-nil request.source_types _))
        | inr query ↦ rw query (sym (select-nil request.source_types _))
      ]
  retrieve_filtered-evidence input (e ∷ es) =
      elim (Bool-cases (is_nil (tokenize_query u request.query))) [
        | inl no_query ↦ rw no_query (sym (select-nil request.source_types _))
        | inr query ↦ rw query (answer-evidence input (e ∷ es) _ _)
      ]

candidates_unique :
    (f : Floats) (u : Unicode) (request : RetrievalRequest) (filtered : List Evidence)
    (r : List Entry)
    → IsRanking r (candidates f u request filtered)
    → r ≡ rank (candidates f u request filtered)
unfolding eligible_from
candidates_unique f u request filtered r =
    elim (Bool-cases (is_nil (tokenize_query u request.query))) [
      | inl no_query ↦ rw no_query (λ h. (IsRanking-unique 0 [] [] r).0 h)
      | inr query ↦
          rw query (λ h. (IsRanking-unique 0 filtered (score_candidates f u filtered _) r).0 h)
    ]

-- For a request of at most one source type, the evidence returned is the first min(top_k, 10) of
-- the candidates that pass the hard filter and reach the threshold, by falling score and for equal
-- scores by their order in the input, whatever list is a ranking of them.
pub retrieve_evidence-top :
    (f : Floats) (u : Unicode) (evidence : List Evidence) (request : RetrievalRequest)
    (documents : Option (Dict String FinancialDocument)) (filtered : List Evidence) (r : List Entry)
    → filter_evidence evidence request documents ≡ ok filtered
    → length request.source_types ≤ 1
    → IsRanking r (candidates f u request filtered)
    → (x : RetrievalResult) × (retrieve_evidence f u evidence request documents ≡ ok x)
      × (x.evidence ≡ with_scores (take (min request.top_k max_top_k) r))
unfolding retrieve_evidence
retrieve_evidence-top f u evidence request documents filtered r passed few ranking =
    let k = min request.top_k max_top_k in
    let es = candidates f u request filtered in
    (
      retrieve_filtered f u request (length evidence) filtered,
      ap
          (λ (x : Result FilterError (List Evidence)).
            and_then x (λ filtered. ok (retrieve_filtered f u request (length evidence) filtered)))
          passed,
      retrieve_filtered-evidence f u request (length evidence) filtered
          ∙ select-take (with_scores (rank es)) request.source_types k few
          ∙ take-with_scores k (rank es)
          ∙ ap (λ (l : List Entry). with_scores (take k l))
              (sym (candidates_unique f u request filtered r ranking)),
    )
