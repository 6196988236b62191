-- ===== src/Retrieval/Retriever/Matches.antt =====
-- No item of the input stands more often in a result of app/retrieval/retriever.py than in it.
use questock.Prelude.{
  ℕ, zero, suc, ◌+◌, ◌≤◌, ◌≡◌, refl, ap, Bool, inl, inr, Option, some, none, List, [], ◌∷◌, String,
  leb, if◌then◌else◌, length, take, arith, Bool-cases,
}
use questock.Dict.{Dict}
use questock.Core.Unicode.{Unicode}
use questock.Core.Evidence.{Evidence}
use questock.Evidence.Selection.{source_diverse_indexes}
use questock.Evidence.Selection.Permutation.{times_in, source_diverse_indexes-permutes}
use questock.Retrieval.Filters.{FinancialDocument, RetrievalRequest, kept, kept_all}
use questock.Retrieval.Tokens.{tokenize_query}
use questock.Retrieval.Scores.{Floats}
use questock.Retrieval.Retriever.{
  Entry, max_top_k, min, low_relevance_threshold, rank, with_score, with_scores, sources_of, key_lt,
  eligible_from, required_sources, item_at, put_found, pick, select, is_nil, retrieve_filtered,
}
use questock.Retrieval.Retriever.Refines.{candidates, retrieve_filtered-evidence}
use questock.Prelude.Order.{insert_by, sort_by}

-- How many items pass a test.
abbrev pub matches : (Evidence → Bool) → List Evidence → ℕ
matches p [] = 0
matches p (e ∷ es) = (if p e then 1 else 0) + matches p es

-- The indexes behind the first item, less one.
abbrev lower : List ℕ → List ℕ
lower [] = []
lower (zero ∷ is) = lower is
lower (suc i ∷ is) = i ∷ lower is

times_in-lower : (i : ℕ) (is : List ℕ) → times_in i (lower is) ≡ times_in (suc i) is
times_in-lower i [] = refl
times_in-lower i (zero ∷ is) = ground (arith, times_in-lower i is)
times_in-lower i (suc j ∷ is) = ground (arith, times_in-lower i is)

times_in-take : (i k : ℕ) (is : List ℕ) → times_in i (take k is) ≤ times_in i is
times_in-take i zero is = omega arith
times_in-take i (suc k) [] = omega arith
times_in-take i (suc k) (j ∷ is) = ground (arith, times_in-take i k is)

module _ (p : Evidence → Bool) where
  pick-nil : (is : List ℕ) → pick [] is ≡ []
  unfolding pick
  pick-nil [] = refl
  pick-nil (i ∷ is) = pick-nil is

  matches-put_found :
      (o : Option Evidence) (rest : List Evidence)
      → matches p (put_found o rest) ≡ matches p (put_found o []) + matches p rest
  matches-put_found none rest = omega arith
  matches-put_found (some e) rest = omega arith

  matches-pick_first :
      (e : Evidence) (es : List Evidence) (is : List ℕ)
      → matches p (pick (e ∷ es) is)
        ≡ (if p e then times_in 0 is else 0) + matches p (pick es (lower is))
  unfolding pick
  matches-pick_first e es [] = ground arith
  matches-pick_first e es (zero ∷ is) = ground (arith, matches-pick_first e es is)
  matches-pick_first e es (suc i ∷ is) = ground (
    arith,
    matches-pick_first e es is,
    matches-put_found (item_at i es) (pick (e ∷ es) is),
    matches-put_found (item_at i es) (pick es (lower is)),
  )

  matches-pick :
      (es : List Evidence) (is : List ℕ)
      → ((i : ℕ) → times_in i is ≤ 1)
      → matches p (pick es is) ≤ matches p es
  matches-pick [] is once = omega (arith, ap (matches p) (pick-nil is))
  matches-pick (e ∷ es) is once =
      let later =
        matches-pick es (lower is) (λ i. omega (arith, times_in-lower i is, once (suc i))) in
      ground (arith, matches-pick_first e es is, later, once 0)

  matches-select :
      (es : List Evidence) (sources : List String) (k : ℕ)
      → matches p (select es sources k) ≤ matches p es
  unfolding select
  matches-select es sources k =
      let order = source_diverse_indexes (sources_of es) (required_sources sources) in
      matches-pick es (take k order) (λ i. ground (
        arith,
        times_in-take i k order,
        source_diverse_indexes-permutes (sources_of es) (required_sources sources) i,
      ))

  matches-kept_all :
      (documents : Option (Dict String FinancialDocument)) (request : RetrievalRequest)
      (es : List Evidence)
      → matches p (kept_all documents request es) ≤ matches p es
  unfolding kept_all
  matches-kept_all documents request [] = omega arith
  matches-kept_all documents request (e ∷ es) = elim (Bool-cases (kept documents request e)) [
    | inl into ↦ rw into (omega (arith, matches-kept_all documents request es))
    | inr out ↦ rw out (omega (arith, matches-kept_all documents request es))
  ]

  matches-insert_by :
      (x : Entry) (xs : List Entry)
      → matches p (with_scores (insert_by key_lt x xs))
        ≡ (if p (with_score x) then 1 else 0) + matches p (with_scores xs)
  matches-insert_by x [] = refl
  matches-insert_by x (y ∷ ys) = elim (Bool-cases (key_lt y x)) [
    | inl past ↦ rw past (omega (arith, matches-insert_by x ys))
    | inr here ↦ rw here refl
  ]

  matches-rank : (xs : List Entry) → matches p (with_scores (rank xs)) ≡ matches p (with_scores xs)
  unfolding rank
  matches-rank [] = refl
  matches-rank (x ∷ xs) =
      let later : matches p (with_scores (sort_by key_lt xs)) ≡ matches p (with_scores xs) =
        unfold rank in matches-rank xs in
      omega (arith, matches-insert_by x (sort_by key_lt xs), later)

  -- The test does not look at the score.
  module _
      (rescored : (e : Evidence) (s : Option ℕ) → p (record e { retrieval_score = s }) ≡ p e) where
    matches-eligible_from :
        (at : ℕ) (es : List Evidence) (scores : List ℕ)
        → matches p (with_scores (eligible_from at es scores)) ≤ matches p es
    unfolding eligible_from
    matches-eligible_from at [] scores = omega arith
    matches-eligible_from at (e ∷ es) [] = omega arith
    matches-eligible_from at (e ∷ es) (s ∷ ss) =
        let later = matches-eligible_from (at + 1) es ss in
        elim (Bool-cases (leb low_relevance_threshold s)) [
          | inl high ↦ rw high (rw (rescored e (some s)) (omega (arith, later)))
          | inr low ↦ rw low (omega (arith, later))
        ]

    matches-candidates :
        (f : Floats) (u : Unicode) (request : RetrievalRequest) (filtered : List Evidence)
        → matches p (with_scores (candidates f u request filtered)) ≤ matches p filtered
    matches-candidates f u request filtered =
        elim (Bool-cases (is_nil (tokenize_query u request.query))) [
          | inl no_query ↦ rw no_query (omega arith)
          | inr query ↦ rw query (matches-eligible_from 0 filtered _)
        ]

    pub matches-retrieve_filtered :
        (f : Floats) (u : Unicode) (documents : Option (Dict String FinancialDocument))
        (request : RetrievalRequest) (evidence : List Evidence)
        → matches p
            (retrieve_filtered f u request
              (length evidence)
              (kept_all documents request evidence)).evidence
          ≤ matches p evidence
    matches-retrieve_filtered f u documents request evidence =
        let filtered = kept_all documents request evidence in
        let es = candidates f u request filtered in
        rw (retrieve_filtered-evidence f u request (length evidence) filtered) (
          omega (
            arith,
            matches-select (with_scores (rank es)) request.source_types
                (min request.top_k max_top_k),
            matches-rank es,
            matches-candidates f u request filtered,
            matches-kept_all documents request evidence,
          ))
