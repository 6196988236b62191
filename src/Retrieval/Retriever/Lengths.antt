-- ===== src/Retrieval/Retriever/Lengths.antt =====
-- How long the lists of app/retrieval/retriever.py are from one step to the next.
use questock.Prelude.{
  ℕ, zero, suc, ◌+◌, ◌≤◌, ◌<◌, ◌≡◌, refl, sym, ap, ◌∙◌, subst, inl, inr, Option, some, List, [],
  ◌∷◌, String, ltb, if◌then◌else◌, length, take, All, All-take, arith, Bool-cases,
}
use questock.Dict.{Dict}
use questock.Core.Evidence.{Evidence}
use questock.Evidence.Selection.{source_diverse_indexes}
use questock.Evidence.Selection.Permutation.{times_in, source_diverse_indexes-permutes}
use questock.Retrieval.Filters.{FinancialDocument, RetrievalRequest, kept, kept_all}
use questock.Retrieval.Retriever.{
  Entry, min, rank, with_scores, sources_of, key_lt, eligible_from, required_sources, item_at, pick,
  select,
}
use questock.Prelude.Order.{insert_by, sort_by}

-- How many members lie below a bound.
abbrev count_below : ℕ → List ℕ → ℕ
count_below m [] = 0
count_below m (j ∷ js) = (if ltb j m then 1 else 0) + count_below m js

count_below-suc : (m : ℕ) (xs : List ℕ) → count_below (suc m) xs ≡ count_below m xs + times_in m xs
count_below-suc m [] = refl
count_below-suc m (x ∷ xs) = ground (arith, count_below-suc m xs)

count_below-zero : (xs : List ℕ) → count_below 0 xs ≡ 0
count_below-zero [] = refl
count_below-zero (x ∷ xs) = ground (arith, count_below-zero xs)

module _ (n : ℕ) (xs : List ℕ) (once : (i : ℕ) → times_in i xs ≡ (if ltb i n then 1 else 0)) where
  count_below-all : (m : ℕ) → m ≤ n → count_below m xs ≡ m
  count_below-all zero h = count_below-zero xs
  count_below-all (suc m) h =
      ground (arith, count_below-suc m xs, count_below-all m (omega arith), once m)

All-below :
    (n : ℕ) (xs : List ℕ) → ((i : ℕ) → n ≤ i → times_in i xs ≡ 0) → All (λ (i : ℕ). i < n) xs
All-below n [] h = tt
All-below n (x ∷ xs) h = (
  elim (Bool-cases (ltb x n)) [
    | inl small ↦ ground (arith, small)
    | inr large ↦ absurd (ground (arith, large, h x))
  ],
  All-below n xs (λ i far. ground (arith, h i far)),
)

length-count_below :
    (n : ℕ) (xs : List ℕ) → All (λ (i : ℕ). i < n) xs → count_below n xs ≡ length xs
length-count_below n [] h = refl
length-count_below n (x ∷ xs) h = ground (arith, h.0, length-count_below n xs h.1)

length-sources_of : (es : List Evidence) → length (sources_of es) ≡ length es
length-sources_of [] = refl
length-sources_of (e ∷ es) = ap suc (length-sources_of es)

item_at-inside :
    (i : ℕ) (es : List Evidence) → i < length es → (e : Evidence) × (item_at i es ≡ some e)
item_at-inside i [] h = absurd (omega arith)
item_at-inside zero (e ∷ es) h = (e, refl)
item_at-inside (suc i) (e ∷ es) h = item_at-inside i es (omega arith)

length-pick :
    (es : List Evidence) (is : List ℕ)
    → All (λ (i : ℕ). i < length es) is
    → length (pick es is) ≡ length is
unfolding pick
length-pick es [] h = refl
length-pick es (i ∷ is) h =
    let (e, found) = item_at-inside i es h.0 in rw found (ap suc (length-pick es is h.1))

length-take : (k : ℕ) (xs : List ℕ) → length (take k xs) ≡ min k (length xs)
length-take zero xs = ground arith
length-take (suc k) [] = ground arith
length-take (suc k) (x ∷ xs) = ground (arith, length-take k xs)

pub length-select :
    (es : List Evidence) (sources : List String) (k : ℕ)
    → length (select es sources k) ≡ min k (length es)
unfolding select
length-select es sources k =
    let order = source_diverse_indexes (sources_of es) (required_sources sources) in
    let n = length-sources_of es in
    let once = source_diverse_indexes-permutes (sources_of es) (required_sources sources) in
    let inside = All-below (length (sources_of es)) order (λ i far. ground (arith, once i)) in
    let whole : length order ≡ length (sources_of es) =
      sym (length-count_below (length (sources_of es)) order inside)
      ∙ count_below-all (length (sources_of es)) order once (length (sources_of es))
          (omega arith) in
    let near : All (λ (i : ℕ). i < length es) order =
      subst (λ (m : ℕ). All (λ (i : ℕ). i < m) order) n inside in
    length-pick es (take k order) (All-take _ k order near)
    ∙ length-take k order
    ∙ ap (min k) (whole ∙ n)

length-insert_by : (x : Entry) (xs : List Entry) → length (insert_by key_lt x xs) ≡ suc (length xs)
length-insert_by x [] = refl
length-insert_by x (y ∷ ys) = elim (Bool-cases (key_lt y x)) [
  | inl past ↦ rw past (ap suc (length-insert_by x ys))
  | inr here ↦ rw here refl
]

pub length-rank : (xs : List Entry) → length (rank xs) ≡ length xs
unfolding rank
length-rank [] = refl
length-rank (x ∷ xs) =
    length-insert_by x (sort_by key_lt xs) ∙ ap suc (unfold rank in length-rank xs)

pub length-with_scores : (xs : List Entry) → length (with_scores xs) ≡ length xs
length-with_scores [] = refl
length-with_scores (x ∷ xs) = ap suc (length-with_scores xs)

pub length-eligible_from :
    (at : ℕ) (es : List Evidence) (scores : List ℕ)
    → length (eligible_from at es scores) ≤ length es
unfolding eligible_from
length-eligible_from at [] scores = omega arith
length-eligible_from at (e ∷ es) [] = omega arith
length-eligible_from at (e ∷ es) (s ∷ ss) = ground (arith, length-eligible_from (at + 1) es ss)

pub length-kept_all :
    (documents : Option (Dict String FinancialDocument)) (request : RetrievalRequest)
    (es : List Evidence)
    → length (kept_all documents request es) ≤ length es
unfolding kept_all
length-kept_all documents request [] = omega arith
length-kept_all documents request (e ∷ es) = elim (Bool-cases (kept documents request e)) [
  | inl into ↦ rw into (omega (arith, length-kept_all documents request es))
  | inr out ↦ rw out (omega (arith, length-kept_all documents request es))
]
