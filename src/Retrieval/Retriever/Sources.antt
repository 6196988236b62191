-- ===== src/Retrieval/Retriever/Sources.antt =====
-- The sources of what `retrieve_evidence` of app/retrieval/retriever.py returns.
use questock.Prelude.{
  ℕ, zero, suc, ◌+◌, ◌≤◌, ◌<◌, ◌≡◌, refl, sym, ap, subst, true, inl, inr, Option, none, some, List,
  [], ◌∷◌, String, ltb, ◌==◌, if_true, length, take, arith, Bool-cases,
}
use questock.Prelude.Order.{IsIn}
use questock.Exec.{Result, ok, and_then}
use questock.Dict.{Dict}
use questock.Core.Models.{elem}
use questock.Core.Unicode.{Unicode}
use questock.Core.Evidence.{Evidence}
use questock.Evidence.Selection.{is_in, source_diverse_indexes}
use questock.Evidence.Selection.Diversity.{IsAt, required_sources_first}
use questock.Retrieval.Filters.{FinancialDocument, RetrievalRequest, FilterError, filter_evidence}
use questock.Retrieval.Scores.{Floats}
use questock.Retrieval.Retriever.{
  Entry, RetrievalResult, max_top_k, min, rank, with_score, with_scores, sources_of,
  required_sources, item_at, put_found, pick, select, retrieve_filtered, retrieve_evidence,
}
use questock.Retrieval.Retriever.Ranking.{rank-SameMembers}
use questock.Retrieval.Retriever.Refines.{candidates, retrieve_filtered-evidence}

in-IsAt :
    (at : ℕ) (e : Evidence) (es : List Evidence)
    → IsIn e es
    → (i : ℕ) × IsAt at i e.source_type (sources_of es)
in-IsAt at e [] h = absurd h
in-IsAt at e (x ∷ es) (inl q) = (at, inl (refl, ap (λ (z : Evidence). z.source_type) (sym q)))
in-IsAt at e (x ∷ es) (inr h) = let (i, there) = in-IsAt (at + 1) e es h in (i, inr there)

IsAt-item :
    (at i : ℕ) (r : String) (es : List Evidence)
    → IsAt at i r (sources_of es)
    → (k : ℕ) × (e : Evidence) × (i ≡ at + k) × (item_at k es ≡ some e) × (e.source_type ≡ r)
IsAt-item at i r [] h = absurd h
IsAt-item at i r (x ∷ es) (inl (same, source)) = (0, x, omega arith, refl, source)
IsAt-item at i r (x ∷ es) (inr h) =
    let (k, e, place, found, source) = IsAt-item (at + 1) i r es h in
    (suc k, e, omega arith, found, source)

is_in-take-le :
    (i m n : ℕ) (xs : List ℕ) → m ≤ n → is_in i (take m xs) ≡ true → is_in i (take n xs) ≡ true
is_in-take-le i zero n xs h k = absurd (ground arith)
is_in-take-le i (suc m) zero xs h k = absurd (omega arith)
is_in-take-le i (suc m) (suc n) [] h k = absurd (ground arith)
is_in-take-le i (suc m) (suc n) (x ∷ xs) h k = ground (arith, is_in-take-le i m n xs)

put_found-in :
    (found : Option Evidence) (e : Evidence) (rest : List Evidence)
    → IsIn e rest
    → IsIn e (put_found found rest)
put_found-in none e rest h = h
put_found-in (some x) e rest h = inr h

pick-in :
    (es : List Evidence) (i : ℕ) (e : Evidence) (is : List ℕ)
    → item_at i es ≡ some e
    → is_in i is ≡ true
    → IsIn e (pick es is)
unfolding pick
pick-in es i e [] found h = absurd (ground arith)
pick-in es i e (j ∷ is) found h = elim (Bool-cases (i == j)) [
  | inl same ↦ let q : i ≡ j = ground (arith, same) in rw (← q) (rw found (inl refl))
  | inr other ↦
      put_found-in (item_at j es) e (pick es is) (pick-in es i e is found (ground (arith, other)))
]

with_scores-in : (x : Entry) (r : List Entry) → IsIn x r → IsIn (with_score x) (with_scores r)
with_scores-in x [] h = absurd h
with_scores-in x (y ∷ r) (inl q) = inl (ap with_score q)
with_scores-in x (y ∷ r) (inr h) = inr (with_scores-in x r h)

select-covers :
    (es : List Evidence) (sources : List String) (k : ℕ) (e : Evidence)
    → 1 < length sources
    → length sources ≤ k
    → elem e.source_type sources ≡ true
    → IsIn e es
    → (d : Evidence) × IsIn d (select es sources k) × (d.source_type ≡ e.source_type)
unfolding select
select-covers es sources k e several room asked there =
    let (i, at) = in-IsAt 0 e es there in
    let (j, place, chosen) =
      required_sources_first (sources_of es) sources e.source_type i asked at in
    let (p, d, same, found, source) = IsAt-item 0 j e.source_type es place in
    let required : required_sources sources ≡ sources =
      if_true (ltb 1 (length sources)) _ _ (ground arith) in
    let near = is_in-take-le j (length sources) k _ room chosen in
    let here : item_at j es ≡ some d =
      subst (λ (n : ℕ). item_at n es ≡ some d) (omega (arith, same)) found in
    (
      d,
      subst
          (λ (l : List String).
            IsIn d (pick es (take k (source_diverse_indexes (sources_of es) l))))
          (sym required) (pick-in es j d _ here near),
      source,
    )

-- Where several source types are requested, no more than min(top_k, 10), each of them that has a
-- candidate, an item that passes the hard filter and reaches the threshold, has an item among those
-- returned.
pub retrieve_evidence-covers :
    (f : Floats) (u : Unicode) (evidence : List Evidence) (request : RetrievalRequest)
    (documents : Option (Dict String FinancialDocument)) (filtered : List Evidence) (y : Entry)
    → filter_evidence evidence request documents ≡ ok filtered
    → 1 < length request.source_types
    → length request.source_types ≤ min request.top_k max_top_k
    → elem y.item.source_type request.source_types ≡ true
    → IsIn y (candidates f u request filtered)
    → (x : RetrievalResult) × (retrieve_evidence f u evidence request documents ≡ ok x)
      × (e : Evidence) × IsIn e x.evidence
      × (e.source_type ≡ y.item.source_type)
unfolding retrieve_evidence
retrieve_evidence-covers f u evidence request documents filtered y passed several room asked there =
    let k = min request.top_k max_top_k in
    let ranked = rank (candidates f u request filtered) in
    let n = length evidence in
    let (d, selected, source) =
      select-covers (with_scores ranked) request.source_types k (with_score y) several room asked (
        with_scores-in y ranked ((rank-SameMembers (candidates f u request filtered) y).1 there)) in
    (
      retrieve_filtered f u request n filtered,
      ap
          (λ (x : Result FilterError (List Evidence)).
            and_then x (λ kept. ok (retrieve_filtered f u request n kept)))
          passed,
      d,
      subst (IsIn d) (sym (retrieve_filtered-evidence f u request n filtered)) selected,
      source,
    )
