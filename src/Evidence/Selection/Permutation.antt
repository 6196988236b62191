-- ===== src/Evidence/Selection/Permutation.antt =====
-- How often positions stand in the order of `source_diverse_indexes` of app/evidence/selection.py.
use questock.Prelude.{
  ℕ, zero, suc, ◌+◌, ◌≤◌, ◌<◌, ◌≡◌, refl, true, false, Option, none, some, List, [], ◌∷◌, ◌++◌,
  String, ◌==◌, ltb, leb, ◌&&◌, if◌then◌else◌, length, arith, Bool-cases, inl, inr,
}
use questock.Evidence.Selection.{
  is_in, next_position, append_found, choose, fill, source_diverse_indexes,
}

-- How often a position stands in a list.
abbrev pub times_in : ℕ → List ℕ → ℕ
times_in i [] = 0
times_in i (j ∷ js) = (if i == j then 1 else 0) + times_in i js

times_in-append : (i : ℕ) (xs ys : List ℕ) → times_in i (xs ++ ys) ≡ times_in i xs + times_in i ys
times_in-append i [] ys = omega arith
times_in-append i (x ∷ xs) ys = ground (arith, times_in-append i xs ys)

times_in-absent : (i : ℕ) (xs : List ℕ) → is_in i xs ≡ false → times_in i xs ≡ 0
times_in-absent i [] h = refl
times_in-absent i (x ∷ xs) h = ground (arith, times_in-absent i xs)

times_in-present : (i : ℕ) (xs : List ℕ) → is_in i xs ≡ true → 1 ≤ times_in i xs
times_in-present i [] h = ground arith
times_in-present i (x ∷ xs) h = ground (arith, times_in-present i xs)

-- What is found is a position of the list, and new.
next_position-new :
    (at : ℕ) (required : String) (selected : List ℕ) (sources : List String) (i : ℕ)
    → next_position at required selected sources ≡ some i
    → (is_in i selected ≡ false) × (i < at + length sources)
unfolding next_position
next_position-new at required selected [] i h = ground arith
next_position-new at required selected (s ∷ ss) i h =
    ground (arith, next_position-new (at + 1) required selected ss i)

-- Positions of the list, none twice.
record IsPart (n : ℕ) (xs : List ℕ) : Type 0 where
  once : (i : ℕ) → times_in i xs ≤ 1
  below : (i : ℕ) → n ≤ i → times_in i xs ≡ 0

append_found-IsPart :
    (n : ℕ) (found : Option ℕ) (selected : List ℕ)
    → IsPart n selected
    → ((i : ℕ) → found ≡ some i → (is_in i selected ≡ false) × (i < n))
    → IsPart n (append_found found selected)
append_found-IsPart n none selected h new = h
append_found-IsPart n (some j) selected h new =
    let (fresh, small) = new j refl in
    record {
      once = λ i.
          ground (
            arith,
            times_in-append i selected (j ∷ []),
            h.once i,
            times_in-absent j selected fresh,
          );
      below =
          λ i large. ground (arith, times_in-append i selected (j ∷ []), h.below i large, small);
    }

choose-IsPart :
    (sources required : List String) (selected : List ℕ)
    → IsPart (length sources) selected
    → IsPart (length sources) (choose sources required selected)
unfolding choose
choose-IsPart sources [] selected h = h
choose-IsPart sources (r ∷ rs) selected h = choose-IsPart sources rs _ (
    append_found-IsPart (length sources) (next_position 0 r selected sources) selected h (λ i found.
      let (fresh, small) = next_position-new 0 r selected sources i found in
      (fresh, omega (arith, small))))

times_in-fill :
    (i at count : ℕ) (selected : List ℕ)
    → times_in i selected ≤ 1
    → times_in i (fill at count selected)
      ≡ (if leb at i && ltb i (at + count) then 1 else times_in i selected)
unfolding fill
times_in-fill i at zero selected h = ground arith
times_in-fill i at (suc count) selected h = elim (Bool-cases (is_in at selected)) [
  | inl there ↦ rw there (
      ground
        (arith, times_in-fill i (at + 1) count selected h, times_in-present at selected there, h))
  | inr new ↦ rw new (
      let longer = times_in-append i selected (at ∷ []) in
      let absent = times_in-absent at selected new in
      let once : times_in i (selected ++ at ∷ []) ≤ 1 = ground (arith, longer, absent, h) in
      ground (arith, times_in-fill i (at + 1) count (selected ++ at ∷ []) once, longer, absent, h))
]

-- Each position of the sources stands in the order of source_diverse_indexes exactly once, and
-- nothing else does.
pub source_diverse_indexes-permutes :
    (sources required : List String) (i : ℕ)
    → times_in i (source_diverse_indexes sources required)
      ≡ (if ltb i (length sources) then 1 else 0)
unfolding source_diverse_indexes
source_diverse_indexes-permutes sources required i =
    let part =
      choose-IsPart sources required [] (record { once = λ i. omega arith; below = λ i _. refl }) in
    ground (
      arith,
      times_in-fill i 0 (length sources) (choose sources required []) (part.once i),
      part.below i,
    )
