-- ===== src/Evidence/Selection/Diversity.antt =====
-- Where `source_diverse_indexes` of app/evidence/selection.py puts the required sources.
use questock.Prelude.{
  sym, subst, ℕ, zero, suc, ◌+◌, ◌≤◌, ◌≡◌, true, Option, none, some, List, [], ◌∷◌, ◌++◌, String,
  ◌&&◌, not, str_eq, eq_iff, length, take, length-append, arith, Bool-cases, Option-cases, ◌⊎◌, inl,
  inr,
}
use questock.Core.Models.{elem}
use questock.Evidence.Selection.{
  is_in, next_position, append_found, choose, fill, source_diverse_indexes,
}

-- Position `i` of the sources, counted from `at`, has the source `r`.
abbrev pub IsAt : ℕ → ℕ → String → List String → Type 0
IsAt at i r [] = ⊥
IsAt at i r (s ∷ ss) = ((i ≡ at) × (s ≡ r)) ⊎ IsAt (at + 1) i r ss

next_position-IsAt :
    (at : ℕ) (r : String) (selected : List ℕ) (ss : List String) (i : ℕ)
    → next_position at r selected ss ≡ some i
    → IsAt at i r ss
unfolding next_position
next_position-IsAt at r selected [] i h = ground arith
next_position-IsAt at r selected (s ∷ ss) i h =
    elim (Bool-cases (not (is_in at selected) && str_eq s r)) [
      | inl found ↦ inl (ground (arith, found), (eq_iff s r).0 (ground (arith, found)))
      | inr later ↦ inr (next_position-IsAt (at + 1) r selected ss i (ground (arith, later)))
    ]

-- Where nothing is found, all positions with the source are selected.
next_position-none :
    (at : ℕ) (r : String) (selected : List ℕ) (ss : List String) (i : ℕ)
    → next_position at r selected ss ≡ none
    → IsAt at i r ss
    → is_in i selected ≡ true
unfolding next_position
next_position-none at r selected [] i h k = absurd k
next_position-none at r selected (s ∷ ss) i h (inl (same, q)) =
    ground (arith, (eq_iff s r).1 q, same)
next_position-none at r selected (s ∷ ss) i h (inr later) =
    next_position-none (at + 1) r selected ss i (ground arith) later

is_in-append : (i : ℕ) (xs ys : List ℕ) → is_in i xs ≡ true → is_in i (xs ++ ys) ≡ true
is_in-append i [] ys h = ground arith
is_in-append i (x ∷ xs) ys h = ground (arith, is_in-append i xs ys)

is_in-last : (i : ℕ) (xs : List ℕ) → is_in i (xs ++ i ∷ []) ≡ true
is_in-last i [] = ground arith
is_in-last i (x ∷ xs) = ground (arith, is_in-last i xs)

-- Some position with the source is selected.
abbrev pub Covered : List String → String → List ℕ → Type 0
Covered sources r selected = (i : ℕ) × IsAt 0 i r sources × (is_in i selected ≡ true)

append_found-keeps :
    (found : Option ℕ) (selected : List ℕ) (i : ℕ)
    → is_in i selected ≡ true
    → is_in i (append_found found selected) ≡ true
append_found-keeps none selected i h = h
append_found-keeps (some j) selected i h = is_in-append i selected (j ∷ []) h

choose-keeps :
    (sources required : List String) (selected : List ℕ) (i : ℕ)
    → is_in i selected ≡ true
    → is_in i (choose sources required selected) ≡ true
unfolding choose
choose-keeps sources [] selected i h = h
choose-keeps sources (r ∷ rs) selected i h =
    choose-keeps sources rs _ i
      (append_found-keeps (next_position 0 r selected sources) selected i h)

choose-Covered :
    (sources required : List String) (selected : List ℕ) (r : String) (i : ℕ)
    → elem r required ≡ true
    → IsAt 0 i r sources
    → Covered sources r (choose sources required selected)
unfolding choose
choose-Covered sources [] selected r i h k = ground arith
choose-Covered sources (q ∷ qs) selected r i h k = elim (Bool-cases (str_eq q r)) [
  | inr other ↦ choose-Covered sources qs _ r i (ground (arith, other)) k
  | inl same ↦
      let one : q ≡ r = (eq_iff q r).0 same in
      elim (Option-cases (next_position 0 q selected sources)) [
        | inl all_in ↦ (
          i,
          k,
          rw all_in (
              choose-keeps sources qs selected i (
                next_position-none 0 q selected sources i all_in
                  (subst (λ (x : String). IsAt 0 i x sources) (sym one) k))),
        )
        | inr (j, found) ↦ (
          j,
          subst (λ (x : String). IsAt 0 j x sources) one
              (next_position-IsAt 0 q selected sources j found),
          rw found (choose-keeps sources qs (selected ++ j ∷ []) j (is_in-last j selected)),
        )
      ]
]

length-choose :
    (sources required : List String) (selected : List ℕ)
    → length (choose sources required selected) ≤ length selected + length required
unfolding choose
length-choose sources [] selected = omega arith
length-choose sources (r ∷ rs) selected = elim (Option-cases (next_position 0 r selected sources)) [
  | inl all_in ↦ rw all_in (omega (arith, length-choose sources rs selected))
  | inr (j, found) ↦ rw found (
      omega (arith, length-choose sources rs (selected ++ j ∷ []), length-append selected (j ∷ [])))
]

is_in-take :
    (i n : ℕ) (xs : List ℕ) → is_in i xs ≡ true → length xs ≤ n → is_in i (take n xs) ≡ true
is_in-take i n [] h k = ground arith
is_in-take i zero (x ∷ xs) h k = ground arith
is_in-take i (suc n) (x ∷ xs) h k = ground (arith, is_in-take i n xs)

-- What `fill` appends does not move what is in the first places.
is_in-take-append :
    (i n : ℕ) (xs ys : List ℕ) → is_in i (take n xs) ≡ true → is_in i (take n (xs ++ ys)) ≡ true
is_in-take-append i zero xs ys h = ground arith
is_in-take-append i (suc n) [] ys h = ground arith
is_in-take-append i (suc n) (x ∷ xs) ys h = ground (arith, is_in-take-append i n xs ys)

is_in-take-fill :
    (i n at count : ℕ) (xs : List ℕ)
    → is_in i (take n xs) ≡ true
    → is_in i (take n (fill at count xs)) ≡ true
unfolding fill
is_in-take-fill i n at zero xs h = h
is_in-take-fill i n at (suc count) xs h = elim (Bool-cases (is_in at xs)) [
  | inl there ↦ rw there (is_in-take-fill i n (at + 1) count xs h)
  | inr new ↦
      rw new
        (is_in-take-fill i n (at + 1) count (xs ++ at ∷ []) (is_in-take-append i n xs (at ∷ []) h))
]

-- Each required source that some position has is the source of one of the first positions in the
-- order, as many as there are required sources.
pub required_sources_first :
    (sources required : List String) (r : String) (i : ℕ)
    → elem r required ≡ true
    → IsAt 0 i r sources
    → Covered sources r (take (length required) (source_diverse_indexes sources required))
unfolding source_diverse_indexes
required_sources_first sources required r i h k =
    let (j, there, chosen) = choose-Covered sources required [] r i h k in
    (
      j,
      there,
      is_in-take-fill j (length required) 0 (length sources) (choose sources required []) (
          is_in-take j (length required) (choose sources required []) chosen
            (omega (arith, length-choose sources required []))),
    )
