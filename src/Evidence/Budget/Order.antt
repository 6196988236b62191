-- ===== src/Evidence/Budget/Order.antt =====
-- The items in the order of `source_diverse_indexes`, for app/evidence/budget.py.
use questock.Prelude.{
  if◌then◌else◌, ltb, ◌+◌, ℕ, zero, suc, ◌≤◌, ◌<◌, ◌≡◌, refl, subst, true, false, some, List, [],
  ◌∷◌, String, str_eq, eq_iff, length, arith, Bool-cases, inl, inr, All,
}
use questock.Exec.{ok}
use questock.Core.Models.{elem, has_duplicates}
use questock.Evidence.Selection.{source_diverse_indexes}
use questock.Evidence.Selection.Permutation.{times_in, source_diverse_indexes-permutes}
use questock.Evidence.Budget.{CanonicalEvidence, item_at, items_at, fingerprints, sources_of}

length-sources_of : (xs : List CanonicalEvidence) → length (sources_of xs) ≡ length xs
length-sources_of [] = refl
length-sources_of (x ∷ xs) = omega (arith, length-sources_of xs)

item_at-found :
    (i : ℕ) (xs : List CanonicalEvidence)
    → i < length xs
    → (x : CanonicalEvidence) × (item_at i xs ≡ some x)
item_at-found i [] h = absurd (omega (arith, h))
item_at-found zero (x ∷ xs) h = (x, refl)
item_at-found (suc i) (x ∷ xs) h = item_at-found i xs (omega (arith, h))

item_at-All {κ} :
    (P : CanonicalEvidence → Type κ) (i : ℕ) (xs : List CanonicalEvidence) (x : CanonicalEvidence)
    → All P xs
    → item_at i xs ≡ some x
    → P x
item_at-All P i [] x h q = ground arith
item_at-All P zero (y ∷ ys) x h q = subst P (ground (arith, q)) h.0
item_at-All P (suc i) (y ∷ ys) x h q = item_at-All P i ys x h.1 q

item_at-elem :
    (i : ℕ) (xs : List CanonicalEvidence) (x : CanonicalEvidence)
    → item_at i xs ≡ some x
    → elem x.content_fingerprint (fingerprints xs) ≡ true
item_at-elem i [] x q = ground arith
item_at-elem zero (y ∷ ys) x q =
    ground (arith, q, eq_iff y.content_fingerprint x.content_fingerprint)
item_at-elem (suc i) (y ∷ ys) x q = ground (arith, item_at-elem i ys x q)

-- Where no content stands twice, an item stands in one place.
item_at_unique :
    (i j : ℕ) (xs : List CanonicalEvidence) (x y : CanonicalEvidence)
    → has_duplicates (fingerprints xs) ≡ false
    → item_at i xs ≡ some x
    → item_at j xs ≡ some y
    → x.content_fingerprint ≡ y.content_fingerprint
    → i ≡ j
item_at_unique i j [] x y h p q same = ground arith
item_at_unique zero zero (z ∷ zs) x y h p q same = refl
item_at_unique zero (suc j) (z ∷ zs) x y h p q same =
    ground (arith, h, p, same, item_at-elem j zs y q)
item_at_unique (suc i) zero (z ∷ zs) x y h p q same =
    ground (arith, h, q, same, item_at-elem i zs x p)
item_at_unique (suc i) (suc j) (z ∷ zs) x y h p q same =
    omega (arith, item_at_unique i j zs x y (ground (arith, h)) p q same)

-- The second list has the items of the first at the positions.
abbrev pub Picked : List ℕ → List CanonicalEvidence → List CanonicalEvidence → Type 0
Picked [] xs [] = Unit
Picked (i ∷ is) xs (y ∷ ys) = (item_at i xs ≡ some y) × Picked is xs ys
Picked _ _ _ = ⊥

Picked-elem :
    (f : String) (is : List ℕ) (xs ys : List CanonicalEvidence)
    → Picked is xs ys
    → elem f (fingerprints ys) ≡ true
    → (i : ℕ) × (x : CanonicalEvidence) × (1 ≤ times_in i is)
      × (item_at i xs ≡ some x)
      × (x.content_fingerprint ≡ f)
Picked-elem f [] xs [] h k = ground arith
Picked-elem f [] xs (y ∷ ys) h k = absurd h
Picked-elem f (i ∷ is) xs [] h k = absurd h
Picked-elem f (i ∷ is) xs (y ∷ ys) h k = elim (Bool-cases (str_eq y.content_fingerprint f)) [
  | inl same ↦ (i, y, ground arith, h.0, (eq_iff y.content_fingerprint f).0 same)
  | inr other ↦
      let (j, x, times, there, q) = Picked-elem f is xs ys h.1 (ground (arith, other)) in
      (j, x, ground (arith, times), there, q)
]

pub Picked-All {κ} :
    (P : CanonicalEvidence → Type κ) (is : List ℕ) (xs ys : List CanonicalEvidence)
    → Picked is xs ys
    → All P xs
    → All P ys
Picked-All P [] xs [] h k = tt
Picked-All P [] xs (y ∷ ys) h k = absurd h
Picked-All P (i ∷ is) xs [] h k = absurd h
Picked-All P (i ∷ is) xs (y ∷ ys) h k = (item_at-All P i xs y k h.0, Picked-All P is xs ys h.1 k)

pub Picked-distinct :
    (is : List ℕ) (xs ys : List CanonicalEvidence)
    → Picked is xs ys
    → ((i : ℕ) → times_in i is ≤ 1)
    → has_duplicates (fingerprints xs) ≡ false
    → has_duplicates (fingerprints ys) ≡ false
Picked-distinct [] xs [] h once k = refl
Picked-distinct [] xs (y ∷ ys) h once k = absurd h
Picked-distinct (i ∷ is) xs [] h once k = absurd h
Picked-distinct (i ∷ is) xs (y ∷ ys) h once k =
    elim (Bool-cases (elem y.content_fingerprint (fingerprints ys))) [
      | inr new ↦ ground (arith, new, Picked-distinct is xs ys h.1 (λ j. ground (arith, once j)) k)
      | inl again ↦
          let (j, x, times, there, q) = Picked-elem y.content_fingerprint is xs ys h.1 again in
          let one : j ≡ i = item_at_unique j i xs x y k there h.0 q in
          absurd (ground (arith, once j, one, times))
    ]

items_at-Picked :
    (is : List ℕ) (xs : List CanonicalEvidence)
    → All (λ i. i < length xs) is
    → (ys : List CanonicalEvidence) × (items_at is xs ≡ ok ys) × Picked is xs ys
unfolding items_at
items_at-Picked [] xs h = ([], refl, tt)
items_at-Picked (i ∷ is) xs h =
    let (x, found) = item_at-found i xs h.0 in
    let (ys, rest, picked) = items_at-Picked is xs h.1 in
    (x ∷ ys, rw found (rw rest refl), (found, picked))

All-below : (n : ℕ) (is : List ℕ) → ((i : ℕ) → 1 ≤ times_in i is → i < n) → All (λ i. i < n) is
All-below n [] h = tt
All-below n (i ∷ is) h = (h i (ground arith), All-below n is (λ j more. h j (ground (arith, more))))

order_below :
    (xs : List CanonicalEvidence) (required : List String)
    → All (λ i. i < length xs) (source_diverse_indexes (sources_of xs) required)
order_below xs required =
    All-below (length xs) (source_diverse_indexes (sources_of xs) required) (λ i there. ground (
      arith,
      there,
      source_diverse_indexes-permutes (sources_of xs) required i,
      length-sources_of xs,
    ))

pub order-Picked :
    (xs : List CanonicalEvidence) (required : List String)
    → (ys : List CanonicalEvidence) × (items_at (source_diverse_indexes (sources_of xs) required) xs
        ≡ ok ys)
      × Picked (source_diverse_indexes (sources_of xs) required) xs ys
order-Picked xs required =
    items_at-Picked (source_diverse_indexes (sources_of xs) required) xs (order_below xs required)

pub order_once :
    (sources required : List String) (i : ℕ)
    → times_in i (source_diverse_indexes sources required) ≤ 1
order_once sources required i = ground (arith, source_diverse_indexes-permutes sources required i)

pub length-Picked :
    (is : List ℕ) (xs ys : List CanonicalEvidence) → Picked is xs ys → length ys ≡ length is
length-Picked [] xs [] h = refl
length-Picked [] xs (y ∷ ys) h = absurd h
length-Picked (i ∷ is) xs [] h = absurd h
length-Picked (i ∷ is) xs (y ∷ ys) h = omega (arith, length-Picked is xs ys h.1)

-- How often the positions below `n` stand in a list, in all.
abbrev total_below : ℕ → List ℕ → ℕ
total_below zero is = 0
total_below (suc n) is = total_below n is + times_in n is

total_below_nil : (n : ℕ) → total_below n [] ≡ 0
total_below_nil zero = refl
total_below_nil (suc n) = omega (arith, total_below_nil n)

total_below_cons :
    (n i : ℕ) (is : List ℕ) → total_below n (i ∷ is) ≡ total_below n is + (if ltb i n then 1 else 0)
total_below_cons zero i is = ground arith
total_below_cons (suc n) i is = ground (arith, total_below_cons n i is)

length-total_below : (n : ℕ) (is : List ℕ) → All (λ i. i < n) is → length is ≡ total_below n is
length-total_below n [] h = omega (arith, total_below_nil n)
length-total_below n (i ∷ is) h =
    ground (arith, length-total_below n is h.1, total_below_cons n i is, h.0)

total_below-le : (n : ℕ) (is : List ℕ) → ((i : ℕ) → times_in i is ≤ 1) → total_below n is ≤ n
total_below-le zero is h = omega arith
total_below-le (suc n) is h = omega (arith, total_below-le n is h, h n)

-- No more items come out than go in.
pub length-order-le :
    (xs ys : List CanonicalEvidence) (required : List String)
    → Picked (source_diverse_indexes (sources_of xs) required) xs ys
    → length ys ≤ length xs
length-order-le xs ys required h =
    let is = source_diverse_indexes (sources_of xs) required in
    omega (
      arith,
      length-Picked is xs ys h,
      length-total_below (length xs) is (order_below xs required),
      total_below-le (length xs) is (order_once (sources_of xs) required),
    )
