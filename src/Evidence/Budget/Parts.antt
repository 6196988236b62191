-- ===== src/Evidence/Budget/Parts.antt =====
-- Selections that keep the order, and what they keep, for app/evidence/budget.py.
use questock.Prelude.{
  ℕ, zero, suc, ◌≤◌, ◌≡◌, refl, true, false, some, List, [], ◌∷◌, String, str_eq, eq_iff, leb, take,
  arith, Bool-cases, inl, inr, All,
}
use questock.Core.Models.{elem, has_duplicates}
use questock.Evidence.Budget.{
  CanonicalEvidence, count_of, apply_source_cap, fingerprints, sources_of,
}
use questock.Evidence.Budget.Select.{payloads_of, skip_to, ordered_subsequence, within_cap}

-- The first list is the second without some of its items.
pub data Sub : List CanonicalEvidence → List CanonicalEvidence → Type 0 where
  stop : (ys : List CanonicalEvidence) → Sub [] ys
  keep :
      (x : CanonicalEvidence) {xs ys : List CanonicalEvidence} → Sub xs ys → Sub (x ∷ xs) (x ∷ ys)
  skip : (y : CanonicalEvidence) {xs ys : List CanonicalEvidence} → Sub xs ys → Sub xs (y ∷ ys)

pub take-Sub : (n : ℕ) {xs ys : List CanonicalEvidence} → Sub xs ys → Sub (take n xs) ys
take-Sub zero {xs} {ys} h = stop ys
take-Sub (suc n) (stop ys) = stop ys
take-Sub (suc n) (keep x h) = keep x (take-Sub n h)
take-Sub (suc n) (skip y h) = skip y (take-Sub (suc n) h)

pub source_cap-Sub :
    (m : ℕ) (counted : List String) (xs : List CanonicalEvidence)
    → Sub (apply_source_cap m counted xs) xs
unfolding apply_source_cap
source_cap-Sub m counted [] = stop []
source_cap-Sub m counted (x ∷ xs) =
    elim (Bool-cases (leb m (count_of x.evidence.source_type counted))) [
      | inl full ↦ rw full (skip x (source_cap-Sub m counted xs))
      | inr room ↦ rw room (keep x (source_cap-Sub m (x.evidence.source_type ∷ counted) xs))
    ]

pub All-Sub {κ} :
    (P : CanonicalEvidence → Type κ) {xs ys : List CanonicalEvidence}
    → Sub xs ys
    → All P ys
    → All P xs
All-Sub P (stop ys) h = tt
All-Sub P (keep x s) h = (h.0, All-Sub P s h.1)
All-Sub P (skip y s) h = All-Sub P s h.1

elem-Sub :
    (f : String) {xs ys : List CanonicalEvidence}
    → Sub xs ys
    → elem f (fingerprints ys) ≡ false
    → elem f (fingerprints xs) ≡ false
elem-Sub f (stop ys) h = refl
elem-Sub f (keep x s) h = ground (arith, elem-Sub f s)
elem-Sub f (skip y s) h = ground (arith, elem-Sub f s)

pub distinct-Sub :
    {xs ys : List CanonicalEvidence}
    → Sub xs ys
    → has_duplicates (fingerprints ys) ≡ false
    → has_duplicates (fingerprints xs) ≡ false
distinct-Sub (stop ys) h = refl
distinct-Sub (keep x s) h = ground (arith, distinct-Sub s, elem-Sub x.content_fingerprint s)
distinct-Sub (skip y s) h = ground (arith, distinct-Sub s)

pub count_of-Sub-le :
    (s : String) {xs ys : List CanonicalEvidence}
    → Sub xs ys
    → count_of s (sources_of xs) ≤ count_of s (sources_of ys)
count_of-Sub-le s (stop ys) = omega arith
count_of-Sub-le s (keep x h) = ground (arith, count_of-Sub-le s h)
count_of-Sub-le s (skip y h) = ground (arith, count_of-Sub-le s h)

-- The greedy search finds a selection that keeps the order.
skip_to-Sub :
    (x : CanonicalEvidence) {xs ys : List CanonicalEvidence}
    → Sub (x ∷ xs) ys
    → (zs : List CanonicalEvidence) × (skip_to x.full_payload (payloads_of ys)
        ≡ some (payloads_of zs))
      × Sub xs zs
skip_to-Sub x (keep _ {ys = ys} h) = (ys, ground (arith, eq_iff x.full_payload x.full_payload), h)
skip_to-Sub x {xs} (skip y {ys = ys} h) = elim (Bool-cases (str_eq y.full_payload x.full_payload)) [
  | inl same ↦ (ys, rw same refl, tail h)
  | inr other ↦ let (zs, found, rest) = skip_to-Sub x h in (zs, rw other found, rest)
]
  where
    tail : {zs : List CanonicalEvidence} → Sub (x ∷ xs) zs → Sub xs zs
    tail (keep _ s) = skip x s
    tail (skip y s) = skip y (tail s)

pub ordered_subsequence-Sub :
    (xs : List CanonicalEvidence) {ys : List CanonicalEvidence}
    → Sub xs ys
    → ordered_subsequence (payloads_of xs) (payloads_of ys) ≡ true
unfolding ordered_subsequence
ordered_subsequence-Sub [] h = refl
ordered_subsequence-Sub (x ∷ xs) h =
    let (zs, found, rest) = skip_to-Sub x h in rw found (ordered_subsequence-Sub xs rest)

pub within_cap_lem :
    (m : ℕ) (ss sources : List String)
    → ((s : String) → count_of s sources ≤ m)
    → within_cap m ss sources ≡ true
within_cap_lem m [] sources h = refl
within_cap_lem m (s ∷ ss) sources h = ground (arith, h s, within_cap_lem m ss sources h)
