-- ===== src/Evidence/Budget/Caps.antt =====
-- What the steps of `select_evidence_context` in app/evidence/budget.py keep and drop.
use questock.Prelude.{
  leb→le, not_leb→lt, subst, ℕ, zero, suc, ◌+◌, ◌≤◌, ◌<◌, ◌≡◌, refl, true, false, List, [], ◌∷◌,
  String, eq_iff, leb, if◌then◌else◌, take, ◌⊎◌, inl, inr, arith, Bool-cases,
}
use questock.Core.Models.{elem, has_duplicates}
use questock.Evidence.Budget.{
  fingerprints, sources_of, CanonicalEvidence, Json, Limits, deduplicate, count_of,
  apply_source_cap, fits, apply_context_caps,
}

-- What was seen before is dropped.
deduplicate_seen :
    (f : String) (seen : List String) (xs : List CanonicalEvidence)
    → elem f seen ≡ true
    → elem f (fingerprints (deduplicate seen xs)) ≡ false
unfolding deduplicate
deduplicate_seen f seen [] h = refl
deduplicate_seen f seen (x ∷ xs) h = elim (Bool-cases (elem x.content_fingerprint seen)) [
  | inl old ↦ rw old (deduplicate_seen f seen xs h)
  | inr new ↦ rw new (
      ground (
        arith,
        h,
        new,
        eq_iff x.content_fingerprint f,
        deduplicate_seen f (x.content_fingerprint ∷ seen) xs,
      ))
]

deduplicate_distinct :
    (seen : List String) (xs : List CanonicalEvidence)
    → has_duplicates (fingerprints (deduplicate seen xs)) ≡ false
unfolding deduplicate
deduplicate_distinct seen [] = refl
deduplicate_distinct seen (x ∷ xs) = elim (Bool-cases (elem x.content_fingerprint seen)) [
  | inl old ↦ rw old (deduplicate_distinct seen xs)
  | inr new ↦
      let itself : elem x.content_fingerprint (x.content_fingerprint ∷ seen) ≡ true =
        ground (arith, eq_iff x.content_fingerprint x.content_fingerprint) in
      rw new (
        ground (
          arith,
          deduplicate_distinct (x.content_fingerprint ∷ seen) xs,
          deduplicate_seen x.content_fingerprint (x.content_fingerprint ∷ seen) xs itself,
        ))
]

deduplicate_covers :
    (f : String) (seen : List String) (xs : List CanonicalEvidence)
    → elem f (fingerprints xs) ≡ true
    → (elem f seen ≡ true) ⊎ (elem f (fingerprints (deduplicate seen xs)) ≡ true)
unfolding deduplicate
deduplicate_covers f seen [] h = ground arith
deduplicate_covers f seen (x ∷ xs) h = elim (Bool-cases (elem x.content_fingerprint seen)) [
  | inl old ↦
      rw old (ground (arith, h, old, eq_iff x.content_fingerprint f, deduplicate_covers f seen xs))
  | inr new ↦ rw new (
      ground (
        arith,
        h,
        eq_iff x.content_fingerprint f,
        deduplicate_covers f (x.content_fingerprint ∷ seen) xs,
      ))
]

pub deduplicate_from :
    (f : String) (seen : List String) (xs : List CanonicalEvidence)
    → elem f (fingerprints (deduplicate seen xs)) ≡ true
    → elem f (fingerprints xs) ≡ true
unfolding deduplicate
deduplicate_from f seen [] h = h
deduplicate_from f seen (x ∷ xs) h = elim (Bool-cases (elem x.content_fingerprint seen)) [
  | inl old ↦
      let kept : elem f (fingerprints (deduplicate seen xs)) ≡ true = rw old at h in
      ground (arith, deduplicate_from f seen xs kept)
  | inr new ↦
      let kept : elem f (fingerprints (x ∷ deduplicate (x.content_fingerprint ∷ seen) xs)) ≡ true =
        rw new at h in
      ground (arith, kept, deduplicate_from f (x.content_fingerprint ∷ seen) xs)
]

-- After the removal of duplicates no content stands twice, and the contents are the same as before.
pub deduplicate-once :
    (xs : List CanonicalEvidence)
    → (has_duplicates (fingerprints (deduplicate [] xs)) ≡ false)
      × ((f : String) → elem f (fingerprints (deduplicate [] xs)) ≡ elem f (fingerprints xs))
deduplicate-once xs = (
  deduplicate_distinct [] xs,
  λ f. ground (arith, deduplicate_covers f [] xs, deduplicate_from f [] xs),
)

apply_source_cap_lem :
    (m : ℕ) (counted : List String) (xs : List CanonicalEvidence) (s : String)
    → count_of s counted ≤ m
    → count_of s counted + count_of s (sources_of (apply_source_cap m counted xs))
      ≡ (let all = count_of s counted + count_of s (sources_of xs) in if leb all m then all else m)
unfolding apply_source_cap
apply_source_cap_lem m counted [] s h = ground (arith, h)
apply_source_cap_lem m counted (x ∷ xs) s h =
    elim (Bool-cases (leb m (count_of x.evidence.source_type counted))) [
      | inl full ↦ rw full (
          ground (
            arith,
            h,
            full,
            eq_iff x.evidence.source_type s,
            apply_source_cap_lem m counted xs s h,
          ))
      | inr room ↦ rw room (
          let source = x.evidence.source_type in
          let more : count_of s (source ∷ counted) ≤ m = ground (arith, h, room, eq_iff source s) in
          ground (arith, apply_source_cap_lem m (source ∷ counted) xs s more))
    ]

-- Of each source the cap keeps all items if they are no more than the cap, and as many as the cap
-- otherwise.
pub apply_source_cap-count :
    (m : ℕ) (xs : List CanonicalEvidence) (s : String)
    → count_of s (sources_of (apply_source_cap m [] xs))
      ≡ (if leb (count_of s (sources_of xs)) m then count_of s (sources_of xs) else m)
apply_source_cap-count m xs s = ground (arith, apply_source_cap_lem m [] xs s (omega arith))

-- The items that the context caps leave are the first ones, they fit or are none, and no longer run
-- of first items fits.
pub apply_context_caps-longest :
    (json : Json) (limits : Limits) (reserved n : ℕ) (xs : List CanonicalEvidence)
    → (k : ℕ) × (k ≤ n)
      × (apply_context_caps json limits reserved n xs ≡ take k xs)
      × ((k ≡ 0) ⊎ (fits json limits reserved (take k xs) ≡ true))
      × ((j : ℕ) → k < j → j ≤ n → fits json limits reserved (take j xs) ≡ false)
unfolding apply_context_caps
apply_context_caps-longest json limits reserved zero xs =
    (0, omega arith, refl, inl refl, λ j lo hi. absurd (omega arith))
apply_context_caps-longest json limits reserved (suc n) xs =
    elim (Bool-cases (fits json limits reserved (take (suc n) xs))) [
      | inl fit ↦ (suc n, omega arith, rw fit refl, inr fit, λ j lo hi. absurd (omega arith))
      | inr over ↦
          let (k, small, same, good, rest) = apply_context_caps-longest json limits reserved n xs in
          (
            k,
            omega (arith, small),
            rw over same,
            good,
            λ j lo hi. elim (Bool-cases (leb j n)) [
              | inl less ↦ rest j lo (leb→le j n less)
              | inr last ↦
                  let all : suc n ≡ j = omega (arith, hi, not_leb→lt j n last) in
                  subst (λ (i : ℕ). fits json limits reserved (take i xs) ≡ false) all over
            ],
          )
    ]
