-- ===== src/Evidence/Policy/Occurrences.antt =====
-- _validate_retrieval_occurrences of app/evidence/policy.py, by how often an item stands in the lists.
use questock.Prelude.{
  ℕ, ◌+◌, ◌≤◌, ◌≡◌, refl, ap, Bool, true, inl, inr, Option, some, List, [], ◌∷◌, if◌then◌else◌,
  arith, Bool-cases,
}
use questock.Core.Evidence.{Evidence}
use questock.Retrieval.Retriever.Matches.{matches}
use questock.Evidence.Policy.Results.{keep_unused, use_first, occurrences_ok}

-- The equality of two pieces of evidence without their scores.
pub record IsSame (same : Evidence → Evidence → Bool) : Type 0 where
  pub reflexive : (a : Evidence) → same a a ≡ true
  pub alike : (a b c : Evidence) → same a b ≡ true → same c a ≡ same c b
  pub rescored :
      (a b : Evidence) (s : Option ℕ) → same a (record b { retrieval_score = s }) ≡ same a b

module _ (same : Evidence → Evidence → Bool) (good : IsSame same) where
  use_first-matches :
      (e : Evidence) (available : List Evidence)
      → 1 ≤ matches (same e) available
      → (rest : List Evidence) × (use_first same e available ≡ some rest)
        × ((d : Evidence)
            → matches (same d) available ≡ (if same d e then 1 else 0) + matches (same d) rest)
  unfolding use_first
  use_first-matches e [] h = absurd (omega arith)
  use_first-matches e (c ∷ cs) h = elim (Bool-cases (same e c)) [
    | inl here ↦ (cs, rw here refl, λ d. ground (arith, good.alike e c d here))
    | inr other ↦
        let (rest, found, counts) = use_first-matches e cs (ground (arith, h, other)) in
        (c ∷ rest, rw other (ap (keep_unused c) found), λ d. omega (arith, counts d))
  ]

  pub occurrences_ok-matches :
      (available es : List Evidence)
      → ((d : Evidence) → matches (same d) es ≤ matches (same d) available)
      → occurrences_ok same available es ≡ true
  unfolding occurrences_ok
  occurrences_ok-matches available [] h = refl
  occurrences_ok-matches available (e ∷ es) h =
      let there : 1 ≤ matches (same e) available = ground (arith, h e, good.reflexive e) in
      let (rest, found, counts) = use_first-matches e available there in
      rw found (occurrences_ok-matches rest es (λ d. omega (arith, h d, counts d)))
