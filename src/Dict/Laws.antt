-- ===== src/Dict/Laws.antt =====
-- The laws of lookup, removal and assignment, and what they do to sums and predicates.
use questock.Prelude.{
  ℕ, ◌+◌, ◌≤◌, ◌≡◌, refl, sym, subst, none, some, [], ◌∷◌, EqType, ◌≟◌, if◌then◌else◌, arith,
  Bool-cases, inl, inr,
}
use questock.Dict.{Dict, lookup, remove, assign, Distinct, weight, Each}

module _ {ℓ} {K V : Type ℓ} ⦃e : EqType K⦄ where
  pub lookup-remove :
      (k j : K) (d : Dict K V) → lookup j (remove k d) ≡ (if k ≟ j then none else lookup j d)
  unfolding lookup remove
  lookup-remove k j [] = ground arith
  lookup-remove k j ((i, v) ∷ d) =
      ground (arith, lookup-remove k j d, e.beq_iff i k, e.beq_iff i j, e.beq_iff k j)

  pub lookup-assign :
      (k j : K) (v : V) (d : Dict K V)
      → lookup j (assign k v d) ≡ (if k ≟ j then some v else lookup j d)
  unfolding lookup assign
  lookup-assign k j v [] = refl
  lookup-assign k j v ((i, w) ∷ d) =
      ground (arith, lookup-assign k j v d, e.beq_iff i k, e.beq_iff i j, e.beq_iff k j)

  pub Distinct-remove : (k : K) (d : Dict K V) → Distinct d → Distinct (remove k d)
  unfolding remove
  Distinct-remove k [] h = tt
  Distinct-remove k ((i, v) ∷ d) h = ground (arith, Distinct-remove k d, lookup-remove k i d)

  pub Distinct-assign : (k : K) (v : V) (d : Dict K V) → Distinct d → Distinct (assign k v d)
  unfolding lookup assign
  Distinct-assign k v [] h = (refl, tt)
  Distinct-assign k v ((i, w) ∷ d) h =
      ground (arith, Distinct-assign k v d, lookup-assign k i v d, e.beq_iff i k, e.beq_iff k i)

  module _ (f : K → V → ℕ) where
    pub weight-remove-le : (k : K) (d : Dict K V) → weight f (remove k d) ≤ weight f d
    unfolding remove
    weight-remove-le k [] = omega arith
    weight-remove-le k ((i, v) ∷ d) = ground (arith, weight-remove-le k d)

    pub weight-remove_absent :
        (k : K) (d : Dict K V) → lookup k d ≡ none → weight f (remove k d) ≡ weight f d
    unfolding remove lookup
    weight-remove_absent k [] h = refl
    weight-remove_absent k ((i, v) ∷ d) h = ground (arith, weight-remove_absent k d)

    pub weight-remove_present :
        (k : K) (v : V) (d : Dict K V)
        → Distinct d
        → lookup k d ≡ some v
        → weight f (remove k d) + f k v ≡ weight f d
    unfolding remove lookup
    weight-remove_present k v [] t h = ground arith
    weight-remove_present k v ((i, w) ∷ d) t h =
        ground (arith, weight-remove_present k v d t.1, weight-remove_absent k d, e.beq_iff i k)

    pub weight-assign_absent :
        (k : K) (v : V) (d : Dict K V)
        → lookup k d ≡ none
        → weight f (assign k v d) ≡ weight f d + f k v
    unfolding assign lookup
    weight-assign_absent k v [] h = omega arith
    weight-assign_absent k v ((i, w) ∷ d) h = ground (arith, weight-assign_absent k v d)

    pub weight-assign_present :
        (k : K) (v w : V) (d : Dict K V)
        → lookup k d ≡ some w
        → weight f (assign k v d) + f k w ≡ weight f d + f k v
    unfolding assign lookup
    weight-assign_present k v w [] h = ground arith
    weight-assign_present k v w ((i, x) ∷ d) h =
        ground (arith, weight-assign_present k v w d, e.beq_iff i k)

    -- One entry is part of the sum.
    pub weight-lookup-le : (k : K) (v : V) (d : Dict K V) → lookup k d ≡ some v → f k v ≤ weight f d
    unfolding lookup
    weight-lookup-le k v [] h = ground arith
    weight-lookup-le k v ((i, x) ∷ d) h = ground (arith, weight-lookup-le k v d, e.beq_iff i k)

  module _ {κ} (P : K → V → Type κ) where
    pub Each-lookup : (k : K) (v : V) (d : Dict K V) → Each P d → lookup k d ≡ some v → P k v
    unfolding lookup
    Each-lookup k v [] h q = ground arith
    Each-lookup k v ((i, w) ∷ d) h q = elim (Bool-cases (i ≟ k)) [
      | inl here ↦
          subst (λ (x : K). P x v) ((e.beq_iff i k).0 here)
            (subst (λ (x : V). P i x) (ground (arith, here)) h.0)
      | inr there ↦ Each-lookup k v d h.1 (ground (arith, there))
    ]

    pub Each-remove : (k : K) (d : Dict K V) → Each P d → Each P (remove k d)
    unfolding remove
    Each-remove k [] h = tt
    Each-remove k ((i, w) ∷ d) h = ground (arith, Each-remove k d)

    pub Each-assign : (k : K) (v : V) (d : Dict K V) → P k v → Each P d → Each P (assign k v d)
    unfolding assign
    Each-assign k v [] p h = (p, tt)
    Each-assign k v ((i, w) ∷ d) p h = elim (Bool-cases (i ≟ k)) [
      | inl here ↦ rw here (subst (λ (x : K). P x v) (sym ((e.beq_iff i k).0 here)) p, h.1)
      | inr there ↦ rw there (h.0, Each-assign k v d p h.1)
    ]
