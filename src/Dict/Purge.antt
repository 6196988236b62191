-- ===== src/Dict/Purge.antt =====
-- Loops over a dictionary: the deletion of the keys that a test collects, and a minimum over some of
-- the entries.
use questock.Prelude.{
  ℕ, ◌≤◌, ◌≡◌, refl, Bool, true, false, Option, none, some, List, [], ◌∷◌, EqType, ◌≟◌, All, ◌||◌,
  if◌then◌else◌, arith, Bool-cases, inl, inr, length,
}
use questock.Dict.{Dict, lookup, remove, remove_all, Distinct, weight, Each, items_where}
use questock.Dict.Laws.{lookup-remove, Distinct-remove, weight-remove-le, Each-remove}

module _ {ℓ} {K : Type ℓ} ⦃e : EqType K⦄ where
  abbrev pub has_key : List K → K → Bool
  has_key [] k = false
  has_key (j ∷ js) k = j ≟ k || has_key js k

module _ {ℓ} {V : Type ℓ} where
  -- What a purge leaves of one entry.
  abbrev pub unless : (V → Bool) → Option V → Option V
  unless p none = none
  unless p (some v) = if p v then none else some v

  abbrev holds : (V → Bool) → Option V → Bool
  holds p none = false
  holds p (some v) = p v

module _ {ℓ} {K V : Type ℓ} ⦃e : EqType K⦄ where
  pub lookup-remove_all :
      (ks : List K) (j : K) (d : Dict K V)
      → lookup j (remove_all ks d) ≡ (if has_key ks j then none else lookup j d)
  unfolding remove_all
  lookup-remove_all [] j d = ground arith
  lookup-remove_all (k ∷ ks) j d =
      ground (arith, lookup-remove_all ks j (remove k d), lookup-remove k j d)

  pub Distinct-remove_all : (ks : List K) (d : Dict K V) → Distinct d → Distinct (remove_all ks d)
  unfolding remove_all
  Distinct-remove_all [] d h = h
  Distinct-remove_all (k ∷ ks) d h = Distinct-remove_all ks (remove k d) (Distinct-remove k d h)

  pub weight-remove_all-le :
      (f : K → V → ℕ) (ks : List K) (d : Dict K V) → weight f (remove_all ks d) ≤ weight f d
  unfolding remove_all
  weight-remove_all-le f [] d = omega arith
  weight-remove_all-le f (k ∷ ks) d =
      omega (arith, weight-remove_all-le f ks (remove k d), weight-remove-le f k d)

  pub Each-remove_all {κ} :
      (P : K → V → Type κ) (ks : List K) (d : Dict K V) → Each P d → Each P (remove_all ks d)
  unfolding remove_all
  Each-remove_all P [] d h = h
  Each-remove_all P (k ∷ ks) d h = Each-remove_all P ks (remove k d) (Each-remove P k d h)

  -- `for key in [k for k, v in d.items() if p(k, v)]: del d[key]`
  unfoldable pub purge : (K → V → Bool) → Dict K V → Dict K V
  purge p d = remove_all (items_where p (λ k _. k) d) d

  has_key-absent :
      (p : K → V → Bool) (k : K) (d : Dict K V)
      → lookup k d ≡ none
      → has_key (items_where p (λ j _. j) d) k ≡ false
  unfolding lookup items_where
  has_key-absent p k [] h = ground arith
  has_key-absent p k ((i, v) ∷ d) h = ground (arith, has_key-absent p k d)

  has_key-items_where :
      (p : K → V → Bool) (k : K) (d : Dict K V)
      → Distinct d
      → has_key (items_where p (λ j _. j) d) k ≡ holds (p k) (lookup k d)
  unfolding lookup items_where
  has_key-items_where p k [] h = ground arith
  has_key-items_where p k ((i, v) ∷ d) h =
      ground (arith, has_key-items_where p k d h.1, has_key-absent p k d, e.beq_iff i k)

  pub lookup-purge :
      (p : K → V → Bool) (k : K) (d : Dict K V)
      → Distinct d
      → lookup k (purge p d) ≡ unless (p k) (lookup k d)
  unfolding purge
  lookup-purge p k d h =
      ground
        (arith, lookup-remove_all (items_where p (λ j _. j) d) k d, has_key-items_where p k d h)

  pub Distinct-purge : (p : K → V → Bool) (d : Dict K V) → Distinct d → Distinct (purge p d)
  unfolding purge
  Distinct-purge p d h = Distinct-remove_all (items_where p (λ k _. k) d) d h

  pub weight-purge-le :
      (f : K → V → ℕ) (p : K → V → Bool) (d : Dict K V) → weight f (purge p d) ≤ weight f d
  unfolding purge
  weight-purge-le f p d = weight-remove_all-le f (items_where p (λ k _. k) d) d

  pub Each-purge {κ} :
      (P : K → V → Type κ) (p : K → V → Bool) (d : Dict K V) → Each P d → Each P (purge p d)
  unfolding purge
  Each-purge P p d h = Each-remove_all P (items_where p (λ k _. k) d) d h

  -- A predicate on what can be looked up is one on every entry.
  pub Each-of_lookup {κ} :
      (P : K → V → Type κ) (d : Dict K V)
      → Distinct d
      → ((k : K) (v : V) → lookup k d ≡ some v → P k v)
      → Each P d
  unfolding lookup
  Each-of_lookup P [] t h = tt
  Each-of_lookup P ((i, v) ∷ d) t h = (
    h i v (ground (arith, e.beq_iff i i)),
    Each-of_lookup P d t.1 (λ k w q. h k w (ground (arith, e.beq_iff i k))),
  )

module _ {ℓ κ} {K V : Type ℓ} {B : Type κ} (p : K → V → Bool) (f : K → V → B) where
  -- What holds of the chosen entries holds of the list made of them.
  pub All-items_where {ρ} :
      (Q : B → Type ρ) (d : Dict K V)
      → Each (λ k v. p k v ≡ true → Q (f k v)) d
      → All Q (items_where p f d)
  unfolding items_where
  All-items_where Q [] h = tt
  All-items_where Q ((k, v) ∷ d) h = elim (Bool-cases (p k v)) [
    | inl chosen ↦ rw chosen (h.0 chosen, All-items_where Q d h.1)
    | inr skipped ↦ rw skipped (All-items_where Q d h.1)
  ]

  -- And back again.
  pub Each-items_where {ρ} :
      (Q : B → Type ρ) (d : Dict K V)
      → All Q (items_where p f d)
      → Each (λ k v. p k v ≡ true → Q (f k v)) d
  unfolding items_where
  Each-items_where Q [] h = tt
  Each-items_where Q ((k, v) ∷ d) h = elim (Bool-cases (p k v)) [
    | inl chosen ↦
        let (here, rest) : Q (f k v) × All Q (items_where p f d) = rw chosen at h in
        (λ _. here, Each-items_where Q d rest)
    | inr skipped ↦
        let rest : All Q (items_where p f d) = rw skipped at h in
        (λ chosen. absurd (cc), Each-items_where Q d rest)
  ]

  -- The number of chosen entries.
  pub length-items_where :
      (d : Dict K V) → length (items_where p f d) ≡ weight (λ k v. if p k v then 1 else 0) d
  unfolding items_where
  length-items_where [] = refl
  length-items_where ((k, v) ∷ d) = ground (arith, length-items_where d)
