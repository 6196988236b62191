-- ===== src/Dict/Shrink.antt =====
-- A dictionary that another one became by deletions alone.
use questock.Prelude.{ℕ, ◌≤◌, ◌≡◌, refl, Bool, none, some, EqType, ◌⊎◌, inr, arith}
use questock.Dict.{Dict, lookup, remove, Distinct, weight, Each}
use questock.Dict.Laws.{lookup-remove, Distinct-remove, weight-remove-le, Each-lookup}
use questock.Dict.Purge.{purge, lookup-purge, Distinct-purge, weight-purge-le, Each-of_lookup}

module _ {ℓ} {K V : Type ℓ} ⦃e : EqType K⦄ where
  pub record Shrinks (d d' : Dict K V) : Type ℓ where
    pub distinct : Distinct d'
    pub kept : (k : K) → (lookup k d' ≡ none) ⊎ (lookup k d' ≡ lookup k d)
    pub weights : (f : K → V → ℕ) → weight f d' ≤ weight f d

  pub Shrinks-refl : (d : Dict K V) → Distinct d → Shrinks d d
  Shrinks-refl d h = record { distinct = h; kept = λ k. inr refl; weights = λ f. omega arith }

  pub Shrinks-trans : {a b c : Dict K V} → Shrinks a b → Shrinks b c → Shrinks a c
  Shrinks-trans p q = record {
    distinct = q.distinct;
    kept = λ k. ground (arith, p.kept k, q.kept k);
    weights = λ f. omega (arith, p.weights f, q.weights f);
  }

  pub Shrinks-remove : (k : K) (d : Dict K V) → Distinct d → Shrinks d (remove k d)
  Shrinks-remove k d h = record {
    distinct = Distinct-remove k d h;
    kept = λ j. ground (arith, lookup-remove k j d);
    weights = λ f. weight-remove-le f k d;
  }

  pub Shrinks-purge : (p : K → V → Bool) (d : Dict K V) → Distinct d → Shrinks d (purge p d)
  Shrinks-purge p d h = record {
    distinct = Distinct-purge p d h;
    kept = λ k. ground (arith, lookup-purge p k d h);
    weights = λ f. weight-purge-le f p d;
  }

  pub Shrinks-absent :
      {d d' : Dict K V} (k : K) → Shrinks d d' → lookup k d ≡ none → lookup k d' ≡ none
  Shrinks-absent k s h = ground (arith, s.kept k)

  pub Shrinks-present :
      {d d' : Dict K V} (k : K) (v : V) → Shrinks d d' → lookup k d' ≡ some v → lookup k d ≡ some v
  Shrinks-present k v s h = ground (arith, s.kept k)

  pub Each-Shrinks {κ} :
      (P : K → V → Type κ) {d d' : Dict K V} → Shrinks d d' → Each P d → Each P d'
  Each-Shrinks P {d} {d'} s h =
      Each-of_lookup P d' s.distinct (λ k v q. Each-lookup P k v d h (Shrinks-present k v s q))
