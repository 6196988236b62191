-- ===== src/Dict.antt =====
-- Python's `dict`: entries in the order of insertion, an assignment to a key that is there keeps
-- its place.
pub mod Laws
pub mod Purge
pub mod Shrink
use questock.Prelude.{
  ℕ, ◌+◌, ◌≡◌, Bool, true, false, Option, none, some, List, [], ◌∷◌, EqType, ◌≟◌, if◌then◌else◌,
  ◌||◌,
}

abbrev pub Dict {ℓ} : Type ℓ → Type ℓ → Type ℓ
Dict K V = List (K × V)

module _ {ℓ} {K V : Type ℓ} ⦃e : EqType K⦄ where
  -- `d.get(k)`
  unfoldable pub lookup : K → Dict K V → Option V
  lookup k [] = none
  lookup k ((j, v) ∷ d) = if j ≟ k then some v else lookup k d

  -- `d.pop(k, None)` and `del d[k]`
  unfoldable pub remove : K → Dict K V → Dict K V
  remove k [] = []
  remove k ((j, v) ∷ d) = let rest = remove k d in if j ≟ k then rest else (j, v) ∷ rest

  -- `d[k] = v`
  unfoldable pub assign : K → V → Dict K V → Dict K V
  assign k v [] = (k, v) ∷ []
  assign k v ((j, w) ∷ d) = let rest = assign k v d in if j ≟ k then (j, v) ∷ d else (j, w) ∷ rest

  -- `for k in ks: del d[k]`
  unfoldable pub remove_all : List K → Dict K V → Dict K V
  remove_all [] d = d
  remove_all (k ∷ ks) d = remove_all ks (remove k d)

  -- No key stands twice.
  abbrev pub Distinct : Dict K V → Type ℓ
  Distinct [] = Unit
  Distinct ((k, v) ∷ d) = (lookup k d ≡ none) × Distinct d

module _ {ℓ} {K V : Type ℓ} where
  -- `[f(k, v) for k, v in d.items() if p(k, v)]`
  unfoldable pub items_where {κ} : {B : Type κ} → (K → V → Bool) → (K → V → B) → Dict K V → List B
  items_where p f [] = []
  items_where p f ((k, v) ∷ d) =
      let rest = items_where p f d in if p k v then f k v ∷ rest else rest

  -- A number for each entry, summed up: the size, a count of some entries, a total.
  abbrev pub weight : (K → V → ℕ) → Dict K V → ℕ
  weight f [] = 0
  weight f ((k, v) ∷ d) = f k v + weight f d

  -- `len(d)`
  abbrev pub size : Dict K V → ℕ
  size = weight (λ _ _. 1)

  -- A predicate on every entry.
  abbrev pub Each {κ} : (K → V → Type κ) → Dict K V → Type κ
  Each P [] = Unit
  Each P ((k, v) ∷ d) = P k v × Each P d
