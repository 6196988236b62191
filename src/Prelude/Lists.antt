-- ===== src/Prelude/Lists.antt =====
-- Lists measured by native numbers, predicates on all members, and Python's `min` over a list.
use Prim.Native.Nat.{ℕ, zero, suc, ◌+◌, ◌-◌, ◌≤◌}
use mathlib.Core.Path.{◌≡◌}
use mathlib.Core.Bool.{Bool, true, false}
use mathlib.Core.List.{List, [], ◌∷◌, ◌++◌}
use native.Mathlib.Omega.{arith}
use mathlib.Core.Logic.{inl, inr}
use questock.Prelude.Tests.{if◌then◌else◌, Bool-cases}

module _ {ℓ} {A : Type ℓ} where
  abbrev pub length : List A → ℕ
  length [] = 0
  length (x ∷ xs) = suc (length xs)

  abbrev pub take : ℕ → List A → List A
  take zero xs = []
  take (suc n) [] = []
  take (suc n) (x ∷ xs) = x ∷ take n xs

  abbrev pub drop : ℕ → List A → List A
  drop zero xs = xs
  drop (suc n) [] = []
  drop (suc n) (x ∷ xs) = drop n xs

  -- The slice `xs[-n:]` for a positive n.
  abbrev pub take_last : ℕ → List A → List A
  take_last n xs = drop (length xs - n) xs

  pub length-append : (xs ys : List A) → length (xs ++ ys) ≡ length xs + length ys
  length-append [] ys = omega arith
  length-append (x ∷ xs) ys = omega (arith, length-append xs ys)

  pub length-drop : (n : ℕ) (xs : List A) → length (drop n xs) ≡ length xs - n
  length-drop zero xs = omega arith
  length-drop (suc n) [] = omega arith
  length-drop (suc n) (x ∷ xs) = omega (arith, length-drop n xs)

  pub length-take-le : (n : ℕ) (xs : List A) → length (take n xs) ≤ n
  length-take-le zero xs = omega arith
  length-take-le (suc n) [] = omega arith
  length-take-le (suc n) (x ∷ xs) = omega (arith, length-take-le n xs)

  pub length-take_last-le : (n : ℕ) (xs : List A) → length (take_last n xs) ≤ n
  length-take_last-le n xs = omega (arith, length-drop (length xs - n) xs)

module _ {ℓ κ} {A : Type ℓ} (P : A → Type κ) where
  abbrev pub All : List A → Type κ
  All [] = Unit
  All (x ∷ xs) = P x × All xs

  pub All-append : (xs ys : List A) → All xs → All ys → All (xs ++ ys)
  All-append [] ys h k = k
  All-append (x ∷ xs) ys h k = (h.0, All-append xs ys h.1 k)

  pub All-drop : (n : ℕ) (xs : List A) → All xs → All (drop n xs)
  All-drop zero xs h = h
  All-drop (suc n) [] h = h
  All-drop (suc n) (x ∷ xs) h = All-drop n xs h.1

  pub All-take : (n : ℕ) (xs : List A) → All xs → All (take n xs)
  All-take zero xs h = tt
  All-take (suc n) [] h = tt
  All-take (suc n) (x ∷ xs) h = (h.0, All-take n xs h.1)

pub All-imp {ℓ κ μ} :
    {A : Type ℓ} (P : A → Type κ) (Q : A → Type μ)
    → ((x : A) → P x → Q x)
    → (xs : List A) → All P xs
    → All Q xs
All-imp P Q imp [] h = tt
All-imp P Q imp (x ∷ xs) h = (imp x h.0, All-imp P Q imp xs h.1)

-- `min(x, *xs)`: the first least element, `lt` being the strict order of the keys.
module _ {ℓ} {A : Type ℓ} (lt : A → A → Bool) where
  abbrev pub min_by : A → List A → A
  min_by x [] = x
  min_by x (y ∷ ys) = min_by (if lt y x then y else x) ys

  pub min_by-All {κ} : (P : A → Type κ) (x : A) (xs : List A) → P x → All P xs → P (min_by x xs)
  min_by-All P x [] h k = h
  min_by-All P x (y ∷ ys) h k = elim (Bool-cases (lt y x)) [
    | inl less ↦ rw less (min_by-All P y ys k.0 k.1)
    | inr more ↦ rw more (min_by-All P x ys h k.1)
  ]

  -- A measure that the order refines is least at the minimum.
  module _ (m : A → ℕ) (below : (a b : A) → lt a b ≡ true → m a ≤ m b)
      (above : (a b : A) → lt a b ≡ false → m b ≤ m a) where
    kept-le : (x y : A) → (m (if lt y x then y else x) ≤ m x) × (m (if lt y x then y else x) ≤ m y)
    kept-le x y = elim (Bool-cases (lt y x)) [
      | inl less ↦ rw less (below y x less, omega arith)
      | inr more ↦ rw more (omega arith, above y x more)
    ]

    pub min_by-least : (x : A) (xs : List A) → All (λ y. m (min_by x xs) ≤ m y) (x ∷ xs)
    min_by-least x [] = (omega arith, tt)
    min_by-least x (y ∷ ys) =
        let (least, rest) = min_by-least (if lt y x then y else x) ys in
        (omega (arith, kept-le x y), (omega (arith, kept-le x y), rest))
