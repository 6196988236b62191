-- ===== src/Prelude/Eq.antt =====
-- Decidable equality as an instance: the `==` of Python on strings, numbers and frozen records.
use Prim.Native.Nat.{ℕ}
use Prim.Native.String.{String}
use mathlib.Core.Path.{◌≡◌, refl, subst}
use mathlib.Core.Logic.{◌↔◌}
use mathlib.Core.Bool.{Bool, true, false, ◌&&◌}
use mathlib.Core.List.{List, [], ◌∷◌}
use native.Mathlib.Omega.{arith}
use text.Mathlib.Text.{◌==◌ as str_eq}
use text.Mathlib.TextEquality.{eq_iff}
use questock.Prelude.Tests.{◌==◌, ==_iff}

pub record EqType {ℓ} (A : Type ℓ) : Type ℓ where
  pub beq : A → A → Bool
  pub beq_iff : (a b : A) → (beq a b ≡ true) ↔ (a ≡ b)

infix 50 ◌≟◌
abbrev pub ◌≟◌ {ℓ} : {A : Type ℓ} ⦃e : EqType A⦄ → A → A → Bool
◌≟◌ ⦃e⦄ = e.beq

instance abbrev pub nat_eq : EqType ℕ
nat_eq = record { beq = ◌==◌; beq_iff = ==_iff }

instance abbrev pub string_eq : EqType String
string_eq = record { beq = str_eq; beq_iff = eq_iff }

-- `==` on texts as their code points.
abbrev pub codes_eq : List ℕ → List ℕ → Bool
codes_eq [] [] = true
codes_eq [] (y ∷ ys) = false
codes_eq (x ∷ xs) [] = false
codes_eq (x ∷ xs) (y ∷ ys) = x == y && codes_eq xs ys

codes_eq-eq : (xs ys : List ℕ) → codes_eq xs ys ≡ true → xs ≡ ys
codes_eq-eq [] [] h = refl
codes_eq-eq [] (y ∷ ys) h = absurd (ground arith)
codes_eq-eq (x ∷ xs) [] h = absurd (ground arith)
codes_eq-eq (x ∷ xs) (y ∷ ys) h = ground (arith, codes_eq-eq xs ys)

codes_eq_refl : (xs : List ℕ) → codes_eq xs xs ≡ true
codes_eq_refl [] = refl
codes_eq_refl (x ∷ xs) = ground (arith, codes_eq_refl xs)

pub codes_eq_iff : (xs ys : List ℕ) → (codes_eq xs ys ≡ true) ↔ (xs ≡ ys)
codes_eq_iff xs ys =
    (codes_eq-eq xs ys, λ e. subst (λ (l : List ℕ). codes_eq xs l ≡ true) e (codes_eq_refl xs))

instance abbrev pub codes_eq_type : EqType (List ℕ)
codes_eq_type = record { beq = codes_eq; beq_iff = codes_eq_iff }
