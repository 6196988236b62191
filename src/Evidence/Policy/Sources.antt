-- ===== src/Evidence/Policy/Sources.antt =====
-- The lists of sources in a decision of app/evidence/policy.py pass its audit.
use questock.Prelude.{
  ℕ, ◌+◌, ◌<◌, ◌≡◌, refl, Bool, true, false, ◌&&◌, Option, none, some, List, [], ◌∷◌, String,
  str_eq, eq_iff, if◌then◌else◌, arith, Bool-cases, inl, inr,
}
use questock.Core.Models.{elem, has_duplicates}
use questock.Core.Evidence.{overlap}
use questock.Evidence.Policy.Inputs.{strings_eq}
use questock.Evidence.Policy.Decide.{
  sources_where, or_else, last_place, place_after, ordered_from, subset,
}

str_eq_refl : (s : String) → str_eq s s ≡ true
str_eq_refl s = (eq_iff s s).1 refl

pub elem-sources_where :
    (p : String → Bool) (s : String) (xs : List String)
    → elem s (sources_where p xs) ≡ (elem s xs && p s)
elem-sources_where p s [] = refl
elem-sources_where p s (x ∷ xs) = elim (Bool-cases (str_eq x s)) [
  | inr other ↦ ground (arith, other, elem-sources_where p s xs)
  | inl same ↦ rw ((eq_iff x s).0 same) (ground (arith, str_eq_refl s, elem-sources_where p s xs))
]

pub has_duplicates-sources_where :
    (p : String → Bool) (xs : List String)
    → has_duplicates xs ≡ false
    → has_duplicates (sources_where p xs) ≡ false
has_duplicates-sources_where p [] h = refl
has_duplicates-sources_where p (x ∷ xs) h =
    ground (arith, elem-sources_where p x xs, has_duplicates-sources_where p xs)

pub overlap-sources_where :
    (p q : String → Bool) (xs ys : List String)
    → ((s : String) → p s ≡ true → q s ≡ false)
    → overlap (sources_where p xs) (sources_where q ys) ≡ false
overlap-sources_where p q [] ys apart = refl
overlap-sources_where p q (x ∷ xs) ys apart =
    ground (arith, elem-sources_where q x ys, apart x, overlap-sources_where p q xs ys apart)

pub sources_where-cong :
    (p q : String → Bool) (xs : List String)
    → ((s : String) → elem s xs ≡ true → p s ≡ q s)
    → sources_where p xs ≡ sources_where q xs
sources_where-cong p q [] same = refl
sources_where-cong p q (x ∷ xs) same = ground (
  arith,
  same x (ground (arith, str_eq_refl x)),
  sources_where-cong p q xs (λ s h. same s (ground (arith, h))),
)

pub strings_eq_refl : (xs : List String) → strings_eq xs xs ≡ true
strings_eq_refl [] = refl
strings_eq_refl (x ∷ xs) = ground (arith, str_eq_refl x, strings_eq_refl xs)

pub strings_eq-eq : (xs ys : List String) → strings_eq xs ys ≡ true → xs ≡ ys
strings_eq-eq [] [] h = refl
strings_eq-eq [] (y ∷ ys) h = absurd (ground arith)
strings_eq-eq (x ∷ xs) [] h = absurd (ground arith)
strings_eq-eq (x ∷ xs) (y ∷ ys) h = ground (arith, eq_iff x y, strings_eq-eq xs ys)

subset-cons :
    (xs : List String) (y : String) (ys : List String)
    → subset xs ys ≡ true
    → subset xs (y ∷ ys) ≡ true
subset-cons [] y ys h = refl
subset-cons (x ∷ xs) y ys h = ground (arith, subset-cons xs y ys)

pub subset-sources_where :
    (p : String → Bool) (xs : List String) → subset (sources_where p xs) xs ≡ true
subset-sources_where p [] = refl
subset-sources_where p (x ∷ xs) =
    ground (arith, str_eq_refl x, subset-cons (sources_where p xs) x xs (subset-sources_where p xs))

-- The values stand at consecutive places.
abbrev Consecutive : (String → Option ℕ) → ℕ → List String → Type 0
Consecutive place at [] = Unit
Consecutive place at (x ∷ xs) = (place x ≡ some at) × Consecutive place (at + 1) xs

last_place-absent :
    (at : ℕ) (s : String) (xs : List String) → elem s xs ≡ false → last_place at s xs ≡ none
last_place-absent at s [] h = refl
last_place-absent at s (x ∷ xs) h = ground (arith, last_place-absent (at + 1) s xs)

Consecutive-or_else :
    (place : String → Option ℕ) (other : String → Option ℕ) (at : ℕ) (xs : List String)
    → Consecutive place at xs
    → Consecutive (λ s. or_else (place s) (other s)) at xs
Consecutive-or_else place other at [] h = tt
Consecutive-or_else place other at (x ∷ xs) h =
    (ground (arith, h.0), Consecutive-or_else place other (at + 1) xs h.1)

last_place-Consecutive :
    (at : ℕ) (xs : List String)
    → has_duplicates xs ≡ false
    → Consecutive (λ s. last_place at s xs) at xs
last_place-Consecutive at [] h = tt
last_place-Consecutive at (x ∷ xs) h = (
  ground (arith, last_place-absent (at + 1) x xs, str_eq_refl x),
  Consecutive-or_else (λ s. last_place (at + 1) s xs) (λ s. if str_eq x s then some at else none)
      (at + 1) xs (last_place-Consecutive (at + 1) xs (ground arith)),
)

abbrev Before : Option ℕ → ℕ → Type 0
Before none at = Unit
Before (some i) at = i < at

Before-suc : (previous : Option ℕ) (at : ℕ) → Before previous at → Before previous (at + 1)
Before-suc none at h = tt
Before-suc (some i) at h = omega arith

place_after-Before :
    (previous : Option ℕ) (at : ℕ) → Before previous at → place_after (some at) previous ≡ true
place_after-Before none at h = refl
place_after-Before (some i) at h = ground arith

ordered_from-Consecutive :
    (p : String → Bool) (expected : List String) (previous : Option ℕ) (at : ℕ) (xs : List String)
    → Consecutive (λ s. last_place 0 s expected) at xs
    → Before previous at
    → ordered_from expected previous (sources_where p xs) ≡ true
unfolding ordered_from
ordered_from-Consecutive p expected previous at [] places before = refl
ordered_from-Consecutive p expected previous at (x ∷ xs) places before = elim (Bool-cases (p x)) [
  | inr out ↦ rw out (
      ordered_from-Consecutive p expected previous (at + 1) xs places.1
        (Before-suc previous at before))
  | inl into ↦
      let rest = ordered_from-Consecutive p expected (some at) (at + 1) xs places.1 (omega arith) in
      rw into (rw (places.0) (rw (place_after-Before previous at before) rest))
]

-- What is left of a list without duplicates is an ordered part of it.
pub ordered_from-sources_where :
    (p : String → Bool) (xs : List String)
    → has_duplicates xs ≡ false
    → ordered_from xs none (sources_where p xs) ≡ true
ordered_from-sources_where p xs h =
    ordered_from-Consecutive p xs none 0 xs (last_place-Consecutive 0 xs h) tt
