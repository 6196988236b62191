-- ===== src/Prelude/Order.antt =====
-- Lists ordered by a relation, membership that says where, and Python's stable `sort` by a key.

use questock.Prelude.Tests.{if◌then◌else◌, if_true, if_false, Bool-cases}
use questock.Prelude.Lists.{All}
use mathlib.Core.Path.{◌≡◌, refl, sym, subst, ap, ◌∙◌}
use mathlib.Core.Logic.{◌⊎◌, ◌↔◌, inl, inr}
use mathlib.Core.Bool.{Bool, true, false}
use mathlib.Core.List.{List, [], ◌∷◌}

module _ {A : Type 0} where
  abbrev pub IsIn : A → List A → Type 0
  IsIn x [] = ⊥
  IsIn x (y ∷ ys) = (x ≡ y) ⊎ IsIn x ys

  pub All-IsIn {κ} : (P : A → Type κ) (xs : List A) (x : A) → All P xs → IsIn x xs → P x
  All-IsIn P [] x h k = absurd k
  All-IsIn P (y ∷ ys) x h (inl e) = subst P (sym e) h.0
  All-IsIn P (y ∷ ys) x h (inr k) = All-IsIn P ys x h.1 k

  pub All-of_IsIn {κ} : (P : A → Type κ) (xs : List A) → ((x : A) → IsIn x xs → P x) → All P xs
  All-of_IsIn P [] h = tt
  All-of_IsIn P (y ∷ ys) h = (h y (inl refl), All-of_IsIn P ys (λ x k. h x (inr k)))

  -- The same members, whatever their order.
  abbrev pub SameMembers : List A → List A → Type 0
  SameMembers xs ys = (x : A) → IsIn x xs ↔ IsIn x ys

  -- Each member stands in the relation to all later ones.
  abbrev pub Ordered {κ} : (A → A → Type κ) → List A → Type κ
  Ordered R [] = Unit
  Ordered R (x ∷ xs) = All (R x) xs × Ordered R xs

  -- Under a strict order the members fix the list.
  module _ {κ} (R : A → A → Type κ) (asym : (x y : A) → R x y → R y x → ⊥) where
    head_eq :
        (x y : A) (xs ys : List A)
        → All (R x) xs
        → All (R y) ys
        → IsIn x (y ∷ ys)
        → IsIn y (x ∷ xs)
        → x ≡ y
    head_eq x y xs ys h k (inl e) there = e
    head_eq x y xs ys h k (inr e) (inl e') = sym e'
    head_eq x y xs ys h k (inr e) (inr e') =
        absurd (asym x y (All-IsIn (R x) xs y h e') (All-IsIn (R y) ys x k e))

    in_tail : (x z : A) (xs ys : List A) → All (R x) xs → IsIn z xs → IsIn z (x ∷ ys) → IsIn z ys
    in_tail x z xs ys h k (inr there) = there
    in_tail x z xs ys h k (inl e) =
        let loop = subst (λ (a : A). R x a) e (All-IsIn (R x) xs z h k) in
        absurd (asym x x loop loop)

    pub Ordered-unique :
        (xs ys : List A) → Ordered R xs → Ordered R ys → SameMembers xs ys → xs ≡ ys
    Ordered-unique [] [] h k same = refl
    Ordered-unique [] (y ∷ ys) h k same = absurd ((same y).1 (inl refl))
    Ordered-unique (x ∷ xs) [] h k same = absurd ((same x).0 (inl refl))
    Ordered-unique (x ∷ xs) (y ∷ ys) h k same =
        let heads : x ≡ y =
          head_eq x y xs ys h.0 k.0 ((same x).0 (inl refl)) ((same y).1 (inl refl)) in
        let below : All (R y) xs = subst (λ (a : A). All (R a) xs) heads h.0 in
        let tails : xs ≡ ys = Ordered-unique xs ys h.1 k.1 (λ z. (
          λ there.
              in_tail x z xs ys h.0 there
                (subst (λ (a : A). IsIn z (a ∷ ys)) (sym heads) ((same z).0 (inr there))),
          λ there.
              in_tail y z ys xs k.0 there
                (subst (λ (a : A). IsIn z (a ∷ xs)) heads ((same z).1 (inr there))),
        )) in
        ap (λ (a : A). a ∷ xs) heads ∙ ap (λ (l : List A). y ∷ l) tails

-- `sort` with a key: `lt` is the strict order of the keys, and equal keys keep their places.
module _ {A : Type 0} (lt : A → A → Bool) where
  abbrev pub insert_by : A → List A → List A
  insert_by x [] = x ∷ []
  insert_by x (y ∷ ys) = let later = insert_by x ys in if lt y x then y ∷ later else x ∷ y ∷ ys

  abbrev pub sort_by : List A → List A
  sort_by [] = []
  sort_by (x ∷ xs) = insert_by x (sort_by xs)

  in-insert_by : (x z : A) (xs : List A) → IsIn z (insert_by x xs) → IsIn z (x ∷ xs)
  in-insert_by x z [] h = h
  in-insert_by x z (y ∷ ys) h = elim (Bool-cases (lt y x)) [
    | inr here ↦ subst (λ (l : List A). IsIn z l) (if_false (lt y x) _ _ here) h
    | inl past ↦
        let k : IsIn z (y ∷ insert_by x ys) =
          subst (λ (l : List A). IsIn z l) (if_true (lt y x) _ _ past) h in
        elim k [
          | inl e ↦ inr (inl e)
          | inr there ↦ elim (in-insert_by x z ys there) [ inl e ↦ inl e | inr t ↦ inr (inr t) ]
        ]
  ]

  insert_by-in : (x z : A) (xs : List A) → IsIn z (x ∷ xs) → IsIn z (insert_by x xs)
  insert_by-in x z [] h = h
  insert_by-in x z (y ∷ ys) h = elim (Bool-cases (lt y x)) [
    | inr here ↦ subst (λ (l : List A). IsIn z l) (sym (if_false (lt y x) _ _ here)) h
    | inl past ↦
        let k : IsIn z (y ∷ insert_by x ys) = elim h [
          | inl e ↦ inr (insert_by-in x z ys (inl e))
          | inr t ↦ elim t [ inl e ↦ inl e | inr u ↦ inr (insert_by-in x z ys (inr u)) ]
        ] in
        subst (λ (l : List A). IsIn z l) (sym (if_true (lt y x) _ _ past)) k
  ]

  in-sort_by : (z : A) (xs : List A) → IsIn z (sort_by xs) → IsIn z xs
  in-sort_by z [] h = h
  in-sort_by z (x ∷ xs) h = elim (in-insert_by x z (sort_by xs) h) [
    | inl e ↦ inl e
    | inr there ↦ inr (in-sort_by z xs there)
  ]

  sort_by-in : (z : A) (xs : List A) → IsIn z xs → IsIn z (sort_by xs)
  sort_by-in z [] h = h
  sort_by-in z (x ∷ xs) (inl e) = insert_by-in x z (sort_by xs) (inl e)
  sort_by-in z (x ∷ xs) (inr there) = insert_by-in x z (sort_by xs) (inr (sort_by-in z xs there))

  pub sort_by-SameMembers : (xs : List A) → SameMembers (sort_by xs) xs
  sort_by-SameMembers xs z = (in-sort_by z xs, sort_by-in z xs)

  -- The sorted list is ordered by `R`: by the key, and where the keys are equal by the places `E`.
  module _ {κ μ} (R : A → A → Type κ) (E : A → A → Type μ)
      (trans : (x y z : A) → R x y → R y z → R x z) (by_key : (x y : A) → lt x y ≡ true → R x y)
      (by_place : (x y : A) → E x y → lt y x ≡ false → R x y) where
    insert_by-Ordered :
        (x : A) (xs : List A) → All (E x) xs → Ordered R xs → Ordered R (insert_by x xs)
    insert_by-Ordered x [] e h = (tt, tt)
    insert_by-Ordered x (y ∷ ys) e h = elim (Bool-cases (lt y x)) [
      | inl past ↦
          let whole : Ordered R (y ∷ insert_by x ys) = (
            All-of_IsIn (R y) (insert_by x ys) (λ z there.
                All-IsIn (R y) (x ∷ ys) z (by_key y x past, h.0) (in-insert_by x z ys there)),
            insert_by-Ordered x ys e.1 h.1,
          ) in
          subst (λ (l : List A). Ordered R l) (sym (if_true (lt y x) _ _ past)) whole
      | inr here ↦
          let first = by_place x y e.0 here in
          let whole : Ordered R (x ∷ y ∷ ys) = (
            (
              first,
              All-of_IsIn (R x) ys (λ z there. trans x y z first (All-IsIn (R y) ys z h.0 there)),
            ),
            h,
          ) in
          subst (λ (l : List A). Ordered R l) (sym (if_false (lt y x) _ _ here)) whole
    ]

    pub sort_by-Ordered : (xs : List A) → Ordered E xs → Ordered R (sort_by xs)
    sort_by-Ordered [] h = tt
    sort_by-Ordered (x ∷ xs) h =
        insert_by-Ordered x (sort_by xs)
          (All-of_IsIn (E x) (sort_by xs)
            (λ z there. All-IsIn (E x) xs z h.0 (in-sort_by z xs there)))
          (sort_by-Ordered xs h.1)
