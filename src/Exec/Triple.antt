-- ===== src/Exec/Triple.antt =====
-- Hoare triples of methods that may raise: from `Pre`, a return satisfies `Post` and a raise leaves
-- the invariant `I`.
use questock.Prelude.{◌≡◌, refl, Bool, true, false}
use questock.Exec.{gets, Result, ok, raise, Exec, ◌>>=◌, pure, lift, modify, raise_if}

abbrev pub Outcome {ℓ} :
    {E S A : Type ℓ} → (S → Type ℓ) → (A → S → Type ℓ) → Result E A → S → Type ℓ
Outcome I Post (ok a) s = Post a s
Outcome I Post (raise e) s = I s

pub record Triple {ℓ} {E S A : Type ℓ} (I Pre : S → Type ℓ) (m : Exec E S A) (Post : A → S → Type ℓ)
    : Type ℓ where
  pub at : (s : S) → Pre s → Outcome I Post (m s).0 (m s).1

module _ {ℓ} {E S A : Type ℓ} {I Pre : S → Type ℓ} {Post : A → S → Type ℓ} where
  pub Triple-lift :
      (r : Result E A) → ((s : S) → Pre s → Outcome I Post r s) → Triple I Pre (lift r) Post
  Triple-lift r h = record { at = h }

  pub Triple-pure : (a : A) → ((s : S) → Pre s → Post a s) → Triple {E = E} I Pre (pure a) Post
  Triple-pure a h = record { at = h }

  -- The invariant holds afterwards, whether the method returns or raises.
  pub Triple-keeps :
      (m : Exec E S A)
      → Triple I Pre m Post
      → ((a : A) (s : S) → Post a s → I s)
      → (s : S) → Pre s
      → I (m s).1
  Triple-keeps m t weaken s h = settle (m s).0 (m s).1 (t.at s h)
    where
      settle : (r : Result E A) (s' : S) → Outcome I Post r s' → I s'
      settle (ok a) s' o = weaken a s' o
      settle (raise e) s' o = o

module _ {ℓ} {E S : Type ℓ} {I Pre : S → Type ℓ} {Post : S → Type ℓ} where
  pub Triple-modify :
      (f : S → S) → ((s : S) → Pre s → Post (f s)) → Triple {E = E} I Pre (modify f) (λ _. Post)
  Triple-modify f h = record { at = h }

  pub Triple-raise_if :
      (b : Bool) (e : E)
      → ((s : S) → Pre s → b ≡ true → I s)
      → ((s : S) → Pre s → b ≡ false → Post s)
      → Triple I Pre (raise_if b e) (λ _. Post)
  Triple-raise_if true e bad good = record { at = λ s h. bad s h refl }
  Triple-raise_if false e bad good = record { at = λ s h. good s h refl }

module _ {ℓ} {E S A B : Type ℓ} {I Pre : S → Type ℓ} {Mid : A → S → Type ℓ}
    {Post : B → S → Type ℓ} where
  pub Triple-bind :
      (m : Exec E S A) (f : A → Exec E S B)
      → Triple I Pre m Mid
      → ((a : A) → Triple I (Mid a) (f a) Post)
      → Triple I Pre (m >>= f) Post
  Triple-bind m f t u = record { at = λ s h. settle (m s).0 (m s).1 (t.at s h) }
    where
      settle :
          (r : Result E A) (s' : S)
          → Outcome I Mid r s'
          → Outcome I Post ((lift r >>= f) s').0 ((lift r >>= f) s').1
      settle (ok a) s' o = (u a).at s' o
      settle (raise e) s' o = o

module _ {ℓ} {E S A B : Type ℓ} {I Pre : S → Type ℓ} {Post : B → S → Type ℓ} where
  -- The rest of the block may use the value that a pure computation returned.
  pub Triple-bind-lift :
      (r : Result E A) (f : A → Exec E S B)
      → ((s : S) → Pre s → I s)
      → ((a : A) → r ≡ ok a → Triple I Pre (f a) Post)
      → Triple I Pre (lift r >>= f) Post
  Triple-bind-lift (ok a) f weaken t = record { at = λ s h. (t a refl).at s h }
  Triple-bind-lift (raise e) f weaken t = record { at = λ s h. weaken s h }

module _ {ℓ} {E S A : Type ℓ} {I Pre : S → Type ℓ} {Post : A → S → Type ℓ} where
  pub Triple-gets :
      (f : S → A) → ((s : S) → Pre s → Post (f s) s) → Triple {E = E} I Pre (gets f) Post
  Triple-gets f h = record { at = h }
