-- ===== src/Exec.antt =====
-- Methods of a Python object: they change the object and return or raise. What was written before
-- a raise stays written, so the state comes back beside the error too.
pub mod Triple
use questock.Prelude.{◌≡◌, refl, Bool, true, false, arith}

pub data Result {ℓ} (E A : Type ℓ) : Type ℓ where
  ok : A → Result E A
  raise : E → Result E A

module _ {ℓ} {E A B : Type ℓ} where
  -- The result of `m`, handed to the rest of the block unless it raised.
  abbrev pub and_then : Result E A → (A → Result E B) → Result E B
  and_then (ok a) f = f a
  and_then (raise e) f = raise e

-- What a block that returns has gone through.
pub and_then-ok {ℓ} :
    {E A B : Type ℓ} (m : Result E A) (f : A → Result E B) (b : B)
    → and_then m f ≡ ok b
    → (a : A) × (m ≡ ok a) × (f a ≡ ok b)
and_then-ok (ok a) f b h = (a, refl, h)
and_then-ok (raise e) f b h = absurd (ground (arith, h))

abbrev pub Exec {ℓ} : Type ℓ → Type ℓ → Type ℓ → Type ℓ
Exec E S A = S → Result E A × S

module _ {ℓ} {E S A B : Type ℓ} where
  abbrev continue : Result E A → (A → Exec E S B) → Exec E S B
  continue (ok a) f s = f a s
  continue (raise e) f s = (raise e, s)

  infixl 5 ◌>>=◌ ◌>>◌
  abbrev pub ◌>>=◌ : Exec E S A → (A → Exec E S B) → Exec E S B
  ◌>>=◌ m f s = let (r, s') = m s in continue r f s'

  abbrev pub ◌>>◌ : Exec E S A → Exec E S B → Exec E S B
  m >> n = m >>= λ _. n

module _ {ℓ} {E S A : Type ℓ} where
  abbrev pub pure : A → Exec E S A
  pure a s = (ok a, s)

  abbrev pub throw : E → Exec E S A
  throw e s = (raise e, s)

  -- A pure computation that may raise.
  abbrev pub lift : Result E A → Exec E S A
  lift r s = (r, s)

  abbrev pub gets : (S → A) → Exec E S A
  gets f s = (ok (f s), s)

module _ {ℓ} {E S : Type ℓ} where
  abbrev pub modify : (S → S) → Exec E S (Unit {ℓ})
  modify f s = (ok tt, f s)

  -- `if b: raise e`
  abbrev pub raise_if : Bool → E → Exec E S (Unit {ℓ})
  raise_if true e s = (raise e, s)
  raise_if false e s = (ok tt, s)
