-- ===== src/Core/Unicode.antt =====
-- What the program takes from `unicodedata` and from `str`, whose tables are the interpreter's: a
-- parameter of the texts that are compared after normalisation.
use questock.Prelude.{ℕ, Bool, List}

pub record Unicode : Type 0 where
  -- `unicodedata.normalize("NFKC", value)`
  pub nfkc : List ℕ → List ℕ
  -- `value.casefold()`
  pub casefold : List ℕ → List ℕ
  -- `value.upper()`
  pub upper : List ℕ → List ℕ
  -- What `\d` matches.
  pub is_decimal : ℕ → Bool
