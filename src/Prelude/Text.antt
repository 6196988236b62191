-- ===== src/Prelude/Text.antt =====
-- Python strings: a `String` is read as the list of its code points, which is what `len`, slices,
-- comparisons and the regular expressions of the program go by.
use Prim.Native.Char.{code}
use Prim.Native.Nat.{ℕ}
use Prim.Native.String.{String}
use mathlib.Core.Bool.{Bool, true, false, ◌&&◌, ◌||◌, not}
use mathlib.Core.List.{List, [], ◌∷◌, reverse}
use questock.Prelude.Tests.{ltb, leb, ◌==◌, if◌then◌else◌}
use questock.Prelude.Lists.{length}

abbrev pub codes : String → List ℕ
codes String.[] = []
codes (String.◌∷◌ c s) = code c ∷ codes s

-- `len(s)`
abbrev pub len : String → ℕ
len s = length (codes s)

-- `a < b` on strings.
abbrev pub codes_lt : List ℕ → List ℕ → Bool
codes_lt [] [] = false
codes_lt [] (y ∷ ys) = true
codes_lt (x ∷ xs) [] = false
codes_lt (x ∷ xs) (y ∷ ys) = ltb x y || x == y && codes_lt xs ys

abbrev pub str_lt : String → String → Bool
str_lt s t = codes_lt (codes s) (codes t)

-- `any(p(c) for c in s)` and `all(p(c) for c in s)`
abbrev pub any_code : (ℕ → Bool) → List ℕ → Bool
any_code p [] = false
any_code p (c ∷ cs) = p c || any_code p cs

abbrev pub all_codes : (ℕ → Bool) → List ℕ → Bool
all_codes p [] = true
all_codes p (c ∷ cs) = p c && all_codes p cs

abbrev pub between : ℕ → ℕ → ℕ → Bool
between lo hi c = leb lo c && leb c hi

-- The code points that `str.isspace` accepts, which `strip` removes and `\s` matches.
unfoldable pub is_space : ℕ → Bool
is_space c =
    between 9 13 c
    || between 28 32 c
    || c == 133
    || c == 160
    || c == 5760
    || between 8192 8202 c
    || between 8232 8233 c
    || c == 8239
    || c == 8287
    || c == 12288

unfoldable pub is_digit : ℕ → Bool
is_digit c = between b'0' b'9' c

unfoldable pub is_letter : ℕ → Bool
is_letter c = between b'a' b'z' c || between b'A' b'Z' c

unfoldable pub is_alnum : ℕ → Bool
unfolding is_digit is_letter
is_alnum c = is_letter c || is_digit c

-- `bool(s.strip())`: some character is no space.
unfoldable pub has_text : List ℕ → Bool
unfolding is_space
has_text cs = any_code (λ c. not (is_space c)) cs

abbrev last_is_space : List ℕ → Bool
unfolding is_space
last_is_space [] = false
last_is_space (c ∷ []) = is_space c
last_is_space (c ∷ d ∷ cs) = last_is_space (d ∷ cs)

abbrev first_is_space : List ℕ → Bool
unfolding is_space
first_is_space [] = false
first_is_space (c ∷ cs) = is_space c

-- `s == s.strip()`
unfoldable pub is_stripped : List ℕ → Bool
unfolding first_is_space last_is_space
is_stripped cs = not (first_is_space cs) && not (last_is_space cs)

-- `s.lstrip()` and `s.strip()`
abbrev lstrip : List ℕ → List ℕ
unfolding is_space
lstrip [] = []
lstrip (c ∷ cs) = if is_space c then lstrip cs else c ∷ cs

unfoldable pub strip : List ℕ → List ℕ
unfolding lstrip
strip cs = reverse (lstrip (reverse (lstrip cs)))

-- `s.startswith(prefix)`
abbrev pub starts_with : List ℕ → List ℕ → Bool
starts_with [] cs = true
starts_with (p ∷ ps) [] = false
starts_with (p ∷ ps) (c ∷ cs) = p == c && starts_with ps cs
