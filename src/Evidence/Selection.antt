-- ===== src/Evidence/Selection.antt =====
-- app/evidence/selection.py: `source_diverse_indexes`.
pub mod Permutation
pub mod Diversity
use questock.Prelude.{
  ℕ, zero, suc, ◌+◌, Bool, true, false, not, ◌&&◌, ◌||◌, Option, none, some, List, [], ◌∷◌, ◌++◌,
  String, str_eq, ◌==◌, if◌then◌else◌, length,
}

-- `position in selected`
abbrev pub is_in : ℕ → List ℕ → Bool
is_in i [] = false
is_in i (j ∷ js) = i == j || is_in i js

-- The first position from `at` on that is not selected and has the required source.
unfoldable pub next_position : ℕ → String → List ℕ → List String → Option ℕ
next_position at required selected [] = none
next_position at required selected (source ∷ sources) =
    let later = next_position (at + 1) required selected sources in
    if not (is_in at selected) && str_eq source required then some at else later

-- `if index is not None: selected.append(index)`
abbrev pub append_found : Option ℕ → List ℕ → List ℕ
append_found none selected = selected
append_found (some index) selected = selected ++ index ∷ []

-- The loop over the required sources.
unfoldable pub choose : List String → List String → List ℕ → List ℕ
choose sources [] selected = selected
choose sources (required ∷ rest) selected =
    choose sources rest (append_found (next_position 0 required selected sources) selected)

-- The `extend`, whose generator tests each index against the list as it grows: `count` indexes from
-- `at` on.
unfoldable pub fill : ℕ → ℕ → List ℕ → List ℕ
fill at zero selected = selected
fill at (suc count) selected =
    fill (at + 1) count (if is_in at selected then selected else selected ++ at ∷ [])

-- `source_diverse_indexes`
unfoldable pub source_diverse_indexes : List String → List String → List ℕ
source_diverse_indexes sources required = fill 0 (length sources) (choose sources required [])
