-- ===== src/Core/Models.antt =====
-- app/core/models.py and app/core/status.py. A date is its ordinal, an aware datetime a number of
-- ticks; `strict` validation by pydantic is the type of a field, the validators are functions.
use questock.Prelude.{
  ℕ, Bool, true, false, not, ◌||◌, Option, none, some, List, [], ◌∷◌, String, ltb, str_eq,
}

-- `value in values`
abbrev pub elem : String → List String → Bool
elem x [] = false
elem x (y ∷ ys) = str_eq y x || elem x ys

-- `_has_duplicates`: `len(values) != len(set(values))`
abbrev pub has_duplicates : List String → Bool
has_duplicates [] = false
has_duplicates (x ∷ xs) = elem x xs || has_duplicates xs

pub record DateRange : Type 0 where
  pub start : Option ℕ
  pub end : Option ℕ

-- `DateRange.validate_order`
abbrev pub in_order : Option ℕ → Option ℕ → Bool
in_order (some start) (some end) = not (ltb end start)
in_order _ _ = true

abbrev pub date_range_ok : Option DateRange → Bool
date_range_ok none = true
date_range_ok (some r) = in_order r.start r.end

pub record SessionContext : Type 0 where
  pub current_security_id : Option String
  pub current_date_range : Option DateRange
  pub previous_intent : Option String
  pub previous_source_types : List String

-- `SessionContext()`
abbrev pub empty_context : SessionContext
empty_context = record {
  current_security_id = none;
  current_date_range = none;
  previous_intent = none;
  previous_source_types = [];
}
