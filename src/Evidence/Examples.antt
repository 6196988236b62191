-- ===== src/Evidence/Examples.antt =====
-- The choice of evidence and the call budget at concrete inputs.
use questock.Prelude.{◌≡◌, refl, List, [], ◌∷◌, String, inl, inr, ltb, if◌then◌else◌, length, take}
use questock.Evidence.Selection.{next_position, choose, fill, source_diverse_indexes}
use questock.Evidence.Selection.Permutation.{times_in, source_diverse_indexes-permutes}
use questock.Evidence.Selection.Diversity.{Covered, required_sources_first}
use questock.Evidence.CallBudget.{reserve_call, reserve_all, granted}

abbrev found : List String
found = "news" ∷ "news" ∷ "glossary" ∷ "disclosure" ∷ []

abbrev wanted : List String
wanted = "glossary" ∷ "price" ∷ "news" ∷ []

ordered : source_diverse_indexes found wanted ≡ 2 ∷ 0 ∷ 1 ∷ 3 ∷ []
unfolding source_diverse_indexes choose next_position fill
ordered = refl

source_diverse_indexes-permutes_example :
    times_in 3 (source_diverse_indexes found wanted) ≡ (if ltb 3 (length found) then 1 else 0)
source_diverse_indexes-permutes_example = source_diverse_indexes-permutes found wanted 3

required_sources_first_example :
    Covered found "news" (take (length wanted) (source_diverse_indexes found wanted))
required_sources_first_example =
    required_sources_first found wanted "news" 1 refl (inr (inl (refl, refl)))

-- The third call is refused.
two_calls : granted (reserve_all 3 (record { max_calls = 2; calls_used = 0 })) ≡ 2
unfolding reserve_all reserve_call
two_calls = refl
