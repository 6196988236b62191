-- ===== src/Evidence/Budget/Examples.antt =====
-- The choice of evidence at concrete inputs.
use questock.Prelude.{
  not, str_eq, ℕ, ◌≤◌, ◌<◌, ◌≡◌, refl, true, false, none, some, List, [], ◌∷◌, ◌⊎◌, String, leb,
  if◌then◌else◌, take, arith,
}
use questock.Prelude.Text.{has_text, is_space, is_letter}
use questock.Exec.{raise, ok}
use questock.Dict.{lookup, assign}
use questock.Core.Models.{elem, has_duplicates}
use questock.Core.Evidence.{
  Evidence, company_specific, no_member, member, atom, evidence_ok, source_url_ok, locator_ok,
  scope_ok, no_local_members, no_local_paths, looks_like_local_absolute_path,
}
use questock.Evidence.Budget.{
  invalid_input, Json, Limits, CanonicalEvidence, payloads, limits_ok, required_ok, fields_ok,
  canonical_sequence, repeated_ids_ok, deduplicate, count_of, apply_source_cap, fits,
  apply_context_caps, fingerprints, sources_of, evidence_of,
}
use questock.Evidence.Budget.Select.{Diagnostics, select_evidence_context}
use questock.Evidence.Budget.Caps.{
  deduplicate-once, apply_source_cap-count, apply_context_caps-longest,
}
use questock.Evidence.Budget.Total.{Within, select_evidence_context-total}

program : Unit {0}
unfolding has_text is_space is_letter lookup assign evidence_ok source_url_ok locator_ok scope_ok
    no_local_members no_local_paths looks_like_local_absolute_path limits_ok required_ok fields_ok
    canonical_sequence repeated_ids_ok
program = tt

-- A JSON that writes the id of the document unless it is "nan", and three characters for any items.
abbrev json : Json
json = record {
  can_dump = λ p. not (str_eq p.document_id "nan");
  dump = λ p. p.document_id;
  dump_projections = λ ps. 91 ∷ 48 ∷ 93 ∷ [];
}

abbrev evidence : String → String → Evidence
evidence id document = record {
  evidence_id = id;
  document_id = document;
  source_type = "news";
  title = "t";
  source_url = some "https://a";
  published_at = none;
  subject_security_ids = "KRX:005930" ∷ [];
  mentioned_security_ids = [];
  scope = company_specific;
  snippet = "s";
  locator = member "row" atom no_member;
  retrieval_score = some 700000;
}

abbrev limits : Limits
limits = record {
  max_evidence_count = 10;
  max_evidence_per_source = 1;
  max_context_tokens = 100;
  max_context_chars = 100;
}

abbrev inputs : List Evidence
inputs = evidence "e1" "d1" ∷ evidence "e2" "d1" ∷ evidence "e3" "d2" ∷ []

abbrev items : List CanonicalEvidence
items =
    payloads json (evidence "e1" "d1")
    ∷ payloads json (evidence "e2" "d1")
    ∷ payloads json (evidence "e3" "d2")
    ∷ []

read : canonical_sequence json inputs ≡ ok items
unfolding program
read = refl

-- An item that JSON cannot write is refused, and the others with it.
unwritable :
    canonical_sequence json (evidence "e1" "d1" ∷ evidence "e2" "nan" ∷ []) ≡ raise invalid_input
unfolding program
unwritable = refl

deduplicate-once_example :
    (has_duplicates (fingerprints (deduplicate [] items)) ≡ false)
    × ((f : String) → elem f (fingerprints (deduplicate [] items)) ≡ elem f (fingerprints items))
deduplicate-once_example = deduplicate-once items

apply_source_cap-count_example :
    count_of "news" (sources_of (apply_source_cap 1 [] items))
    ≡ (if leb (count_of "news" (sources_of items)) 1 then count_of "news" (sources_of items) else 1)
apply_source_cap-count_example = apply_source_cap-count 1 items "news"

apply_context_caps-longest_example :
    (k : ℕ) × (k ≤ 3)
    × (apply_context_caps json limits 99 3 items ≡ take k items)
    × ((k ≡ 0) ⊎ (fits json limits 99 (take k items) ≡ true))
    × ((j : ℕ) → k < j → j ≤ 3 → fits json limits 99 (take j items) ≡ false)
apply_context_caps-longest_example = apply_context_caps-longest json limits 99 3 items

select_evidence_context-total_example :
    (xs : List CanonicalEvidence) × (d : Diagnostics) × (select_evidence_context json limits 99
        ("glossary" ∷ [])
        inputs
      ≡ ok (evidence_of xs, d))
    × Within json limits 99 xs
select_evidence_context-total_example =
    select_evidence_context-total json limits 99 ("glossary" ∷ []) inputs items
      (unfold program in refl) (omega arith) (unfold program in refl) read (unfold program in refl)
