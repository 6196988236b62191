-- ===== src/Retrieval/Filters/Examples.antt =====
-- The hard filter at concrete inputs.
use questock.Prelude.{ℕ, ◌≡◌, refl, none, some, List, [], ◌∷◌, String, string_eq, All}
use questock.Prelude.Text.{has_text, is_space}
use questock.Exec.{ok, raise}
use questock.Dict.{Dict, lookup}
use questock.Core.Evidence.{Evidence, company_specific, no_member, member, atom, text}
use questock.Retrieval.Filters.{
  FinancialDocument, RetrievalRequest, invalid, has_target, document_type_match, structural_match,
  date_in_range, matches_document, integrity_match, scope_match, kept, kept_all, filter_evidence,
  filter_financial_documents,
}
use questock.Retrieval.Filters.Sound.{IsSound, filter_evidence-IsSound}

program : Unit {0}
unfolding has_text is_space lookup has_target document_type_match structural_match date_in_range
    matches_document integrity_match scope_match kept kept_all filter_evidence
    filter_financial_documents
program = tt

abbrev document : FinancialDocument
document = record {
  document_id = "d1";
  source_type = "news";
  provider = "p";
  primary_security_ids = "KRX:005930" ∷ [];
  mentioned_security_ids = [];
  title = "t";
  published_at = some 1000000;
  source_url = none;
  body = "b";
  locator = member "row" atom no_member;
  metadata = ("report_type", text "daily") ∷ [];
  ingestion_version = "1";
}

abbrev evidence : String → ℕ → Evidence
evidence id time = record {
  evidence_id = id;
  document_id = "d1";
  source_type = "news";
  title = "t";
  source_url = none;
  published_at = some time;
  subject_security_ids = "KRX:005930" ∷ [];
  mentioned_security_ids = [];
  scope = company_specific;
  snippet = "s";
  locator = member "row" atom no_member;
  retrieval_score = none;
}

abbrev request : RetrievalRequest
request = record {
  query = "q";
  security_id = "KRX:005930";
  source_types = "news" ∷ [];
  date_range = some (record { start = some 11; end = none });
  as_of = some (some 1000000);
  document_types = some ("daily" ∷ []);
  top_k = 6;
}

abbrev documents : Dict String FinancialDocument
documents = ("d1", document) ∷ []

-- The second item is later than `as_of`.
filtered :
    filter_evidence (evidence "e1" 999999 ∷ evidence "e2" 1000001 ∷ []) request (some documents)
    ≡ ok (evidence "e1" 999999 ∷ [])
unfolding program
filtered = refl

refuses_key : filter_evidence [] request (some (("d2", document) ∷ [])) ≡ raise invalid
unfolding program
refuses_key = refl

kept_document : filter_financial_documents (document ∷ []) request ≡ document ∷ []
unfolding program
kept_document = refl

filter_evidence-IsSound_example :
    (xs : List Evidence) × (filter_evidence (evidence "e1" 999999 ∷ []) request (some documents)
      ≡ ok xs)
    × All (IsSound (some documents) request) xs
filter_evidence-IsSound_example =
    filter_evidence-IsSound (evidence "e1" 999999 ∷ []) request (some documents) refl
