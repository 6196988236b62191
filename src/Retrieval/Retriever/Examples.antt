-- ===== src/Retrieval/Retriever/Examples.antt =====
-- Retrieval at concrete inputs, with a fixed-point stand-in for the floats.
use questock.Prelude.{
  ℕ, ◌+◌, ◌-◌, ◌*◌, ◌/◌, ◌≡◌, refl, inl, inr, none, some, List, [], ◌∷◌, String, string_eq, take,
  All, arith,
}
use questock.Prelude.Text.{codes, between, has_text, is_space}
use questock.Prelude.Order.{IsIn}
use questock.Exec.{ok}
use questock.Dict.{lookup}
use questock.Core.Unicode.{Unicode}
use questock.Core.Evidence.{Evidence, company_specific, no_member, member, atom}
use questock.Evidence.Selection.{next_position, choose, fill, source_diverse_indexes}
use questock.Retrieval.Filters.{
  RetrievalRequest, has_target, document_type_match, structural_match, date_in_range,
  matches_document, integrity_match, scope_match, kept, kept_all, filter_evidence,
}
use questock.Retrieval.Tokens.{
  find_all, strip_suffix, normalize_korean_token, is_hbm_variant, tokenize_text, tokenize_query,
}
use questock.Retrieval.Scores.{
  Floats, inverse_document_frequency, term, add_terms, score_documents, candidate_tokens,
  score_candidates,
}
use questock.Retrieval.Retriever.{
  Entry, RetrievalResult, max_top_k, min, eligible_from, rank, with_scores, pick, select, answer,
  retrieve_filtered, retrieve_evidence,
}
use questock.Retrieval.Retriever.Ranking.{IsRanking, IsRanking-unique}
use questock.Retrieval.Retriever.Refines.{candidates, retrieve_evidence-top}
use questock.Retrieval.Retriever.Relevant.{IsReturned, retrieve_evidence-IsReturned}
use questock.Retrieval.Retriever.Sources.{retrieve_evidence-covers}
use questock.Retrieval.Retriever.Counts.{IsConsistent, retrieve_evidence-IsConsistent}

program : Unit {0}
unfolding has_text is_space lookup next_position choose fill source_diverse_indexes has_target
    document_type_match structural_match date_in_range matches_document integrity_match scope_match
    kept kept_all filter_evidence find_all strip_suffix normalize_korean_token is_hbm_variant
    tokenize_text tokenize_query inverse_document_frequency term add_terms score_documents
    candidate_tokens score_candidates eligible_from rank pick select answer retrieve_filtered
    retrieve_evidence
program = tt

abbrev unicode : Unicode
unicode = record {
  nfkc = λ cs. cs;
  casefold = λ cs. cs;
  upper = λ cs. cs;
  is_decimal = λ c. between b'0' b'9' c;
}

-- Numbers of millionths, and the first term of the logarithm's series.
abbrev floats : Floats
floats = record {
  Float = ℕ;
  hundredths = λ n. n * 10000;
  of_nat = λ n. n * 1000000;
  add = λ a b. a + b;
  sub = λ a b. a - b;
  mul = λ a b. a * b / 1000000;
  div = λ a b. a * 1000000 / b;
  log = λ a. a - 1000000;
  millionths = λ a. a;
}

abbrev evidence : String → String → String → Evidence
evidence id source title = record {
  evidence_id = id;
  document_id = id;
  source_type = source;
  title = title;
  source_url = none;
  published_at = some 1000000;
  subject_security_ids = "KRX:005930" ∷ [];
  mentioned_security_ids = [];
  scope = company_specific;
  snippet = "s";
  locator = member "row" atom no_member;
  retrieval_score = none;
}

abbrev request : List String → ℕ → RetrievalRequest
request sources top_k = record {
  query = "hbm3e";
  security_id = "KRX:005930";
  source_types = sources;
  date_range = none;
  as_of = none;
  document_types = none;
  top_k = top_k;
}

abbrev items : List Evidence
items =
    evidence "e1" "news" "chips"
    ∷ evidence "e2" "news" "hbm sales"
    ∷ evidence "e3" "news" "hbm3e"
    ∷ evidence "e4" "report" "hbm rates"
    ∷ []

-- The particle is taken off, the variant of HBM gives its family too, and generic words go.
tokens : tokenize_query unicode "삼성전자의 hbm3e 자료" ≡ codes "삼성전자" ∷ codes "hbm3e" ∷ codes "hbm" ∷ []
unfolding program
tokens = refl

scores :
    score_candidates floats unicode items (tokenize_query unicode "hbm3e")
    ≡ 0 ∷ 571428 ∷ 3682539 ∷ 571428 ∷ []
unfolding program
scores = refl

abbrev news : List Evidence
news =
    evidence "e1" "news" "chips"
    ∷ evidence "e2" "news" "hbm sales"
    ∷ evidence "e3" "news" "hbm3e"
    ∷ []

abbrev ranked : List Entry
ranked =
    record { score = 2987403; index = 2; item = evidence "e3" "news" "hbm3e" }
    ∷ record { score = 790783; index = 1; item = evidence "e2" "news" "hbm sales" }
    ∷ []

ranked-IsRanking : IsRanking ranked (candidates floats unicode (request ("news" ∷ []) 1) news)
unfolding program
ranked-IsRanking = (IsRanking-unique 0 news (0 ∷ 790783 ∷ 2987403 ∷ []) ranked).1 refl

retrieve_evidence-top_example :
    (x : RetrievalResult) × (retrieve_evidence floats unicode items (request ("news" ∷ []) 1) none
      ≡ ok x)
    × (x.evidence ≡ with_scores (take (min 1 max_top_k) ranked))
retrieve_evidence-top_example =
    retrieve_evidence-top floats unicode items (request ("news" ∷ []) 1) none news ranked
      (unfold program in refl) (omega arith) ranked-IsRanking

retrieve_evidence-IsReturned_example :
    (x : RetrievalResult) × (retrieve_evidence floats unicode items (request ("news" ∷ []) 6) none
      ≡ ok x)
    × All (IsReturned unicode none (request ("news" ∷ []) 6) items) x.evidence
retrieve_evidence-IsReturned_example =
    retrieve_evidence-IsReturned floats unicode items (request ("news" ∷ []) 6) none refl refl

retrieve_evidence-covers_example :
    (x : RetrievalResult) × (retrieve_evidence floats unicode items
        (request ("news" ∷ "report" ∷ []) 2)
        none
      ≡ ok x)
    × (e : Evidence) × IsIn e x.evidence
    × (e.source_type ≡ "report")
retrieve_evidence-covers_example =
    retrieve_evidence-covers floats unicode items (request ("news" ∷ "report" ∷ []) 2) none items
      (record { score = 571428; index = 3; item = evidence "e4" "report" "hbm rates" })
      (unfold program in refl) (omega arith) (omega arith) refl
      (unfold program in inr (inr (inl refl)))

retrieve_evidence-IsConsistent_example :
    (x : RetrievalResult) × (retrieve_evidence floats unicode items (request ("news" ∷ []) 6) none
      ≡ ok x)
    × IsConsistent (request ("news" ∷ []) 6) x
retrieve_evidence-IsConsistent_example =
    retrieve_evidence-IsConsistent floats unicode items (request ("news" ∷ []) 6) none refl
