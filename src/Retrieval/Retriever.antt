-- ===== src/Retrieval/Retriever.antt =====
-- app/retrieval/retriever.py: `retrieve_evidence`.
pub mod Lengths
pub mod Shares
pub mod Ranking
pub mod Refines
pub mod Relevant
pub mod Sources
pub mod Counts
pub mod Matches
mod Examples
use questock.Prelude.{
  ℕ, zero, suc, ◌+◌, Bool, true, false, ◌&&◌, ◌||◌, Option, none, some, List, [], ◌∷◌, String, ltb,
  leb, ◌==◌, if◌then◌else◌, length, take,
}
use questock.Prelude.Order.{sort_by}
use questock.Exec.{Result, ok, raise, and_then}
use questock.Dict.{Dict}
use questock.Core.Unicode.{Unicode}
use questock.Core.Evidence.{Evidence}
use questock.Evidence.Selection.{source_diverse_indexes}
use questock.Retrieval.Filters.{FinancialDocument, RetrievalRequest, FilterError, filter_evidence}
use questock.Retrieval.Tokens.{Token, tokenize_query}
use questock.Retrieval.Scores.{Floats, score_candidates}

-- `MAX_TOP_K`
abbrev pub max_top_k : ℕ
max_top_k = 10

-- `LOW_RELEVANCE_THRESHOLD`, in millionths.
abbrev pub low_relevance_threshold : ℕ
low_relevance_threshold = 500000

-- `min(a, b)`
abbrev pub min : ℕ → ℕ → ℕ
min a b = if ltb b a then b else a

-- The values of `RetrievalStatus` that retrieval gives.
pub data Status : Type 0 where
  ok_status empty low_relevance : Status

-- The entries of the diagnostics that differ between calls.
pub record Diagnostics : Type 0 where
  pub input_count : ℕ
  pub filtered_count : ℕ
  pub scored_count : ℕ
  pub eligible_count : ℕ
  pub returned_count : ℕ
  pub query_token_count : ℕ
  pub requested_top_k : ℕ
  pub effective_top_k : ℕ

-- `RetrievalResult`
pub record RetrievalResult : Type 0 where
  pub evidence : List Evidence
  pub status : Status
  pub strategy : String
  pub is_low_relevance : Bool
  pub diagnostics : Diagnostics

-- A tuple of `eligible`.
pub record Entry : Type 0 where
  pub score : ℕ
  pub index : ℕ
  pub item : Evidence

-- The comprehension of `eligible`, from index `at` on.
unfoldable pub eligible_from : ℕ → List Evidence → List ℕ → List Entry
eligible_from at [] scores = []
eligible_from at (e ∷ es) [] = []
eligible_from at (e ∷ es) (score ∷ scores) =
    let rest = eligible_from (at + 1) es scores in
    let entry : Entry = record { score = score; index = at; item = e } in
    if leb low_relevance_threshold score then entry ∷ rest else rest

-- `key=lambda entry: (-entry[0], entry[1])`
abbrev pub key_lt : Entry → Entry → Bool
key_lt a b = ltb b.score a.score || (a.score == b.score && ltb a.index b.index)

-- `eligible.sort`
unfoldable pub rank : List Entry → List Entry
rank entries = sort_by key_lt entries

-- `item.model_copy(deep=True, update={"retrieval_score": score})`
abbrev pub with_score : Entry → Evidence
with_score entry = record entry.item { retrieval_score = some entry.score }

abbrev pub with_scores : List Entry → List Evidence
with_scores [] = []
with_scores (entry ∷ entries) = with_score entry ∷ with_scores entries

abbrev pub sources_of : List Evidence → List String
sources_of [] = []
sources_of (e ∷ es) = e.source_type ∷ sources_of es

-- `required_sources`
abbrev pub required_sources : List String → List String
required_sources sources = if ltb 1 (length sources) then sources else []

-- `ranked[index]`, which is there for an index of the list.
abbrev pub item_at : ℕ → List Evidence → Option Evidence
item_at i [] = none
item_at zero (e ∷ es) = some e
item_at (suc i) (e ∷ es) = item_at i es

abbrev pub put_found : Option Evidence → List Evidence → List Evidence
put_found none rest = rest
put_found (some e) rest = e ∷ rest

unfoldable pub pick : List Evidence → List ℕ → List Evidence
pick ranked [] = []
pick ranked (i ∷ is) = put_found (item_at i ranked) (pick ranked is)

-- `selected`
unfoldable pub select : List Evidence → List String → ℕ → List Evidence
select ranked sources top_k =
    pick ranked (take top_k (source_diverse_indexes (sources_of ranked) (required_sources sources)))

abbrev pub is_nil {ℓ} : {A : Type ℓ} → List A → Bool
is_nil [] = true
is_nil (_ ∷ _) = false

-- The returns of `retrieve_evidence`, given what each has counted.
abbrev pub result :
    RetrievalRequest
    → List Evidence
    → Status
    → Bool
    → (input filtered scored eligible query : ℕ) → RetrievalResult
result request evidence status low input filtered scored eligible query = record {
  evidence = evidence;
  status = status;
  strategy = "lexical-bm25-m2-03-v1";
  is_low_relevance = low;
  diagnostics = record {
    input_count = input;
    filtered_count = filtered;
    scored_count = scored;
    eligible_count = eligible;
    returned_count = length evidence;
    query_token_count = query;
    requested_top_k = request.top_k;
    effective_top_k = min request.top_k max_top_k;
  };
}

-- From the scores on.
unfoldable pub answer :
    RetrievalRequest → (input : ℕ) → List Evidence → List Token → List Entry → RetrievalResult
answer request input filtered query eligible =
    let n = length filtered in
    let selected =
      select (with_scores (rank eligible)) request.source_types (min request.top_k max_top_k) in
    if is_nil eligible
    then result request [] low_relevance true input n n 0 (length query)
    else result request selected ok_status false input n n (length eligible) (length query)

-- From the filter on.
unfoldable pub retrieve_filtered :
    Floats → Unicode → RetrievalRequest → (input : ℕ) → List Evidence → RetrievalResult
retrieve_filtered f u request input filtered =
    let n = length filtered in
    let query = tokenize_query u request.query in
    let scored =
      answer request input filtered query
        (eligible_from 0 filtered (score_candidates f u filtered query)) in
    if is_nil filtered
    then result request [] empty false input n 0 0 0
    else (if is_nil query then result request [] low_relevance true input n 0 0 0 else scored)

-- `retrieve_evidence`
unfoldable pub retrieve_evidence :
    Floats
    → Unicode
    → List Evidence
    → RetrievalRequest
    → Option (Dict String FinancialDocument)
    → Result FilterError RetrievalResult
retrieve_evidence f u evidence request documents =
    and_then (filter_evidence evidence request documents)
      (λ filtered. ok (retrieve_filtered f u request (length evidence) filtered))
