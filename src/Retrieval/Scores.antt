-- ===== src/Retrieval/Scores.antt =====
-- `_score_candidates` of app/retrieval/retriever.py. The arithmetic of floats and `math.log` are the
-- interpreter's, and a parameter.
use questock.Prelude.{ℕ, ◌+◌, ◌-◌, List, [], ◌∷◌, ◌++◌, ◌==◌, if◌then◌else◌, length}
use questock.Core.Unicode.{Unicode}
use questock.Core.Evidence.{Evidence}
use questock.Retrieval.Tokens.{Token, token_eq, token_in, tokenize_text}

pub record Floats : Type 1 where
  pub Float : Type 0
  -- The number of that many hundredths, as a literal.
  pub hundredths : ℕ → Float
  -- The conversion of an `int`.
  pub of_nat : ℕ → Float
  pub add : Float → Float → Float
  pub sub : Float → Float → Float
  pub mul : Float → Float → Float
  pub div : Float → Float → Float
  pub log : Float → Float
  -- `round(score, 6)`, as a number of millionths; 0 for what is not above it.
  pub millionths : Float → ℕ

-- `Counter(tokens)[token]`
abbrev pub count : Token → List Token → ℕ
count t [] = 0
count t (u ∷ us) = (if token_eq t u then 1 else 0) + count t us

-- The keys of `Counter(tokens)`, in the order in which they first stand there.
abbrev pub distinct : List Token → List Token → List Token
distinct seen [] = []
distinct seen (t ∷ ts) =
    let old = distinct seen ts in
    let new = t ∷ distinct (t ∷ seen) ts in if token_in t seen then old else new

-- `document_frequency[token]`: each document counts once.
abbrev pub document_frequency : Token → List (List Token) → ℕ
document_frequency t [] = 0
document_frequency t (d ∷ ds) = (if token_in t d then 1 else 0) + document_frequency t ds

-- `sum(len(document) for document in documents)`
abbrev pub total_length : List (List Token) → ℕ
total_length [] = 0
total_length (d ∷ ds) = length d + total_length ds

module _ (f : Floats) where
  open f use {Float, hundredths, of_nat, add, sub, mul, div, log, millionths}

  -- `BM25_K1`, `BM25_B`, and the constants of the formula.
  abbrev k1 : Float
  k1 = hundredths 120

  abbrev b : Float
  b = hundredths 75

  abbrev one : Float
  one = of_nat 1

  abbrev half : Float
  half = hundredths 50

  -- `average_document_length`
  abbrev average : List (List Token) → Float
  average documents = div (of_nat (total_length documents)) (of_nat (length documents))

  -- `inverse_document_frequency`
  unfoldable pub inverse_document_frequency : ℕ → ℕ → Float
  inverse_document_frequency documents frequency =
      log (add one (div (add (of_nat (documents - frequency)) half) (add (of_nat frequency) half)))

  -- What the loop over the query adds for a token.
  unfoldable pub term : List (List Token) → List Token → ℕ → Token → ℕ → Float
  unfolding inverse_document_frequency
  term documents document token_frequency token query_frequency =
      let frequency = document_frequency token documents in
      let idf = inverse_document_frequency (length documents) frequency in
      let denominator =
        add (of_nat token_frequency)
          (mul k1 (add (sub one b) (div (mul b (of_nat (length document))) (average documents)))) in
      mul (div (mul idf (mul (of_nat token_frequency) (add k1 one))) denominator)
        (of_nat query_frequency)

  -- The loop over `query_frequency.items()`.
  unfoldable pub add_terms :
      List (List Token) → List Token → List Token → List Token → Float → Float
  add_terms documents document query [] score = score
  add_terms documents document query (token ∷ tokens) score =
      let frequency = count token document in
      let more = add score (term documents document frequency token (count token query)) in
      add_terms documents document query tokens (if frequency == 0 then score else more)

  abbrev pub document_score : List (List Token) → List Token → List Token → ℕ
  document_score documents query document =
      millionths (add_terms documents document query (distinct [] query) (hundredths 0))

  abbrev pub score_each : List (List Token) → List Token → List (List Token) → List ℕ
  score_each documents query [] = []
  score_each documents query (d ∷ ds) =
      document_score documents query d ∷ score_each documents query ds

  abbrev pub zeros : List (List Token) → List ℕ
  zeros [] = []
  zeros (d ∷ ds) = 0 ∷ zeros ds

  -- `_score_candidates` on the documents; the division is not reached without them.
  unfoldable pub score_documents : List (List Token) → List Token → List ℕ
  score_documents documents query =
      if total_length documents == 0 then zeros documents else score_each documents query documents

-- `_candidate_tokens`
unfoldable pub candidate_tokens : Unicode → Evidence → List Token
candidate_tokens u e =
    let title = tokenize_text u e.title in (title ++ title) ++ tokenize_text u e.snippet

abbrev pub all_tokens : Unicode → List Evidence → List (List Token)
all_tokens u [] = []
all_tokens u (e ∷ es) = candidate_tokens u e ∷ all_tokens u es

-- `_score_candidates`
unfoldable pub score_candidates : Floats → Unicode → List Evidence → List Token → List ℕ
score_candidates f u evidence query = score_documents f (all_tokens u evidence) query
