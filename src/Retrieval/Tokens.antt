-- ===== src/Retrieval/Tokens.antt =====
-- The tokens of app/retrieval/retriever.py. A token is the list of its code points.
use questock.Prelude.{
  ℕ, ◌-◌, Bool, true, false, not, ◌&&◌, ◌||◌, List, [], ◌∷◌, ◌++◌, String, leb, ◌==◌, if◌then◌else◌,
  length, take,
}
use questock.Prelude.Text.{codes, between, all_codes, starts_with}
use questock.Core.Unicode.{Unicode}
use mathlib.Core.List.{reverse}

abbrev pub Token : Type 0
Token = List ℕ

abbrev pub token_eq : Token → Token → Bool
token_eq [] [] = true
token_eq [] (y ∷ ys) = false
token_eq (x ∷ xs) [] = false
token_eq (x ∷ xs) (y ∷ ys) = x == y && token_eq xs ys

-- `token in tokens`
abbrev pub token_in : Token → List Token → Bool
token_in t [] = false
token_in t (u ∷ us) = token_eq t u || token_in t us

abbrev pub texts : List String → List Token
texts [] = []
texts (s ∷ ss) = codes s ∷ texts ss

-- `_GENERIC_QUERY_TOKENS`
abbrev pub generic_query_tokens : List Token
generic_query_tokens =
    texts ("최근" ∷ "설명" ∷ "알려" ∷ "알려줘" ∷ "주세요" ∷ "자료" ∷ "정보" ∷ "관련" ∷ "어때" ∷ "대해" ∷ [])

-- `_KOREAN_REQUEST_ENDINGS`
abbrev pub korean_request_endings : List Token
korean_request_endings = texts ("해주세요" ∷ "주세요" ∷ "해줘" ∷ "해요" ∷ "줘" ∷ "해" ∷ [])

-- `_KOREAN_PARTICLES`
abbrev pub korean_particles : List Token
korean_particles = texts (
    "으로부터" ∷ "에서부터" ∷ "에게서" ∷ "으로" ∷ "에서" ∷ "에게" ∷ "께서" ∷ "부터" ∷ "까지" ∷ "은" ∷ "는" ∷ "이" ∷ "가" ∷ "을"
    ∷ "를" ∷ "와" ∷ "과" ∷ "의" ∷ "에" ∷ "로" ∷ "도" ∷ "만" ∷ [])

-- The two classes of `_TOKEN_PATTERN`.
abbrev pub is_hangul : ℕ → Bool
is_hangul c = between 44032 55203 c

abbrev pub is_word : ℕ → Bool
is_word c = between b'a' b'z' c || between b'0' b'9' c

pub data Kind : Type 0 where
  hangul word other : Kind

abbrev pub kind : ℕ → Kind
kind c = if is_hangul c then hangul else if is_word c then word else other

-- The run goes on: the same class again, and no gap.
abbrev pub goes_on : Kind → Kind → Bool
goes_on hangul hangul = true
goes_on word word = true
goes_on _ _ = false

abbrev start : Kind → ℕ → Token
start other c = []
start _ c = c ∷ []

abbrev close : Token → List Token → List Token
close [] found = found
close (c ∷ cs) found = (c ∷ cs) ∷ found

-- `_TOKEN_PATTERN.findall`, with the run that is being read.
unfoldable pub find_all : Kind → Token → List ℕ → List Token
unfolding close start
find_all k run [] = close run []
find_all k run (c ∷ cs) =
    let longer = find_all k (run ++ c ∷ []) cs in
    let next = close run (find_all (kind c) (start (kind c) c) cs) in
    if goes_on k (kind c) then longer else next

abbrev pub ends_with : Token → Token → Bool
ends_with suffix value = starts_with (reverse suffix) (reverse value)

-- One of the loops of `_normalize_korean_token`: the first suffix that leaves two characters.
unfoldable pub strip_suffix : List Token → Token → Token
strip_suffix [] value = value
strip_suffix (suffix ∷ rest) value =
    let stem = take (length value - length suffix) value in
    let later = strip_suffix rest value in
    if ends_with suffix value && leb 2 (length stem) then stem else later

abbrev pub is_empty : Token → Bool
is_empty [] = true
is_empty (_ ∷ _) = false

-- `_normalize_korean_token`
unfoldable pub normalize_korean_token : Token → Token
unfolding strip_suffix
normalize_korean_token token =
    if is_empty token || not (all_codes is_hangul token)
    then token
    else strip_suffix korean_particles (strip_suffix korean_request_endings token)

abbrev digit_then_word : List ℕ → Bool
digit_then_word [] = false
digit_then_word (c ∷ cs) = between b'0' b'9' c && all_codes is_word cs

-- `_HBM_VARIANT.fullmatch`
unfoldable pub is_hbm_variant : Token → Bool
unfolding digit_then_word
is_hbm_variant (h ∷ b ∷ m ∷ cs) = h == b'h' && b == b'b' && m == b'm' && digit_then_word cs
is_hbm_variant _ = false

-- The body of the loop of `_tokenize_text`.
abbrev pub canonical_tokens : Token → List Token
canonical_tokens token = if is_hbm_variant token then token ∷ codes "hbm" ∷ [] else token ∷ []

abbrev pub canonical_all : List Token → List Token
canonical_all [] = []
canonical_all (t ∷ ts) = canonical_tokens (normalize_korean_token t) ++ canonical_all ts

-- `_tokenize_text`
unfoldable pub tokenize_text : Unicode → String → List Token
tokenize_text u value = canonical_all (find_all other [] (u.casefold (u.nfkc (codes value))))

abbrev pub without_generic : List Token → List Token
without_generic [] = []
without_generic (t ∷ ts) =
    if token_in t generic_query_tokens then without_generic ts else t ∷ without_generic ts

-- `_tokenize_query`
unfoldable pub tokenize_query : Unicode → String → List Token
tokenize_query u query = without_generic (tokenize_text u query)
