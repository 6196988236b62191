-- ===== src/Core/Resolver/Resolve.antt =====
-- `SecurityResolver.resolve` of app/core/resolver.py.
use questock.Prelude.{
  ℕ, ◌+◌, Bool, true, false, not, ◌&&◌, ◌||◌, Option, none, some, List, [], ◌∷◌, String, str_eq,
  string_eq, codes_eq_type, leb, ltb, ◌==◌, if◌then◌else◌,
}
use questock.Prelude.Text.{between}
use questock.Exec.{Result, ok, raise, and_then}
use questock.Dict.{Dict, lookup}
use questock.Core.Unicode.{Unicode}
use questock.Core.Plan.{SecurityIdentifier}
use questock.Core.Resolver.{SecurityResolver}
use questock.Core.Records.{
  Verification, verified, SecurityRecord, AmbiguousTerm, Key, key_in, no_code, normalize_lookup,
}

pub data ResolutionStatus : Type 0 where
  resolved ambiguous not_found unsupported : ResolutionStatus

pub data MatchedBy : Type 0 where
  by_name by_ticker by_security_id by_alias unsupported_rule by_none : MatchedBy

-- `ResolutionResult`
pub record ResolutionResult : Type 0 where
  pub status : ResolutionStatus
  pub security : Option SecurityIdentifier
  pub candidates : List SecurityIdentifier
  pub normalized_query : Key
  pub message : Option String
  pub matched_by : MatchedBy

-- A `KeyError`, or the `ValueError` of the validator.
pub data ResolveError : Type 0 where
  key_error bad_result : ResolveError

abbrev pub is_there {ℓ} : {A : Type ℓ} → Option A → Bool
is_there none = false
is_there (some _) = true

abbrev pub none_left : List SecurityIdentifier → Bool
none_left [] = true
none_left (_ ∷ _) = false

abbrev pub is_none : MatchedBy → Bool
is_none by_none = true
is_none _ = false

abbrev pub is_unsupported_rule : MatchedBy → Bool
is_unsupported_rule unsupported_rule = true
is_unsupported_rule _ = false

-- `bool(message)`
abbrev pub says : Option String → Bool
says none = false
says (some message) = not (str_eq message "")

abbrev pub contract : ResolutionStatus → ResolutionResult → Bool
contract resolved r =
    is_there r.security
    && none_left r.candidates
    && not (is_none r.matched_by || is_unsupported_rule r.matched_by)
contract ambiguous r =
    not (is_there r.security)
    && not (none_left r.candidates)
    && says r.message
    && is_none r.matched_by
contract not_found r = not (is_there r.security) && none_left r.candidates && is_none r.matched_by
contract unsupported r =
    not (is_there r.security) && none_left r.candidates && is_unsupported_rule r.matched_by

-- `validate_status_contract`
abbrev pub validate : ResolutionResult → Result ResolveError ResolutionResult
validate r = if contract r.status r then ok r else raise bad_result

abbrev pub verified_code : Verification → Option String → Option String
verified_code verified code = code
verified_code _ code = none

-- `_to_security`
unfoldable pub to_security : SecurityRecord → SecurityIdentifier
to_security r = record {
  market = r.market;
  ticker = r.ticker;
  security_name = r.security_name;
  security_type = r.security_type;
  corp_code = verified_code r.verification_status r.corp_code;
  corp_name = r.corp_name;
}

abbrev pub resolved_result : SecurityRecord → Key → MatchedBy → ResolutionResult
resolved_result r key by = record {
  status = resolved;
  security = some (to_security r);
  candidates = [];
  normalized_query = key;
  message = none;
  matched_by = by;
}

-- `_resolved`
unfoldable pub resolved_as : SecurityRecord → Key → MatchedBy → Result ResolveError ResolutionResult
resolved_as r key by = validate (resolved_result r key by)

abbrev pub not_found_result : Key → ResolutionResult
not_found_result key = record {
  status = not_found;
  security = none;
  candidates = [];
  normalized_query = key;
  message = some "입력한 종목을 찾을 수 없습니다.";
  matched_by = by_none;
}

abbrev pub unsupported_result : Key → ResolutionResult
unsupported_result key = record {
  status = unsupported;
  security = none;
  candidates = [];
  normalized_query = key;
  message = some "지원 범위 밖의 종목 입력입니다.";
  matched_by = unsupported_rule;
}

abbrev pub add_security :
    Option SecurityRecord → List SecurityIdentifier → Result ResolveError (List SecurityIdentifier)
add_security none rest = raise key_error
add_security (some r) rest = ok (to_security r ∷ rest)

-- The comprehension over `candidate_security_ids`.
unfoldable pub to_securities :
    Dict String SecurityRecord → List String → Result ResolveError (List SecurityIdentifier)
to_securities records [] = ok []
to_securities records (id ∷ ids) =
    and_then (to_securities records ids) (add_security (lookup id records))

unfoldable pub ambiguous_as :
    Dict String SecurityRecord → AmbiguousTerm → Key → Result ResolveError ResolutionResult
ambiguous_as records t key =
    and_then (to_securities records t.candidate_security_ids) (λ candidates. validate (record {
      status = ambiguous;
      security = none;
      candidates = candidates;
      normalized_query = key;
      message = some t.message;
      matched_by = by_none;
    }))

abbrev is_lower : ℕ → Bool
is_lower c = between b'a' b'z' c

abbrev one_lower : List ℕ → Bool
one_lower (c ∷ []) = is_lower c
one_lower _ = false

-- `_FOREIGN_TICKER_RE.fullmatch`, after `n` letters.
unfoldable pub foreign_ticker : ℕ → List ℕ → Bool
foreign_ticker n [] = leb 1 n
foreign_ticker n (c ∷ cs) =
    let more = ltb n 5 && foreign_ticker (n + 1) cs in
    if is_lower c then more else leb 1 n && (c == b'.' || c == b'-') && one_lower cs

-- `if key in index: return ...`
abbrev pub if_found :
    {A B : Type 0}
    → Option A
    → (A → Result ResolveError B)
    → Result ResolveError B
    → Result ResolveError B
if_found none f rest = rest
if_found (some a) f rest = f a

-- From the ambiguous terms on.
abbrev pub resolve_other : SecurityResolver → Key → Result ResolveError ResolutionResult
resolve_other s key =
    if_found (lookup key s.ambiguous_terms) (λ t. ambiguous_as s.tables.records_by_id t key)
      (validate (
        if key_in key s.unsupported_terms || foreign_ticker 0 key
        then unsupported_result key
        else not_found_result key))

-- `resolve`, from the normalised text on.
unfoldable pub resolve_key : SecurityResolver → Key → Result ResolveError ResolutionResult
resolve_key s key =
    if_found (lookup key s.tables.security_ids) (λ r. resolved_as r key by_security_id)
      (if_found (lookup key s.tables.tickers) (λ r. resolved_as r key by_ticker)
        (if_found (lookup key s.tables.names) (λ r. resolved_as r key by_name)
          (if_found (lookup key s.tables.aliases) (λ r. resolved_as r key by_alias)
            (resolve_other s key))))

-- `resolve`
unfoldable pub resolve : Unicode → SecurityResolver → String → Result ResolveError ResolutionResult
resolve u s query =
    let key = normalize_lookup u query in
    if no_code key then validate (not_found_result key) else resolve_key s key
