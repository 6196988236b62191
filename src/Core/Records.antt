-- ===== src/Core/Records.antt =====
-- The records of a fixture of app/core/resolver.py and their checks.
use questock.Prelude.{
  ℕ, Bool, true, false, not, ◌&&◌, ◌||◌, Option, none, some, List, [], ◌∷◌, ◌++◌, String, str_eq,
  string_eq, codes_eq, codes_eq_type, ◌==◌, if◌then◌else◌, length,
}
use questock.Prelude.Text.{codes, is_space, strip, has_text, all_codes}
use questock.Exec.{Result, ok, raise}
use questock.Core.Unicode.{Unicode}

pub data Verification : Type 0 where
  verified candidate blocked : Verification

-- `_SecurityRecord`
pub record SecurityRecord : Type 0 where
  pub security_id : String
  pub market : String
  pub ticker : String
  pub security_name : String
  pub security_type : String
  pub corp_code : Option String
  pub corp_name : String
  pub verification_status : Verification
  pub verified_at : Option String
  pub aliases : List String

-- `_AmbiguousTerm`
pub record AmbiguousTerm : Type 0 where
  pub term : String
  pub candidate_security_ids : List String
  pub message : String

-- `_UnsupportedTerm`
pub record UnsupportedTerm : Type 0 where
  pub term : String
  pub reason : String

pub record Fixture : Type 0 where
  pub securities : List SecurityRecord
  pub ambiguous_terms : List AmbiguousTerm
  pub unsupported : List UnsupportedTerm

-- What a `FixtureValidationError` says.
pub data FixtureError : Type 0 where
  bad_ticker bad_security_id no_corp_code empty_alias duplicate_alias : FixtureError
  empty_term no_candidate no_message no_reason no_security : FixtureError
  duplicate_security_id empty_lookup collision canonical_collision : FixtureError
  duplicate_ambiguous unknown_candidate duplicate_unsupported : FixtureError
  unsupported_supported unsupported_ambiguous : FixtureError

abbrev pub Key : Type 0
Key = List ℕ

-- `_WHITESPACE_RE.sub(" ", value)`, within a run of spaces or not.
unfoldable pub one_space : Bool → List ℕ → List ℕ
one_space in_run [] = []
one_space in_run (c ∷ cs) =
    let run = one_space true cs in
    let other = c ∷ one_space false cs in
    if is_space c then (if in_run then run else 32 ∷ run) else other

-- `_normalize_lookup`
unfoldable pub normalize_lookup : Unicode → String → Key
normalize_lookup u value = u.casefold (strip (one_space false (u.nfkc (codes value))))

abbrev pub no_code : Key → Bool
no_code [] = true
no_code (_ ∷ _) = false

abbrev pub key_in : Key → List Key → Bool
key_in k [] = false
key_in k (j ∷ js) = codes_eq j k || key_in k js

abbrev pub keys_of : Unicode → List String → List Key
keys_of u [] = []
keys_of u (value ∷ values) = normalize_lookup u value ∷ keys_of u values

abbrev pub some_empty : List Key → Bool
some_empty [] = false
some_empty (k ∷ ks) = no_code k || some_empty ks

abbrev pub key_twice : List Key → Bool
key_twice [] = false
key_twice (k ∷ ks) = key_in k ks || key_twice ks

-- `verification_status == "verified" and not (corp_code and corp_code.strip())`
abbrev pub lacks_corp_code : Verification → Option String → Bool
lacks_corp_code verified none = true
lacks_corp_code verified (some code) = not (has_text (codes code))
lacks_corp_code _ code = false

-- `_SecurityRecord.model_validate`
unfoldable pub check_record : Unicode → SecurityRecord → Result FixtureError SecurityRecord
check_record u r =
    if not (all_codes u.is_decimal (codes r.ticker) && length (codes r.ticker) == 6)
    then raise bad_ticker
    else if not (codes_eq (codes r.security_id) (u.upper (codes r.market) ++ 58 ∷ codes r.ticker))
    then raise bad_security_id
    else if lacks_corp_code r.verification_status r.corp_code
    then raise no_corp_code
    else if some_empty (keys_of u r.aliases)
    then raise empty_alias
    else if key_twice (keys_of u r.aliases)
    then raise duplicate_alias
    else ok r

abbrev pub no_ids : List String → Bool
no_ids [] = true
no_ids (_ ∷ _) = false

-- `_AmbiguousTerm.validate_term`
unfoldable pub check_ambiguous : Unicode → AmbiguousTerm → Result FixtureError AmbiguousTerm
check_ambiguous u t =
    if no_code (normalize_lookup u t.term)
    then raise empty_term
    else if no_ids t.candidate_security_ids
    then raise no_candidate
    else if str_eq t.message ""
    then raise no_message
    else ok t

-- `_UnsupportedTerm.validate_term`
unfoldable pub check_unsupported : Unicode → UnsupportedTerm → Result FixtureError UnsupportedTerm
check_unsupported u t =
    if no_code (normalize_lookup u t.term)
    then raise empty_term
    else if str_eq t.reason ""
    then raise no_reason
    else ok t
