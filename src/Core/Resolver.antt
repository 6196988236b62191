-- ===== src/Core/Resolver.antt =====
-- app/core/resolver.py: the resolution of a security from a text. A normalised text is the list of
-- its code points.
pub mod Registering
pub mod Resolve
pub mod Loading
pub mod Steps
pub mod Precedence
pub mod Contract
mod Examples
use questock.Core.Records.{
  SecurityRecord, AmbiguousTerm, UnsupportedTerm, Fixture, FixtureError, Key, normalize_lookup,
  no_code, key_in, check_record, check_ambiguous, check_unsupported, no_security,
  duplicate_security_id, empty_lookup, collision, canonical_collision, duplicate_ambiguous,
  unknown_candidate, duplicate_unsupported, unsupported_supported, unsupported_ambiguous,
}
use questock.Prelude.{
  ℕ, ◌+◌, Bool, true, false, not, ◌&&◌, ◌||◌, Option, none, some, List, [], ◌∷◌, ◌++◌, String,
  str_eq, string_eq, codes_eq, codes_eq_type, leb, ltb, ◌==◌, if◌then◌else◌, length,
}
use questock.Prelude.Text.{codes, is_space, strip, has_text, between, all_codes}
use questock.Exec.{Result, ok, raise, and_then}
use questock.Dict.{Dict, lookup, assign}
use questock.Core.Unicode.{Unicode}
use questock.Core.Plan.{SecurityIdentifier}

-- `[f(item) for item in items]` for an `f` that may raise.
unfoldable pub each :
    {A B : Type 0} → (A → Result FixtureError B) → List A → Result FixtureError (List B)
each f [] = ok []
each f (x ∷ xs) = and_then (f x) (λ y. and_then (each f xs) (λ ys. ok (y ∷ ys)))

abbrev pub Index : Type 0
Index = Dict Key SecurityRecord

-- The dictionaries that `_load_fixture` fills.
pub record Tables : Type 0 where
  pub records_by_id : Dict String SecurityRecord
  pub security_ids : Index
  pub tickers : Index
  pub names : Index
  pub aliases : Index
  pub owners : Dict Key String

abbrev pub other_record : Option SecurityRecord → String → Bool
other_record none id = false
other_record (some r) id = not (str_eq r.security_id id)

abbrev pub other_owner : Option String → String → Bool
other_owner none id = false
other_owner (some owner) id = not (str_eq owner id)

-- `global_lookup_owner.setdefault(key, id)`, given what is there.
abbrev pub set_default : Option String → Key → String → Dict Key String → Dict Key String
set_default none k id owners = assign k id owners
set_default (some owner) k id owners = owners

-- `_register_lookup`
unfoldable pub register_lookup :
    Unicode
    → Index
    → Dict Key String
    → String
    → SecurityRecord
    → Result FixtureError (Index × Dict Key String)
register_lookup u index owners value r =
    let k = normalize_lookup u value in
    if no_code k
    then raise empty_lookup
    else if other_record (lookup k index) r.security_id
    then raise collision
    else if other_owner (lookup k owners) r.security_id
    then raise canonical_collision
    else ok (assign k r index, set_default (lookup k owners) k r.security_id owners)

-- The calls of `_register_lookup` for a record.
abbrev pub add_id : Unicode → Tables → SecurityRecord → Result FixtureError Tables
add_id u t r =
    and_then (register_lookup u t.security_ids t.owners r.security_id r)
      (λ (index, owners). ok (record t { security_ids = index; owners = owners }))

abbrev pub add_ticker : Unicode → Tables → SecurityRecord → Result FixtureError Tables
add_ticker u t r =
    and_then (register_lookup u t.tickers t.owners r.ticker r)
      (λ (index, owners). ok (record t { tickers = index; owners = owners }))

abbrev pub add_name : Unicode → Tables → SecurityRecord → Result FixtureError Tables
add_name u t r =
    and_then (register_lookup u t.names t.owners r.security_name r)
      (λ (index, owners). ok (record t { names = index; owners = owners }))

abbrev pub add_alias : Unicode → SecurityRecord → Tables → String → Result FixtureError Tables
add_alias u r t alias =
    and_then (register_lookup u t.aliases t.owners alias r)
      (λ (index, owners). ok (record t { aliases = index; owners = owners }))

unfoldable pub add_aliases :
    Unicode → SecurityRecord → List String → Tables → Result FixtureError Tables
add_aliases u r [] t = ok t
add_aliases u r (alias ∷ rest) t = and_then (add_alias u r t alias) (add_aliases u r rest)

abbrev pub has_record : Option SecurityRecord → Bool
has_record none = false
has_record (some r) = true

-- The body of the loop of `_load_fixture`.
unfoldable pub add_record : Unicode → SecurityRecord → Tables → Result FixtureError Tables
add_record u r t =
    if has_record (lookup r.security_id t.records_by_id)
    then raise duplicate_security_id
    else and_then (add_id u (record t { records_by_id = assign r.security_id r t.records_by_id }) r)
        (λ t.
          and_then (add_ticker u t r) (λ t. and_then (add_name u t r) (add_aliases u r r.aliases)))

unfoldable pub add_records : Unicode → List SecurityRecord → Tables → Result FixtureError Tables
add_records u [] t = ok t
add_records u (r ∷ rs) t = and_then (add_record u r t) (add_records u rs)

abbrev pub no_tables : Tables
no_tables = record {
  records_by_id = [];
  security_ids = [];
  tickers = [];
  names = [];
  aliases = [];
  owners = [];
}

abbrev pub all_known : List String → Dict String SecurityRecord → Bool
all_known [] records = true
all_known (id ∷ ids) records = has_record (lookup id records) && all_known ids records

abbrev pub has_term : Option AmbiguousTerm → Bool
has_term none = false
has_term (some t) = true

abbrev pub has_owner : Option String → Bool
has_owner none = false
has_owner (some owner) = true

-- The body of the loop of `_load_ambiguous_terms`, and the loop.
unfoldable pub add_ambiguous :
    Unicode
    → Dict String SecurityRecord
    → AmbiguousTerm
    → Dict Key AmbiguousTerm
    → Result FixtureError (Dict Key AmbiguousTerm)
add_ambiguous u records item terms = and_then (check_ambiguous u item) (λ t.
    let k = normalize_lookup u t.term in
    if has_term (lookup k terms)
    then raise duplicate_ambiguous
    else if not (all_known t.candidate_security_ids records)
    then raise unknown_candidate
    else ok (assign k t terms))

unfoldable pub load_ambiguous_terms :
    Unicode
    → Dict String SecurityRecord
    → List AmbiguousTerm
    → Dict Key AmbiguousTerm
    → Result FixtureError (Dict Key AmbiguousTerm)
load_ambiguous_terms u records [] terms = ok terms
load_ambiguous_terms u records (item ∷ items) terms =
    and_then (add_ambiguous u records item terms) (load_ambiguous_terms u records items)

-- `_load_unsupported_terms`
unfoldable pub add_unsupported :
    Unicode
    → Dict Key String
    → Dict Key AmbiguousTerm
    → UnsupportedTerm
    → List Key
    → Result FixtureError (List Key)
add_unsupported u owners ambiguous item terms = and_then (check_unsupported u item) (λ t.
    let k = normalize_lookup u t.term in
    if key_in k terms
    then raise duplicate_unsupported
    else if has_owner (lookup k owners)
    then raise unsupported_supported
    else if has_term (lookup k ambiguous)
    then raise unsupported_ambiguous
    else ok (k ∷ terms))

unfoldable pub load_unsupported_terms :
    Unicode
    → Dict Key String
    → Dict Key AmbiguousTerm
    → List UnsupportedTerm
    → List Key
    → Result FixtureError (List Key)
load_unsupported_terms u owners ambiguous [] terms = ok terms
load_unsupported_terms u owners ambiguous (item ∷ items) terms =
    and_then (add_unsupported u owners ambiguous item terms)
      (load_unsupported_terms u owners ambiguous items)

-- `SecurityResolver`
pub record SecurityResolver : Type 0 where
  pub tables : Tables
  pub ambiguous_terms : Dict Key AmbiguousTerm
  pub unsupported_terms : List Key

abbrev pub no_records : List SecurityRecord → Bool
no_records [] = true
no_records (_ ∷ _) = false

-- `_load_fixture`, from the validated records on.
unfoldable pub load_records :
    Unicode → Fixture → List SecurityRecord → Result FixtureError SecurityResolver
load_records u fixture records =
    if no_records records
    then raise no_security
    else and_then (add_records u records no_tables) (λ t.
      and_then (load_ambiguous_terms u t.records_by_id fixture.ambiguous_terms []) (λ terms.
        and_then (load_unsupported_terms u t.owners terms fixture.unsupported []) (λ unsupported.
          ok (record { tables = t; ambiguous_terms = terms; unsupported_terms = unsupported }))))

-- `_load_fixture`
unfoldable pub load_fixture : Unicode → Fixture → Result FixtureError SecurityResolver
load_fixture u fixture =
    and_then (each (check_record u) fixture.securities) (load_records u fixture)
