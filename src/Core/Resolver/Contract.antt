-- ===== src/Core/Resolver/Contract.antt =====
-- The results of `resolve` of app/core/resolver.py meet the contract of `ResolutionResult`.
use questock.Prelude.{
  ◌≡◌, refl, sym, ap, ◌∙◌, subst, Bool, true, false, not, ◌||◌, Option, none, some, List, [], ◌∷◌,
  String, str_eq, string_eq, codes_eq_type, if◌then◌else◌, if_false, arith, Bool-cases,
  Option-cases, inl, inr,
}
use questock.Exec.{Result, ok, and_then-ok}
use questock.Dict.{Dict, lookup, assign, Each}
use questock.Dict.Laws.{Each-lookup, Each-assign}
use questock.Core.Unicode.{Unicode}
use questock.Core.Plan.{SecurityIdentifier}
use questock.Core.Resolver.{
  has_record, has_term, Tables, each, no_tables, all_known, add_ambiguous, load_ambiguous_terms,
  load_unsupported_terms, no_records, add_records, load_records, load_fixture, SecurityResolver,
}
use questock.Core.Records.{
  SecurityRecord, AmbiguousTerm, Fixture, Key, key_in, normalize_lookup, no_code, no_ids,
  check_ambiguous, check_record,
}
use questock.Core.Resolver.Resolve.{
  none_left, MatchedBy, by_name, by_ticker, by_security_id, by_alias, is_none, is_unsupported_rule,
  ResolutionResult, ResolveError, contract, resolved_result, unsupported_result, not_found_result,
  resolved_as, to_security, validate, ambiguous, by_none, none_left, to_securities, ambiguous_as,
  if_found, resolve_key, resolve, foreign_ticker,
}

-- What an ambiguous term that loads has.
record IsUsable (records : Dict String SecurityRecord) (t : AmbiguousTerm) : Type 0 where
  known : all_known t.candidate_security_ids records ≡ true
  some_id : no_ids t.candidate_security_ids ≡ false
  says_so : str_eq t.message "" ≡ false

check_ambiguous-facts :
    (u : Unicode) (t t' : AmbiguousTerm)
    → check_ambiguous u t ≡ ok t'
    → (t ≡ t') × (no_ids t.candidate_security_ids ≡ false) × (str_eq t.message "" ≡ false)
unfolding check_ambiguous
check_ambiguous-facts u t t' h = (ground (arith, h), ground (arith, h), ground (arith, h))

add_ambiguous-Each :
    (u : Unicode) (records : Dict String SecurityRecord) (item : AmbiguousTerm)
    (terms terms' : Dict Key AmbiguousTerm)
    → Each (λ k t. IsUsable records t) terms
    → add_ambiguous u records item terms ≡ ok terms'
    → Each (λ k t. IsUsable records t) terms'
unfolding add_ambiguous
add_ambiguous-Each u records item terms terms' usable h =
    let (t, checked, rest) = and_then-ok (check_ambiguous u item) _ terms' h in
    let (same, some_id, says_so) = check_ambiguous-facts u item t checked in
    let k = normalize_lookup u t.term in
    elim (Bool-cases (has_term (lookup k terms))) [
      | inl twice ↦ absurd (ground (arith, twice, rest))
      | inr new ↦ elim (Bool-cases (all_known t.candidate_security_ids records)) [
        | inr unknown ↦ absurd (ground (arith, new, unknown, rest))
        | inl known ↦
            let made : ok (assign k t terms) ≡ ok terms' =
              sym (
                if_false (has_term (lookup k terms)) _ _ new
                ∙ if_false (not (all_known t.candidate_security_ids records)) _ _ (ap not known))
              ∙ rest in
            let q : assign k t terms ≡ terms' = cc in
            let good : IsUsable records t = record {
              known = known;
              some_id =
                  subst (λ (x : AmbiguousTerm). no_ids x.candidate_security_ids ≡ false) same
                    some_id;
              says_so = subst (λ (x : AmbiguousTerm). str_eq x.message "" ≡ false) same says_so;
            } in
            subst (Each (λ k t. IsUsable records t)) q (Each-assign _ k t terms good usable)
      ]
    ]

load_ambiguous_terms-Each :
    (u : Unicode) (records : Dict String SecurityRecord) (items : List AmbiguousTerm)
    (terms terms' : Dict Key AmbiguousTerm)
    → Each (λ k t. IsUsable records t) terms
    → load_ambiguous_terms u records items terms ≡ ok terms'
    → Each (λ k t. IsUsable records t) terms'
unfolding load_ambiguous_terms
load_ambiguous_terms-Each u records [] terms terms' usable h =
    subst (Each (λ k t. IsUsable records t)) (cc) usable
load_ambiguous_terms-Each u records (item ∷ items) terms terms' usable h =
    let (m, made, rest) = and_then-ok (add_ambiguous u records item terms) _ terms' h in
    load_ambiguous_terms-Each u records items m terms'
      (add_ambiguous-Each u records item terms m usable made) rest

load_fixture-Each :
    (u : Unicode) (fixture : Fixture) (s : SecurityResolver)
    → load_fixture u fixture ≡ ok s
    → Each (λ k t. IsUsable s.tables.records_by_id t) s.ambiguous_terms
unfolding load_fixture load_records
load_fixture-Each u fixture s h =
    let (rs, validated, a) = and_then-ok (each (check_record u) fixture.securities) _ s h in
    elim (Bool-cases (no_records rs)) [
      | inl nothing ↦ absurd (ground (arith, nothing, a))
      | inr some_there ↦
          let b = sym (if_false (no_records rs) _ _ some_there) ∙ a in
          let (t, filled, c) = and_then-ok (add_records u rs no_tables) _ s b in
          let (terms, made, d) =
            and_then-ok (load_ambiguous_terms u t.records_by_id fixture.ambiguous_terms []) _ s c in
          let (others, more, e) =
            and_then-ok (load_unsupported_terms u t.owners terms fixture.unsupported []) _ s d in
          let q : t ≡ s.tables = ground (arith, e) in
          let p : terms ≡ s.ambiguous_terms = ground (arith, e) in
          let usable =
            load_ambiguous_terms-Each u t.records_by_id fixture.ambiguous_terms [] terms tt made in
          subst (λ (x : Dict Key AmbiguousTerm). Each (λ k t. IsUsable s.tables.records_by_id t) x)
            p (subst (λ (x : Tables). Each (λ k t. IsUsable x.records_by_id t) terms) q usable)
    ]

-- A result that meets its contract.
abbrev pub IsProper : Result ResolveError ResolutionResult → Type 0
IsProper m = (res : ResolutionResult) × (m ≡ ok res) × (contract res.status res ≡ true)

to_securities-some :
    (records : Dict String SecurityRecord) (ids : List String)
    → all_known ids records ≡ true
    → (xs : List SecurityIdentifier) × (to_securities records ids ≡ ok xs)
      × (none_left xs ≡ no_ids ids)
unfolding to_securities
to_securities-some records [] h = ([], refl, refl)
to_securities-some records (id ∷ ids) h =
    let (xs, rest, same) = to_securities-some records ids (ground (arith, h)) in
    elim (Option-cases (lookup id records)) [
      | inl absent ↦
          let known : has_record (lookup id records) ≡ true = ground (arith, h) in
          let refused : has_record (lookup id records) ≡ false = rw absent refl in
          absurd (ground (arith, known, refused))
      | inr (r, there) ↦ (to_security r ∷ xs, rw rest (rw there refl), refl)
    ]

if_found-IsProper :
    {A : Type 0} (o : Option A) (f : A → Result ResolveError ResolutionResult)
    (rest : Result ResolveError ResolutionResult)
    → ((a : A) → o ≡ some a → IsProper (f a))
    → IsProper rest
    → IsProper (if_found o f rest)
if_found-IsProper none f rest h k = k
if_found-IsProper (some a) f rest h k = h a refl

resolved_as-IsProper :
    (r : SecurityRecord) (key : Key) (by : MatchedBy)
    → (is_none by || is_unsupported_rule by) ≡ false
    → IsProper (resolved_as r key by)
unfolding resolved_as
resolved_as-IsProper r key by h = (resolved_result r key by, ground (arith, h), ground (arith, h))

ambiguous_as-IsProper :
    (records : Dict String SecurityRecord) (t : AmbiguousTerm) (key : Key)
    → IsUsable records t
    → IsProper (ambiguous_as records t key)
unfolding ambiguous_as
ambiguous_as-IsProper records t key usable =
    let (xs, made, same) = to_securities-some records t.candidate_security_ids usable.known in
    let full : none_left xs ≡ false = same ∙ usable.some_id in
    rw made (
      record {
        status = ambiguous;
        security = none;
        candidates = xs;
        normalized_query = key;
        message = some t.message;
        matched_by = by_none;
      },
      ground (arith, full, usable.says_so),
      ground (arith, full, usable.says_so),
    )

other-IsProper :
    (b : Bool) (key : Key)
    → IsProper (validate (if b then unsupported_result key else not_found_result key))
other-IsProper true key = (unsupported_result key, refl, refl)
other-IsProper false key = (not_found_result key, refl, refl)

-- On a fixture that loads, resolve returns a result for every text, so no id of a candidate is
-- missing, and the result meets the contract of ResolutionResult for its status.
pub resolve-IsProper :
    (u : Unicode) (fixture : Fixture) (s : SecurityResolver) (query : String)
    → load_fixture u fixture ≡ ok s
    → IsProper (resolve u s query)
unfolding resolve resolve_key
resolve-IsProper u fixture s query made =
    let k = normalize_lookup u query in
    let t = s.tables in
    elim (Bool-cases (no_code k)) [
      | inl nothing ↦ rw nothing (not_found_result k, refl, refl)
      | inr some_there ↦ rw some_there (
          if_found-IsProper (lookup k t.security_ids) _ _
            (λ r h. resolved_as-IsProper r k by_security_id refl)
            (if_found-IsProper (lookup k t.tickers) _ _
              (λ r h. resolved_as-IsProper r k by_ticker refl)
              (if_found-IsProper (lookup k t.names) _ _
                (λ r h. resolved_as-IsProper r k by_name refl)
                (if_found-IsProper (lookup k t.aliases) _ _
                  (λ r h. resolved_as-IsProper r k by_alias refl)
                  (if_found-IsProper (lookup k s.ambiguous_terms) _ _
                    (λ term h. ambiguous_as-IsProper t.records_by_id term k (
                      Each-lookup _ k term s.ambiguous_terms (load_fixture-Each u fixture s made)
                        h))
                    (other-IsProper (key_in k s.unsupported_terms || foreign_ticker 0 k) k))))))
    ]
