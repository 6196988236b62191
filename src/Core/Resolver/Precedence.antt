-- ===== src/Core/Resolver/Precedence.antt =====
-- What `resolve` of app/core/resolver.py finds on a fixture that loads.
use questock.Prelude.{
  ◌≡◌, refl, sym, ap, ◌∙◌, subst, false, ◌||◌, none, some, List, [], ◌∷◌, String, string_eq,
  codes_eq_type, ◌⊎◌, if_false, arith, Bool-cases, Option-cases, inl, inr, All,
}
use questock.Prelude.Order.{IsIn, All-IsIn}
use questock.Exec.{Result, ok, and_then-ok}
use questock.Dict.{lookup}
use questock.Core.Unicode.{Unicode}
use questock.Core.Resolver.{
  Index, Tables, each, no_tables, load_ambiguous_terms, load_unsupported_terms, no_records,
  add_records, load_records, load_fixture, SecurityResolver,
}
use questock.Core.Records.{SecurityRecord, Fixture, Key, normalize_lookup, no_code, check_record}
use questock.Core.Resolver.Resolve.{
  MatchedBy, ResolveError, MatchedBy, by_name, by_ticker, by_security_id, by_alias, is_none,
  is_unsupported_rule, ResolutionResult, ResolveError, resolved, to_security, resolved_result,
  resolved_as, if_found, resolve_key, resolve,
}
use questock.Core.Resolver.Loading.{Holds, some_inj, IsSound}
use questock.Core.Resolver.Steps.{Loaded, add_records-Loaded}

-- The texts that stand for a security.
abbrev pub texts_of : SecurityRecord → List String
texts_of r = r.security_id ∷ r.ticker ∷ r.security_name ∷ r.aliases

check_record-same : (u : Unicode) (r r' : SecurityRecord) → check_record u r ≡ ok r' → r ≡ r'
unfolding check_record
check_record-same u r r' h = ground (arith, h)

each-same :
    (u : Unicode) (rs rs' : List SecurityRecord) → each (check_record u) rs ≡ ok rs' → rs ≡ rs'
unfolding each
each-same u [] rs' h = cc
each-same u (r ∷ rs) rs' h =
    let (y, one, rest) = and_then-ok (check_record u r) _ rs' h in
    let (ys, others, last) = and_then-ok (each (check_record u) rs) _ rs' rest in
    let whole : y ∷ ys ≡ rs' = cc in
    ap (λ (x : SecurityRecord). x ∷ rs) (check_record-same u r y one)
    ∙ ap (λ (l : List SecurityRecord). y ∷ l) (each-same u rs ys others)
    ∙ whole

no_tables-IsSound : IsSound no_tables
unfolding lookup
no_tables-IsSound = record {
  ids = λ k r h. absurd (ground (arith, h));
  tickers = λ k r h. absurd (ground (arith, h));
  names = λ k r h. absurd (ground (arith, h));
  aliases = λ k r h. absurd (ground (arith, h));
}

load_fixture-tables :
    (u : Unicode) (fixture : Fixture) (s : SecurityResolver)
    → load_fixture u fixture ≡ ok s
    → IsSound s.tables × All (Loaded u s.tables) fixture.securities
unfolding load_fixture load_records
load_fixture-tables u fixture s h =
    let (rs, validated, a) = and_then-ok (each (check_record u) fixture.securities) _ s h in
    let same = each-same u fixture.securities rs validated in
    elim (Bool-cases (no_records rs)) [
      | inl nothing ↦ absurd (ground (arith, nothing, a))
      | inr some_there ↦
          let b = sym (if_false (no_records rs) _ _ some_there) ∙ a in
          let (t, filled, c) = and_then-ok (add_records u rs no_tables) _ s b in
          let (terms, made, d) =
            and_then-ok (load_ambiguous_terms u t.records_by_id fixture.ambiguous_terms []) _ s c in
          let (others, more, e) =
            and_then-ok (load_unsupported_terms u t.owners terms fixture.unsupported []) _ s d in
          let q : t ≡ s.tables = ground (arith, e) in
          let (sound, extends, loaded) =
            add_records-Loaded u rs no_tables t no_tables-IsSound filled in
          subst (λ (x : Tables). IsSound x × All (Loaded u x) fixture.securities) q
            (sound, subst (λ (l : List SecurityRecord). All (Loaded u t) l) (sym same) loaded)
    ]

-- Where a record is found under a key, it is found first wherever else something is.
module _ (s : SecurityResolver) (sound : IsSound s.tables) (r : SecurityRecord) (k : Key)
    (owned : lookup k s.tables.owners ≡ some r.security_id)
    (known : lookup r.security_id s.tables.records_by_id ≡ some r) where
  abbrev IsResolved : Result ResolveError ResolutionResult → Type 0
  IsResolved m =
      (res : ResolutionResult) × (m ≡ ok res)
      × (res.status ≡ resolved)
      × (res.security ≡ some (to_security r))

  one_owner :
      (index : Index)
      → Holds s.tables.owners s.tables.records_by_id index
      → (x : SecurityRecord) → lookup k index ≡ some x
      → x ≡ r
  one_owner index holds x h =
      let (owner, there, some_code) = holds k x h in
      let same : x.security_id ≡ r.security_id =
        some_inj x.security_id r.security_id (sym owner ∙ owned) in
      some_inj x r (sym there ∙ ap (λ (id : String). lookup id s.tables.records_by_id) same ∙ known)

  -- A step of the chain: what is found is the record, and otherwise the chain goes on.
  if_found-IsResolved :
      (index : Index) (by : MatchedBy) (rest : Result ResolveError ResolutionResult)
      → Holds s.tables.owners s.tables.records_by_id index
      → (is_none by || is_unsupported_rule by) ≡ false
      → (lookup k index ≡ none → IsResolved rest)
      → IsResolved (if_found (lookup k index) (λ x. resolved_as x k by) rest)
  unfolding resolved_as
  if_found-IsResolved index by rest holds named other = elim (Option-cases (lookup k index)) [
    | inl absent ↦ rw absent (other absent)
    | inr (x, there) ↦
        let one = one_owner index holds x there in
        rw there (
          subst (λ (y : SecurityRecord). IsResolved (resolved_as y k by)) (sym one)
            (resolved_result r k by, ground (arith, named), refl, refl))
  ]

  resolve_key-IsResolved :
      (lookup k s.tables.security_ids ≡ some r)
        ⊎ (lookup k s.tables.tickers ≡ some r)
        ⊎ (lookup k s.tables.names ≡ some r)
        ⊎ (lookup k s.tables.aliases ≡ some r)
      → IsResolved (resolve_key s k)
  unfolding resolve_key
  resolve_key-IsResolved somewhere =
      if_found-IsResolved s.tables.security_ids by_security_id _ sound.ids refl (λ no_id.
        if_found-IsResolved s.tables.tickers by_ticker _ sound.tickers refl (λ no_ticker.
          if_found-IsResolved s.tables.names by_name _ sound.names refl (λ no_name.
            if_found-IsResolved s.tables.aliases by_alias _ sound.aliases refl
              (λ no_alias. absurd (nowhere no_id no_ticker no_name no_alias somewhere)))))
    where
      nowhere :
          lookup k s.tables.security_ids ≡ none
          → lookup k s.tables.tickers ≡ none
          → lookup k s.tables.names ≡ none
          → lookup k s.tables.aliases ≡ none
          → (lookup k s.tables.security_ids ≡ some r)
            ⊎ (lookup k s.tables.tickers ≡ some r)
            ⊎ (lookup k s.tables.names ≡ some r)
            ⊎ (lookup k s.tables.aliases ≡ some r)
          → ⊥
      nowhere a b c d (inl h) = ground (arith, h)
      nowhere a b c d (inr (inl h)) = ground (arith, h)
      nowhere a b c d (inr (inr (inl h))) = ground (arith, h)
      nowhere a b c d (inr (inr (inr h))) = ground (arith, h)

-- Where a text of a loaded record stands.
record IsPlaced (s : SecurityResolver) (r : SecurityRecord) (k : Key) : Type 0 where
  owned : lookup k s.tables.owners ≡ some r.security_id
  some_code : no_code k ≡ false
  somewhere :
      (lookup k s.tables.security_ids ≡ some r)
      ⊎ (lookup k s.tables.tickers ≡ some r)
      ⊎ (lookup k s.tables.names ≡ some r)
      ⊎ (lookup k s.tables.aliases ≡ some r)

text-IsPlaced :
    (u : Unicode) (s : SecurityResolver) (r : SecurityRecord) (value : String)
    → IsSound s.tables
    → Loaded u s.tables r
    → IsIn value (texts_of r)
    → IsPlaced s r (normalize_lookup u value)
text-IsPlaced u s r value sound l (inl e) =
    let there =
      subst (λ (v : String). lookup (normalize_lookup u v) s.tables.security_ids ≡ some r) (sym e)
        l.id_there in
    let (owned, known, some_code) = sound.ids (normalize_lookup u value) r there in
    record { owned = owned; some_code = some_code; somewhere = inl there }
text-IsPlaced u s r value sound l (inr (inl e)) =
    let there =
      subst (λ (v : String). lookup (normalize_lookup u v) s.tables.tickers ≡ some r) (sym e)
        l.ticker_there in
    let (owned, known, some_code) = sound.tickers (normalize_lookup u value) r there in
    record { owned = owned; some_code = some_code; somewhere = inr (inl there) }
text-IsPlaced u s r value sound l (inr (inr (inl e))) =
    let there =
      subst (λ (v : String). lookup (normalize_lookup u v) s.tables.names ≡ some r) (sym e)
        l.name_there in
    let (owned, known, some_code) = sound.names (normalize_lookup u value) r there in
    record { owned = owned; some_code = some_code; somewhere = inr (inr (inl there)) }
text-IsPlaced u s r value sound l (inr (inr (inr h))) =
    let there = All-IsIn _ r.aliases value l.aliases_there h in
    let (owned, known, some_code) = sound.aliases (normalize_lookup u value) r there in
    record { owned = owned; some_code = some_code; somewhere = inr (inr (inr there)) }

resolve-IsResolved :
    (u : Unicode) (s : SecurityResolver) (sound : IsSound s.tables) (r : SecurityRecord)
    (loaded : Loaded u s.tables r) (query : String)
    → IsPlaced s r (normalize_lookup u query)
    → (res : ResolutionResult) × (resolve u s query ≡ ok res)
      × (res.status ≡ resolved)
      × (res.security ≡ some (to_security r))
unfolding resolve
resolve-IsResolved u s sound r loaded query placed =
    let k = normalize_lookup u query in
    let (res, found, status, security) =
      resolve_key-IsResolved s sound r k placed.owned loaded.known placed.somewhere in
    (res, if_false (no_code k) _ _ placed.some_code ∙ found, status, security)

-- On a fixture that loads, each text of a supported security, its id, ticker, name and every alias,
-- in any spelling with the same normal form, resolves to that security, whichever of the indexes
-- has it.
pub resolve-own :
    (u : Unicode) (fixture : Fixture) (s : SecurityResolver) (r : SecurityRecord)
    (value query : String)
    → load_fixture u fixture ≡ ok s
    → IsIn r fixture.securities
    → IsIn value (texts_of r)
    → normalize_lookup u query ≡ normalize_lookup u value
    → (res : ResolutionResult) × (resolve u s query ≡ ok res)
      × (res.status ≡ resolved)
      × (res.security ≡ some (to_security r))
resolve-own u fixture s r value query made listed named same =
    let (sound, all_loaded) = load_fixture-tables u fixture s made in
    let loaded = All-IsIn _ fixture.securities r all_loaded listed in
    resolve-IsResolved u s sound r loaded query
      (subst (IsPlaced s r) (sym same) (text-IsPlaced u s r value sound loaded named))
