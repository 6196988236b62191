-- ===== src/Core/Resolver/Steps.antt =====
-- One step of `_load_fixture` of app/core/resolver.py, and all steps of a record.
use questock.Core.Resolver.Registering.{add_id-Step, add_ticker-Step, add_name-Step, aliases-Step}
use questock.Prelude.{
  ◌≡◌, refl, sym, ◌∙◌, subst, true, false, none, some, List, [], ◌∷◌, String, str_eq, eq_iff,
  string_eq, codes_eq_type, if_true, if_false, arith, Bool-cases, Option-cases, inl, inr, All,
  All-imp,
}
use questock.Exec.{ok, and_then-ok}
use questock.Dict.{lookup, assign}
use questock.Dict.Laws.{lookup-assign}
use questock.Core.Unicode.{Unicode}
use questock.Core.Resolver.{
  Index, Tables, has_record, add_id, add_ticker, add_name, add_record, add_records,
}
use questock.Core.Records.{SecurityRecord, normalize_lookup}
use questock.Core.Resolver.Loading.{Holds, Keeps, IsSound, Extends, Extends-trans, Extends-refl}

-- Every name of a record leads to it.
pub record Loaded (u : Unicode) (t : Tables) (r : SecurityRecord) : Type 0 where
  pub known : lookup r.security_id t.records_by_id ≡ some r
  pub id_there : lookup (normalize_lookup u r.security_id) t.security_ids ≡ some r
  pub ticker_there : lookup (normalize_lookup u r.ticker) t.tickers ≡ some r
  pub name_there : lookup (normalize_lookup u r.security_name) t.names ≡ some r
  pub aliases_there :
      All (λ (alias : String). lookup (normalize_lookup u alias) t.aliases ≡ some r) r.aliases

Loaded-Extends :
    (u : Unicode) (t t' : Tables) (r : SecurityRecord) → Extends t t' → Loaded u t r → Loaded u t' r
Loaded-Extends u t t' r more l = record {
  known = more.records r.security_id r l.known;
  id_there = more.ids (normalize_lookup u r.security_id) r l.id_there;
  ticker_there = more.tickers (normalize_lookup u r.ticker) r l.ticker_there;
  name_there = more.names (normalize_lookup u r.security_name) r l.name_there;
  aliases_there =
      All-imp _ _ (λ alias h. more.aliases (normalize_lookup u alias) r h) r.aliases
        l.aliases_there;
}

-- A new id changes no record that is there.
module _ (t : Tables) (r : SecurityRecord)
    (absent : lookup r.security_id t.records_by_id ≡ none) where
  assign-Keeps : Keeps t.records_by_id (assign r.security_id r t.records_by_id)
  assign-Keeps id s h = elim (Bool-cases (str_eq r.security_id id)) [
    | inr other ↦
        lookup-assign r.security_id id r t.records_by_id
        ∙ if_false (str_eq r.security_id id) _ _ other
        ∙ h
    | inl same ↦
        let q : r.security_id ≡ id = (eq_iff r.security_id id).0 same in
        absurd (ground (arith, subst (λ (x : String). lookup x t.records_by_id ≡ none) q absent, h))
  ]

  Holds-assign :
      (index : Index)
      → Holds t.owners t.records_by_id index
      → Holds t.owners (assign r.security_id r t.records_by_id) index
  Holds-assign index holds k s h =
      let (owned, there, some_code) = holds k s h in
      (owned, assign-Keeps s.security_id s there, some_code)

add_record-Loaded :
    (u : Unicode) (r : SecurityRecord) (t t' : Tables)
    → IsSound t
    → add_record u r t ≡ ok t'
    → IsSound t' × Extends t t' × Loaded u t' r
unfolding add_record
add_record-Loaded u r t t' sound h = elim (Option-cases (lookup r.security_id t.records_by_id)) [
  | inr (s, there) ↦
      let refused : has_record (lookup r.security_id t.records_by_id) ≡ true = rw there refl in
      absurd (ground (arith, refused, h))
  | inl absent ↦
      let fresh : has_record (lookup r.security_id t.records_by_id) ≡ false = rw absent refl in
      let base : Tables = record t { records_by_id = assign r.security_id r t.records_by_id } in
      let known : lookup r.security_id base.records_by_id ≡ some r =
        lookup-assign r.security_id r.security_id r t.records_by_id
        ∙ if_true (str_eq r.security_id r.security_id) _ _
            ((eq_iff r.security_id r.security_id).1 refl) in
      let sound0 : IsSound base = record {
        ids = Holds-assign t r absent t.security_ids sound.ids;
        tickers = Holds-assign t r absent t.tickers sound.tickers;
        names = Holds-assign t r absent t.names sound.names;
        aliases = Holds-assign t r absent t.aliases sound.aliases;
      } in
      let extends0 : Extends t base = record {
        ids = λ j v h. h;
        tickers = λ j v h. h;
        names = λ j v h. h;
        aliases = λ j v h. h;
        records = assign-Keeps t r absent;
      } in
      let whole =
        sym (if_false (has_record (lookup r.security_id t.records_by_id)) _ _ fresh) ∙ h in
      let (a, made_a, rest_a) = and_then-ok (add_id u base r) _ t' whole in
      let sa = add_id-Step u r base sound0 known a made_a in
      let known_a = sa.extends.records r.security_id r known in
      let (b, made_b, rest_b) = and_then-ok (add_ticker u a r) _ t' rest_a in
      let sb = add_ticker-Step u r a sa.sound known_a b made_b in
      let known_b = sb.extends.records r.security_id r known_a in
      let (c, made_c, rest_c) = and_then-ok (add_name u b r) _ t' rest_b in
      let sc = add_name-Step u r b sb.sound known_b c made_c in
      let known_c = sc.extends.records r.security_id r known_b in
      let (sound_d, extends_d, others) = aliases-Step u r r.aliases c t' sc.sound known_c rest_c in
      let extends_b = Extends-trans b c t' sc.extends extends_d in
      let extends_a = Extends-trans a b t' sb.extends extends_b in
      let extends_base = Extends-trans base a t' sa.extends extends_a in
      (
        sound_d,
        Extends-trans t base t' extends0 extends_base,
        record {
          known = extends_d.records r.security_id r known_c;
          id_there = extends_a.ids (normalize_lookup u r.security_id) r sa.there;
          ticker_there = extends_b.tickers (normalize_lookup u r.ticker) r sb.there;
          name_there = extends_d.names (normalize_lookup u r.security_name) r sc.there;
          aliases_there = others;
        },
      )
]

pub add_records-Loaded :
    (u : Unicode) (rs : List SecurityRecord) (t t' : Tables)
    → IsSound t
    → add_records u rs t ≡ ok t'
    → IsSound t' × Extends t t' × All (Loaded u t') rs
unfolding add_records
add_records-Loaded u [] t t' sound h =
    let q : t ≡ t' = cc in
    subst (λ (x : Tables). IsSound x × Extends t x × Unit {0}) q (sound, Extends-refl t, tt)
add_records-Loaded u (r ∷ rs) t t' sound h =
    let (m, made, last) = and_then-ok (add_record u r t) (add_records u rs) t' h in
    let (sound_m, extends_m, loaded) = add_record-Loaded u r t m sound made in
    let (sound', more, others) = add_records-Loaded u rs m t' sound_m last in
    (sound', Extends-trans t m t' extends_m more, (Loaded-Extends u m t' r more loaded, others))
