-- ===== src/Core/Resolver/Registering.antt =====
-- The steps of _load_fixture of app/core/resolver.py for one text.
use questock.Prelude.{◌≡◌, subst, some, List, [], ◌∷◌, String, string_eq, codes_eq_type, All}
use questock.Exec.{ok, and_then-ok}
use questock.Dict.{lookup}
use questock.Core.Unicode.{Unicode}
use questock.Core.Resolver.{
  Index, Tables, register_lookup, add_id, add_ticker, add_name, add_alias, add_aliases,
}
use questock.Core.Records.{SecurityRecord, Key, normalize_lookup}
use questock.Core.Resolver.Loading.{
  register_lookup-Registered, Holds-Keeps, Registered-there, Registered-Holds, Registered-Keeps,
  IsSound, Extends, Extends-trans, Extends-refl,
}

-- A registration keeps the tables consistent, loses nothing, and puts the record under the key.
pub record Step (k : Key) (r : SecurityRecord) (part : Tables → Index) (t t' : Tables)
    : Type 0 where
  pub sound : IsSound t'
  pub extends : Extends t t'
  pub there : lookup k (part t') ≡ some r

module _ (u : Unicode) (r : SecurityRecord) (t : Tables) (sound : IsSound t)
    (known : lookup r.security_id t.records_by_id ≡ some r) where
  pub add_id-Step :
      (t' : Tables)
      → add_id u t r ≡ ok t'
      → Step (normalize_lookup u r.security_id) r (λ t. t.security_ids) t t'
  add_id-Step t' h =
      let k = normalize_lookup u r.security_id in
      let (a, made, last) =
        and_then-ok (register_lookup u t.security_ids t.owners r.security_id r) _ t' h in
      let done =
        register_lookup-Registered u t.security_ids t.owners r.security_id r (a.0) (a.1) made in
      let q : record t { security_ids = a.0; owners = a.1 } ≡ t' = cc in
      subst (λ (x : Tables). Step k r (λ t. t.security_ids) t x) q
        (record {
          sound = record {
            ids =
                Registered-Holds k r t.security_ids t.owners (a.0) (a.1) done t.records_by_id known
                  sound.ids;
            tickers =
                Holds-Keeps t.owners (a.1) t.records_by_id t.tickers done.owners_kept sound.tickers;
            names = Holds-Keeps t.owners (a.1) t.records_by_id t.names done.owners_kept sound.names;
            aliases =
                Holds-Keeps t.owners (a.1) t.records_by_id t.aliases done.owners_kept sound.aliases;
          };
          extends = record {
            ids =
                Registered-Keeps k r t.security_ids t.owners (a.0) (a.1) done t.records_by_id known
                  sound.ids;
            tickers = λ j v h. h;
            names = λ j v h. h;
            aliases = λ j v h. h;
            records = λ j v h. h;
          };
          there =
              Registered-there k r t.security_ids t.owners (a.0) (a.1) done t.records_by_id known
                sound.ids;
        })

  pub add_ticker-Step :
      (t' : Tables)
      → add_ticker u t r ≡ ok t'
      → Step (normalize_lookup u r.ticker) r (λ t. t.tickers) t t'
  add_ticker-Step t' h =
      let k = normalize_lookup u r.ticker in
      let (a, made, last) = and_then-ok (register_lookup u t.tickers t.owners r.ticker r) _ t' h in
      let done = register_lookup-Registered u t.tickers t.owners r.ticker r (a.0) (a.1) made in
      let q : record t { tickers = a.0; owners = a.1 } ≡ t' = cc in
      subst (λ (x : Tables). Step k r (λ t. t.tickers) t x) q
        (record {
          sound = record {
            ids =
                Holds-Keeps t.owners (a.1) t.records_by_id t.security_ids done.owners_kept
                  sound.ids;
            tickers =
                Registered-Holds k r t.tickers t.owners (a.0) (a.1) done t.records_by_id known
                  sound.tickers;
            names = Holds-Keeps t.owners (a.1) t.records_by_id t.names done.owners_kept sound.names;
            aliases =
                Holds-Keeps t.owners (a.1) t.records_by_id t.aliases done.owners_kept sound.aliases;
          };
          extends = record {
            ids = λ j v h. h;
            tickers =
                Registered-Keeps k r t.tickers t.owners (a.0) (a.1) done t.records_by_id known
                  sound.tickers;
            names = λ j v h. h;
            aliases = λ j v h. h;
            records = λ j v h. h;
          };
          there =
              Registered-there k r t.tickers t.owners (a.0) (a.1) done t.records_by_id known
                sound.tickers;
        })

  pub add_name-Step :
      (t' : Tables)
      → add_name u t r ≡ ok t'
      → Step (normalize_lookup u r.security_name) r (λ t. t.names) t t'
  add_name-Step t' h =
      let k = normalize_lookup u r.security_name in
      let (a, made, last) =
        and_then-ok (register_lookup u t.names t.owners r.security_name r) _ t' h in
      let done = register_lookup-Registered u t.names t.owners r.security_name r (a.0) (a.1) made in
      let q : record t { names = a.0; owners = a.1 } ≡ t' = cc in
      subst (λ (x : Tables). Step k r (λ t. t.names) t x) q
        (record {
          sound = record {
            ids =
                Holds-Keeps t.owners (a.1) t.records_by_id t.security_ids done.owners_kept
                  sound.ids;
            tickers =
                Holds-Keeps t.owners (a.1) t.records_by_id t.tickers done.owners_kept sound.tickers;
            names =
                Registered-Holds k r t.names t.owners (a.0) (a.1) done t.records_by_id known
                  sound.names;
            aliases =
                Holds-Keeps t.owners (a.1) t.records_by_id t.aliases done.owners_kept sound.aliases;
          };
          extends = record {
            ids = λ j v h. h;
            tickers = λ j v h. h;
            names =
                Registered-Keeps k r t.names t.owners (a.0) (a.1) done t.records_by_id known
                  sound.names;
            aliases = λ j v h. h;
            records = λ j v h. h;
          };
          there =
              Registered-there k r t.names t.owners (a.0) (a.1) done t.records_by_id known
                sound.names;
        })

  add_alias-Step :
      (alias : String) (t' : Tables)
      → add_alias u r t alias ≡ ok t'
      → Step (normalize_lookup u alias) r (λ t. t.aliases) t t'
  add_alias-Step alias t' h =
      let k = normalize_lookup u alias in
      let (a, made, last) = and_then-ok (register_lookup u t.aliases t.owners alias r) _ t' h in
      let done = register_lookup-Registered u t.aliases t.owners alias r (a.0) (a.1) made in
      let q : record t { aliases = a.0; owners = a.1 } ≡ t' = cc in
      subst (λ (x : Tables). Step k r (λ t. t.aliases) t x) q
        (record {
          sound = record {
            ids =
                Holds-Keeps t.owners (a.1) t.records_by_id t.security_ids done.owners_kept
                  sound.ids;
            tickers =
                Holds-Keeps t.owners (a.1) t.records_by_id t.tickers done.owners_kept sound.tickers;
            names = Holds-Keeps t.owners (a.1) t.records_by_id t.names done.owners_kept sound.names;
            aliases =
                Registered-Holds k r t.aliases t.owners (a.0) (a.1) done t.records_by_id known
                  sound.aliases;
          };
          extends = record {
            ids = λ j v h. h;
            tickers = λ j v h. h;
            names = λ j v h. h;
            aliases =
                Registered-Keeps k r t.aliases t.owners (a.0) (a.1) done t.records_by_id known
                  sound.aliases;
            records = λ j v h. h;
          };
          there =
              Registered-there k r t.aliases t.owners (a.0) (a.1) done t.records_by_id known
                sound.aliases;
        })

pub aliases-Step :
    (u : Unicode) (r : SecurityRecord) (aliases : List String) (t t' : Tables)
    → IsSound t
    → lookup r.security_id t.records_by_id ≡ some r
    → add_aliases u r aliases t ≡ ok t'
    → IsSound t'
      × Extends t t'
      × All (λ (alias : String). lookup (normalize_lookup u alias) t'.aliases ≡ some r) aliases
unfolding add_aliases
aliases-Step u r [] t t' sound known h =
    let q : t ≡ t' = cc in
    subst (λ (x : Tables). IsSound x × Extends t x × Unit {0}) q (sound, Extends-refl t, tt)
aliases-Step u r (alias ∷ rest) t t' sound known h =
    let (m, made, last) = and_then-ok (add_alias u r t alias) (add_aliases u r rest) t' h in
    let one = add_alias-Step u r t sound known alias m made in
    let (sound', more, others) =
      aliases-Step u r rest m t' one.sound (one.extends.records r.security_id r known) last in
    (
      sound',
      Extends-trans t m t' one.extends more,
      (more.aliases (normalize_lookup u alias) r one.there, others),
    )
