-- ===== src/Core/Resolver/Examples.antt =====
-- The resolver at a small fixture.
use questock.Prelude.{◌≡◌, refl, inl, inr, none, some, [], ◌∷◌, string_eq, codes_eq_type}
use questock.Prelude.Text.{codes, between, has_text, is_space, strip}
use questock.Exec.{ok}
use questock.Dict.{lookup, assign}
use questock.Core.Unicode.{Unicode}
use questock.Core.Resolver.{
  SecurityResolver, each, register_lookup, add_aliases, add_record, add_records, add_ambiguous,
  load_ambiguous_terms, add_unsupported, load_unsupported_terms, load_records, load_fixture,
}
use questock.Core.Records.{
  SecurityRecord, candidate, Fixture, one_space, normalize_lookup, check_record, check_ambiguous,
  check_unsupported,
}
use questock.Core.Resolver.Resolve.{
  ResolutionResult, resolved, to_security, resolved_as, to_securities, ambiguous_as, foreign_ticker,
  resolve_key, resolve, unsupported_result, not_found_result,
}
use questock.Core.Resolver.Precedence.{resolve-own}
use questock.Core.Resolver.Contract.{IsProper, resolve-IsProper}

program : Unit {0}
unfolding lookup assign has_text is_space strip one_space normalize_lookup check_record
    check_ambiguous check_unsupported each register_lookup add_aliases add_record add_records
    add_ambiguous load_ambiguous_terms add_unsupported load_unsupported_terms load_records
    load_fixture to_security resolved_as to_securities ambiguous_as foreign_ticker resolve_key
    resolve
program = tt

abbrev unicode : Unicode
unicode = record {
  nfkc = λ cs. cs;
  casefold = λ cs. cs;
  upper = λ cs. cs;
  is_decimal = λ c. between b'0' b'9' c;
}

abbrev samsung : SecurityRecord
samsung = record {
  security_id = "KRX:005930";
  market = "KRX";
  ticker = "005930";
  security_name = "samsung";
  security_type = "common_stock";
  corp_code = some "00126380";
  corp_name = "samsung";
  verification_status = candidate;
  verified_at = none;
  aliases = "sec" ∷ "samsung el" ∷ [];
}

abbrev fixture : Fixture
fixture = record {
  securities = samsung ∷ [];
  ambiguous_terms =
      record { term = "memory"; candidate_security_ids = "KRX:005930" ∷ []; message = "which?" }
      ∷ [];
  unsupported = record { term = "tesla"; reason = "foreign" } ∷ [];
}

abbrev tables_with : SecurityResolver
tables_with = record {
  tables = record {
    records_by_id = ("KRX:005930", samsung) ∷ [];
    security_ids = (codes "KRX:005930", samsung) ∷ [];
    tickers = (codes "005930", samsung) ∷ [];
    names = (codes "samsung", samsung) ∷ [];
    aliases = (codes "sec", samsung) ∷ (codes "samsung el", samsung) ∷ [];
    owners =
        (codes "KRX:005930", "KRX:005930")
        ∷ (codes "005930", "KRX:005930")
        ∷ (codes "samsung", "KRX:005930")
        ∷ (codes "sec", "KRX:005930")
        ∷ (codes "samsung el", "KRX:005930")
        ∷ [];
  };
  ambiguous_terms =
      (
        codes "memory",
        record { term = "memory"; candidate_security_ids = "KRX:005930" ∷ []; message = "which?" },
      )
      ∷ [];
  unsupported_terms = codes "tesla" ∷ [];
}

loads : load_fixture unicode fixture ≡ ok tables_with
unfolding program
loads = refl

-- Runs of spaces do not matter; a foreign ticker is known by its form.
foreign : resolve unicode tables_with "  brk.b " ≡ ok (unsupported_result (codes "brk.b"))
unfolding program
foreign = refl

unknown :
    resolve unicode tables_with "hyundai motor" ≡ ok (not_found_result (codes "hyundai motor"))
unfolding program
unknown = refl

resolve-own_example :
    (res : ResolutionResult) × (resolve unicode tables_with " samsung   el" ≡ ok res)
    × (res.status ≡ resolved)
    × (res.security ≡ some (to_security samsung))
resolve-own_example =
    resolve-own unicode fixture tables_with samsung "samsung el" " samsung   el" loads (inl refl)
      (inr (inr (inr (inr (inl refl))))) (unfold program in refl)

resolve-IsProper_example : IsProper (resolve unicode tables_with "memory")
resolve-IsProper_example = resolve-IsProper unicode fixture tables_with "memory" loads
