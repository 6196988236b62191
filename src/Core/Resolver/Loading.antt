-- ===== src/Core/Resolver/Loading.antt =====
-- The tables that `_load_fixture` of app/core/resolver.py fills.
use questock.Prelude.{
  ◌≡◌, refl, sym, ap, ◌∙◌, subst, false, Option, none, some, String, eq_iff, string_eq, codes_eq,
  codes_eq_type, codes_eq_iff, EqType, if◌then◌else◌, if_true, if_false, arith, Bool-cases, inl,
  inr,
}
use questock.Exec.{ok}
use questock.Dict.{Dict, lookup, assign}
use questock.Dict.Laws.{lookup-assign}
use questock.Core.Unicode.{Unicode}
use questock.Core.Resolver.{Index, Tables, other_record, other_owner, set_default, register_lookup}
use questock.Core.Records.{SecurityRecord, Key, normalize_lookup, no_code}

-- Every entry is owned by its record's id and is the record of that id, and no key is empty.
abbrev pub Holds : Dict Key String → Dict String SecurityRecord → Index → Type 0
Holds owners records index =
    (k : Key) (r : SecurityRecord)
    → lookup k index ≡ some r
    → (lookup k owners ≡ some r.security_id)
      × (lookup r.security_id records ≡ some r)
      × (no_code k ≡ false)

-- What is under a key stays there.
abbrev pub Keeps : {K V : Type 0} → ⦃e : EqType K⦄ → Dict K V → Dict K V → Type 0
Keeps {K} {V} d d' = (k : K) (v : V) → lookup k d ≡ some v → lookup k d' ≡ some v

pub some_inj {ℓ} : {A : Type ℓ} (a b : A) → some a ≡ some b → a ≡ b
some_inj a b h = cc

-- What a successful `_register_lookup` has done.
pub record Registered (k : Key) (r : SecurityRecord) (index : Index) (owners : Dict Key String)
    (index' : Index) (owners' : Dict Key String) : Type 0 where
  pub some_code : no_code k ≡ false
  pub placed : index' ≡ assign k r index
  pub same_record : other_record (lookup k index) r.security_id ≡ false
  pub owned : lookup k owners' ≡ some r.security_id
  pub owners_kept : Keeps owners owners'

set_default-kept :
    (found : Option String) (k : Key) (id : String) (owners : Dict Key String)
    → lookup k owners ≡ found
    → Keeps owners (set_default found k id owners)
set_default-kept none k id owners e j v h = elim (Bool-cases (codes_eq k j)) [
  | inl same ↦
      let q : k ≡ j = (codes_eq_iff k j).0 same in
      absurd (ground (arith, subst (λ (x : Key). lookup x owners ≡ none) q e, h))
  | inr other ↦ lookup-assign k j id owners ∙ if_false (codes_eq k j) _ _ other ∙ h
]
set_default-kept (some owner) k id owners e j v h = h

set_default-owned :
    (found : Option String) (k : Key) (id : String) (owners : Dict Key String)
    → lookup k owners ≡ found
    → other_owner found id ≡ false
    → lookup k (set_default found k id owners) ≡ some id
set_default-owned none k id owners e h =
    lookup-assign k k id owners ∙ if_true (codes_eq k k) _ _ ((codes_eq_iff k k).1 refl)
set_default-owned (some owner) k id owners e h =
    e ∙ ap some ((eq_iff owner id).0 (ground (arith, h)))

pub register_lookup-Registered :
    (u : Unicode) (index : Index) (owners : Dict Key String) (value : String) (r : SecurityRecord)
    (index' : Index) (owners' : Dict Key String)
    → register_lookup u index owners value r ≡ ok (index', owners')
    → Registered (normalize_lookup u value) r index owners index' owners'
unfolding register_lookup
register_lookup-Registered u index owners value r index' owners' h =
    let k = normalize_lookup u value in
    elim (Bool-cases (no_code k)) [
      | inl none_there ↦ absurd (ground (arith, none_there, h))
      | inr some_there ↦ elim (Bool-cases (other_record (lookup k index) r.security_id)) [
        | inl other ↦ absurd (ground (arith, some_there, other, h))
        | inr same ↦ elim (Bool-cases (other_owner (lookup k owners) r.security_id)) [
          | inl taken ↦ absurd (ground (arith, some_there, same, taken, h))
          | inr free ↦
              let made : ok (assign k r index, set_default (lookup k owners) k r.security_id owners)
                  ≡ ok (index', owners') =
                sym (
                  if_false (no_code k) _ _ some_there
                  ∙ if_false (other_record (lookup k index) r.security_id) _ _ same
                  ∙ if_false (other_owner (lookup k owners) r.security_id) _ _ free)
                ∙ h in
              let q : set_default (lookup k owners) k r.security_id owners ≡ owners' = cc in
              record {
                some_code = some_there;
                placed = cc;
                same_record = same;
                owned =
                    subst (λ (o : Dict Key String). lookup k o ≡ some r.security_id) q
                      (set_default-owned (lookup k owners) k r.security_id owners refl free);
                owners_kept =
                    subst (λ (o : Dict Key String). Keeps owners o) q
                      (set_default-kept (lookup k owners) k r.security_id owners refl);
              }
        ]
      ]
    ]

pub Holds-Keeps :
    (owners owners' : Dict Key String) (records : Dict String SecurityRecord) (index : Index)
    → Keeps owners owners'
    → Holds owners records index
    → Holds owners' records index
Holds-Keeps owners owners' records index kept holds k r h =
    let (owned, known, some_code) = holds k r h in (kept k r.security_id owned, known, some_code)

module _ (k : Key) (r : SecurityRecord) (index : Index) (owners : Dict Key String) (index' : Index)
    (owners' : Dict Key String) (done : Registered k r index owners index' owners')
    (records : Dict String SecurityRecord) (known : lookup r.security_id records ≡ some r)
    (holds : Holds owners records index) where
  entry : (j : Key) → lookup j index' ≡ (if codes_eq k j then some r else lookup j index)
  entry j = ap (λ (d : Index). lookup j d) done.placed ∙ lookup-assign k j r index

  pub Registered-there : lookup k index' ≡ some r
  Registered-there = entry k ∙ if_true (codes_eq k k) _ _ ((codes_eq_iff k k).1 refl)

  pub Registered-Holds : Holds owners' records index'
  Registered-Holds j s h = elim (Bool-cases (codes_eq k j)) [
    | inr other ↦
        Holds-Keeps owners owners' records index done.owners_kept holds j s
          (sym (entry j ∙ if_false (codes_eq k j) _ _ other) ∙ h)
    | inl same ↦
        let here : some r ≡ some s = sym (entry j ∙ if_true (codes_eq k j) _ _ same) ∙ h in
        let one : r ≡ s = some_inj r s here in
        let place : k ≡ j = (codes_eq_iff k j).0 same in
        subst
          (λ (x : SecurityRecord).
            (lookup j owners' ≡ some x.security_id)
            × (lookup x.security_id records ≡ some x)
            × (no_code j ≡ false))
          one
          (
            subst (λ (x : Key). lookup x owners' ≡ some r.security_id) place done.owned,
            known,
            subst (λ (x : Key). no_code x ≡ false) place done.some_code,
          )
  ]

  same_as : (s : SecurityRecord) → lookup k index ≡ some s → s ≡ r
  same_as s h =
      let (owned, there, some_code) = holds k s h in
      let same : s.security_id ≡ r.security_id = (eq_iff s.security_id r.security_id).0 (
        ground (
          arith,
          subst (λ (o : Option SecurityRecord). other_record o r.security_id ≡ false) h
              done.same_record,
        )) in
      some_inj s r (sym there ∙ ap (λ (id : String). lookup id records) same ∙ known)

  pub Registered-Keeps : Keeps index index'
  Registered-Keeps j s h = elim (Bool-cases (codes_eq k j)) [
    | inr other ↦ entry j ∙ if_false (codes_eq k j) _ _ other ∙ h
    | inl same ↦
        let place : j ≡ k = sym ((codes_eq_iff k j).0 same) in
        let one = same_as s (subst (λ (x : Key). lookup x index ≡ some s) place h) in
        entry j ∙ if_true (codes_eq k j) _ _ same ∙ ap some (sym one)
  ]

-- The tables are consistent.
pub record IsSound (t : Tables) : Type 0 where
  pub ids : Holds t.owners t.records_by_id t.security_ids
  pub tickers : Holds t.owners t.records_by_id t.tickers
  pub names : Holds t.owners t.records_by_id t.names
  pub aliases : Holds t.owners t.records_by_id t.aliases

-- Nothing is lost between two states of the tables.
pub record Extends (t t' : Tables) : Type 0 where
  pub ids : Keeps t.security_ids t'.security_ids
  pub tickers : Keeps t.tickers t'.tickers
  pub names : Keeps t.names t'.names
  pub aliases : Keeps t.aliases t'.aliases
  pub records : Keeps t.records_by_id t'.records_by_id

pub Extends-trans : (a b c : Tables) → Extends a b → Extends b c → Extends a c
Extends-trans a b c p q = record {
  ids = λ k v h. q.ids k v (p.ids k v h);
  tickers = λ k v h. q.tickers k v (p.tickers k v h);
  names = λ k v h. q.names k v (p.names k v h);
  aliases = λ k v h. q.aliases k v (p.aliases k v h);
  records = λ k v h. q.records k v (p.records k v h);
}

pub Extends-refl : (t : Tables) → Extends t t
Extends-refl t = record {
  ids = λ k v h. h;
  tickers = λ k v h. h;
  names = λ k v h. h;
  aliases = λ k v h. h;
  records = λ k v h. h;
}
