-- ===== src/ResponseCache/Examples.antt =====
-- Runs of the response cache, and the properties at concrete caches.
use mathlib.Core.Bool.{false≢true}
use questock.Prelude.{
  ap, ℕ, ◌≤◌, ◌≡◌, ◌≢◌, refl, true, none, some, List, [], ◌∷◌, ◌⊎◌, arith, String, length,
  if◌then◌else◌, ◌==◌, eq_iff,
}
use questock.Exec.{ok, raise}
use questock.Dict.{lookup, remove, remove_all, assign, items_where, Each}
use questock.Dict.Purge.{purge}
use questock.ResponseCache.Key.{CacheKey, key_eq, KeyParts, TextTools, cache_key, unavailable}
use questock.ResponseCache.{ResponseCache, CacheEntry, init, get, put, in_session}
use questock.ResponseCache.Valid.{IsValid}
use questock.ResponseCache.Invariant.{Call, call_get, call_put, call_size, run, init-run-IsValid}
use questock.ResponseCache.Reads.{Reads, get_fresh, get-put}
use questock.ResponseCache.Ages.{gets_all, gets_all-get}
use questock.ResponseCache.Eviction.{put_isolated, put_evicts_oldest}

-- Plain text: no normalisation, and a digest that tells short questions from long ones.
abbrev plain : TextTools
plain = record {
  nfkc = λ cs. cs;
  casefold = λ cs. cs;
  sha256_hex = λ cs. if length cs == 1 then "short" else "long";
}

abbrev ask : String → ℕ → KeyParts
ask session_id revision = record {
  session_id = session_id;
  snapshot_id = "svc-1";
  question = " a  ";
  revision = revision;
  model_fingerprint = "m:1";
  checkpoint_id = "legacy";
}

abbrev key : String → ℕ → CacheKey
key session_id revision = record {
  session_id = session_id;
  snapshot_id = "svc-1";
  question_digest = "short";
  revision = revision;
  model_fingerprint = "m:1";
  checkpoint_id = "legacy";
}

abbrev entry : ℕ → ℕ → CacheEntry ℕ ℕ
entry r t = record { response = r; observation = 0; created_at = t; last_access = t }

-- Two sessions, one entry each, at most two in all and one of a session.
abbrev cache : ResponseCache ℕ ℕ
cache = record {
  enabled = true;
  ttl_seconds = 90;
  max_entries = 2;
  max_entries_per_session = 1;
  entries = (key "s1" 0, entry 7 10) ∷ (key "s2" 0, entry 8 20) ∷ [];
  last_now = some 20;
}

program : Unit {0}
unfolding init get put cache_key lookup remove remove_all assign items_where purge
program = tt

keyed : cache_key plain (ask "s1" 1) ≡ ok (key "s1" 1)
unfolding program
keyed = refl

rejects_spaces : cache_key plain (ask " s1" 1) ≡ raise unavailable
unfolding program
rejects_spaces = refl

-- The second put of a session takes the place of its first.
put_replaces :
    (put plain (some 30) (ask "s1" 1) 9 0 cache).1.entries
    ≡ (key "s2" 0, entry 8 20) ∷ (key "s1" 1, entry 9 30) ∷ []
unfolding program
put_replaces = refl

cache-IsValid : IsValid cache
unfolding program
cache-IsValid = record {
  distinct = (refl, (refl, tt));
  ttl_pos = omega arith;
  entries_pos = omega arith;
  entries_max = omega arith;
  session_pos = omega arith;
  session_max = omega arith;
  bounded = omega arith;
  per_session = λ s. ground (arith, eq_iff "s1" s, eq_iff "s2" s, eq_iff "s1" "s2");
  times = ((omega arith, omega arith), ((omega arith, omega arith), tt));
}

abbrev calls : List (Call ℕ ℕ)
calls =
    call_put (some 1) (ask "s1" 0) 7 0
    ∷ call_get none (ask "s1" 0)
    ∷ call_size (some 0)
    ∷ call_get (some 5) (ask "s1" 0)
    ∷ []

abbrev fresh : ResponseCache ℕ ℕ
fresh = record cache { entries = []; last_now = none }

init-run-IsValid_example : IsValid (run plain calls fresh)
init-run-IsValid_example = init-run-IsValid plain true 90 2 1 calls (unfold init in refl)

get_fresh_example : Reads cache 30 (key "s2" 0) (get plain (some 30) (ask "s2" 0) cache).0
get_fresh_example =
    get_fresh plain (ask "s2" 0) (key "s2" 0) (unfold program in refl) (some 30) 30 cache
      cache-IsValid refl (refl, refl)

-- The entry of 20 is served up to 109, and not at 110, although it was read at 109.
at_the_boundary :
    ((get plain (some 109) (ask "s2" 0) cache).0
      ≡ ok (some (record { response = 8; observation = 0 })))
    × ((get plain (some 110) (ask "s2" 0) (get plain (some 109) (ask "s2" 0) cache).1).0 ≡ ok none)
unfolding program
at_the_boundary = (refl, refl)

gets_all-get_example :
    (get plain
      (some 110)
      (ask "s2" 0)
      (gets_all plain ((some 60, ask "s2" 0) ∷ (some 109, ask "s2" 0) ∷ []) cache)).0
    ≡ ok none
gets_all-get_example =
    gets_all-get plain ((some 60, ask "s2" 0) ∷ (some 109, ask "s2" 0) ∷ []) (some 110) 110
      (ask "s2" 0) (key "s2" 0) (entry 8 20) cache (unfold program in refl) cache-IsValid refl
      (unfold program in refl) (refl, (unfold program gets_all in refl)) (omega arith)

get-put_example :
    (get plain (some 90) (ask "s1" 1) (put plain (some 30) (ask "s1" 1) 9 0 cache).1).0
    ≡ ok (some (record { response = 9; observation = 0 }))
unfolding program
get-put_example =
    get-put plain (ask "s1" 1) (key "s1" 1) refl (some 30) (some 90) 30 90 9 0 cache cache-IsValid
      refl (refl, refl) (refl, refl) (omega arith)

s2≢s1 : ◌≢◌ {A = String} "s2" "s1"
s2≢s1 p = false≢true ((eq_iff "s2" "s1").1 p)

put_isolated_example :
    lookup (key "s2" 0) (put plain (some 30) (ask "s1" 1) 9 0 cache).1.entries ≡ some (entry 8 20)
unfolding program
put_isolated_example =
    put_isolated plain (some 30) (ask "s1" 1) (key "s1" 1) 30 9 0 cache cache-IsValid refl refl
      (refl, refl) (key "s2" 0) (entry 8 20) refl refl
      (λ p. s2≢s1 (ap (λ (k : CacheKey). k.session_id) p)) s2≢s1 (omega arith)

put_evicts_oldest_example :
    ((◌≡◌ {A = String} "s1" "s1")
      × Each
          (λ k x. in_session "s1" k x ≡ true → 10 ≤ x.last_access)
          (put plain (some 30) (ask "s1" 1) 9 0 cache).1.entries)
    ⊎ Each (λ _ x. 10 ≤ x.last_access) (put plain (some 30) (ask "s1" 1) 9 0 cache).1.entries
unfolding program
put_evicts_oldest_example =
    put_evicts_oldest plain (some 30) (ask "s1" 1) (key "s1" 1) 30 9 0 cache cache-IsValid refl refl
      (refl, refl) (key "s1" 0) (entry 7 10) refl refl
      (λ p. omega (arith, ap (λ (k : CacheKey). k.revision) p)) refl
