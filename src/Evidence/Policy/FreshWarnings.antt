-- ===== src/Evidence/Policy/FreshWarnings.antt =====
-- The warnings that app/evidence/freshness.py gives stand in the order that app/evidence/policy.py
-- asks for, each code with a source that it goes with.
use questock.Prelude.{
  ℕ, ◌+◌, ◌≡◌, refl, sym, ap, ◌∙◌, subst, Bool, true, false, ◌&&◌, inl, inr, Option, some, none,
  List, [], ◌∷◌, ◌++◌, String, str_eq, string_eq, eq_iff, ltb, if_true, if_false, arith, Bool-cases,
  All, All-append,
}
use questock.Core.Models.{elem, has_duplicates}
use questock.Evidence.Freshness.{FreshnessWarning}
use questock.Evidence.Freshness.Candidates.{Candidate, dated_sources, date_warnings, warnings_of}
use questock.Evidence.Freshness.Windows.{
  warn_if, is_stale, valid_ages, stale_warnings, coverage_warnings, warning_order, is_warned,
  codes_of, ordered_warnings,
}
use questock.Evidence.Policy.Results.{
  warning_sources, code_rank, source_rank, ranks_after, ranked_code, warnings_ok,
}

abbrev with_sources : Option (ℕ × List String) → String → Bool
with_sources none source = false
with_sources (some (p, sources)) source = elem source sources

-- The code goes with the source.
abbrev goes_with : String → String → Bool
goes_with name source = with_sources (code_rank 0 name warning_sources) source

abbrev pub Matched : List FreshnessWarning → Type 0
Matched = All (λ (w : FreshnessWarning). goes_with w.warning_code w.source_type ≡ true)

is_warned-Matched :
    (name source : String) (keys : List FreshnessWarning)
    → Matched keys
    → is_warned name source keys ≡ true
    → goes_with name source ≡ true
is_warned-Matched name source [] h k = absurd (ground (arith, k))
is_warned-Matched name source (w ∷ ws) h k =
    elim (Bool-cases (str_eq w.warning_code name && str_eq w.source_type source)) [
      | inr other ↦ is_warned-Matched name source ws h.1 (ground (arith, other, k))
      | inl same ↦
          subst (λ (x : String). goes_with x source ≡ true)
            ((eq_iff w.warning_code name).0 (ground (arith, same)))
            (subst (λ (x : String). goes_with w.warning_code x ≡ true)
              ((eq_iff w.source_type source).0 (ground (arith, same))) h.0)
    ]

warn_if-Matched :
    (b : Bool) (name source : String)
    → goes_with name source ≡ true
    → Matched (warn_if b name source)
warn_if-Matched true name source h = (h, tt)
warn_if-Matched false name source h = tt

date_warnings-Matched :
    (b : Bool) (time : Option ℕ) (basis : ℕ) (source : String)
    → (b ≡ true → elem source dated_sources ≡ true)
    → Matched (date_warnings b time basis source)
date_warnings-Matched false time basis source h = tt
date_warnings-Matched true none basis source h = (h refl, tt)
date_warnings-Matched true (some time) basis source h = elim (Bool-cases (ltb basis time)) [
  | inl future ↦ rw future (h refl, tt)
  | inr past ↦ rw past tt
]

warnings_of-Matched : (basis : ℕ) (cs : List Candidate) → Matched (warnings_of basis cs)
warnings_of-Matched basis [] = tt
warnings_of-Matched basis (c ∷ cs) =
    let source = c.evidence.source_type in
    All-append _ (date_warnings (elem source dated_sources) c.effective_at basis source)
      (warnings_of basis cs)
      (date_warnings-Matched (elem source dated_sources) c.effective_at basis source (λ h. h))
      (warnings_of-Matched basis cs)

stale_warnings-Matched :
    (by_user : Bool) (cs : List Candidate) → Matched (stale_warnings by_user cs)
unfolding stale_warnings
stale_warnings-Matched true cs = tt
stale_warnings-Matched false cs =
    All-append _ (warn_if (is_stale 14 (valid_ages "news" cs)) "stale_news" "news") _
      (warn_if-Matched _ "stale_news" "news" refl)
      (warn_if-Matched _ "stale_research_report" "research_report" refl)

-- The warnings of `evaluate_freshness` before they are put in order.
pub keys-Matched :
    (basis : ℕ) (cs : List Candidate) (extended by_user unresolved : Bool) (sources : List String)
    (retained : List Candidate)
    → Matched (
        warnings_of basis cs
        ++ warn_if extended "disclosure_window_extended" "disclosure"
        ++ stale_warnings by_user cs
        ++ coverage_warnings by_user sources retained
        ++ warn_if unresolved "unresolved_disclosure_correction" "disclosure")
unfolding coverage_warnings
keys-Matched basis cs extended by_user unresolved sources retained =
    let a =
      All-append _ (warnings_of basis cs) _ (warnings_of-Matched basis cs)
        (warn_if-Matched extended "disclosure_window_extended" "disclosure" refl) in
    let b = All-append _ _ (stale_warnings by_user cs) a (stale_warnings-Matched by_user cs) in
    let c =
      All-append _ _ (coverage_warnings by_user sources retained) b
        (warn_if-Matched _ "insufficient_disclosure_coverage" "disclosure" refl) in
    All-append _ _ _ c
      (warn_if-Matched unresolved "unresolved_disclosure_correction" "disclosure" refl)

-- The codes have their ranks from `p` on.
abbrev Ranked : ℕ → List String → Type 0
Ranked p [] = Unit
Ranked p (name ∷ names) =
    ((sources : List String) × (code_rank 0 name warning_sources ≡ some (p, sources)))
    × Ranked (p + 1) names

order-Ranked : Ranked 0 warning_order
order-Ranked =
    ((_, refl), ((_, refl), ((_, refl), ((_, refl), ((_, refl), ((_, refl), ((_, refl), tt)))))))

abbrev before : Option (ℕ × ℕ) → ℕ → Bool
before none k = true
before (some (s, p)) k = ltb s k

ranks_after-before :
    (previous : Option (ℕ × ℕ)) (k p : ℕ)
    → before previous k ≡ true
    → ranks_after previous k p ≡ true
ranks_after-before none k p h = refl
ranks_after-before (some (s, q)) k p h = ground (arith, h)

-- The warnings of one source at place `k`, followed by others.
module _ (sources : List String) (source : String) (k : ℕ)
    (placed : source_rank 0 source sources ≡ some k) (keys rest : List FreshnessWarning)
    (matched : Matched keys)
    (follow : (previous : Option (ℕ × ℕ))
      → before previous (k + 1) ≡ true
      → warnings_ok sources previous rest ≡ true) where
  ranked-next :
      (previous : Option (ℕ × ℕ)) (p : ℕ) (name : String) (among : List String)
      → code_rank 0 name warning_sources ≡ some (p, among)
      → ranks_after previous k p ≡ true
      → goes_with name source ≡ true
      → ranked_code
          (source_rank 0 source sources)
          (code_rank 0 name warning_sources)
          source
          previous
        ≡ some (k, p)
  ranked-next previous p name among found after fits =
      let inside : elem source among ≡ true =
        sym (ap (λ (o : Option (ℕ × List String)). with_sources o source) found) ∙ fits in
      let both : elem source among && ranks_after previous k p ≡ true =
        ground (arith, inside, after) in
      rw placed (rw found (if_true (elem source among && ranks_after previous k p) _ _ both))

  before-ranks_after :
      (previous : Option (ℕ × ℕ)) (p : ℕ)
      → ranks_after previous k p ≡ true
      → before previous (k + 1) ≡ true
  before-ranks_after none p h = refl
  before-ranks_after (some (s, q)) p h = ground (arith, h)

  ranks_after-suc :
      (previous : Option (ℕ × ℕ)) (p : ℕ)
      → ranks_after previous k p ≡ true
      → ranks_after previous k (p + 1) ≡ true
  ranks_after-suc none p h = refl
  ranks_after-suc (some (s, q)) p h = ground (arith, h)

  codes_of-ok :
      (p : ℕ) (names : List String) (previous : Option (ℕ × ℕ))
      → Ranked p names
      → ranks_after previous k p ≡ true
      → warnings_ok sources previous (codes_of source keys names ++ rest) ≡ true
  unfolding warnings_ok
  codes_of-ok p [] previous ranked after = follow previous (before-ranks_after previous p after)
  codes_of-ok p (name ∷ names) previous ((among, found), ranked) after =
      elim (Bool-cases (is_warned name source keys)) [
        | inr absent ↦
            rw absent (codes_of-ok (p + 1) names previous ranked (ranks_after-suc previous p after))
        | inl warned ↦
            let fits = is_warned-Matched name source keys matched warned in
            let next = ranked-next previous p name among found after fits in
            rw warned (rw next (codes_of-ok (p + 1) names (some (k, p)) ranked (ground arith)))
      ]

-- The sources have the places that `place` gives, from `k` on.
abbrev Placed : (String → Option ℕ) → ℕ → List String → Type 0
Placed place k [] = Unit
Placed place k (s ∷ ss) = (place s ≡ some k) × Placed place (k + 1) ss

Placed-skip :
    (at : ℕ) (x : String) (whole : List String) (k : ℕ) (ss : List String)
    → elem x ss ≡ false
    → Placed (λ (s : String). source_rank (at + 1) s whole) k ss
    → Placed (λ (s : String). source_rank at s (x ∷ whole)) k ss
Placed-skip at x whole k [] h placed = tt
Placed-skip at x whole k (s ∷ ss) h placed =
    let other : str_eq x s ≡ false = ground (arith, h, eq_iff x s, eq_iff s x) in
    (
      if_false (str_eq x s) _ _ other ∙ placed.0,
      Placed-skip at x whole (k + 1) ss (ground (arith, h)) placed.1,
    )

source_rank-Placed :
    (at : ℕ) (ss : List String)
    → has_duplicates ss ≡ false
    → Placed (λ (s : String). source_rank at s ss) at ss
source_rank-Placed at [] once = tt
source_rank-Placed at (s ∷ ss) once = (
  if_true (str_eq s s) _ _ ((eq_iff s s).1 refl),
  Placed-skip at s ss (at + 1) ss (ground (arith, once))
      (source_rank-Placed (at + 1) ss (ground (arith, once))),
)

ordered_warnings-Placed :
    (sources : List String) (keys : List FreshnessWarning) (k : ℕ) (ss : List String)
    (previous : Option (ℕ × ℕ))
    → Matched keys
    → Placed (λ (s : String). source_rank 0 s sources) k ss
    → before previous k ≡ true
    → warnings_ok sources previous (ordered_warnings ss keys) ≡ true
unfolding warnings_ok ordered_warnings
ordered_warnings-Placed sources keys k [] previous matched placed below = refl
ordered_warnings-Placed sources keys k (s ∷ ss) previous matched placed below =
    codes_of-ok sources s k placed.0 keys (ordered_warnings ss keys) matched
      (λ next under. ordered_warnings-Placed sources keys (k + 1) ss next matched placed.1 under) 0
      warning_order previous order-Ranked (ranks_after-before previous k 0 below)

pub ordered_warnings-ok :
    (sources : List String) (keys : List FreshnessWarning)
    → has_duplicates sources ≡ false
    → Matched keys
    → warnings_ok sources none (ordered_warnings sources keys) ≡ true
ordered_warnings-ok sources keys once matched =
    ordered_warnings-Placed sources keys 0 sources none matched (source_rank-Placed 0 sources once)
      refl
