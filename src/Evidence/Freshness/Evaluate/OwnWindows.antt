-- ===== src/Evidence/Freshness/Evaluate/OwnWindows.antt =====
-- The windows that _build_windows of app/evidence/freshness.py makes without a range of the user.
use questock.Evidence.Freshness.Evaluate.Linked.{DatedAt}
use questock.Prelude.{
  ℕ, ◌+◌, ◌-◌, ◌≤◌, ◌≡◌, refl, sym, subst, Bool, true, false, ◌&&◌, Option, none, some, List, [],
  ◌∷◌, String, str_eq, string_eq, eq_iff, ◌==◌, if◌then◌else◌, if_true, if_false, arith, Bool-cases,
  inl, inr,
}
use questock.Prelude.Order.{IsIn}
use questock.Dict.{Dict}
use questock.Core.Models.{elem, DateRange}
use questock.Core.Evidence.{Evidence}
use questock.Evidence.Freshness.{FreshnessWindow}
use questock.Evidence.Freshness.Candidates.{dated_sources}
use questock.Evidence.Freshness.Windows.{
  meaningful_range, windows_for, own_windows, own_window, max_age, age_within,
}
use questock.Retrieval.Filters.{FinancialDocument, RetrievalRequest, local_day}

-- How many days an item may be old.
abbrev pub day_limit : String → ℕ
day_limit source =
    if str_eq source "news" then 30 else if str_eq source "disclosure" then 365 else 180

abbrev pub InWindow : FreshnessWindow → ℕ → Type 0
InWindow w day =
    (start : ℕ) × (end : ℕ) × (w.start ≡ some start)
    × (w.end ≡ some end)
    × (start ≤ day)
    × (day ≤ end)

-- What a retained item is.
pub record IsFresh (request : RetrievalRequest) (documents : Dict String FinancialDocument)
    (basis : ℕ) (evidence : List Evidence) (windows : List FreshnessWindow) (e : Evidence)
    : Type 0 where
  pub from_input : IsIn e evidence
  pub requested : elem e.source_type request.source_types ≡ true
  pub dated :
      elem e.source_type dated_sources ≡ true
      → (t : ℕ) × DatedAt documents e (some t)
        × (t ≤ basis)
        × (meaningful_range request.date_range ≡ false
            → (local_day basis ≤ local_day t + day_limit e.source_type)
              × ((w : FreshnessWindow)
                  → IsIn w windows
                  → w.source_type ≡ e.source_type
                  → InWindow w (local_day t)))

pub max_age-le : (extended : Bool) (source : String) → max_age extended source ≤ day_limit source
max_age-le extended source = elim (Bool-cases (str_eq source "disclosure")) [
  | inr other ↦ ground (arith, other)
  | inl same ↦
      let q : source ≡ "disclosure" = (eq_iff source "disclosure").0 same in
      subst (λ (x : String). max_age extended x ≤ day_limit x) (sym q) (ground arith)
]

pub own_windows-own :
    (day : ℕ) (extended : Bool) (sources : List String) (w : FreshnessWindow)
    → IsIn w (own_windows day extended sources)
    → (source : String) × (w ≡ own_window day extended source)
own_windows-own day extended [] w h = absurd h
own_windows-own day extended (s ∷ ss) w (inl q) = (s, q)
own_windows-own day extended (s ∷ ss) w (inr h) = own_windows-own day extended ss w h

pub own_window-source :
    (day : ℕ) (extended : Bool) (source : String)
    → (own_window day extended source).source_type ≡ source
own_window-source day extended source = ground arith

pub own_window-InWindow :
    (basis t : ℕ) (extended : Bool) (source : String)
    → elem source dated_sources ≡ true
    → t ≤ basis
    → local_day basis - local_day t ≤ max_age extended source
    → InWindow (own_window (local_day basis) extended source) (local_day t)
own_window-InWindow basis t extended source dated early young =
    let whole =
      if_true (elem source dated_sources)
        (record {
          source_type = source;
          start = some (local_day basis - max_age extended source);
          end = some (local_day basis);
          applied_by =
              if str_eq source "disclosure" && max_age extended source == 365
              then "fallback"
              else "default";
        })
        (record { source_type = source; start = none; end = none; applied_by = "none" }) dated in
    subst (λ (w : FreshnessWindow). InWindow w (local_day t)) (sym whole)
      (
        local_day basis - max_age extended source,
        local_day basis,
        refl,
        refl,
        omega (arith, young),
        omega (arith, early),
      )

pub windows_for-own :
    (range : Option DateRange) (day : ℕ) (extended : Bool) (sources : List String)
    → meaningful_range range ≡ false
    → windows_for range day extended sources ≡ own_windows day extended sources
windows_for-own none day extended sources h = refl
windows_for-own (some r) day extended sources h = if_false (meaningful_range (some r)) _ _ h

pub age_within-le :
    (age : Option ℕ) (days limit : ℕ) → age ≡ some days → age_within age limit ≡ true → days ≤ limit
age_within-le none days limit q h = absurd (ground (arith, q))
age_within-le (some a) days limit q h = ground (arith, q, h)
