-- ===== src/Evidence/Freshness/Windows.antt =====
-- The windows and the warnings of app/evidence/freshness.py.
use questock.Prelude.{
  is_some, ℕ, ◌+◌, ◌-◌, Bool, true, false, not, ◌&&◌, ◌||◌, Option, none, some, List, [], ◌∷◌, ◌++◌,
  String, str_eq, string_eq, ltb, leb, ◌==◌, if◌then◌else◌,
}
use questock.Core.Models.{elem, DateRange}
use questock.Evidence.Freshness.{FreshnessWindow, FreshnessWarning}
use questock.Evidence.Freshness.Candidates.{Candidate, dated_sources, is_disclosure}
use questock.Evidence.Freshness.Corrections.{disclosure_ids}

-- `_DEFAULT_MAX_AGE_DAYS`
abbrev pub default_max_age : String → ℕ
default_max_age source = if str_eq source "news" then 30 else 180

abbrev pub default_disclosure_age : ℕ
default_disclosure_age = 180

-- `_DISCLOSURE_FALLBACK_MAX_AGE_DAYS` and `_MIN_DISCLOSURE_COUNT`
abbrev pub fallback_age : ℕ
fallback_age = 365

abbrev pub min_disclosure_count : ℕ
min_disclosure_count = 5

-- `_meaningful_user_range`
abbrev pub meaningful_range : Option DateRange → Bool
meaningful_range none = false
meaningful_range (some r) = is_some r.start || is_some r.end

-- `len(set(values))`
abbrev pub count_distinct : List String → ℕ
count_distinct [] = 0
count_distinct (x ∷ xs) = (if elem x xs then 0 else 1) + count_distinct xs

abbrev pub age_within : Option ℕ → ℕ → Bool
age_within none limit = false
age_within (some age) limit = leb age limit

-- `recent_disclosure_ids`, a set as a list.
abbrev pub recent_disclosure_ids : List Candidate → List String
recent_disclosure_ids [] = []
recent_disclosure_ids (c ∷ cs) =
    let rest = recent_disclosure_ids cs in
    if is_disclosure c && age_within c.age_days default_disclosure_age
    then c.evidence.document_id ∷ rest
    else rest

-- Fewer recent disclosures than there should be.
unfoldable pub is_extended : List String → List Candidate → Bool
is_extended sources cs =
    elem "disclosure" sources
    && ltb (count_distinct (recent_disclosure_ids cs)) min_disclosure_count

-- `max_ages[source]`
abbrev pub max_age : Bool → String → ℕ
max_age extended source =
    if extended && str_eq source "disclosure" then fallback_age else default_max_age source

abbrev pub user_window : DateRange → String → FreshnessWindow
user_window r source = record {
  source_type = source;
  start = r.start;
  end = r.end;
  applied_by = "user";
}

abbrev pub user_windows : DateRange → List String → List FreshnessWindow
user_windows r [] = []
user_windows r (s ∷ ss) = user_window r s ∷ user_windows r ss

abbrev pub own_window : ℕ → Bool → String → FreshnessWindow
own_window basis_date extended source =
    if elem source dated_sources
    then record {
      source_type = source;
      start = some (basis_date - max_age extended source);
      end = some basis_date;
      applied_by =
          if str_eq source "disclosure" && max_age extended source == 365
          then "fallback"
          else "default";
    }
    else record { source_type = source; start = none; end = none; applied_by = "none" }

abbrev pub own_windows : ℕ → Bool → List String → List FreshnessWindow
own_windows basis_date extended [] = []
own_windows basis_date extended (s ∷ ss) =
    own_window basis_date extended s ∷ own_windows basis_date extended ss

-- The windows of `_build_windows`.
abbrev pub windows_for : Option DateRange → ℕ → Bool → List String → List FreshnessWindow
windows_for none basis_date extended sources = own_windows basis_date extended sources
windows_for (some r) basis_date extended sources =
    if meaningful_range (some r)
    then user_windows r sources
    else own_windows basis_date extended sources

abbrev pub warning : String → String → FreshnessWarning
warning name source = record { warning_code = name; source_type = source }

abbrev pub warn_if : Bool → String → String → List FreshnessWarning
warn_if true name source = warning name source ∷ []
warn_if false name source = []

-- `valid_ages[source]`
abbrev pub age_list : Bool → Option ℕ → List ℕ → List ℕ
age_list true (some age) ages = age ∷ ages
age_list _ _ ages = ages

abbrev pub valid_ages : String → List Candidate → List ℕ
valid_ages source [] = []
valid_ages source (c ∷ cs) =
    age_list (str_eq c.evidence.source_type source && c.date_eligible) c.age_days
      (valid_ages source cs)

-- `ages and min(ages) > limit`
abbrev pub all_above : ℕ → List ℕ → Bool
all_above limit [] = true
all_above limit (a ∷ as') = ltb limit a && all_above limit as'

abbrev pub is_stale : ℕ → List ℕ → Bool
is_stale limit [] = false
is_stale limit (a ∷ as') = all_above limit (a ∷ as')

-- `_add_stale_warnings`
unfoldable pub stale_warnings : Bool → List Candidate → List FreshnessWarning
stale_warnings true cs = []
stale_warnings false cs =
    warn_if (is_stale 14 (valid_ages "news" cs)) "stale_news" "news"
    ++ warn_if (is_stale 180 (valid_ages "research_report" cs)) "stale_research_report"
        "research_report"

abbrev pub in_window : Bool → Bool → Candidate → Bool
in_window by_user extended c =
    let source = c.evidence.source_type in
    by_user || not (elem source dated_sources) || age_within c.age_days (max_age extended source)

-- `_apply_windows`
unfoldable pub apply_windows : Bool → Bool → List Candidate → List Candidate
apply_windows by_user extended [] = []
apply_windows by_user extended (c ∷ cs) =
    let rest = apply_windows by_user extended cs in
    if in_window by_user extended c then c ∷ rest else rest

-- `_add_disclosure_coverage_warning`
unfoldable pub coverage_warnings : Bool → List String → List Candidate → List FreshnessWarning
coverage_warnings by_user sources retained =
    warn_if
      (not by_user
        && elem "disclosure" sources
        && ltb (count_distinct (disclosure_ids retained)) min_disclosure_count)
      "insufficient_disclosure_coverage" "disclosure"

-- `_WARNING_ORDER`
abbrev pub warning_order : List String
warning_order =
    "missing_published_at" ∷ "future_published_at" ∷ "stale_news" ∷ "stale_research_report"
    ∷ "disclosure_window_extended" ∷ "insufficient_disclosure_coverage"
    ∷ "unresolved_disclosure_correction" ∷ []

-- `(code, source) in warning_keys`
abbrev pub is_warned : String → String → List FreshnessWarning → Bool
is_warned name source [] = false
is_warned name source (w ∷ ws) =
    str_eq w.warning_code name && str_eq w.source_type source || is_warned name source ws

-- The codes of a source, sorted: those of the order that are in the set.
abbrev pub codes_of : String → List FreshnessWarning → List String → List FreshnessWarning
codes_of source keys [] = []
codes_of source keys (name ∷ names) =
    let rest = codes_of source keys names in
    if is_warned name source keys then warning name source ∷ rest else rest

-- `_ordered_warnings`
unfoldable pub ordered_warnings : List String → List FreshnessWarning → List FreshnessWarning
ordered_warnings [] keys = []
ordered_warnings (source ∷ sources) keys =
    codes_of source keys warning_order ++ ordered_warnings sources keys

abbrev pub later : Option ℕ → Option ℕ → Option ℕ
later none other = other
later (some a) none = some a
later (some a) (some b) = if ltb a b then some b else some a

-- `_latest_disclosure_timestamp`
unfoldable pub latest_timestamp : List Candidate → Option ℕ
latest_timestamp [] = none
latest_timestamp (c ∷ cs) =
    let rest = latest_timestamp cs in if is_disclosure c then later c.effective_at rest else rest
