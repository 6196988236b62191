-- ===== src/Evidence/Policy/Results.antt =====
-- The checks of the freshness and of the retrieval in app/evidence/policy.py.
use questock.Prelude.{
  is_some, ℕ, ◌+◌, Bool, true, false, not, ◌&&◌, ◌||◌, Option, none, some, List, [], ◌∷◌, String,
  str_eq, ltb, leb, ◌==◌, if◌then◌else◌,
}
use questock.Exec.{Result}
use questock.Core.Models.{elem, DateRange, in_order}
use questock.Core.Evidence.{
  Evidence, EvidenceScope, company_specific, industry_common, multi_company, evidence_ok,
}
use questock.Core.Plan.{SecurityIdentifier, QueryPlan}
use questock.Evidence.Freshness.{FreshnessWindow, FreshnessWarning, FreshnessResult}
use questock.Retrieval.Filters.{local_day}
use questock.Retrieval.Retriever.{
  RetrievalResult, Status, ok_status, empty, low_relevance, low_relevance_threshold, is_nil,
}
use questock.Evidence.Policy.Inputs.{
  PolicyError, bad_freshness, bad_retrieval, inconsistent, unless, passed, supported_sources,
  security_required_intents, blank, strings_eq, security_id,
}

abbrev pub none_blank : List String → Bool
none_blank [] = true
none_blank (s ∷ ss) = not (blank s) && none_blank ss

-- `_canonical_evidence`
unfoldable pub canonical_evidence : Evidence → Bool
canonical_evidence e =
    evidence_ok e
    && none_blank (e.evidence_id ∷ e.document_id ∷ e.source_type ∷ e.title ∷ e.snippet ∷ [])
    && elem e.source_type supported_sources
    && none_blank e.subject_security_ids
    && none_blank e.mentioned_security_ids

abbrev pub all_canonical : List Evidence → Bool
all_canonical [] = true
all_canonical (e ∷ es) = canonical_evidence e && all_canonical es

-- The tests on a window by its `applied_by`.
abbrev pub mode_ok : String → String → Option ℕ → Option ℕ → Bool
mode_ok mode source start end =
    if str_eq mode "none"
    then str_eq source "glossary" && not (is_some start) && not (is_some end)
    else if str_eq mode "default"
    then is_some start && is_some end && not (str_eq source "glossary")
    else if str_eq mode "fallback"
    then is_some start && is_some end && str_eq source "disclosure"
    else str_eq mode "user" && (is_some start || is_some end)

-- The loop of `_canonical_windows`, with the sources seen.
unfoldable pub windows_ok : List String → List FreshnessWindow → Bool
windows_ok seen [] = true
windows_ok seen (w ∷ ws) =
    not (blank w.source_type)
    && elem w.source_type supported_sources
    && not (elem w.source_type seen)
    && in_order w.start w.end
    && mode_ok w.applied_by w.source_type w.start w.end
    && windows_ok (w.source_type ∷ seen) ws

abbrev pub window_sources : List FreshnessWindow → List String
window_sources [] = []
window_sources (w ∷ ws) = w.source_type ∷ window_sources ws

abbrev pub sources_among : List Evidence → List String → Bool
sources_among [] sources = true
sources_among (e ∷ es) sources = elem e.source_type sources && sources_among es sources

-- `_WARNING_ORDER` with `_WARNING_SOURCES`
abbrev pub warning_sources : List (String × List String)
warning_sources =
    let dated = "news" ∷ "disclosure" ∷ "research_report" ∷ [] in
    ("missing_published_at", dated)
    ∷ ("future_published_at", dated)
    ∷ ("stale_news", "news" ∷ [])
    ∷ ("stale_research_report", "research_report" ∷ [])
    ∷ ("disclosure_window_extended", "disclosure" ∷ [])
    ∷ ("insufficient_disclosure_coverage", "disclosure" ∷ [])
    ∷ ("unresolved_disclosure_correction", "disclosure" ∷ [])
    ∷ []

-- The rank of a code in `_WARNING_ORDER`, from `at` on, and the sources that it goes with.
abbrev pub code_rank : ℕ → String → List (String × List String) → Option (ℕ × List String)
code_rank at name [] = none
code_rank at name ((other, sources) ∷ rest) =
    if str_eq other name then some (at, sources) else code_rank (at + 1) name rest

-- The place of the window of a source.
abbrev pub source_rank : ℕ → String → List String → Option ℕ
source_rank at source [] = none
source_rank at source (s ∷ ss) = if str_eq s source then some at else source_rank (at + 1) source ss

-- `previous_rank is not None and rank <= previous_rank` does not hold. A pair seen before does not
-- have a higher rank, so the test on `seen` adds nothing.
abbrev pub ranks_after : Option (ℕ × ℕ) → ℕ → ℕ → Bool
ranks_after none source place = true
ranks_after (some (s, p)) source place = ltb s source || (s == source && ltb p place)

abbrev pub ranked_code :
    Option ℕ → Option (ℕ × List String) → String → Option (ℕ × ℕ) → Option (ℕ × ℕ)
ranked_code (some s) (some (p, sources)) source previous =
    if elem source sources && ranks_after previous s p then some (s, p) else none
ranked_code _ _ source previous = none

-- `_canonical_warnings`
abbrev pub then_ranked : Option (ℕ × ℕ) → (ℕ × ℕ → Bool) → Bool
then_ranked none rest = false
then_ranked (some rank) rest = rest rank

unfoldable pub warnings_ok : List String → Option (ℕ × ℕ) → List FreshnessWarning → Bool
warnings_ok sources previous [] = true
warnings_ok sources previous (w ∷ ws) =
    then_ranked
      (ranked_code (source_rank 0 w.source_type sources)
        (code_rank 0 w.warning_code warning_sources) w.source_type previous)
      (λ rank. warnings_ok sources (some rank) ws)

abbrev pub dated_ok : Option ℕ → ℕ → Bool
dated_ok none day = false
dated_ok (some time) day = local_day time == day

abbrev pub latest_ok : Option (Option ℕ) → List String → Bool
latest_ok none sources = true
latest_ok (some time) sources = is_some time && elem "disclosure" sources

-- `meaningful_range`
abbrev pub meaningful : Option DateRange → Bool
meaningful none = false
meaningful (some r) = is_some r.start || is_some r.end

abbrev pub same_day : Option ℕ → Option ℕ → Bool
same_day none none = true
same_day (some a) (some b) = a == b
same_day _ _ = false

abbrev pub user_windows : DateRange → List FreshnessWindow → Bool
user_windows r [] = true
user_windows r (w ∷ ws) =
    str_eq w.applied_by "user"
    && same_day w.start r.start
    && same_day w.end r.end
    && user_windows r ws

abbrev pub own_mode : FreshnessWindow → Bool
own_mode w =
    not (str_eq w.applied_by "user")
    && (not (str_eq w.source_type "glossary") || str_eq w.applied_by "none")
    && (not (str_eq w.source_type "news" || str_eq w.source_type "research_report")
        || str_eq w.applied_by "default")
    && (not (str_eq w.source_type "disclosure")
        || (str_eq w.applied_by "default" || str_eq w.applied_by "fallback"))

abbrev pub own_windows : List FreshnessWindow → Bool
own_windows [] = true
own_windows (w ∷ ws) = own_mode w && own_windows ws

abbrev pub range_windows : Option DateRange → List FreshnessWindow → Bool
range_windows none ws = own_windows ws
range_windows (some r) ws = if meaningful (some r) then user_windows r ws else own_windows ws

-- `_validate_freshness_plan_contract`
unfoldable pub contract_ok : FreshnessResult → QueryPlan → Bool
contract_ok f plan =
    strings_eq (window_sources f.windows) plan.required_sources
    && range_windows plan.date_range f.windows

-- `_canonical_freshness`
unfoldable pub check_freshness : FreshnessResult → QueryPlan → Bool → Result PolicyError (Unit {0})
check_freshness f plan enforce =
    let sources = window_sources f.windows in
    unless
      (dated_ok f.basis_at f.basis_date
        && windows_ok [] f.windows
        && all_canonical f.evidence
        && sources_among f.evidence sources
        && warnings_ok sources none f.warnings
        && latest_ok f.latest_effective_disclosure_at sources)
      bad_freshness (unless (not enforce || contract_ok f plan) inconsistent passed)

abbrev pub score_ok : Option ℕ → Bool
score_ok none = false
score_ok (some score) = leb low_relevance_threshold score

abbrev pub scores_ok : List Evidence → Bool
scores_ok [] = true
scores_ok (e ∷ es) = score_ok e.retrieval_score && scores_ok es

abbrev pub status_fits : Status → RetrievalResult → Bool
status_fits ok_status r = not (is_nil r.evidence) && not r.is_low_relevance && scores_ok r.evidence
status_fits empty r = is_nil r.evidence && not r.is_low_relevance
status_fits low_relevance r = is_nil r.evidence && r.is_low_relevance

-- `_canonical_retrieval`
unfoldable pub check_retrieval : RetrievalResult → Result PolicyError (Unit {0})
check_retrieval r =
    unless (all_canonical r.evidence && not (blank r.strategy) && status_fits r.status r)
      bad_retrieval passed

-- The inner loop of `_validate_retrieval_occurrences`: what is left after the first unused
-- candidate that equals the item; `same` is `==` on copies without scores.
abbrev pub keep_unused : Evidence → Option (List Evidence) → Option (List Evidence)
keep_unused c none = none
keep_unused c (some rest) = some (c ∷ rest)

unfoldable pub use_first :
    (Evidence → Evidence → Bool) → Evidence → List Evidence → Option (List Evidence)
use_first same e [] = none
use_first same e (c ∷ cs) =
    let later = keep_unused c (use_first same e cs) in if same e c then some cs else later

abbrev pub then_rest : Option (List Evidence) → (List Evidence → Bool) → Bool
then_rest none f = false
then_rest (some rest) f = f rest

-- `_validate_retrieval_occurrences`
unfoldable pub occurrences_ok : (Evidence → Evidence → Bool) → List Evidence → List Evidence → Bool
occurrences_ok same available [] = true
occurrences_ok same available (e ∷ es) =
    then_rest (use_first same e available) (λ rest. occurrences_ok same rest es)

abbrev pub is_single : List String → String → Bool
is_single (s ∷ []) target = str_eq s target
is_single _ target = false

abbrev pub names_target : EvidenceScope → Evidence → String → Bool
names_target company_specific e target = is_single e.subject_security_ids target
names_target multi_company e target = elem target e.subject_security_ids
names_target industry_common e target = elem target e.mentioned_security_ids

abbrev pub all_name : List Evidence → String → Bool
all_name [] target = true
all_name (e ∷ es) target = names_target e.scope e target && all_name es target

abbrev pub plan_names : Option SecurityIdentifier → List Evidence → Bool
plan_names none es = false
plan_names (some s) es = all_name es (security_id s)

-- `_validate_target_security`
unfoldable pub target_ok : QueryPlan → List Evidence → Bool
target_ok plan es =
    if elem plan.intent security_required_intents then plan_names plan.security es else true
