-- ===== src/Evidence/Policy/FreshWindows.antt =====
-- The windows that app/evidence/freshness.py makes for supported sources, each listed once, pass the
-- checks of app/evidence/policy.py.
use questock.Prelude.{
  ℕ, ◌≡◌, refl, ap, ◌∙◌, subst, Bool, true, false, not, ◌&&◌, inl, inr, Option, some, none, List,
  [], ◌∷◌, String, str_eq, string_eq, eq_iff, if_false, arith, Bool-cases, All,
}
use questock.Prelude.Text.{has_text}
use questock.Core.Models.{elem, has_duplicates, DateRange, in_order, date_range_ok}
use questock.Evidence.Freshness.{FreshnessWindow}
use questock.Evidence.Freshness.Windows.{
  meaningful_range, user_window, user_windows, own_window, own_windows, windows_for,
}
use questock.Evidence.Freshness.Evaluate.{unique_from}
use questock.Evidence.Freshness.Evaluate.OwnWindows.{own_window-source}
use questock.Evidence.Policy.Inputs.{supported_sources, blank}
use questock.Evidence.Policy.Results.{mode_ok, windows_ok, window_sources}

pub supported-cases {κ} :
    (P : String → Type κ)
    → P "news"
    → P "disclosure"
    → P "research_report"
    → P "glossary"
    → (s : String) → elem s supported_sources ≡ true
    → P s
supported-cases P a b c d s h = elim (Bool-cases (str_eq "news" s)) [
  | inl e ↦ subst P ((eq_iff "news" s).0 e) a
  | inr f ↦ elim (Bool-cases (str_eq "disclosure" s)) [
    | inl e ↦ subst P ((eq_iff "disclosure" s).0 e) b
    | inr g ↦ elim (Bool-cases (str_eq "research_report" s)) [
      | inl e ↦ subst P ((eq_iff "research_report" s).0 e) c
      | inr i ↦ subst P ((eq_iff "glossary" s).0 (ground (arith, f, g, i, h))) d
    ]
  ]
]

-- What the check of the windows asks of each by itself.
abbrev pub is_proper : FreshnessWindow → Bool
is_proper w =
    not (blank w.source_type)
    && elem w.source_type supported_sources
    && in_order w.start w.end
    && mode_ok w.applied_by w.source_type w.start w.end

own_window-proper :
    (day : ℕ) (extended : Bool) (s : String)
    → elem s supported_sources ≡ true
    → is_proper (own_window day extended s) ≡ true
unfolding has_text
own_window-proper day true s h =
    supported-cases (λ (x : String). is_proper (own_window day true x) ≡ true) (ground arith)
      (ground arith) (ground arith) (ground arith) s h
own_window-proper day false s h =
    supported-cases (λ (x : String). is_proper (own_window day false x) ≡ true) (ground arith)
      (ground arith) (ground arith) (ground arith) s h

not_blank : (s : String) → elem s supported_sources ≡ true → blank s ≡ false
unfolding has_text
not_blank s h = supported-cases (λ (x : String). blank x ≡ false) refl refl refl refl s h

user_mode :
    (r : DateRange) (s : String)
    → meaningful_range (some r) ≡ true
    → mode_ok "user" s r.start r.end ≡ true
user_mode r s told = ground (arith, told)

user_window-proper :
    (r : DateRange) (s : String)
    → elem s supported_sources ≡ true
    → in_order r.start r.end ≡ true
    → meaningful_range (some r) ≡ true
    → is_proper (user_window r s) ≡ true
user_window-proper r s h ordered told =
    ground (arith, not_blank s h, h, ordered, told, user_mode r s told)

abbrev pub Supported : List String → Type 0
Supported = All (λ (s : String). elem s supported_sources ≡ true)

own_windows-All :
    (day : ℕ) (extended : Bool) (ss : List String)
    → Supported ss
    → All (λ (w : FreshnessWindow). is_proper w ≡ true) (own_windows day extended ss)
own_windows-All day extended [] h = tt
own_windows-All day extended (s ∷ ss) h =
    (own_window-proper day extended s h.0, own_windows-All day extended ss h.1)

user_windows-All :
    (r : DateRange) (ss : List String)
    → Supported ss
    → in_order r.start r.end ≡ true
    → meaningful_range (some r) ≡ true
    → All (λ (w : FreshnessWindow). is_proper w ≡ true) (user_windows r ss)
user_windows-All r [] h ordered told = tt
user_windows-All r (s ∷ ss) h ordered told =
    (user_window-proper r s h.0 ordered told, user_windows-All r ss h.1 ordered told)

windows_for-All :
    (range : Option DateRange) (day : ℕ) (extended : Bool) (ss : List String)
    → Supported ss
    → date_range_ok range ≡ true
    → All (λ (w : FreshnessWindow). is_proper w ≡ true) (windows_for range day extended ss)
windows_for-All none day extended ss h ordered = own_windows-All day extended ss h
windows_for-All (some r) day extended ss h ordered = elim (Bool-cases (meaningful_range (some r))) [
  | inl told ↦ rw told (user_windows-All r ss h ordered told)
  | inr plain ↦ rw plain (own_windows-All day extended ss h)
]

own_windows-sources :
    (day : ℕ) (extended : Bool) (ss : List String)
    → window_sources (own_windows day extended ss) ≡ ss
own_windows-sources day extended [] = refl
own_windows-sources day extended (s ∷ ss) =
    ap (λ (x : String). x ∷ window_sources (own_windows day extended ss))
      (own_window-source day extended s)
    ∙ ap (λ (l : List String). s ∷ l) (own_windows-sources day extended ss)

user_windows-sources : (r : DateRange) (ss : List String) → window_sources (user_windows r ss) ≡ ss
user_windows-sources r [] = refl
user_windows-sources r (s ∷ ss) = ap (λ (l : List String). s ∷ l) (user_windows-sources r ss)

pub windows_for-sources :
    (range : Option DateRange) (day : ℕ) (extended : Bool) (ss : List String)
    → window_sources (windows_for range day extended ss) ≡ ss
windows_for-sources none day extended ss = own_windows-sources day extended ss
windows_for-sources (some r) day extended ss = elim (Bool-cases (meaningful_range (some r))) [
  | inl told ↦ rw told (user_windows-sources r ss)
  | inr plain ↦ rw plain (own_windows-sources day extended ss)
]

-- None of them has been seen.
abbrev Unseen : List String → List String → Type 0
Unseen seen = All (λ (s : String). elem s seen ≡ false)

elem-Unseen :
    (s : String) (seen ss : List String) → elem s ss ≡ false → Unseen seen ss → Unseen (s ∷ seen) ss
elem-Unseen s seen [] h k = tt
elem-Unseen s seen (t ∷ ss) h k =
    (ground (arith, h, k.0, eq_iff s t, eq_iff t s), elem-Unseen s seen ss (ground (arith, h)) k.1)

Unseen-nil : (ss : List String) → Unseen [] ss
Unseen-nil [] = tt
Unseen-nil (s ∷ ss) = (refl, Unseen-nil ss)

windows_ok-proper :
    (seen : List String) (ws : List FreshnessWindow)
    → All (λ (w : FreshnessWindow). is_proper w ≡ true) ws
    → has_duplicates (window_sources ws) ≡ false
    → Unseen seen (window_sources ws)
    → windows_ok seen ws ≡ true
unfolding windows_ok
windows_ok-proper seen [] h once new = refl
windows_ok-proper seen (w ∷ ws) h once new =
    let rest =
      windows_ok-proper (w.source_type ∷ seen) ws h.1 (ground (arith, once))
        (elem-Unseen w.source_type seen (window_sources ws) (ground (arith, once)) new.1) in
    ground (arith, h.0, new.0, rest)

unique_from-Unseen :
    (seen ss : List String) → has_duplicates ss ≡ false → Unseen seen ss → unique_from seen ss ≡ ss
unique_from-Unseen seen [] once new = refl
unique_from-Unseen seen (s ∷ ss) once new =
    if_false (elem s seen) _ _ new.0
    ∙ ap (λ (l : List String). s ∷ l)
        (unique_from-Unseen (s ∷ seen) ss (ground (arith, once))
          (elem-Unseen s seen ss (ground (arith, once)) new.1))

pub unique_from-once : (ss : List String) → has_duplicates ss ≡ false → unique_from [] ss ≡ ss
unique_from-once ss once = unique_from-Unseen [] ss once (Unseen-nil ss)

pub windows_for-ok :
    (range : Option DateRange) (day : ℕ) (extended : Bool) (ss : List String)
    → Supported ss
    → has_duplicates ss ≡ false
    → date_range_ok range ≡ true
    → windows_ok [] (windows_for range day extended ss) ≡ true
windows_for-ok range day extended ss h once ordered =
    let same = windows_for-sources range day extended ss in
    windows_ok-proper [] (windows_for range day extended ss)
      (windows_for-All range day extended ss h ordered) (ap has_duplicates same ∙ once)
      (Unseen-nil _)
