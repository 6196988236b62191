-- ===== src/Core/Evidence.antt =====
-- `Evidence` of app/core/models.py with its validators. A score is a number of millionths, and a
-- score that is missing, not finite or below zero is `none`; a date and time is a number of ticks.
use questock.Prelude.{
  ℕ, Bool, true, false, not, ◌&&◌, ◌||◌, Option, none, some, List, [], ◌∷◌, String, leb, ◌==◌,
  length,
}
use questock.Prelude.Text.{codes, is_letter, starts_with}
use questock.Core.Models.{elem, has_duplicates}

-- A value of `dict[str, Any]`; `atom` is a number.
mutual
  pub data Json : Type 0 where
    text : String → Json
    object : Members → Json
    array : Items → Json
    flag : Bool → Json
    null : Json
    atom : Json

  pub data Members : Type 0 where
    no_member : Members
    member : String → Json → Members → Members

  pub data Items : Type 0 where
    no_item : Items
    item : Json → Items → Items

-- A slash of either kind, which `replace` makes the same.
abbrev is_slash : ℕ → Bool
is_slash c = c == 47 || c == 92

-- `_WINDOWS_ABSOLUTE_PATH.match(value)`
drive_path : List ℕ → Bool
unfolding is_letter
drive_path (c ∷ colon ∷ d ∷ cs) = is_letter c && colon == 58 && is_slash d
drive_path _ = false

leads_slash : List ℕ → Bool
leads_slash [] = false
leads_slash (c ∷ cs) = is_slash c

-- `_looks_like_local_absolute_path`
unfoldable pub looks_like_local_absolute_path : String → Bool
unfolding drive_path leads_slash
looks_like_local_absolute_path value =
    starts_with (codes "file://") (codes value)
    || starts_with (92 ∷ 92 ∷ []) (codes value)
    || drive_path (codes value)
    || leads_slash (codes value)

-- `_assert_no_local_absolute_paths`
unfoldable mutual
  unfolding looks_like_local_absolute_path

  pub no_local_paths : Json → Bool
  no_local_paths (text value) = not (looks_like_local_absolute_path value)
  no_local_paths (object members) = no_local_members members
  no_local_paths (array items) = no_local_items items
  no_local_paths (flag value) = true
  no_local_paths null = true
  no_local_paths atom = true

  pub no_local_members : Members → Bool
  no_local_members no_member = true
  no_local_members (member key value rest) = no_local_paths value && no_local_members rest

  pub no_local_items : Items → Bool
  no_local_items no_item = true
  no_local_items (item value rest) = no_local_paths value && no_local_items rest

pub data EvidenceScope : Type 0 where
  company_specific industry_common multi_company : EvidenceScope

pub record Evidence : Type 0 where
  pub evidence_id : String
  pub document_id : String
  pub source_type : String
  pub title : String
  pub source_url : Option String
  pub published_at : Option ℕ
  pub subject_security_ids : List String
  pub mentioned_security_ids : List String
  pub scope : EvidenceScope
  pub snippet : String
  pub locator : Members
  pub retrieval_score : Option ℕ

-- `validate_source_url`
unfoldable pub source_url_ok : Option String → Bool
source_url_ok none = true
source_url_ok (some value) =
    not (looks_like_local_absolute_path value)
    && (starts_with (codes "http://") (codes value) || starts_with (codes "https://") (codes value))

-- `validate_locator`
unfoldable pub locator_ok : Members → Bool
locator_ok no_member = false
locator_ok (member key value rest) = no_local_members (member key value rest)

-- `set(a) & set(b)`
abbrev pub overlap : List String → List String → Bool
overlap [] ys = false
overlap (x ∷ xs) ys = elem x ys || overlap xs ys

abbrev pub subjects_ok : EvidenceScope → ℕ → Bool
subjects_ok company_specific n = n == 1
subjects_ok industry_common n = n == 0
subjects_ok multi_company n = leb 2 n

-- `validate_scope`
unfoldable pub scope_ok : Evidence → Bool
scope_ok e =
    not (has_duplicates e.subject_security_ids)
    && not (has_duplicates e.mentioned_security_ids)
    && not (overlap e.subject_security_ids e.mentioned_security_ids)
    && subjects_ok e.scope (length e.subject_security_ids)

-- `Evidence.model_validate` with `strict=True`, on fields of the right types.
unfoldable pub evidence_ok : Evidence → Bool
evidence_ok e = source_url_ok e.source_url && locator_ok e.locator && scope_ok e
