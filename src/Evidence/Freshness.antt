-- ===== src/Evidence/Freshness.antt =====
-- app/evidence/freshness.py: the results of the evaluation of freshness. A date is its ordinal, a
-- time is in seconds; one that is not aware in UTC is `none`.
pub mod Disclosures
pub mod Candidates
pub mod Corrections
pub mod Windows
pub mod Evaluate
use questock.Prelude.{ℕ, Option, List, String}
use questock.Core.Evidence.{Evidence}

pub record FreshnessWindow : Type 0 where
  pub source_type : String
  pub start : Option ℕ
  pub end : Option ℕ
  pub applied_by : String

pub record FreshnessWarning : Type 0 where
  pub warning_code : String
  pub source_type : String

pub record FreshnessResult : Type 0 where
  pub basis_at : Option ℕ
  pub basis_date : ℕ
  pub windows : List FreshnessWindow
  pub evidence : List Evidence
  pub warnings : List FreshnessWarning
  pub latest_effective_disclosure_at : Option (Option ℕ)
