-- ===== src/Core/Plan.antt =====
-- The plans and the results of providers of app/core/models.py, and the statuses of
-- app/core/status.py. A time is in seconds; one that is not aware in UTC is `none`.
use questock.Prelude.{ℕ, Bool, Option, List, String}
use questock.Core.Models.{DateRange}

pub record SecurityIdentifier : Type 0 where
  pub market : String
  pub ticker : String
  pub security_name : String
  pub security_type : String
  pub corp_code : Option String
  pub corp_name : String

pub record QueryPlan : Type 0 where
  pub security : Option SecurityIdentifier
  pub intent : String
  pub answer_focus : String
  pub date_range : Option DateRange
  pub required_sources : List String
  pub required_evidence : List String
  pub requires_clarification : Bool

pub data ProviderStatus : Type 0 where
  provider_ok no_data invalid_query unauthorized rate_limited timeout : ProviderStatus
  provider_unavailable parse_error : ProviderStatus

-- Of the data of a result only that there are some.
pub record ProviderResult : Type 0 where
  pub status : ProviderStatus
  pub has_data : Bool
  pub error_code : Option String
  pub message : Option String
  pub fetched_at : Option ℕ
  pub from_cache : Bool

pub data DecisionStatus : Type 0 where
  complete partial provider_failed no_evidence blocked : DecisionStatus
