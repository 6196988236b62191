-- ===== src/Evidence.antt =====
-- app/evidence: the choice, the budget, the freshness and the policy of evidence.
pub mod Selection
pub mod CallBudget
pub mod Budget
pub mod Freshness
pub mod Policy
mod Examples
