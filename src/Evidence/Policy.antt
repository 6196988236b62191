-- ===== src/Evidence/Policy.antt =====
-- app/evidence/policy.py: `EvidencePolicy`.
pub mod Accepted
pub mod Occurrences
pub mod Coverage
pub mod Inputs
pub mod Results
pub mod Decide
pub mod Sources
pub mod Audit
pub mod Composed
pub mod FreshWindows
pub mod FreshWarnings
pub mod FreshAccepted
mod Examples
mod ComposedExamples
