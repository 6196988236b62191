-- ===== src/Core.antt =====
-- app/core: the data models that the services share.
pub mod Records
pub mod Unicode
pub mod Models
pub mod Evidence
pub mod Plan
pub mod Resolver
