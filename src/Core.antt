-- ===== src/Core.antt =====
-- The package `com_event_core`.
pub mod Event
pub mod Dedup
pub mod Deliver
pub mod Normalize
pub mod Registry
pub mod Enrich
pub mod Render
pub mod Adapters
pub mod Advisories
pub mod Secrets
pub mod Com
pub mod Compliance
pub mod Redfish
pub mod IloAi
