-- ===== src/Core/IloAi.antt =====
-- com-event-core/com_event_core/enrich/ilo_ai.py, in parts.
pub mod Budget
pub mod Coerce
pub mod Fields
pub mod Setup
pub mod Wants
pub mod Analyze
pub mod Assignments
pub mod Payment
pub mod Reuse
