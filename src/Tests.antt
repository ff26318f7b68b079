-- ===== src/Tests.antt =====
-- Runs of the model, and the theorems at concrete inputs.
mod Delivery
mod Documents
mod BridgeRuns
mod RelayRuns
mod Selection
mod Targets
mod Advisories
mod Com
mod Analysis
mod Channels
