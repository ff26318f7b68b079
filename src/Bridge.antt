-- ===== src/Bridge.antt =====
-- The bridge, com-event-bridge/bridge.
pub mod Spool
pub mod Worker
pub mod App
pub mod Startup
