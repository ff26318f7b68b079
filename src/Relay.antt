-- ===== src/Relay.antt =====
-- The relay, com-event-relay: the public receiver in relay/, the outbound consumer in shim/.
pub mod App
pub mod Backends
pub mod Shim
pub mod Queues
