-- ===== src/Relay/Queues.antt =====
-- The two queues: com-event-relay/relay/core/queue and com-event-relay/shim/core/queue. The SDKs of the
-- clouds are parameters; so is the UTF-8 codec.
pub mod Sqs
pub mod ServiceBus
pub mod RoundTrip
