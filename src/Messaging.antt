-- ===== src/Messaging.antt =====
-- shared/libs/go/events and shared/libs/go/outbox: what the services write for one another.
pub mod Outbox
pub mod Processed
pub mod Publisher
pub mod Relay
pub mod Subscriber
