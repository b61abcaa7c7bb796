-- ===== src/Messaging.antt =====
-- Messages between the service and the queues: src/domain/messaging.
pub mod Publisher
pub mod Event
pub mod Inbox
pub mod Outbox
mod Examples
