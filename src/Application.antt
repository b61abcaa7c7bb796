-- ===== src/Application.antt =====
-- What the use cases share: src/application.
pub mod Fault
pub mod Action
pub mod Rules
pub mod Keeping
pub mod CanonicalJson
pub mod Payload
mod Examples
