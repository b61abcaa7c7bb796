-- ===== src/Auth.antt =====
-- Request signing: src/infrastructure/auth and src/infrastructure/http/guards.
pub mod Hmac
pub mod Guard
pub mod Access
pub mod Canonical
mod Examples
