-- ===== src/Wagering.antt =====
-- Wager transactions: src/domain/wagering.
pub mod Vocabulary
pub mod State
pub mod Factory
pub mod Transaction
mod Examples
