-- ===== src/UseCases.antt =====
-- The use cases: src/application/use-cases.
pub mod Command
pub mod Process
pub mod Publication
pub mod Queries
pub mod Reconciliation
pub mod Conservation
pub mod Reprocessing
pub mod Creation
pub mod History
mod Examples
mod Samples
pub mod Processing
pub mod Posting
pub mod Matching
pub mod Settlement
pub mod Accounting
pub mod Directions
pub mod Recording
pub mod Idempotency
