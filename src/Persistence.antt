-- ===== src/Persistence.antt =====
-- The persistence layer: src/infrastructure/persistence/mikro-orm.
pub mod Entities
pub mod Mappers
pub mod Tables
pub mod Columns
pub mod Store
pub mod Repositories
pub mod OutboxRows
pub mod InboxRows
pub mod Rows
pub mod Sorting
pub mod LedgerPages
pub mod Laws
