-- ===== src/Inventory.antt =====
-- internal/inventory: stock, reservations, and the consumer of order events.
pub mod Model
pub mod Tables
pub mod Repository
pub mod Service
pub mod Handler
pub mod Plan
pub mod Atomic
pub mod Reserve
pub mod Consistent
pub mod Operations
pub mod Announce
pub mod Settled
pub mod Gaps
mod Tests
