-- ===== src/Order.antt =====
-- internal/order: orders, their creation, their status and the consumer of inventory events.
pub mod Model
pub mod Tables
pub mod Repository
pub mod Service
pub mod Consumer
pub mod Handler
pub mod Pricing
pub mod Created
pub mod Place
pub mod Rows
pub mod Settle
pub mod Status
pub mod Access
pub mod Listing
pub mod Wire
mod Tests
