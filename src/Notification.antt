-- ===== src/Notification.antt =====
-- The notification service: internal/notification.
pub mod Hub
pub mod Model
pub mod Repository
pub mod Service
pub mod Handler
pub mod Ids
pub mod HubLaws
pub mod Steps
pub mod Delivery
pub mod Redelivery
mod Tests
