-- ===== src/User.antt =====
-- The user service: internal/user.
pub mod Model
pub mod Tables
pub mod Repository
pub mod Service
pub mod Handler
pub mod Server
pub mod Routes
pub mod Accounts
pub mod Requests
pub mod Session
pub mod Tickets
mod Tests
