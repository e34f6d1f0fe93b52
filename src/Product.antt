-- ===== src/Product.antt =====
-- internal/product: the products and their categories, the cache in front of the products, the
-- handlers, and the routes of cmd/product-service/main.go.
pub mod Model
pub mod Tables
pub mod Repository
pub mod Service
pub mod Categories
pub mod Handler
pub mod CategoryHandler
pub mod Server
pub mod Routes
pub mod Cache
pub mod Coherence
pub mod Fresh
pub mod Reread
pub mod Authority
pub mod Catalogue
pub mod Statements
pub mod Operations
pub mod Requests
mod Tests
