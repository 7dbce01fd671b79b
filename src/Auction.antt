-- ===== src/Auction.antt =====
-- The auction server: bids and auctions, their store in memory and in the database, and the service.
pub mod Entities
mod Tests
pub mod Database
pub mod Repository
pub mod Service
pub mod Errors
