-- ===== src/Opportunity.antt =====
-- The opportunity service of the auction server: its entities, its store in memory and its operations.
mod Tests
pub mod Entities
pub mod Equality
pub mod Repository
pub mod Service
