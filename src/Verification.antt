-- ===== src/Verification.antt =====
-- auction-server/src/auction/service/verification.rs and get_bid_transaction_data.rs: what a bid has
-- to be for the server to take it.
pub mod Solana
mod Tests
mod CheckTests
mod HandlingTests
pub mod Accounts
pub mod Instructions
pub mod BidData
pub mod Checks
pub mod SwapFields
pub mod Wrapping
pub mod Closing
pub mod Creation
pub mod Signatures
pub mod Simulation
pub mod Budget
pub mod Quote
pub mod Extraction
pub mod Bid
pub mod Handling
