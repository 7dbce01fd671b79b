-- ===== src/Relay.antt =====
-- The on-chain program, contracts/svm/programs/express_relay/src.
pub mod State
pub mod Fees
pub mod Admin
pub mod Runtime
pub mod Payment
pub mod Permission
pub mod Withdrawal
pub mod Tokens
pub mod Swap
mod Tests
mod PermissionTests
mod SwapTests
