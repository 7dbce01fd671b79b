-- ===== src/Lib.antt =====
-- Express Relay: searchers bid for the right to use a permission or to fill a swap. The auction
-- server (auction-server/src) collects bids, runs auctions and sends the winning transactions; the
-- on-chain program (contracts/svm/programs/express_relay/src) takes the bid or exchanges the tokens,
-- and splits the fees among the router, the relayer and the protocol.
--
-- The program, with paths from contracts/svm/programs/express_relay/src. An account's state is a
-- record, an instruction is a function from what it reads to the new state or an error, and a failed
-- instruction changes nothing.
--   Relay/State: state.rs and error.rs. Relay/Admin: the configuration instructions of lib.rs
--   (initialize, set_admin, set_relayer, set_secondary_relayer, set_splits, set_swap_platform_fee,
--   set_router_split). Relay/Fees: the splits of utils.rs and the swap fees of swap.rs.
--   Relay/Runtime and Relay/Payment: transfer_lamports, check_fee_hits_min_rent, handle_bid_payment
--   (utils.rs), over the lamports of all accounts. Relay/Withdrawal: withdraw_fees of lib.rs.
--   Relay/Permission: submit_bid, check_permission and the introspection of the transaction's
--   instructions. Relay/Tokens and Relay/Swap: token.rs, swap.rs, swap_internal, swap and swap_v2.
--   submit_bid calls the payment, both use the fees, and the swap uses the deadline and the signer
--   checks of the permissions.
--
-- The server, with paths from auction-server/src/auction.
--   Auction/Entities: entities/bid.rs and entities/auction.rs, with the permission keys.
--   Auction/Database: repository/models.rs, a row of the bid table, the conversions between rows and
--   entities, and the updates of a bid's status, each with the statuses that its WHERE clause
--   accepts. Auction/Repository: the pending bids and auctions in memory beside the tables, with the
--   operations of repository/. Auction/Service: update_bid_status, conclude_auction.rs, and in its
--   child modules handle_auction.rs with auction_manager.rs, submit_quote.rs and cancel_bid.rs.
--   Auction/Database/Lifecycle, Exclusion, Concluded and Reading (with repository/get_bid.rs),
--   Auction/Repository/Pending, Operations, Staying and Collection, Auction/Service/Conclusion,
--   Winners and Quotes/Sending hold the proofs.
--   The service changes its state only through the repository, and the repository changes statuses
--   only through the guarded updates.
--
-- The verification of bids, with paths from auction-server/src/auction/service.
--   Verification/Solana: what is taken from the Solana SDK, the SPL crates, Anchor and Borsh.
--   Verification/Accounts: the lookup tables and extract_account. Verification/Instructions: the
--   instructions of a transaction. Verification/BidData: get_bid_transaction_data.rs.
--   Verification/SwapFields, Wrapping, Closing, Creation, Signatures, Simulation and Budget: the checks
--   of verification.rs. Verification/Quote: two functions of opportunity/service/get_quote.rs.
--   Verification/Extraction: extract_bid_data. Verification/Bid: verify_bid. Verification/Handling:
--   handle_bid, which stores a verified bid by add_bid.
--   Accounts/Resolution and Caching, SwapFields/Exact and Asked, Closing/Destinations,
--   Signatures/Valid and Signed, Simulation/Retrying, Budget/Price, Bid/Passing, Bid/Reading,
--   Bid/Acceptance and Handling/Again hold the proofs.
--
-- The opportunity service, with paths from auction-server/src/opportunity.
--   Opportunity/Entities and Equality: entities/opportunity.rs. Opportunity/Repository: the store in
--   memory. Opportunity/Service: adding, refreshing, removing and sweeping, and the service as a state
--   machine in Steps. The verification reads the opportunities of this store.
--
-- Prelude holds the shared lists, tests and results; Relay/Tests, Relay/PermissionTests,
-- Relay/SwapTests, Auction/Tests, Verification/Tests, Verification/CheckTests,
-- Verification/HandlingTests and Opportunity/Tests apply the theorems to concrete accounts,
-- transactions, bids and services.
--
-- Numbers are natural numbers: u64 arithmetic is checked against 2 ^ 64 where the source checks it,
-- and saturates where the source saturates. The program's deadlines are signed, and kept as t + 2 ^ 63.
-- Times of the server are milliseconds. Keys of accounts and ids are numbers, since they are only
-- compared; the keys inside a permission key and a transaction are their bytes. The loops of the source
-- are recursions on lists, and the conclusion loop is one turn at a time. The loop of simulate_bid has
-- fuel 6: it retries at most five times, and Verification/Simulation/Retrying shows that it is enough.
--
-- What the code calls from outside is a parameter with named laws: the system program's transfer and
-- the rent (RuntimeLaws), the token program's transfer (TokenLaws, for mints without a transfer
-- fee), Anchor's discriminator, Borsh's decoding and derived addresses (Crate), the RPC node's
-- answers, the simulation of bids and the relayer's signing.
--
-- Not modelled: the constraints that Anchor checks on the accounts of a swap, withdraw_spl_fees, the
-- rounding of the clock to seconds, get_quote.rs but for the functions above, the conversions of
-- opportunities to the API and the database, optimize_bids, the resending of transactions, locks,
-- analytics, the HTTP and websocket interface, metrics, and the clients. Updates that the
-- server joins are made in the order of their list; the updates of several tasks interleave as
-- histories of updates.
pub mod Prelude
pub mod Relay
pub mod Auction
pub mod Opportunity
pub mod Verification
