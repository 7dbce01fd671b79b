-- ===== src/Verification/HandlingTests.antt =====
-- Handling a bid, and then verifying another one, and the same one again.
use per.Prelude.{◌≢◌, ℕ, zero, suc, ◌≡◌, refl, none, some, [], ◌∷◌, ok, List}
use per.Auction.Entities.{
  KeyBytes, Transaction, Bid, BidStatusSvm, BidChainDataSvm, submit_bid_type,
}
use per.Auction.Entities.PermissionKey.{get_permission_key}
use per.Auction.Database.{Row, BidStatus}
use per.Auction.Repository.{Repository, BidCreate}
use per.Verification.Extraction.{World, BidChainDataCreateSvm, on_chain}
use per.Verification.Bid.{verify_bid, same_transaction}
use per.Verification.Handling.{handle_bid}
use per.Auction.Repository.Operations.{Operation, add_bid_of, perform_all}
use per.Verification.Handling.Again.{handle_bid-not_again}
use per.Verification.Tests.{test_verifier, test_world, bid_transaction}
use per.Verification.Budget.{
  budgets_of, check_budgets, get_priority_fees, min_fee, check_tx_size, check_compute_budget,
}
use per.Verification.Bid.{
  check_extracted, is_duplicate, simulate, chain_data_of, check_deadlines, check_new, check_bid,
  payment_type_of, after_simulation, is_same_bid,
}
use per.Verification.Simulation.{simulate_bid, should_retry, simulate_turn, simulate_loop}
use per.Auction.Repository.{
  add_bid, get_bid_entity, new_row, push_pending, get_in_memory_pending_bids_by_permission_key,
}
use per.Verification.BidData.{
  get_bid_transaction_data_submit_bid, valid_discriminators, extract_express_relay_instruction,
  extract_submit_bid_data,
}
use per.Verification.Signatures.{
  signers_of, verify_submit_bid_signatures, all_signatures_exists, relayer_signer_exists,
  verify_signatures,
}
use per.Verification.Accounts.{locate_account, extract_account, resolve}
use per.Verification.Handling.{store_bid}
use per.Auction.Entities.PermissionKey.{get_chain_data_entity, stored_key}
use per.Verification.Extraction.{
  extract_on_chain, deadline_of, extract_bid_data, rounded_with_offset,
}
use per.Verification.Instructions.{program_id_of, extract_program_instructions, of_program}
use per.Auction.Database.{get_bid_status_entity}
use per.Opportunity.Repository.{get_in_memory_opportunities_by_key}

abbrev key_of : ℕ → ℕ → KeyBytes
key_of zero n = []
key_of (suc m) n = n ∷ key_of m n

-- Two transactions under one permission key, which differ in their message.
abbrev transaction_of : ℕ → Transaction
transaction_of message = record bid_transaction {
  static_account_keys = (1 ∷ []) ∷ key_of 32 21 ∷ key_of 32 22 ∷ (3 ∷ []) ∷ (15 ∷ []) ∷ [];
  message = message ∷ [];
}

abbrev create_of : ℕ → BidChainDataCreateSvm
create_of message = on_chain (record { transaction = transaction_of message; slot = some 7 })

abbrev data_of : ℕ → BidChainDataSvm
data_of message = record {
  transaction = transaction_of message;
  bid_payment_instruction_type = submit_bid_type;
  router = key_of 32 22;
  permission_account = key_of 32 21;
}

abbrev test_create : BidCreate
test_create = record { chain_id = 0; initiation_time = 1; profile_id = none; opportunity_id = none }

abbrev empty_repository : Repository
empty_repository = record { pending_bids = []; auctions = []; bid_rows = []; auction_rows = [] }

abbrev handled_bid : Bid
handled_bid = record {
  id = 9;
  chain_id = 0;
  initiation_time = 1;
  profile_id = none;
  opportunity_id = none;
  creation_time = 2;
  conclusion_time = none;
  submission_time = none;
  amount = 50;
  status = BidStatusSvm.pending;
  chain_data = data_of 5;
}

abbrev handled_row : Row
handled_row = record {
  id = 9;
  permission_key = get_permission_key (data_of 5);
  bid_amount = 50;
  status = BidStatus.pending;
  auction_id = none;
  initiation_time = 1;
  conclusion_time = none;
  transaction = transaction_of 5;
  status_reason = none;
}

abbrev handled_repository : Repository
handled_repository = record {
  pending_bids = (get_permission_key (data_of 5), handled_bid ∷ []) ∷ [];
  auctions = [];
  bid_rows = handled_row ∷ [];
  auction_rows = [];
}

abbrev later_world : World
later_world = record test_world { pending_bids = handled_repository.pending_bids }

handled :
    handle_bid test_verifier test_world 9 2 test_create (create_of 5) empty_repository
    ≡ some (ok handled_bid, handled_repository)
unfolding handle_bid per.Auction.Database.status_entity
    per.Auction.Entities.PermissionKey.get_bid_payment_instruction_type
    per.Auction.Entities.PermissionKey.get_router
    per.Auction.Entities.PermissionKey.get_permission_account store_bid add_bid new_row
    get_bid_entity push_pending get_bid_status_entity get_chain_data_entity stored_key verify_bid
    check_bid check_tx_size check_compute_budget extract_program_instructions of_program
    program_id_of check_budgets budgets_of min_fee get_priority_fees extract_bid_data
    extract_on_chain get_bid_transaction_data_submit_bid extract_express_relay_instruction
    valid_discriminators extract_submit_bid_data extract_account locate_account resolve deadline_of
    rounded_with_offset payment_type_of chain_data_of check_extracted check_deadlines
    verify_signatures signers_of verify_submit_bid_signatures relayer_signer_exists
    all_signatures_exists simulate simulate_bid simulate_loop simulate_turn should_retry
    after_simulation check_new is_duplicate get_in_memory_pending_bids_by_permission_key
    get_permission_key get_in_memory_opportunities_by_key
handled = refl

verified : verify_bid test_verifier later_world 0 (create_of 6) ≡ some (ok (data_of 6, 50))
unfolding verify_bid check_bid check_tx_size check_compute_budget extract_program_instructions
    of_program program_id_of check_budgets budgets_of min_fee get_priority_fees extract_bid_data
    extract_on_chain get_bid_transaction_data_submit_bid extract_express_relay_instruction
    valid_discriminators extract_submit_bid_data extract_account locate_account resolve deadline_of
    rounded_with_offset payment_type_of chain_data_of check_extracted check_deadlines
    verify_signatures signers_of verify_submit_bid_signatures relayer_signer_exists
    all_signatures_exists simulate simulate_bid simulate_loop simulate_turn should_retry
    after_simulation check_new is_duplicate get_in_memory_pending_bids_by_permission_key
    get_permission_key get_in_memory_opportunities_by_key same_transaction is_same_bid
verified = refl

-- Another bid comes before the same transaction is sent again.
abbrev operations_between : List Operation
operations_between = add_bid_of 10 3 test_create (data_of 6) 50 ∷ []

abbrev world_again : World
world_again = record test_world {
  pending_bids = (perform_all operations_between handled_repository).pending_bids;
}

handle_bid-not_again_example :
    verify_bid test_verifier world_again 0 (create_of 5) ≢ some (ok (data_of 5, 50))
handle_bid-not_again_example =
    handle_bid-not_again test_verifier test_world world_again 9 2 test_create
      (record { transaction = transaction_of 5; slot = some 7 })
      (record { transaction = transaction_of 5; slot = some 7 }) empty_repository handled_repository
      handled_bid operations_between (data_of 5) 50 handled (tt, tt) refl refl
      (record { router_sized = refl; permission_sized = refl })
