-- ===== src/Verification/Bid.antt =====
-- verify_bid of verification.rs. It is none when the simulation's loop runs out of fuel, which it does
-- not (Simulation/Retrying).
pub mod Acceptance
pub mod Passing
pub mod Reading
use per.Prelude.{
  ℕ, zero, suc, ◌+◌, ◌-◌, ◌*◌, ◌/◌, ◌%◌, ◌^◌, ◌≤◌, ◌<◌, ◌≡◌, refl, sym, ap, subst, ◌∙◌, ◌≢◌, ◌↔◌,
  ◌⊎◌, inl, inr, Bool, true, false, ◌&&◌, ◌||◌, Option, none, some, List, [], ◌∷◌, ◌++◌, map, arith,
  ltb, leb, ◌==◌, not, ◌!=◌, if◌then◌else◌, ==_refl, Bool-cases, Option-cases, bytes_eq,
  bytes_eq_refl, bytes_eq_iff, take-append, drop-append, length, take, drop, get_elem?,
  length-append, keep, find, any, all, is_empty, first, All, Result, ok, err, ◌>>=◌, ◌>>◌, fail_if,
  ok_or, Result-cases, OnSome, u64_limit, checked_add, checked_sub, checked_mul, saturating_sub,
}
use per.Auction.Entities.{
  KeyBytes, Time, Transaction, Bid, BidChainDataSvm, BidPaymentInstructionType, submit_bid_type,
  swap_type,
}
use per.Auction.Entities.PermissionKey.{PermissionKeySvm, get_permission_key}
use per.Auction.Repository.{PendingBids, get_in_memory_pending_bids_by_permission_key}
use per.Auction.Service.Handling.{SubmitType, by_server, by_other, invalid}
use per.Relay.Swap.{FeeToken, searcher_token, user_token, SwapV2Args}
use per.Opportunity.Entities.{
  OpportunityId, ChainId, OpportunityKey, OpportunitySvm, OpportunitySvmProgramSwap, QuoteTokens,
  user_token_specified, searcher_token_specified, get_swap_quote_tokens, get_opportunity_swap_data,
}
use per.Opportunity.Repository.{
  Opportunities, get_in_memory_opportunities_by_key, get_in_memory_opportunity_by_id,
}
use per.Verification.Instructions.{Verifier, validate_swap_transaction_instructions}
use per.Verification.BidData.{
  SwapAccounts, BidTransactionDataSwap, PlatformFee, get_bid_transaction_data_submit_bid,
  get_bid_transaction_data_swap,
}
use per.Verification.SwapFields.{check_svm_swap_bid_fields}
use per.Verification.Wrapping.{
  check_transfer_instruction, check_sync_native_instruction_exists, check_memo_instructions,
}
use per.Verification.Closing.{check_close_account_instruction}
use per.Verification.Creation.{check_create_ata_instructions}
use per.Verification.Signatures.{verify_signatures}
use per.Verification.Simulation.{SwapSimulation, simulate_swap_bid, Attempt, simulate_bid}
use per.Verification.Budget.{PrioritizationFeeSample, check_compute_budget, check_tx_size}
use per.Verification.Quote.{get_quote_virtual_permission_account, is_indicative_price_taker}
use per.Auction.Errors.{
  Reply, swap_opportunity_not_found, invalid_swap_instruction, invalid_deadline, duplicate_bid,
  bad_parameters, invalid_submit_type, associated_router_token_account, deadline_too_late,
  deadline_out_of_range,
}
use per.Verification.Extraction.{
  BidChainDataCreateSvm, World, BidDataSvm, rounded_with_offset, on_chain, get_transaction,
  extract_bid_data, swap_bid, bid_maximum_life_time_svm,
}

unfoldable pub payment_type_of : SubmitType → Reply BidPaymentInstructionType
payment_type_of by_server = ok submit_bid_type
payment_type_of by_other = ok swap_type
payment_type_of invalid = err (bad_parameters invalid_submit_type)

unfoldable pub check_deadlines : World → BidDataSvm → Reply (Unit {0})
check_deadlines world d = do
  fail_if (ltb d.deadline d.minimum_deadline) (invalid_deadline d.deadline d.minimum_deadline)
  fail_if (ltb (rounded_with_offset world.rounded_at_check bid_maximum_life_time_svm) d.deadline) (
      deadline_too_late d.deadline
        (rounded_with_offset world.rounded_at_check bid_maximum_life_time_svm))

abbrev pub live_opportunities : World → ChainId → PermissionKeySvm → List OpportunitySvm
live_opportunities world chain_id permission_key =
    get_in_memory_opportunities_by_key
      (record { chain_id = chain_id; permission_key = permission_key }) world.opportunities

unfoldable pub chain_data_of :
    Transaction → BidDataSvm → BidPaymentInstructionType → BidChainDataSvm
chain_data_of tx d payment_type = record {
  transaction = tx;
  bid_payment_instruction_type = payment_type;
  router = d.router;
  permission_account = d.permission_account;
}

-- The checks of the deadline and of the signatures.
unfoldable pub check_extracted :
    Verifier → World → ChainId → BidDataSvm → BidChainDataSvm → Reply (Unit {0})
check_extracted v world chain_id d bid_chain_data = do
  check_deadlines world d
  verify_signatures v bid_chain_data.transaction
      (live_opportunities world chain_id (get_permission_key bid_chain_data)) d.submit_type

-- verify_bid, up to the simulation.
unfoldable pub check_bid :
    Verifier → World → ChainId → BidChainDataCreateSvm → Reply (BidDataSvm × BidChainDataSvm)
check_bid v world chain_id chain_data = do
  let tx = get_transaction chain_data
  check_tx_size v tx
  check_compute_budget v world.now world.samples tx
  d ← extract_bid_data v world chain_data
  payment_type ← payment_type_of d.submit_type
  check_extracted v world chain_id d (chain_data_of tx d payment_type)
  ok (d, chain_data_of tx d payment_type)

abbrev pub is_indicative : BidDataSvm → Bool
is_indicative d = elim d.user_wallet_address [
  | none ↦ false
  | some wallet ↦ is_indicative_price_taker wallet
]

abbrev pub slot_of : BidChainDataCreateSvm → Option ℕ
slot_of (on_chain bid_data) = bid_data.slot
slot_of (swap_bid bid_data) = none

-- The simulation of a bid that passed the other checks.
unfoldable pub simulate :
    World
    → BidChainDataCreateSvm
    → BidDataSvm
    → BidPaymentInstructionType
    → Option (Reply (Unit {0}))
simulate world chain_data d swap_type =
    if is_indicative d
    then some (ok tt)
    else some (simulate_swap_bid world.swap_simulation d.express_relay_instruction_index)
simulate world chain_data d submit_bid_type = simulate_bid world.attempts (slot_of chain_data)

-- Transactions are equal when their signatures and their serialised messages are.
unfoldable pub same_transaction : Transaction → Transaction → Bool
same_transaction tx tx' = bytes_eq tx.signatures tx'.signatures && bytes_eq tx.message tx'.message

unfoldable pub is_same_bid : ChainId → Transaction → Bid → Bool
is_same_bid chain_id tx b = same_transaction tx b.chain_data.transaction && chain_id == b.chain_id

unfoldable pub is_duplicate : World → ChainId → BidChainDataSvm → Bool
is_duplicate world chain_id d =
    any (is_same_bid chain_id d.transaction)
      (get_in_memory_pending_bids_by_permission_key (get_permission_key d) world.pending_bids)

-- The end of verify_bid: a pending bid with the same transaction makes this one a duplicate.
unfoldable pub check_new :
    World → ChainId → BidDataSvm → BidChainDataSvm → Reply (BidChainDataSvm × ℕ)
check_new world chain_id d bid_chain_data = do
  fail_if (is_duplicate world chain_id bid_chain_data) duplicate_bid
  ok (bid_chain_data, d.amount)

-- What follows a simulation that ended.
unfoldable pub after_simulation {ℓ} :
    {A : Type ℓ} → Option (Reply (Unit {0})) → Reply A → Option (Reply A)
after_simulation none next = none
after_simulation (some simulated) next = some (simulated >> next)

unfoldable pub verify_bid :
    Verifier → World → ChainId → BidChainDataCreateSvm → Option (Reply (BidChainDataSvm × ℕ))
verify_bid v world chain_id chain_data = elim (check_bid v world chain_id chain_data) [
  | err e ↦ some (err e)
  | ok (d, bid_chain_data) ↦
      after_simulation (simulate world chain_data d bid_chain_data.bid_payment_instruction_type)
        (check_new world chain_id d bid_chain_data)
]
