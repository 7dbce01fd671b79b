-- ===== src/Verification/Extraction.antt =====
-- extract_bid_data of verification.rs, with the bids to create of entities/bid.rs: what a bid says, by
-- its transaction. The clock's readings, the answers of the network, the opportunities and the pending
-- bids are a World.
use per.Prelude.{
  ℕ, ◌+◌, Option, none, some, List, not, if◌then◌else◌, bytes_eq, ok, ◌>>=◌, ◌>>◌, fail_if, ok_or,
}
use per.Auction.Entities.{KeyBytes, Time, Transaction}
use per.Auction.Repository.{PendingBids}
use per.Auction.Service.Handling.{SubmitType, by_server, by_other}
use per.Relay.Swap.{FeeToken, searcher_token, user_token, SwapV2Args}
use per.Opportunity.Entities.{
  OpportunityId, OpportunitySvm, OpportunitySvmProgramSwap, QuoteTokens, user_token_specified,
  searcher_token_specified, get_swap_quote_tokens, get_opportunity_swap_data,
}
use per.Opportunity.Repository.{Opportunities, get_in_memory_opportunity_by_id}
use per.Verification.Instructions.{Verifier, validate_swap_transaction_instructions}
use per.Verification.BidData.{
  SwapAccounts, BidTransactionDataSwap, PlatformFee, get_bid_transaction_data_submit_bid,
  get_bid_transaction_data_swap,
}
use per.Verification.SwapFields.{check_svm_swap_bid_fields}
use per.Verification.Wrapping.{
  check_transfer_instruction, check_sync_native_instruction_exists, check_memo_instructions,
}
use per.Verification.Closing.{check_close_account_instruction}
use per.Verification.Creation.{check_create_ata_instructions}
use per.Verification.Simulation.{SwapSimulation, Attempt}
use per.Verification.Budget.{PrioritizationFeeSample}
use per.Verification.Quote.{get_quote_virtual_permission_account}
use per.Auction.Errors.{
  Reply, swap_opportunity_not_found, invalid_swap_instruction, bad_parameters,
  associated_router_token_account, deadline_out_of_range,
}

pub record BidChainDataOnChainCreateSvm : Type 0 where
  pub transaction : Transaction
  pub slot : Option ℕ

pub record BidChainDataSwapCreateSvm : Type 0 where
  pub transaction : Transaction
  pub opportunity_id : OpportunityId

pub data BidChainDataCreateSvm : Type 0 where
  on_chain : BidChainDataOnChainCreateSvm → BidChainDataCreateSvm
  swap_bid : BidChainDataSwapCreateSvm → BidChainDataCreateSvm

abbrev pub get_transaction : BidChainDataCreateSvm → Transaction
get_transaction (on_chain bid_data) = bid_data.transaction
get_transaction (swap_bid bid_data) = bid_data.transaction

pub record BidDataSvm : Type 0 where
  pub amount : ℕ
  pub router : KeyBytes
  pub permission_account : KeyBytes
  pub deadline : Time
  pub submit_type : SubmitType
  pub express_relay_instruction_index : ℕ
  pub user_wallet_address : Option KeyBytes
  pub minimum_deadline : Time

-- Times are in milliseconds. The two rounded times are the clock's readings where the minimum of an
-- on-chain bid and the maximum are set.
pub record World : Type 0 where
  pub now : Time
  pub rounded_at_extraction : Time
  pub rounded_at_check : Time
  pub samples : List PrioritizationFeeSample
  pub opportunities : Opportunities
  pub pending_bids : PendingBids
  pub platform_fee : PlatformFee
  pub swap_simulation : SwapSimulation
  pub attempts : ℕ → Attempt

abbrev pub bid_minimum_life_time_svm_server : Time
bid_minimum_life_time_svm_server = 5000

abbrev pub bid_maximum_life_time_svm : Time
bid_maximum_life_time_svm = 45000

-- get_current_time_rounded_with_offset, of the clock's reading rounded to seconds.
unfoldable pub rounded_with_offset : Time → Time → Time
rounded_with_offset rounded offset = rounded + offset

unfoldable pub deadline_of : Verifier → ℕ → Reply Time
deadline_of v deadline =
    ok_or (v.solana.from_unix_timestamp deadline) (bad_parameters deadline_out_of_range)

unfoldable pub extract_on_chain : Verifier → World → BidChainDataOnChainCreateSvm → Reply BidDataSvm
extract_on_chain v world bid_data = do
  d ← get_bid_transaction_data_submit_bid v bid_data.transaction
  deadline ← deadline_of v d.args.deadline
  ok (record {
    amount = d.args.bid_amount;
    router = d.accounts.router;
    permission_account = d.accounts.permission_account;
    deadline = deadline;
    submit_type = by_server;
    express_relay_instruction_index = d.express_relay_instruction_index;
    user_wallet_address = none;
    minimum_deadline =
        rounded_with_offset world.rounded_at_extraction bid_minimum_life_time_svm_server;
  })

-- The bid is in the unspecified token.
unfoldable pub swap_bid_amount : QuoteTokens → SwapV2Args → ℕ
swap_bid_amount (user_token_specified user searcher) args = args.amount_searcher
swap_bid_amount (searcher_token_specified user searcher) args = args.amount_user

unfoldable pub fee_accounts : SwapAccounts → FeeToken → KeyBytes × KeyBytes
fee_accounts accounts searcher_token = (accounts.mint_searcher, accounts.token_program_searcher)
fee_accounts accounts user_token = (accounts.mint_user, accounts.token_program_user)

unfoldable pub router_account : Verifier → OpportunitySvm → BidTransactionDataSwap → KeyBytes
router_account v opp d =
    let (fee_token, fee_token_program) = fee_accounts d.accounts d.args.fee_token in
    v.solana.associated_token_address opp.create.router fee_token fee_token_program

unfoldable pub check_wrap_unwrap_native_token_instructions :
    Verifier → Transaction → BidTransactionDataSwap → OpportunitySvmProgramSwap → Reply (Unit {0})
check_wrap_unwrap_native_token_instructions v tx d opp = do
  check_transfer_instruction v tx d opp
  if bytes_eq d.accounts.mint_user v.solana.native_mint
      then check_sync_native_instruction_exists v tx d.accounts.user_wallet
      else ok tt
  check_close_account_instruction v tx d.accounts

-- The checks of a swap's instructions, and what the transaction says of the swap. The source reads the
-- swap's data twice, with the same answer.
unfoldable pub check_swap :
    Verifier
    → World
    → Transaction
    → OpportunitySvm
    → Reply (BidTransactionDataSwap × OpportunitySvmProgramSwap × QuoteTokens)
check_swap v world tx opp = do
  validate_swap_transaction_instructions v tx
  quote_tokens ← get_swap_quote_tokens opp
  opp_swap ← get_opportunity_swap_data opp
  d ← get_bid_transaction_data_swap v world.platform_fee tx
  check_svm_swap_bid_fields d opp_swap quote_tokens
  check_memo_instructions v tx opp_swap.memo
  check_create_ata_instructions v tx d.accounts opp_swap.token_account_initialization_configs
  check_wrap_unwrap_native_token_instructions v tx d opp_swap
  fail_if (not (bytes_eq (router_account v opp d) d.accounts.router_token_account)) (
      invalid_swap_instruction
        (associated_router_token_account (router_account v opp d) d.accounts.router_token_account))
  ok (d, opp_swap, quote_tokens)

unfoldable pub extract_swap : Verifier → World → BidChainDataSwapCreateSvm → Reply BidDataSvm
extract_swap v world bid_data = do
  opp ←
      ok_or (get_in_memory_opportunity_by_id bid_data.opportunity_id world.opportunities)
        swap_opportunity_not_found
  (d, opp_swap, quote_tokens) ← check_swap v world bid_data.transaction opp
  deadline ← deadline_of v d.args.deadline
  ok (record {
    amount = swap_bid_amount quote_tokens d.args;
    router = opp.create.router;
    permission_account =
        get_quote_virtual_permission_account v.solana quote_tokens d.accounts.user_wallet
          d.accounts.router_token_account d.args.referral_fee_ppm;
    deadline = deadline;
    submit_type = by_other;
    express_relay_instruction_index = d.express_relay_instruction_index;
    user_wallet_address = some d.accounts.user_wallet;
    minimum_deadline = opp_swap.minimum_deadline;
  })

unfoldable pub extract_bid_data : Verifier → World → BidChainDataCreateSvm → Reply BidDataSvm
extract_bid_data v world (on_chain bid_data) = extract_on_chain v world bid_data
extract_bid_data v world (swap_bid bid_data) = extract_swap v world bid_data
