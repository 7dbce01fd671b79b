-- ===== src/Verification/BidData.antt =====
-- get_bid_transaction_data.rs: what a bid's transaction says of the bid, read from its one instruction
-- of the Express Relay program. The slice after a discriminator is there, since the instruction's data
-- starts with one; the discriminators have eight bytes in the source, and any length here.
use per.Prelude.{
  ℕ, ◌*◌, ◌%◌, Bool, true, false, ◌&&◌, List, [], ◌∷◌, ◌==◌, not, if◌then◌else◌, length, drop, all,
  ok, err, ◌>>=◌, ◌>>◌, fail_if, ok_or, u64_limit,
}
use per.Auction.Entities.{
  KeyBytes, Transaction, CompiledInstruction, BidPaymentInstructionType, submit_bid_type, swap_type,
  BidChainDataSvm,
}
use per.Relay.Permission.{SubmitBidArgs}
use per.Relay.State.{fee_bps_to_ppm}
use per.Relay.Swap.{SwapArgs, SwapV2Args}
use per.Verification.Solana.{ExpressRelaySvm}
use per.Verification.Instructions.{Verifier, Numbered, account_of, extract_program_instructions}
use per.Auction.Errors.{
  Reply, bad_parameters, invalid_express_relay_instruction_count, wrong_instruction_type,
  invalid_swap_data, invalid_submit_bid_data,
}

pub record SubmitBidAccounts : Type 0 where
  pub router : KeyBytes
  pub permission_account : KeyBytes

pub record SwapAccounts : Type 0 where
  pub searcher : KeyBytes
  pub user_wallet : KeyBytes
  pub mint_searcher : KeyBytes
  pub mint_user : KeyBytes
  pub router_token_account : KeyBytes
  pub token_program_searcher : KeyBytes
  pub token_program_user : KeyBytes

pub record BidTransactionDataSubmitBid : Type 0 where
  pub args : SubmitBidArgs
  pub accounts : SubmitBidAccounts
  pub express_relay_instruction_index : ℕ

pub record BidTransactionDataSwap : Type 0 where
  pub args : SwapV2Args
  pub accounts : SwapAccounts
  pub express_relay_instruction_index : ℕ

pub data BidTransactionData : Type 0 where
  submit_bid_data : BidTransactionDataSubmitBid → BidTransactionData
  swap_data : BidTransactionDataSwap → BidTransactionData

abbrev pub starts_with : List ℕ → List ℕ → Bool
starts_with xs [] = true
starts_with [] (y ∷ ys) = false
starts_with (x ∷ xs) (y ∷ ys) = x == y && starts_with xs ys

unfoldable pub valid_discriminators : ExpressRelaySvm → BidPaymentInstructionType → List (List ℕ)
valid_discriminators relay submit_bid_type = relay.submit_bid_discriminator ∷ []
valid_discriminators relay swap_type = relay.swap_discriminator ∷ relay.swap_v2_discriminator ∷ []

abbrev pub the_only_one : List Numbered → Reply Numbered
the_only_one (instruction ∷ []) = ok instruction
the_only_one instructions = err (invalid_express_relay_instruction_count (length instructions))

unfoldable pub extract_express_relay_instruction :
    Verifier → Transaction → BidPaymentInstructionType → Reply Numbered
extract_express_relay_instruction v tx instruction_type = do
  instructions ← extract_program_instructions tx v.express_relay.program_id
  (index, instruction) ← the_only_one instructions
  fail_if
      (all (λ d. not (starts_with instruction.bytes d))
        (valid_discriminators v.express_relay instruction_type))
      (bad_parameters wrong_instruction_type)
  ok (index, instruction)

unfoldable pub extract_submit_bid_data : Verifier → CompiledInstruction → Reply SubmitBidArgs
extract_submit_bid_data v instruction =
    let relay = v.express_relay in
    ok_or (relay.submit_bid_args (drop (length relay.submit_bid_discriminator) instruction.bytes))
      (bad_parameters invalid_submit_bid_data)

unfoldable pub get_bid_transaction_data_submit_bid :
    Verifier → Transaction → Reply BidTransactionDataSubmitBid
get_bid_transaction_data_submit_bid v tx = do
  (index, instruction) ← extract_express_relay_instruction v tx submit_bid_type
  args ← extract_submit_bid_data v instruction
  permission_account ←
      account_of v tx instruction v.express_relay.submit_bid_positions.permission_account
  router ← account_of v tx instruction v.express_relay.submit_bid_positions.router_account
  ok (record {
    args = args;
    accounts = record { router = router; permission_account = permission_account };
    express_relay_instruction_index = index;
  })

unfoldable pub extract_swap_accounts :
    Verifier → Transaction → CompiledInstruction → Reply SwapAccounts
extract_swap_accounts v tx swap_instruction = do
  let positions = v.express_relay.swap_positions
  searcher ← account_of v tx swap_instruction positions.searcher_account
  user_wallet ← account_of v tx swap_instruction positions.user_wallet_account
  mint_searcher ← account_of v tx swap_instruction positions.mint_searcher_account
  mint_user ← account_of v tx swap_instruction positions.mint_user_account
  router_token_account ← account_of v tx swap_instruction positions.router_token_account
  token_program_searcher ← account_of v tx swap_instruction positions.token_program_searcher
  token_program_user ← account_of v tx swap_instruction positions.token_program_user
  ok (record {
    searcher = searcher;
    user_wallet = user_wallet;
    mint_searcher = mint_searcher;
    mint_user = mint_user;
    router_token_account = router_token_account;
    token_program_searcher = token_program_searcher;
    token_program_user = token_program_user;
  })

-- SwapArgs::convert_to_v2 as the server runs it: its build does not check for overflow, so the
-- products wrap.
unfoldable pub convert_to_v2_wrapping : SwapArgs → ℕ → SwapV2Args
convert_to_v2_wrapping args swap_platform_fee_bps = record {
  deadline = args.deadline;
  amount_searcher = args.amount_searcher;
  amount_user = args.amount_user;
  referral_fee_ppm = args.referral_fee_bps * fee_bps_to_ppm % u64_limit;
  fee_token = args.fee_token;
  swap_platform_fee_ppm = swap_platform_fee_bps * fee_bps_to_ppm % u64_limit;
}

-- The platform fee of the program's metadata, as the opportunity service answers for it.
abbrev pub PlatformFee : Type 0
PlatformFee = Reply ℕ

unfoldable pub extract_swap_data : Verifier → PlatformFee → CompiledInstruction → Reply SwapV2Args
extract_swap_data v platform_fee instruction =
    let relay = v.express_relay in
    if starts_with instruction.bytes relay.swap_discriminator
    then (do
      swap_platform_fee_bps ← platform_fee
      args ←
          ok_or (relay.swap_args (drop (length relay.swap_discriminator) instruction.bytes))
            (bad_parameters invalid_swap_data)
      ok (convert_to_v2_wrapping args swap_platform_fee_bps))
    else ok_or (relay.swap_v2_args (drop (length relay.swap_v2_discriminator) instruction.bytes))
        (bad_parameters invalid_swap_data)

unfoldable pub get_bid_transaction_data_swap :
    Verifier → PlatformFee → Transaction → Reply BidTransactionDataSwap
get_bid_transaction_data_swap v platform_fee tx = do
  (index, instruction) ← extract_express_relay_instruction v tx swap_type
  args ← extract_swap_data v platform_fee instruction
  accounts ← extract_swap_accounts v tx instruction
  ok (record { args = args; accounts = accounts; express_relay_instruction_index = index })

-- The data of a stored bid, whose chain data has its router and permission account.
unfoldable pub get_bid_transaction_data :
    Verifier → PlatformFee → BidChainDataSvm → Reply BidTransactionData
get_bid_transaction_data v platform_fee chain_data = elim chain_data.bid_payment_instruction_type [
  | submit_bid_type ↦ do
    (index, instruction) ←
        extract_express_relay_instruction v chain_data.transaction submit_bid_type
    args ← extract_submit_bid_data v instruction
    ok (
        submit_bid_data (record {
          args = args;
          accounts = record {
            router = chain_data.router;
            permission_account = chain_data.permission_account;
          };
          express_relay_instruction_index = index;
        }))
  | swap_type ↦ do
    transaction_data ← get_bid_transaction_data_swap v platform_fee chain_data.transaction
    ok (swap_data transaction_data)
]
