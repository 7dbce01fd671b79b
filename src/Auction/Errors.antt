-- ===== src/Auction/Errors.antt =====
-- auction-server/src/api.rs: the errors that the modelled operations return. What is only put into a
-- text is left out of BadParameters, of the decoders' errors and of a failed simulation.
use per.Prelude.{ℕ, Option, Result, List}
use per.Auction.Entities.{KeyBytes, Time}
use per.Relay.Swap.{FeeToken}

-- The messages of BadParameters.
pub data Message : Type 0 where
  quote_not_found not_awaiting_signature not_cancellable : Message
  lookup_table_not_found lookup_table_not_deserialized no_lookup_tables : Message
  account_not_in_lookup_table account_not_in_instruction account_not_in_lookup_accounts : Message
  invalid_submit_bid_data invalid_swap_data wrong_instruction_type : Message
  transaction_not_serialized deadline_out_of_range : Message
  invalid_submit_type permission_key_not_valid opportunity_not_found chain_not_found : Message

pub data InstructionError : Type 0 where
  unsupported_system_program_instruction invalid_spl_token_instruction : InstructionError
  unsupported_spl_token_instruction : InstructionError
  invalid_associated_token_account_instruction : InstructionError
  unsupported_associated_token_account_instruction : InstructionError
  unsupported_program : KeyBytes → InstructionError
  transfer_instruction_not_allowed close_account_instruction_not_allowed : InstructionError
  invalid_transfer_instructions_count : InstructionError
  invalid_from_account_transfer_instruction : (expected found : KeyBytes) → InstructionError
  invalid_to_account_transfer_instruction : (expected found : KeyBytes) → InstructionError
  invalid_amount_transfer_instruction : (expected found : ℕ) → InstructionError
  invalid_sync_native_instruction_count : KeyBytes → InstructionError
  invalid_close_account_instruction_count_user : ℕ → InstructionError
  invalid_close_account_instruction_count_searcher : ℕ → InstructionError
  invalid_account_to_close_in_close_account_instruction : KeyBytes → InstructionError
  invalid_destination_close_account_instruction : (expected found : KeyBytes) → InstructionError
  invalid_owner_close_account_instruction : (expected found : KeyBytes) → InstructionError
  invalid_mint_in_create_ata_instruction : (expected found : KeyBytes) → InstructionError
  invalid_owner_in_create_ata_instruction : (expected found : KeyBytes) → InstructionError
  invalid_payer_in_create_ata_instruction : (expected found : KeyBytes) → InstructionError
  invalid_token_program_in_create_ata_instruction : (expected found : KeyBytes) → InstructionError
  invalid_system_program_in_create_ata_instruction : KeyBytes → InstructionError
  missing_create_ata_instruction : KeyBytes → InstructionError
  invalid_memo_instruction_count : (expected found : ℕ) → InstructionError
  invalid_memo_string : (expected found : List ℕ) → InstructionError

pub data SwapInstructionError : Type 0 where
  user_wallet_address : (expected found : KeyBytes) → SwapInstructionError
  mint_searcher_differs : (expected found : KeyBytes) → SwapInstructionError
  mint_user_differs : (expected found : KeyBytes) → SwapInstructionError
  token_program_searcher_differs : (expected found : KeyBytes) → SwapInstructionError
  token_program_user_differs : (expected found : KeyBytes) → SwapInstructionError
  amount_searcher_differs : (expected found : ℕ) → SwapInstructionError
  amount_user_differs : (expected found : ℕ) → SwapInstructionError
  fee_token_differs : (expected found : FeeToken) → SwapInstructionError
  referral_fee_differs : (expected found : ℕ) → SwapInstructionError
  platform_fee_differs : (expected found : ℕ) → SwapInstructionError
  associated_router_token_account : (expected found : KeyBytes) → SwapInstructionError

-- The last constructor is no variant of the source: it stands for a panic of the handler.
pub data RestError : Type 0 where
  bad_parameters : Message → RestError
  forbidden cancel_quote_access_revoked temporarily_unavailable : RestError
  quote_is_expired quote_is_finalized quote_is_cancelled : RestError
  simulation_error duplicate_opportunity swap_opportunity_not_found : RestError
  transaction_size_too_large : (size limit : ℕ) → RestError
  multiple_set_compute_unit_price_instructions : RestError
  set_compute_unit_price_instruction_not_found : ℕ → RestError
  low_compute_unit_price : ℕ → RestError
  invalid_instruction : Option ℕ → InstructionError → RestError
  invalid_express_relay_instruction_count : ℕ → RestError
  invalid_swap_instruction : SwapInstructionError → RestError
  invalid_deadline : (deadline minimum : Time) → RestError
  deadline_too_late : (deadline maximum : Time) → RestError
  invalid_signature : KeyBytes → RestError
  relayer_not_signer : KeyBytes → RestError
  invalid_first_signer : RestError
  duplicate_bid : RestError
  handler_panic : RestError

abbrev pub Reply {ℓ} : Type ℓ → Type ℓ
Reply A = Result RestError A
