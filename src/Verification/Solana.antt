-- ===== src/Verification/Solana.antt =====
-- What the verification takes from code outside the repository: the Solana SDK, the SPL crates, Anchor
-- and Borsh. All of it is a parameter: the program ids, the decoders of instruction data (none where the
-- data does not decode), the addresses that seeds derive, signatures and sizes.
use per.Prelude.{ℕ, Bool, Option, List}
use per.Auction.Entities.{KeyBytes, Signature, Time, Transaction}
use per.Relay.Permission.{SubmitBidArgs}
use per.Relay.Swap.{SwapArgs, SwapV2Args}

-- Of each program's instructions, those that the server tells apart.
pub data SystemInstruction : Type 0 where
  transfer : (lamports : ℕ) → SystemInstruction
  other_system_instruction : SystemInstruction

pub data TokenInstruction : Type 0 where
  close_account sync_native other_token_instruction : TokenInstruction

pub data AssociatedTokenAccountInstruction : Type 0 where
  create create_idempotent other_ata_instruction : AssociatedTokenAccountInstruction

pub data ComputeBudgetInstruction : Type 0 where
  set_compute_unit_price : (price : ℕ) → ComputeBudgetInstruction
  other_budget_instruction : ComputeBudgetInstruction

pub record Solana : Type 0 where
  pub system_program : KeyBytes
  pub spl_token : KeyBytes
  pub spl_associated_token_account : KeyBytes
  pub spl_memo_client : KeyBytes
  pub compute_budget : KeyBytes
  pub native_mint : KeyBytes
  pub system_instruction : List ℕ → Option SystemInstruction
  pub token_instruction : List ℕ → Option TokenInstruction
  pub associated_token_account_instruction : List ℕ → Option AssociatedTokenAccountInstruction
  pub compute_budget_instruction : List ℕ → Option ComputeBudgetInstruction
  -- get_associated_token_address_with_program_id, of a wallet, a mint and a token program
  pub associated_token_address : KeyBytes → KeyBytes → KeyBytes → KeyBytes
  -- Pubkey::find_program_address, for the program id of zeros
  pub find_program_address : List (List ℕ) → KeyBytes
  pub verify_signature : Signature → KeyBytes → List ℕ → Bool
  pub serialized_size : Transaction → Option ℕ
  pub packet_data_size : ℕ
  -- OffsetDateTime::from_unix_timestamp, of t + 2 ^ 63
  pub from_unix_timestamp : ℕ → Option Time
  -- Rent::default().minimum_balance(TokenAccount::LEN)
  pub token_account_rent : ℕ

-- The Anchor crate of the program, and the server's configuration of it.
pub record SubmitBidInstructionAccountPositions : Type 0 where
  pub permission_account : ℕ
  pub router_account : ℕ

pub record SwapInstructionAccountPositions : Type 0 where
  pub searcher_account : ℕ
  pub user_wallet_account : ℕ
  pub mint_searcher_account : ℕ
  pub mint_user_account : ℕ
  pub router_token_account : ℕ
  pub token_program_searcher : ℕ
  pub token_program_user : ℕ

pub record ExpressRelaySvm : Type 0 where
  pub program_id : KeyBytes
  pub relayer : KeyBytes
  pub submit_bid_discriminator : List ℕ
  pub swap_discriminator : List ℕ
  pub swap_v2_discriminator : List ℕ
  pub submit_bid_args : List ℕ → Option SubmitBidArgs
  pub swap_args : List ℕ → Option SwapArgs
  pub swap_v2_args : List ℕ → Option SwapV2Args
  pub submit_bid_positions : SubmitBidInstructionAccountPositions
  pub swap_positions : SwapInstructionAccountPositions
