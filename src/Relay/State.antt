-- ===== src/Relay/State.antt =====
-- contracts/svm/programs/express_relay/src/state.rs and error.rs, with the other errors that the
-- program's functions return. A public key is a number, since keys are only compared.
use per.Prelude.{ℕ, Result}

abbrev pub Pubkey : Type 0
Pubkey = ℕ

abbrev pub fee_split_precision : ℕ
fee_split_precision = 10000

abbrev pub fee_split_precision_ppm : ℕ
fee_split_precision_ppm = 1000000

abbrev pub fee_bps_to_ppm : ℕ
fee_bps_to_ppm = 100

pub record ExpressRelayMetadata : Type 0 where
  pub admin : Pubkey
  pub relayer_signer : Pubkey
  pub fee_receiver_relayer : Pubkey
  pub split_router_default : ℕ
  pub split_relayer : ℕ
  pub swap_platform_fee_bps : ℕ
  pub secondary_relayer_signer : Pubkey

pub record ConfigRouter : Type 0 where
  pub router : Pubkey
  pub split : ℕ

pub data ErrorCode : Type 0 where
  fee_split_larger_than_precision fees_higher_than_bid deadline_passed : ErrorCode
  invalid_cpi_submit_bid missing_permission multiple_permissions : ErrorCode
  insufficient_searcher_funds insufficient_rent invalid_referral_fee : ErrorCode
  insufficient_user_funds : ErrorCode

-- Anchor's own codes, as far as the program returns or declares them.
pub data AnchorError : Type 0 where
  account_not_signer account_not_initialized account_did_not_deserialize : AnchorError
  account_not_associated_token_account invalid_program_id : AnchorError
  constraint_has_one constraint_seeds constraint_raw constraint_address : AnchorError
  constraint_token_token_program constraint_token_owner constraint_token_mint : AnchorError

-- `panic` is a failed arithmetic check; `cpi` is an error that another program returned.
pub data Error : Type 0 where
  code : ErrorCode → Error
  anchor : AnchorError → Error
  arithmetic_overflow invalid_account_data invalid_instruction_data borsh_io_error panic : Error
  cpi : ℕ → Error

abbrev pub Outcome {ℓ} : Type ℓ → Type ℓ
Outcome A = Result Error A
