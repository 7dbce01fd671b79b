-- ===== src/Relay/Swap.antt =====
-- swap.rs of the program and its swap instructions in lib.rs (swap_internal, swap, swap_v2).
pub mod Flows
pub mod Checks
use per.Prelude.{
  ℕ, zero, suc, ◌+◌, ◌-◌, ◌*◌, ◌/◌, ◌%◌, ◌^◌, ◌≤◌, ◌<◌, ◌≡◌, refl, sym, ap, subst, ◌∙◌, ◌≢◌, ◌↔◌,
  ◌⊎◌, inl, inr, Bool, true, false, ◌&&◌, ◌||◌, Option, none, some, List, [], ◌∷◌, ◌++◌, map, arith,
  ltb, leb, ◌==◌, not, ◌!=◌, if◌then◌else◌, ==_refl, Bool-cases, Option-cases, length, drop,
  get_elem?, keep, find, any, all, is_empty, first, All, Result, ok, err, ◌>>=◌, ◌>>◌, fail_if,
  ok_or, Result-cases, OnSome, u64_limit, checked_add, checked_sub, checked_mul, saturating_sub,
}
use per.Relay.State.{
  Pubkey, ExpressRelayMetadata, Outcome, code, anchor, panic, fee_bps_to_ppm, constraint_raw,
  account_not_signer, constraint_seeds, insufficient_searcher_funds, insufficient_user_funds,
}
use per.Relay.Fees.{SwapFees, SwapFeesWithRemainingAmount, compute_swap_fees}
use per.Relay.Admin.{Signer}
use per.Relay.Permission.{check_deadline, check_relayer_signer}
use per.Relay.Tokens.{
  Tokens, TokenRuntime, TokenAccount, RawAccount, Transfer, Authority, amount_in,
  transfer_token_if_needed, check_receiver_and_transfer_token_if_needed,
}

pub data FeeToken : Type 0 where
  searcher_token user_token : FeeToken

-- `fee_token == FeeToken::Searcher`
abbrev pub is_searcher : FeeToken → Bool
is_searcher searcher_token = true
is_searcher user_token = false

pub record SwapArgs : Type 0 where
  pub deadline : ℕ
  pub amount_searcher : ℕ
  pub amount_user : ℕ
  pub referral_fee_bps : ℕ
  pub fee_token : FeeToken

pub record SwapV2Args : Type 0 where
  pub deadline : ℕ
  pub amount_searcher : ℕ
  pub amount_user : ℕ
  pub referral_fee_ppm : ℕ
  pub fee_token : FeeToken
  pub swap_platform_fee_ppm : ℕ

-- referral_fee_bps is a u16, so its product fits; the other product panics if it does not.
unfoldable pub convert_to_v2 : SwapArgs → ℕ → Outcome SwapV2Args
convert_to_v2 args swap_platform_fee_bps = do
  referral_fee_ppm ← ok_or (checked_mul args.referral_fee_bps fee_bps_to_ppm) panic
  swap_platform_fee_ppm ← ok_or (checked_mul swap_platform_fee_bps fee_bps_to_ppm) panic
  ok (record {
    deadline = args.deadline;
    amount_searcher = args.amount_searcher;
    amount_user = args.amount_user;
    referral_fee_ppm = referral_fee_ppm;
    fee_token = args.fee_token;
    swap_platform_fee_ppm = swap_platform_fee_ppm;
  })

-- The accounts of the Swap struct, by their addresses, with the deserialised metadata.
pub record Swap : Type 0 where
  pub searcher : Signer
  pub user : Signer
  pub searcher_ta_mint_searcher : Pubkey
  pub searcher_ta_mint_user : Pubkey
  pub user_ata_mint_searcher : Pubkey
  pub user_ata_mint_user : Pubkey
  pub router_fee_receiver_ta : Pubkey
  pub relayer_fee_receiver_ata : Pubkey
  pub express_relay_fee_receiver_ata : Pubkey
  pub mint_searcher : Pubkey
  pub mint_user : Pubkey
  pub mint_fee : Pubkey
  pub token_program_searcher : Pubkey
  pub token_program_user : Pubkey
  pub token_program_fee : Pubkey
  pub express_relay_metadata_key : Pubkey
  pub express_relay_metadata : ExpressRelayMetadata
  pub relayer_signer : Signer

unfoldable pub check_mint_user : Swap → FeeToken → Outcome (Unit {0})
check_mint_user ctx fee_token =
    let correct_mint_fee_key = if is_searcher fee_token then ctx.mint_searcher else ctx.mint_user in
    fail_if (ctx.mint_fee != correct_mint_fee_key) (anchor constraint_raw)

unfoldable pub check_token_program_fee : Swap → FeeToken → Outcome (Unit {0})
check_token_program_fee ctx fee_token =
    let correct_token_program_fee =
      if is_searcher fee_token then ctx.token_program_searcher else ctx.token_program_user in
    fail_if (ctx.token_program_fee != correct_token_program_fee) (anchor constraint_raw)

unfoldable pub check_raw_constraints : Swap → FeeToken → Outcome (Unit {0})
unfolding check_mint_user check_token_program_fee
check_raw_constraints ctx fee_token = do
  check_mint_user ctx fee_token
  check_token_program_fee ctx fee_token

pub record PostFeeSwapArgs : Type 0 where
  pub amount_searcher_after_fees : ℕ
  pub amount_user_after_fees : ℕ

pub record TransferSwapFeeArgs : Type 0 where
  pub fees : SwapFees
  pub source : Pubkey
  pub authority : Pubkey

-- Swap::compute_swap_fees, by the token in which the fees are paid.
unfoldable pub swap_fees :
    Swap → SwapV2Args → FeeToken → Outcome (TransferSwapFeeArgs × PostFeeSwapArgs)
swap_fees ctx args searcher_token = do
  r ←
      compute_swap_fees ctx.express_relay_metadata args.referral_fee_ppm args.swap_platform_fee_ppm
        args.amount_searcher
  ok (
    record { fees = r.fees; source = ctx.searcher_ta_mint_searcher; authority = ctx.searcher.key },
    record {
      amount_searcher_after_fees = r.remaining_amount;
      amount_user_after_fees = args.amount_user;
    },
  )
swap_fees ctx args user_token = do
  r ←
      compute_swap_fees ctx.express_relay_metadata args.referral_fee_ppm args.swap_platform_fee_ppm
        args.amount_user
  ok (
    record { fees = r.fees; source = ctx.user_ata_mint_user; authority = ctx.user.key },
    record {
      amount_searcher_after_fees = args.amount_searcher;
      amount_user_after_fees = r.remaining_amount;
    },
  )

unfoldable pub check_enough_balances : Tokens → Swap → SwapV2Args → Outcome (Unit {0})
check_enough_balances s ctx args = do
  fail_if (ltb (amount_in (s ctx.searcher_ta_mint_searcher)) args.amount_searcher)
      (code insufficient_searcher_funds)
  fail_if (ltb (amount_in (s ctx.user_ata_mint_user)) args.amount_user)
      (code insufficient_user_funds)

-- Who authorises the transfers of each token, under which mint and token program.
abbrev pub searcher_authority : Swap → Authority
searcher_authority ctx = record {
  token_program = ctx.token_program_searcher;
  mint = ctx.mint_searcher;
  authority = ctx.searcher.key;
}

abbrev pub user_authority : Swap → Authority
user_authority ctx = record {
  token_program = ctx.token_program_user;
  mint = ctx.mint_user;
  authority = ctx.user.key;
}

-- The transfers of the two tokens that are exchanged.
abbrev pub from_searcher : Swap → PostFeeSwapArgs → Transfer
from_searcher ctx post = record {
  source = ctx.searcher_ta_mint_searcher;
  target = ctx.user_ata_mint_searcher;
  amount = post.amount_searcher_after_fees;
}

abbrev pub from_user : Swap → PostFeeSwapArgs → Transfer
from_user ctx post = record {
  source = ctx.user_ata_mint_user;
  target = ctx.searcher_ta_mint_user;
  amount = post.amount_user_after_fees;
}

module _ (r : TokenRuntime) where
  unfoldable pub transfer_swap_fee_cpi :
      Tokens → Swap → ℕ → Pubkey → Option Pubkey → TransferSwapFeeArgs → Outcome Tokens
  transfer_swap_fee_cpi s ctx fee receiver_ta receiver args =
      check_receiver_and_transfer_token_if_needed r s
        (record {
          token_program = ctx.token_program_fee;
          mint = ctx.mint_fee;
          authority = args.authority;
        })
        receiver (record { source = args.source; target = receiver_ta; amount = fee })

  unfoldable pub transfer_swap_fees_cpi : Tokens → Swap → TransferSwapFeeArgs → Outcome Tokens
  transfer_swap_fees_cpi s ctx args = do
    s1 ← transfer_swap_fee_cpi s ctx args.fees.router_fee ctx.router_fee_receiver_ta none args
    s2 ←
        transfer_swap_fee_cpi s1 ctx args.fees.relayer_fee ctx.relayer_fee_receiver_ata
          (some ctx.express_relay_metadata.fee_receiver_relayer) args
    transfer_swap_fee_cpi s2 ctx args.fees.express_relay_fee ctx.express_relay_fee_receiver_ata
        (some ctx.express_relay_metadata_key) args

  -- The two transfers of swap_internal that exchange the tokens.
  unfoldable pub exchange : Tokens → Swap → PostFeeSwapArgs → Outcome Tokens
  exchange s ctx post = do
    s1 ← transfer_token_if_needed r s (searcher_authority ctx) (from_searcher ctx post)
    transfer_token_if_needed r s1 (user_authority ctx) (from_user ctx post)

  unfoldable pub swap_internal : ℕ → Tokens → Swap → SwapV2Args → Outcome Tokens
  swap_internal now s ctx args = do
    check_raw_constraints ctx args.fee_token
    check_deadline now args.deadline
    check_relayer_signer ctx.express_relay_metadata ctx.relayer_signer.key
    (transfer_swap_fees, post) ← swap_fees ctx args args.fee_token
    check_enough_balances s ctx args
    s1 ← transfer_swap_fees_cpi s ctx transfer_swap_fees
    exchange s1 ctx post

  unfoldable pub swap : ℕ → Tokens → Swap → SwapArgs → Outcome Tokens
  swap now s ctx args = do
    v2 ← convert_to_v2 args ctx.express_relay_metadata.swap_platform_fee_bps
    swap_internal now s ctx v2

  unfoldable pub swap_v2 : ℕ → Tokens → Swap → SwapV2Args → Outcome Tokens
  swap_v2 now s ctx args = swap_internal now s ctx args
