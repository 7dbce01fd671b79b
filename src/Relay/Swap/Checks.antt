-- ===== src/Relay/Swap/Checks.antt =====
-- The order of the checks in swap_internal, and what its InsufficientUserFunds error hides.
use per.Prelude.{ℕ, ◌≤◌, ◌<◌, ◌≡◌, arith, ok, err}
use per.Relay.State.{code, anchor, insufficient_user_funds, account_not_initialized}
use per.Relay.Permission.{check_deadline, check_relayer_signer}
use per.Relay.Tokens.{Tokens, TokenRuntime, amount_in, check_receiver_and_transfer_token_if_needed}
use per.Relay.Swap.{
  Swap, SwapV2Args, TransferSwapFeeArgs, PostFeeSwapArgs, swap_fees, swap_internal,
  transfer_swap_fee_cpi, transfer_swap_fees_cpi, check_enough_balances, check_raw_constraints,
}

-- The checks of swap_internal that stand above its check of the balances.
pub record Passes (now : ℕ) (ctx : Swap) (args : SwapV2Args) (fees : TransferSwapFeeArgs)
    (post : PostFeeSwapArgs) : Type 0 where
  pub raw : check_raw_constraints ctx args.fee_token ≡ ok tt
  pub deadline : check_deadline now args.deadline ≡ ok tt
  pub signer : check_relayer_signer ctx.express_relay_metadata ctx.relayer_signer.key ≡ ok tt
  pub computed : swap_fees ctx args args.fee_token ≡ ok (fees, post)

module _ (r : TokenRuntime) where
  -- When the checks above it pass and the searcher can pay, a user who cannot pay makes the swap
  -- fail with InsufficientUserFunds, whatever the state of the fee receivers; and if the router's
  -- fee is positive and its receiver account is not initialised, then in any state where both can
  -- pay the same swap still fails, with AccountNotInitialized.
  pub insufficient_user_funds_masks_receiver :
      (now : ℕ) (short funded : Tokens) (ctx : Swap) (args : SwapV2Args)
      (fees : TransferSwapFeeArgs) (post : PostFeeSwapArgs)
      → Passes now ctx args fees post
      → args.amount_searcher ≤ amount_in (short ctx.searcher_ta_mint_searcher)
      → amount_in (short ctx.user_ata_mint_user) < args.amount_user
      → args.amount_searcher ≤ amount_in (funded ctx.searcher_ta_mint_searcher)
      → args.amount_user ≤ amount_in (funded ctx.user_ata_mint_user)
      → 0 < fees.fees.router_fee
      → (funded ctx.router_fee_receiver_ta).data_len ≡ 0
      → (swap_internal r now short ctx args ≡ err (code insufficient_user_funds))
        × (swap_internal r now funded ctx args ≡ err (anchor account_not_initialized))
  unfolding swap_internal check_enough_balances transfer_swap_fees_cpi transfer_swap_fee_cpi
      check_receiver_and_transfer_token_if_needed
  insufficient_user_funds_masks_receiver now short funded ctx args fees post p h1 h2 h3 h4 fee
        missing =
      (ground arith, ground arith)
