-- ===== src/Verification/SwapFields/Asked.antt =====
-- The swap that check_svm_swap_bid_fields accepts for an opportunity, by the opportunity's own tokens.
use per.Prelude.{◌≡◌, sym, subst, ◌↔◌, ◌⊎◌, inl, inr, ◌==◌, some, arith, Bool-cases, first, ok}
use per.Opportunity.Entities.{
  OpportunitySvm, OpportunitySvmProgramSwap, QuoteTokens, TokenAmountSvm, user_token_specified,
  searcher_token_specified, get_swap_quote_tokens, get_opportunity_swap_data, quote_tokens_of,
}
use per.Verification.BidData.{BidTransactionDataSwap}
use per.Verification.SwapFields.{check_svm_swap_bid_fields, expected_of}
use per.Verification.SwapFields.Exact.{Matches, check_svm_swap_bid_fields_iff}

-- The user gives the opportunity's first buy token and the searcher its first sell token. The amount
-- of the sell token is fixed where it is not 0, and the amount of the buy token where it is.
pub record IsAskedFor (d : BidTransactionDataSwap) (swap : OpportunitySvmProgramSwap)
    (sell buy : TokenAmountSvm) : Type 0 where
  pub user : d.accounts.user_wallet ≡ swap.user_wallet_address
  pub mint_searcher : d.accounts.mint_searcher ≡ sell.token
  pub mint_user : d.accounts.mint_user ≡ buy.token
  pub amount_searcher : ¬ (sell.amount ≡ 0) → d.args.amount_searcher ≡ sell.amount
  pub amount_user : sell.amount ≡ 0 → d.args.amount_user ≡ buy.amount
  pub token_program_searcher : d.accounts.token_program_searcher ≡ swap.token_program_searcher
  pub token_program_user : d.accounts.token_program_user ≡ swap.token_program_user
  pub fee_token : d.args.fee_token ≡ swap.fee_token
  pub referral_fee : d.args.referral_fee_ppm ≡ swap.referral_fee_ppm
  pub platform_fee : d.args.swap_platform_fee_ppm ≡ swap.platform_fee_ppm

-- Which of the two amounts the quote's tokens fix.
abbrev Specified : TokenAmountSvm → TokenAmountSvm → QuoteTokens → Type 0
Specified sell buy tokens =
    ((sell.amount ≡ 0) × (tokens ≡ user_token_specified buy sell.token))
    ⊎ ((¬ (sell.amount ≡ 0)) × (tokens ≡ searcher_token_specified buy.token sell))

specified :
    (sell buy : TokenAmountSvm) (tokens : QuoteTokens)
    → quote_tokens_of buy sell ≡ ok tokens
    → Specified sell buy tokens
unfolding quote_tokens_of
specified sell buy tokens e = elim (Bool-cases (sell.amount == 0)) [
  | inl zero_amount ↦ inl (ground arith, ground arith)
  | inr other ↦ inr (λ z. absurd (ground arith), ground arith)
]

quote_tokens :
    (opp : OpportunitySvm) (tokens : QuoteTokens) (sell buy : TokenAmountSvm)
    → get_swap_quote_tokens opp ≡ ok tokens
    → first opp.create.sell_tokens ≡ some sell
    → first opp.create.buy_tokens ≡ some buy
    → quote_tokens_of buy sell ≡ ok tokens
unfolding get_swap_quote_tokens
quote_tokens opp tokens sell buy e s b = ground arith

asked_for :
    (d : BidTransactionDataSwap) (swap : OpportunitySvmProgramSwap) (sell buy : TokenAmountSvm)
    (tokens : QuoteTokens)
    → Specified sell buy tokens
    → Matches d swap tokens ↔ IsAskedFor d swap sell buy
unfolding expected_of
asked_for d swap sell buy tokens (inl (zero_amount, e)) =
    subst (λ t. Matches d swap t ↔ IsAskedFor d swap sell buy) (sym e)
      (
        λ m. record {
          user = m.same_user;
          mint_searcher = m.same_mint_searcher;
          mint_user = m.same_mint_user;
          amount_searcher = λ other. absurd (other zero_amount);
          amount_user = λ z. m.same_amount_user;
          token_program_searcher = m.same_token_program_searcher;
          token_program_user = m.same_token_program_user;
          fee_token = m.same_fee;
          referral_fee = m.same_referral_fee;
          platform_fee = m.same_platform_fee;
        },
        λ a. record {
          same_user = a.user;
          same_mint_searcher = a.mint_searcher;
          same_mint_user = a.mint_user;
          same_token_program_searcher = a.token_program_searcher;
          same_token_program_user = a.token_program_user;
          same_amount_searcher = tt;
          same_amount_user = a.amount_user zero_amount;
          same_fee = a.fee_token;
          same_referral_fee = a.referral_fee;
          same_platform_fee = a.platform_fee;
        },
      )
asked_for d swap sell buy tokens (inr (other, e)) =
    subst (λ t. Matches d swap t ↔ IsAskedFor d swap sell buy) (sym e)
      (
        λ m. record {
          user = m.same_user;
          mint_searcher = m.same_mint_searcher;
          mint_user = m.same_mint_user;
          amount_searcher = λ o. m.same_amount_searcher;
          amount_user = λ z. absurd (other z);
          token_program_searcher = m.same_token_program_searcher;
          token_program_user = m.same_token_program_user;
          fee_token = m.same_fee;
          referral_fee = m.same_referral_fee;
          platform_fee = m.same_platform_fee;
        },
        λ a. record {
          same_user = a.user;
          same_mint_searcher = a.mint_searcher;
          same_mint_user = a.mint_user;
          same_token_program_searcher = a.token_program_searcher;
          same_token_program_user = a.token_program_user;
          same_amount_searcher = a.amount_searcher other;
          same_amount_user = tt;
          same_fee = a.fee_token;
          same_referral_fee = a.referral_fee;
          same_platform_fee = a.platform_fee;
        },
      )

-- For an opportunity whose first sell and buy tokens are `sell` and `buy`, and whose program is a
-- swap with quote tokens, the fields of a swap bid are accepted exactly when the user's wallet, both
-- token programs, the token of the fees and both fees are the swap's, the searcher gives the sell
-- token and the user the buy token, and the amount is the sell token's where that is not 0, and the
-- buy token's where it is.
pub check_svm_swap_bid_fields-IsAskedFor :
    (d : BidTransactionDataSwap) (opp : OpportunitySvm) (swap : OpportunitySvmProgramSwap)
    (tokens : QuoteTokens) (sell buy : TokenAmountSvm)
    → get_opportunity_swap_data opp ≡ ok swap
    → get_swap_quote_tokens opp ≡ ok tokens
    → first opp.create.sell_tokens ≡ some sell
    → first opp.create.buy_tokens ≡ some buy
    → (check_svm_swap_bid_fields d swap tokens ≡ ok tt) ↔ IsAskedFor d swap sell buy
check_svm_swap_bid_fields-IsAskedFor d opp swap tokens sell buy is_swap quoted s b =
    let same = check_svm_swap_bid_fields_iff d swap tokens in
    let asked =
      asked_for d swap sell buy tokens
        (specified sell buy tokens (quote_tokens opp tokens sell buy quoted s b)) in
    (λ h. asked.0 (same.0 h), λ a. same.1 (asked.1 a))
