-- ===== src/Verification/SwapFields.antt =====
-- check_svm_swap_bid_fields of verification.rs: the swap of a bid is the one that its opportunity
-- asks for. The source reads the swap's data first and then compares it field by field.
pub mod Exact
pub mod Asked
use per.Prelude.{
  ℕ, ◌≡◌, refl, ◌↔◌, Bool, true, false, Option, none, some, not, ◌!=◌, bytes_eq, ok, ◌>>◌, fail_if,
  OnSome,
}
use per.Auction.Entities.{KeyBytes}
use per.Relay.Swap.{FeeToken, searcher_token, user_token, SwapV2Args}
use per.Opportunity.Entities.{
  OpportunitySvmProgramSwap, QuoteTokens, user_token_specified, searcher_token_specified,
}
use per.Verification.BidData.{SwapAccounts, BidTransactionDataSwap}
use per.Auction.Errors.{
  Reply, SwapInstructionError, user_wallet_address, amount_searcher_differs,
  invalid_swap_instruction, mint_searcher_differs, amount_user_differs, fee_token_differs,
  mint_user_differs, referral_fee_differs, token_program_searcher_differs, platform_fee_differs,
  token_program_user_differs,
}
use per.Verification.Checks.{seq_ok, amount_ok, key_ok}

-- What the quote's tokens fix: both mints, and the amount of one of them.
pub record Expected : Type 0 where
  pub mint_user : KeyBytes
  pub amount_user : Option ℕ
  pub mint_searcher : KeyBytes
  pub amount_searcher : Option ℕ

unfoldable pub expected_of : QuoteTokens → Expected
expected_of (user_token_specified user searcher) = record {
  mint_user = user.token;
  amount_user = some user.amount;
  mint_searcher = searcher;
  amount_searcher = none;
}
expected_of (searcher_token_specified user searcher) = record {
  mint_user = user;
  amount_user = none;
  mint_searcher = searcher.token;
  amount_searcher = some searcher.amount;
}

abbrev pub same_fee_token : FeeToken → FeeToken → Bool
same_fee_token searcher_token searcher_token = true
same_fee_token user_token user_token = true
same_fee_token _ _ = false

-- `if expected != found { return Err(..) }` on keys and on amounts.
abbrev pub check_key :
    (KeyBytes → KeyBytes → SwapInstructionError) → KeyBytes → KeyBytes → Reply (Unit {0})
check_key error expected found =
    fail_if (not (bytes_eq expected found)) (invalid_swap_instruction (error expected found))

abbrev pub check_amount : (ℕ → ℕ → SwapInstructionError) → ℕ → ℕ → Reply (Unit {0})
check_amount error expected found =
    fail_if (expected != found) (invalid_swap_instruction (error expected found))

abbrev pub check_some_amount : (ℕ → ℕ → SwapInstructionError) → Option ℕ → ℕ → Reply (Unit {0})
check_some_amount error none found = ok tt
check_some_amount error (some expected) found = check_amount error expected found

unfoldable pub check_swap_accounts :
    SwapAccounts → OpportunitySvmProgramSwap → Expected → Reply (Unit {0})
check_swap_accounts accounts opp expected = do
  check_key user_wallet_address opp.user_wallet_address accounts.user_wallet
  check_key mint_searcher_differs expected.mint_searcher accounts.mint_searcher
  check_key mint_user_differs expected.mint_user accounts.mint_user
  check_key token_program_searcher_differs opp.token_program_searcher
      accounts.token_program_searcher
  check_key token_program_user_differs opp.token_program_user accounts.token_program_user

unfoldable pub check_swap_args :
    SwapV2Args → OpportunitySvmProgramSwap → Expected → Reply (Unit {0})
check_swap_args args opp expected = do
  check_some_amount amount_searcher_differs expected.amount_searcher args.amount_searcher
  check_some_amount amount_user_differs expected.amount_user args.amount_user
  fail_if (not (same_fee_token opp.fee_token args.fee_token))
      (invalid_swap_instruction (fee_token_differs opp.fee_token args.fee_token))
  check_amount referral_fee_differs opp.referral_fee_ppm args.referral_fee_ppm
  check_amount platform_fee_differs opp.platform_fee_ppm args.swap_platform_fee_ppm

unfoldable pub check_svm_swap_bid_fields :
    BidTransactionDataSwap → OpportunitySvmProgramSwap → QuoteTokens → Reply (Unit {0})
check_svm_swap_bid_fields transaction_data opp quote_tokens = do
  check_swap_accounts transaction_data.accounts opp (expected_of quote_tokens)
  check_swap_args transaction_data.args opp (expected_of quote_tokens)
