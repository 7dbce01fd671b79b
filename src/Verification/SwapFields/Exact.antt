-- ===== src/Verification/SwapFields/Exact.antt =====
-- What the comparisons of check_svm_swap_bid_fields find.
use per.Prelude.{ℕ, ◌≡◌, refl, ◌↔◌, Option, none, some, not, ok, fail_if, OnSome}
use per.Relay.Swap.{FeeToken, searcher_token, user_token}
use per.Opportunity.Entities.{OpportunitySvmProgramSwap, QuoteTokens}
use per.Verification.BidData.{BidTransactionDataSwap}
use per.Auction.Errors.{SwapInstructionError, invalid_swap_instruction, fee_token_differs}
use per.Verification.Checks.{seq_ok, amount_ok, key_ok}
use per.Verification.SwapFields.{
  expected_of, same_fee_token, check_some_amount, check_swap_accounts, check_swap_args,
  check_svm_swap_bid_fields,
}

-- What the comparisons find equal.
pub record Matches (d : BidTransactionDataSwap) (opp : OpportunitySvmProgramSwap)
    (tokens : QuoteTokens) : Type 0 where
  pub same_user : d.accounts.user_wallet ≡ opp.user_wallet_address
  pub same_mint_searcher : d.accounts.mint_searcher ≡ (expected_of tokens).mint_searcher
  pub same_mint_user : d.accounts.mint_user ≡ (expected_of tokens).mint_user
  pub same_token_program_searcher : d.accounts.token_program_searcher ≡ opp.token_program_searcher
  pub same_token_program_user : d.accounts.token_program_user ≡ opp.token_program_user
  pub same_amount_searcher :
      OnSome (λ n. d.args.amount_searcher ≡ n) (expected_of tokens).amount_searcher
  pub same_amount_user : OnSome (λ n. d.args.amount_user ≡ n) (expected_of tokens).amount_user
  pub same_fee : d.args.fee_token ≡ opp.fee_token
  pub same_referral_fee : d.args.referral_fee_ppm ≡ opp.referral_fee_ppm
  pub same_platform_fee : d.args.swap_platform_fee_ppm ≡ opp.platform_fee_ppm

some_amount_ok :
    (error : ℕ → ℕ → SwapInstructionError) (expected : Option ℕ) (found : ℕ)
    → (check_some_amount error expected found ≡ ok tt) ↔ OnSome (λ n. found ≡ n) expected
some_amount_ok error none found = (λ e. tt, λ e. refl)
some_amount_ok error (some expected) found =
    amount_ok (invalid_swap_instruction (error expected found)) expected found

fee_token_ok :
    (expected found : FeeToken)
    → (fail_if
          (not (same_fee_token expected found))
          (invalid_swap_instruction (fee_token_differs expected found))
        ≡ ok tt)
      ↔ (found ≡ expected)
fee_token_ok searcher_token searcher_token = (λ e. refl, λ e. refl)
fee_token_ok user_token user_token = (λ e. refl, λ e. refl)
fee_token_ok searcher_token user_token = (λ e. cc, λ e. cc)
fee_token_ok user_token searcher_token = (λ e. cc, λ e. cc)

module _ (d : BidTransactionDataSwap) (opp : OpportunitySvmProgramSwap) (tokens : QuoteTokens) where
  accounts_checked :
      check_swap_accounts d.accounts opp (expected_of tokens) ≡ ok tt
      → (d.accounts.user_wallet ≡ opp.user_wallet_address)
        × (d.accounts.mint_searcher ≡ (expected_of tokens).mint_searcher)
        × (d.accounts.mint_user ≡ (expected_of tokens).mint_user)
        × (d.accounts.token_program_searcher ≡ opp.token_program_searcher)
        × (d.accounts.token_program_user ≡ opp.token_program_user)
  unfolding check_swap_accounts
  accounts_checked h =
      let (user, h1) = (seq_ok _ _).0 h in
      let (searcher, h2) = (seq_ok _ _).0 h1 in
      let (mint, h3) = (seq_ok _ _).0 h2 in
      let (program, last) = (seq_ok _ _).0 h3 in
      (
        (key_ok _ _ _).0 user,
        (key_ok _ _ _).0 searcher,
        (key_ok _ _ _).0 mint,
        (key_ok _ _ _).0 program,
        (key_ok _ _ _).0 last,
      )

  args_checked :
      check_swap_args d.args opp (expected_of tokens) ≡ ok tt
      → OnSome (λ n. d.args.amount_searcher ≡ n) (expected_of tokens).amount_searcher
        × OnSome (λ n. d.args.amount_user ≡ n) (expected_of tokens).amount_user
        × (d.args.fee_token ≡ opp.fee_token)
        × (d.args.referral_fee_ppm ≡ opp.referral_fee_ppm)
        × (d.args.swap_platform_fee_ppm ≡ opp.platform_fee_ppm)
  unfolding check_swap_args
  args_checked h =
      let (searcher, h1) = (seq_ok _ _).0 h in
      let (user, h2) = (seq_ok _ _).0 h1 in
      let (fee, h3) = (seq_ok _ _).0 h2 in
      let (referral, platform) = (seq_ok _ _).0 h3 in
      (
        (some_amount_ok _ _ _).0 searcher,
        (some_amount_ok _ _ _).0 user,
        (fee_token_ok opp.fee_token d.args.fee_token).0 fee,
        (amount_ok _ _ _).0 referral,
        (amount_ok _ _ _).0 platform,
      )

  quoted : Matches d opp tokens → check_svm_swap_bid_fields d opp tokens ≡ ok tt
  unfolding check_svm_swap_bid_fields check_swap_accounts check_swap_args
  quoted q =
      let accounts = (seq_ok _ _).1 (
        (key_ok _ _ _).1 q.same_user,
        (seq_ok _ _).1 (
          (key_ok _ _ _).1 q.same_mint_searcher,
          (seq_ok _ _).1 (
            (key_ok _ _ _).1 q.same_mint_user,
            (seq_ok _ _).1 (
              (key_ok _ _ _).1 q.same_token_program_searcher,
              (key_ok _ _ _).1 q.same_token_program_user,
            ),
          ),
        ),
      ) in
      let args = (seq_ok _ _).1 (
        (some_amount_ok _ _ _).1 q.same_amount_searcher,
        (seq_ok _ _).1 (
          (some_amount_ok _ _ _).1 q.same_amount_user,
          (seq_ok _ _).1 (
            (fee_token_ok opp.fee_token d.args.fee_token).1 q.same_fee,
            (seq_ok _ _).1
                ((amount_ok _ _ _).1 q.same_referral_fee, (amount_ok _ _ _).1 q.same_platform_fee),
          ),
        ),
      ) in
      (seq_ok _ _).1 (accounts, args)

-- The comparisons, read as equations with what is expected of the quote's tokens.
pub check_svm_swap_bid_fields_iff :
    (d : BidTransactionDataSwap) (opp : OpportunitySvmProgramSwap) (tokens : QuoteTokens)
    → (check_svm_swap_bid_fields d opp tokens ≡ ok tt) ↔ Matches d opp tokens
unfolding check_svm_swap_bid_fields
check_svm_swap_bid_fields_iff d opp tokens = (
  λ h.
      let (accounts, args) = (seq_ok _ _).0 h in
      let a = accounts_checked d opp tokens accounts in
      let b = args_checked d opp tokens args in
      record {
        same_user = a.0;
        same_mint_searcher = a.1;
        same_mint_user = a.2;
        same_token_program_searcher = a.3;
        same_token_program_user = a.4;
        same_amount_searcher = b.0;
        same_amount_user = b.1;
        same_fee = b.2;
        same_referral_fee = b.3;
        same_platform_fee = b.4;
      },
  quoted d opp tokens,
)
