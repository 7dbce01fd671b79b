-- ===== src/Verification/CheckTests.antt =====
-- Concrete runs of the single checks of the verification.
use per.Prelude.{ℕ, ◌-◌, ◌≤◌, ◌≡◌, refl, ◌↔◌, true, none, some, List, [], ◌∷◌, length, All, ok}
use per.Relay.Swap.{searcher_token}
use per.Opportunity.Entities.{
  OpportunitySvm, TokenAmountSvm, swap_program, get_opportunity_swap_data, get_swap_quote_tokens,
  quote_tokens_of, OpportunitySvmProgramSwap, QuoteTokens, user_token_specified, unneeded,
}
use per.Verification.Tests.{
  key, test_verifier, bid_transaction, price_instruction, fee_of, test_attempts,
}
use per.Verification.Instructions.{
  CloseAccountInstructionData, extract_program_instructions, of_program, program_id_of,
}
use per.Verification.BidData.{SwapAccounts, BidTransactionDataSwap}
use per.Verification.SwapFields.{
  check_svm_swap_bid_fields, check_swap_accounts, check_swap_args, expected_of,
}
use per.Verification.SwapFields.Asked.{IsAskedFor, check_svm_swap_bid_fields-IsAskedFor}
use per.Verification.Closing.{
  check_closes, user_closes, not_user_closes, searcher_closes, other_closes, check_no_others,
  check_user_close, check_user_closes, check_searcher_closes, swaps_native,
}
use per.Verification.Closing.Destinations.{IsSafeClosing, check_closes-IsSafeClosing}
use per.Verification.Signatures.{all_signatures_exists}
use per.Verification.Signatures.Valid.{IsSigned, signed_by, all_signatures_exists_iff}
use per.Verification.Simulation.{simulate_bid, bid_slot_of}
use per.Verification.Simulation.Retrying.{outcome, Settles, simulate_bid-Settles}
use per.Verification.Budget.{
  check_compute_budget, get_priority_fees, recent_fees_period, budgets_of,
}
use per.Verification.Budget.Price.{IsEnough, offered, check_compute_budget_iff}

-- A user, key 31, sells native tokens, key 16, to a searcher, key 30, who pays in key 40.
abbrev test_accounts : SwapAccounts
test_accounts = record {
  searcher = key 30;
  user_wallet = key 31;
  mint_searcher = key 40;
  mint_user = key 16;
  router_token_account = key 50;
  token_program_searcher = key 12;
  token_program_user = key 12;
}

abbrev test_swap : BidTransactionDataSwap
test_swap = record {
  args = record {
    deadline = 100;
    amount_searcher = 900;
    amount_user = 1000;
    referral_fee_ppm = 200;
    fee_token = searcher_token;
    swap_platform_fee_ppm = 300;
  };
  accounts = test_accounts;
  express_relay_instruction_index = 2;
}

abbrev test_opportunity : OpportunitySvmProgramSwap
test_opportunity = record {
  user_wallet_address = key 31;
  user_mint_user_balance = 5000;
  fee_token = searcher_token;
  referral_fee_bps = 2;
  referral_fee_ppm = 200;
  platform_fee_bps = 3;
  platform_fee_ppm = 300;
  token_program_user = key 12;
  token_program_searcher = key 12;
  token_account_initialization_configs = record {
    user_ata_mint_searcher = unneeded;
    user_ata_mint_user = unneeded;
    router_fee_receiver_ta = unneeded;
    relayer_fee_receiver_ata = unneeded;
    express_relay_fee_receiver_ata = unneeded;
  };
  memo = none;
  cancellable = true;
  minimum_lifetime = none;
  minimum_deadline = 50;
}

abbrev test_tokens : QuoteTokens
test_tokens = user_token_specified (record { token = key 16; amount = 1000 }) (key 40)

-- The searcher's amount is open, and the user gives 1000 native tokens.
abbrev test_sell : TokenAmountSvm
test_sell = record { token = key 40; amount = 0 }

abbrev test_buy : TokenAmountSvm
test_buy = record { token = key 16; amount = 1000 }

abbrev asking_opportunity : OpportunitySvm
asking_opportunity = record {
  id = 5;
  creation_time = 0;
  refresh_time = 0;
  create = record {
    permission_key = [];
    chain_id = 0;
    sell_tokens = test_sell ∷ [];
    buy_tokens = test_buy ∷ [];
    router = key 22;
    permission_account = key 21;
    program = swap_program test_opportunity;
    profile_id = none;
  };
}

is_swap : get_opportunity_swap_data asking_opportunity ≡ ok test_opportunity
unfolding get_opportunity_swap_data
is_swap = refl

asks_tokens : get_swap_quote_tokens asking_opportunity ≡ ok test_tokens
unfolding get_swap_quote_tokens get_opportunity_swap_data quote_tokens_of
asks_tokens = refl

check_svm_swap_bid_fields-IsAskedFor_example :
    (check_svm_swap_bid_fields test_swap test_opportunity test_tokens ≡ ok tt)
    ↔ IsAskedFor test_swap test_opportunity test_sell test_buy
check_svm_swap_bid_fields-IsAskedFor_example =
    check_svm_swap_bid_fields-IsAskedFor test_swap asking_opportunity test_opportunity test_tokens
      test_sell test_buy is_swap asks_tokens refl refl

quoted : check_svm_swap_bid_fields test_swap test_opportunity test_tokens ≡ ok tt
unfolding check_svm_swap_bid_fields check_swap_accounts check_swap_args expected_of
quoted = refl

-- The user's account is the wallet's key followed by the mint's.
abbrev test_closes : List CloseAccountInstructionData
test_closes =
    record { index = 4; account = 31 ∷ 16 ∷ []; destination = key 31; owner = key 31 }
    ∷ record { index = 5; account = 30 ∷ 16 ∷ []; destination = key 99; owner = key 30 }
    ∷ []

closed : check_closes test_verifier test_accounts test_closes ≡ ok tt
unfolding check_closes user_closes not_user_closes searcher_closes other_closes check_no_others
    check_user_close check_user_closes check_searcher_closes swaps_native
closed = refl

check_closes-IsSafeClosing_example : IsSafeClosing test_verifier test_accounts test_closes
check_closes-IsSafeClosing_example =
    check_closes-IsSafeClosing test_verifier test_accounts test_closes closed

all_signatures_exists_iff_example :
    (all_signatures_exists test_verifier (5 ∷ []) (key 1 ∷ key 2 ∷ []) (0 ∷ 7 ∷ []) (key 1 ∷ [])
      ≡ ok tt)
    ↔ All
        (IsSigned test_verifier (5 ∷ []) (key 1 ∷ []))
        (signed_by (key 1 ∷ key 2 ∷ []) (0 ∷ 7 ∷ []))
all_signatures_exists_iff_example =
    all_signatures_exists_iff test_verifier (5 ∷ []) (key 1 ∷ key 2 ∷ []) (0 ∷ 7 ∷ []) (key 1 ∷ [])

simulate_bid-Settles_example :
    (last : ℕ) × (simulate_bid test_attempts (some 7) ≡ some (outcome (test_attempts last)))
    × Settles (bid_slot_of (some 7)) test_attempts last
simulate_bid-Settles_example = simulate_bid-Settles test_attempts (some 7)

selected : extract_program_instructions bid_transaction (key 15) ≡ ok ((0, price_instruction) ∷ [])
unfolding extract_program_instructions of_program program_id_of
selected = refl

check_compute_budget_iff_example :
    (check_compute_budget test_verifier 25000 (fee_of 4 ∷ fee_of 9 ∷ []) bid_transaction ≡ ok tt)
    ↔ ((length (budgets_of test_verifier ((0, price_instruction) ∷ [])) ≤ 1)
        × IsEnough
            (offered (budgets_of test_verifier ((0, price_instruction) ∷ [])))
            (get_priority_fees (25000 - recent_fees_period) (fee_of 4 ∷ fee_of 9 ∷ [])))
check_compute_budget_iff_example =
    check_compute_budget_iff test_verifier 25000 (fee_of 4 ∷ fee_of 9 ∷ []) bid_transaction
      ((0, price_instruction) ∷ []) selected
