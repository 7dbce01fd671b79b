-- ===== src/Relay/PermissionTests.antt =====
-- The theorems on fees, configuration and permissions, applied.
use mathlib.Core.Option
use per.Prelude.{
  ◌+◌, ◌-◌, ◌*◌, ◌≤◌, ◌≡◌, refl, ◌≢◌, ◌↔◌, true, none, some, List, [], ◌∷◌, ◌++◌, arith, ltb,
  if◌then◌else◌, ok, err, u64_limit,
}
use per.Relay.Tests.{test_runtime, test_metadata, test_bank, test_payment, test_bank_after}
use per.Relay.State.{ExpressRelayMetadata, code, fees_higher_than_bid, arithmetic_overflow}
use per.Relay.Admin.{
  Program, AdminCall, Signer, dispatch, run, empty, initialize_call, set_admin_call,
  set_splits_call, set_router_split_call,
}
use per.Relay.Admin.Invariant.{IsValid, run-empty-IsValid, run-ne-fees_higher}
use per.Relay.Admin.Authority.{dispatch_authorized}
use per.Relay.Fees.{perform_fee_splits, compute_swap_fees, SwapFees, SwapFeesWithRemainingAmount}
use per.Relay.Fees.Splits.{share, perform_fee_splits_exact}
use per.Relay.Fees.Swaps.{
  total_fees, share_ppm, compute_swap_fees-conserves, compute_swap_fees_iff, Computable,
}
use per.Relay.Permission.{
  Instruction, SubmitBid, SubmitBidArgs, Crate, submit_bid, check_permission,
}
use per.Relay.Runtime.{Bank, set_lamports}
use per.Relay.Withdrawal.{WithdrawFees, surplus, withdraw_fees, withdraw_fees_exact}
use per.Relay.Permission.Consistency.{Encodes, asks, check_permission-submit_bid}
use per.Relay.Payment.Conservation.{Steps}

perform_fee_splits_exact_example :
    let fee_router = share 5000 4000 in
    let fee_relayer = share (5000 - fee_router) 2000 in
    (perform_fee_splits 5000 4000 2000 ≡ (
      if ltb (5000 * 4000) u64_limit
      then if ltb ((5000 - fee_router) * 2000) u64_limit
        then ok (fee_router, fee_relayer)
        else err arithmetic_overflow
      else err arithmetic_overflow))
    × (fee_router + fee_relayer ≤ 5000)
perform_fee_splits_exact_example =
    perform_fee_splits_exact 5000 4000 2000 (omega arith) (omega arith) (omega arith)

abbrev test_fees : SwapFeesWithRemainingAmount
test_fees = record {
  fees = record { router_fee = 100; relayer_fee = 10; express_relay_fee = 40 };
  remaining_amount = 9850;
}

test_fees_computed : compute_swap_fees test_metadata 10000 5000 10000 ≡ ok test_fees
unfolding compute_swap_fees
test_fees_computed = refl

compute_swap_fees-conserves_example :
    (total_fees test_fees.fees + test_fees.remaining_amount ≡ 10000)
    × (test_fees.fees.router_fee ≡ share_ppm 10000 10000)
    × (test_fees.fees.relayer_fee + test_fees.fees.express_relay_fee ≡ share_ppm 10000 5000)
    × (test_fees.fees.relayer_fee ≡ share (share_ppm 10000 5000) 2000)
compute_swap_fees-conserves_example =
    compute_swap_fees-conserves test_metadata 10000 5000 10000 test_fees test_fees_computed

compute_swap_fees_iff_example :
    ((r : SwapFeesWithRemainingAmount) × (compute_swap_fees test_metadata 10000 5000 10000 ≡ ok r))
    ↔ Computable test_metadata 10000 5000 10000
compute_swap_fees_iff_example = compute_swap_fees_iff test_metadata 10000 5000 10000

abbrev test_admin : Signer
test_admin = record { key = 1; is_signer = true }

abbrev test_calls : List AdminCall
test_calls =
    initialize_call
      (record { payer = test_admin; admin = 1; relayer_signer = 2; fee_receiver_relayer = 3 })
      (record { split_router_default = 4000; split_relayer = 2000 })
    ∷ set_splits_call test_admin 20000 2000
    ∷ set_router_split_call test_admin 11 5000
    ∷ []

run-empty-IsValid_example : IsValid (run empty test_calls)
run-empty-IsValid_example = run-empty-IsValid test_calls

test_calls_metadata : (run empty test_calls).metadata ≡ some test_metadata
unfolding run empty dispatch per.Relay.Admin.require_admin per.Relay.Fees.validate_fee_split
test_calls_metadata = refl

test_calls_config :
    (run empty test_calls).config_router 11 ≡ some (record { router = 11; split = 5000 })
unfolding run empty dispatch per.Relay.Admin.require_admin per.Relay.Fees.validate_fee_split
test_calls_config = refl

run-ne-fees_higher_example :
    (perform_fee_splits 700 4000 2000 ≢ err (code fees_higher_than_bid))
    × (perform_fee_splits 700 5000 2000 ≢ err (code fees_higher_than_bid))
run-ne-fees_higher_example =
    run-ne-fees_higher test_calls test_metadata 11 (record { router = 11; split = 5000 }) 700
      test_calls_metadata test_calls_config (omega arith)

abbrev test_program : Program
test_program = record { metadata = some test_metadata; config_router = λ k. none }

test_set_admin :
    dispatch (set_admin_call test_admin 7) test_program
    ≡ ok (record test_program { metadata = some (record test_metadata { admin = 7 }) })
unfolding dispatch per.Relay.Admin.require_admin
test_set_admin = refl

dispatch_authorized_example :
    (¬ ⊥)
    × (true ≡ true)
    × (1 ≡ test_metadata.admin)
    × (Option.map
          (λ (n : ExpressRelayMetadata). n.admin)
          (some (record test_metadata { admin = 7 }))
        ≡ some 7)
dispatch_authorized_example =
    dispatch_authorized (set_admin_call test_admin 7) test_program
      (record test_program { metadata = some (record test_metadata { admin = 7 }) }) test_metadata
      refl test_set_admin

abbrev test_args : SubmitBidArgs
test_args = record { deadline = 50; bid_amount = 5000 }

abbrev test_crate : Crate
test_crate = record {
  id = 99;
  discriminator = 1 ∷ 2 ∷ 3 ∷ 4 ∷ 5 ∷ 6 ∷ 7 ∷ 8 ∷ [];
  decode = λ bytes. some test_args;
  metadata_address = 12;
  config_address = λ router. router + 100;
  sysvar_instructions_id = 30;
  system_program_id = 31;
}

abbrev test_submit_bid : SubmitBid
test_submit_bid = record {
  payment = test_payment;
  searcher_signs = true;
  relayer_signer = record { key = 2; is_signer = true };
  permission = 20;
  config_router_key = 111;
  system_program = 31;
  sysvar_instructions_key = 30;
}

abbrev test_instruction : Instruction
test_instruction = record {
  program_id = 99;
  accounts = 10 ∷ 2 ∷ 20 ∷ 11 ∷ 111 ∷ 12 ∷ [];
  bytes = 1 ∷ 2 ∷ 3 ∷ 4 ∷ 5 ∷ 6 ∷ 7 ∷ 8 ∷ 9 ∷ [];
}

abbrev other_instruction : Instruction
other_instruction = record { program_id = 50; accounts = []; bytes = [] }

test_instruction-Encodes : Encodes test_crate test_instruction test_submit_bid test_args
test_instruction-Encodes = record {
  of_program = refl;
  tagged = refl;
  decoded = refl;
  permission_at = refl;
  router_at = refl;
  config_at = refl;
  metadata_at = refl;
}

test_submit_bid_paid :
    submit_bid test_crate test_runtime 40 1
      ((other_instruction ∷ []) ++ test_instruction ∷ [])
      test_bank
      test_submit_bid
      test_args
    ≡ ok test_bank_after
unfolding submit_bid per.Relay.Permission.check_submit_bid_accounts
    per.Relay.Permission.check_deadline per.Relay.Permission.check_relayer_signer
    per.Relay.Permission.get_matching_submit_bid_instructions per.Relay.Permission.is_matching
    per.Relay.Payment.handle_bid_payment per.Relay.Payment.paid_split perform_fee_splits
    per.Relay.Fees.perform_fee_split_router per.Relay.Payment.pay_fee per.Relay.Runtime.moved
test_submit_bid_paid = refl

check_permission-submit_bid_example :
    (s : Steps test_runtime test_bank test_bank_after test_payment 5000) × (check_permission
        test_crate
        ((other_instruction ∷ []) ++ test_instruction ∷ [])
        (asks test_crate test_submit_bid)
      ≡ ok s.fee_router)
check_permission-submit_bid_example =
    check_permission-submit_bid test_crate test_runtime 40 1 (other_instruction ∷ []) []
      test_instruction test_bank test_bank_after test_submit_bid test_args test_instruction-Encodes
      test_submit_bid_paid

abbrev test_withdrawal : WithdrawFees
test_withdrawal = record {
  admin = test_admin;
  fee_receiver_admin = 30;
  express_relay_metadata = 12;
}

abbrev bank_after_withdrawal : Bank
bank_after_withdrawal = set_lamports (set_lamports test_bank 12 100) 30 1900

test_withdrawal_paid :
    withdraw_fees test_crate test_runtime test_program test_bank test_withdrawal
    ≡ ok bank_after_withdrawal
unfolding withdraw_fees per.Relay.Withdrawal.check_withdraw_accounts surplus
    per.Relay.Runtime.transfer_lamports
test_withdrawal_paid = refl

withdraw_fees_exact_example :
    (true ≡ true)
    × (test_withdrawal.express_relay_metadata ≡ test_crate.metadata_address)
    × (Option.map (λ (m : ExpressRelayMetadata). m.admin) test_program.metadata
        ≡ some test_admin.key)
    × (bank_after_withdrawal.lamports 12 + surplus test_crate test_runtime test_bank 12
        ≡ test_bank.lamports 12)
    × (bank_after_withdrawal.lamports 30
        ≡ test_bank.lamports 30 + surplus test_crate test_runtime test_bank 12)
    × (bank_after_withdrawal.lamports 31 ≡ test_bank.lamports 31)
withdraw_fees_exact_example =
    withdraw_fees_exact test_crate test_runtime test_program test_bank bank_after_withdrawal
      test_withdrawal 31 (λ e. cc) (λ e. cc) (λ e. cc) test_withdrawal_paid
