-- ===== src/Relay/Tests.antt =====
-- A runtime, a token program and accounts on which the theorems about the program are applied.
use per.Prelude.{ℕ, ◌+◌, ◌≡◌, refl, arith, leb, ◌==◌, if◌then◌else◌, ok, err}
use per.Relay.State.{ExpressRelayMetadata, cpi}
use per.Relay.Runtime.{Bank, Runtime, RuntimeLaws, moved}
use per.Relay.Payment.{Payment, ConfigData, handle_bid_payment, paid_split, pay_fee}
use per.Relay.Payment.Conservation.{Distinct, Distributed, handle_bid_payment-Distributed}
use per.Relay.Payment.Totality.{handle_bid_payment_total}
use per.Relay.Fees.{perform_fee_splits, perform_fee_split_router}

abbrev pub test_runtime : Runtime
test_runtime = record {
  minimum_balance = λ n. 100 + n;
  system_transfer = λ b f t n. if leb n (b.lamports f) then ok (moved b f t n) else err (cpi 1);
}

test_runtime_laws : RuntimeLaws test_runtime
test_runtime_laws = record {
  transfer_moves = λ b c f t n e. ground arith;
  transfer_funded = λ b f t n wallet funded fits. ground arith;
}

abbrev pub test_metadata : ExpressRelayMetadata
test_metadata = record {
  admin = 1;
  relayer_signer = 2;
  fee_receiver_relayer = 3;
  split_router_default = 4000;
  split_relayer = 2000;
  swap_platform_fee_bps = 0;
  secondary_relayer_signer = 0;
}

abbrev pub test_bank : Bank
test_bank = record { lamports = λ k. if k == 10 then 100000 else 1000; data_len = λ k. 0 }

abbrev pub test_payment : Payment
test_payment = record {
  searcher = 10;
  router = 11;
  config_router = ConfigData.no_data;
  express_relay_metadata_key = 12;
  express_relay_metadata = test_metadata;
  fee_receiver_relayer = 3;
}

test_payment-Distinct : Distinct test_payment
test_payment-Distinct = record {
  searcher_router = λ e. cc;
  searcher_receiver = λ e. cc;
  searcher_metadata = λ e. cc;
  router_receiver = λ e. cc;
  router_metadata = λ e. cc;
  receiver_metadata = λ e. cc;
}

test_split : paid_split test_payment.config_router test_payment.express_relay_metadata ≡ ok 4000
unfolding paid_split
test_split = refl

handle_bid_payment_total_example :
    (c : Bank) × (handle_bid_payment test_runtime test_bank test_payment 5000 ≡ ok c)
handle_bid_payment_total_example =
    handle_bid_payment_total test_runtime test_runtime_laws test_bank test_payment 5000 4000
      test_payment-Distinct test_split (omega arith) (omega arith) (omega arith) refl (omega arith)
      (omega arith) (omega arith, omega arith) (omega arith, omega arith) (omega arith, omega arith)

abbrev pub test_bank_after : Bank
test_bank_after = moved (moved (moved test_bank 10 11 2000) 10 3 600) 10 12 2400

test_payment_paid : handle_bid_payment test_runtime test_bank test_payment 5000 ≡ ok test_bank_after
unfolding handle_bid_payment paid_split perform_fee_splits perform_fee_split_router pay_fee moved
test_payment_paid = refl

handle_bid_payment-Distributed_example :
    (split_router : ℕ) × (fee_router : ℕ) × (fee_relayer : ℕ) × (paid_split ConfigData.no_data
        test_metadata
      ≡ ok split_router)
    × (perform_fee_splits 5000 split_router 2000 ≡ ok (fee_router, fee_relayer))
    × Distributed test_runtime test_bank test_bank_after test_payment 5000 fee_router fee_relayer
handle_bid_payment-Distributed_example =
    handle_bid_payment-Distributed test_runtime test_runtime_laws test_bank test_bank_after
      test_payment 5000 test_payment-Distinct test_payment_paid
