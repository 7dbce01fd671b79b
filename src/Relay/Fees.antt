-- ===== src/Relay/Fees.antt =====
-- The fee arithmetic: validate_fee_split, perform_fee_split_router and perform_fee_splits of
-- utils.rs, and the compute_swap_fees functions of swap.rs (contracts/svm/programs/express_relay/src).
-- Amounts are u64 values held in ℕ; every checked operation keeps its own bound.
pub mod Splits
pub mod Swaps
use per.Prelude.{
  ℕ, ◌+◌, ◌*◌, ◌/◌, ltb, ok, err, ◌>>=◌, ◌>>◌, fail_if, ok_or, u64_limit, checked_add, checked_sub,
  checked_mul, saturating_sub, if◌then◌else◌,
}
use per.Relay.State.{
  ExpressRelayMetadata, Outcome, code, arithmetic_overflow, panic, fee_split_larger_than_precision,
  fees_higher_than_bid, invalid_referral_fee, fee_split_precision, fee_split_precision_ppm,
  fee_bps_to_ppm,
}

unfoldable pub validate_fee_split : ℕ → Outcome (Unit {0})
validate_fee_split split =
    fail_if (ltb fee_split_precision split) (code fee_split_larger_than_precision)

unfoldable pub perform_fee_split_router : ℕ → ℕ → Outcome ℕ
perform_fee_split_router bid_amount split_router = do
  product ← ok_or (checked_mul bid_amount split_router) arithmetic_overflow
  let fee_router = product / fee_split_precision
  fail_if (ltb bid_amount fee_router) (code fees_higher_than_bid)
  ok fee_router

unfoldable pub perform_fee_splits : ℕ → ℕ → ℕ → Outcome (ℕ × ℕ)
perform_fee_splits bid_amount split_router split_relayer = do
  fee_router ← perform_fee_split_router bid_amount split_router
  product ←
      ok_or (checked_mul (saturating_sub bid_amount fee_router) split_relayer) arithmetic_overflow
  let fee_relayer = product / fee_split_precision
  total ← ok_or (checked_add fee_relayer fee_router) arithmetic_overflow
  fail_if (ltb bid_amount total) (code fees_higher_than_bid)
  ok (fee_router, fee_relayer)

pub record SwapFees : Type 0 where
  pub router_fee : ℕ
  pub relayer_fee : ℕ
  pub express_relay_fee : ℕ

pub record SwapFeesWithRemainingAmount : Type 0 where
  pub fees : SwapFees
  pub remaining_amount : ℕ

unfoldable pub compute_swap_fees :
    ExpressRelayMetadata → ℕ → ℕ → ℕ → Outcome SwapFeesWithRemainingAmount
compute_swap_fees m referral_fee_ppm swap_platform_fee_ppm amount = do
  fail_if (ltb fee_split_precision_ppm referral_fee_ppm) (code invalid_referral_fee)
  router_product ← ok_or (checked_mul amount referral_fee_ppm) arithmetic_overflow
  let router_fee = router_product / fee_split_precision_ppm
  platform_product ← ok_or (checked_mul amount swap_platform_fee_ppm) arithmetic_overflow
  let platform_fee = platform_product / fee_split_precision_ppm
  relayer_product ← ok_or (checked_mul platform_fee m.split_relayer) arithmetic_overflow
  let relayer_fee = relayer_product / fee_split_precision
  after_router ← ok_or (checked_sub amount router_fee) arithmetic_overflow
  remaining_amount ← ok_or (checked_sub after_router platform_fee) arithmetic_overflow
  express_relay_fee ← ok_or (checked_sub platform_fee relayer_fee) arithmetic_overflow
  ok (record {
    fees = record {
      router_fee = router_fee;
      relayer_fee = relayer_fee;
      express_relay_fee = express_relay_fee;
    };
    remaining_amount = remaining_amount;
  })

-- The product is unchecked in the source: the program is built with overflow checks, so it panics.
unfoldable pub compute_swap_fees_with_default_platform_fee :
    ExpressRelayMetadata → ℕ → ℕ → Outcome SwapFeesWithRemainingAmount
compute_swap_fees_with_default_platform_fee m referral_fee_ppm amount = do
  swap_platform_fees_ppm ← ok_or (checked_mul m.swap_platform_fee_bps fee_bps_to_ppm) panic
  compute_swap_fees m referral_fee_ppm swap_platform_fees_ppm amount
