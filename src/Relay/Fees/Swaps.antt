-- ===== src/Relay/Fees/Swaps.antt =====
-- The fees of a swap (swap.rs).
use per.Prelude.{ℕ, ◌+◌, ◌-◌, ◌*◌, ◌/◌, ◌≤◌, ◌<◌, ◌≡◌, ◌↔◌, arith, ok, u64_limit}
use per.Relay.State.{ExpressRelayMetadata, fee_split_precision_ppm}
use per.Relay.Fees.{SwapFees, SwapFeesWithRemainingAmount, compute_swap_fees}
use per.Relay.Fees.Splits.{share}

abbrev pub share_ppm : ℕ → ℕ → ℕ
share_ppm amount fee = amount * fee / fee_split_precision_ppm

abbrev pub total_fees : SwapFees → ℕ
total_fees f = f.router_fee + f.relayer_fee + f.express_relay_fee

-- Whenever compute_swap_fees succeeds, the three fees and the remaining amount add up to the amount,
-- the router's fee is its ppm share, the relayer's and the protocol's fees add up to the platform's
-- ppm share, and the relayer's fee is its bps share of that.
pub compute_swap_fees-conserves :
    (m : ExpressRelayMetadata) (referral platform amount : ℕ) (r : SwapFeesWithRemainingAmount)
    → compute_swap_fees m referral platform amount ≡ ok r
    → (total_fees r.fees + r.remaining_amount ≡ amount)
      × (r.fees.router_fee ≡ share_ppm amount referral)
      × (r.fees.relayer_fee + r.fees.express_relay_fee ≡ share_ppm amount platform)
      × (r.fees.relayer_fee ≡ share (share_ppm amount platform) m.split_relayer)
unfolding compute_swap_fees
compute_swap_fees-conserves m referral platform amount r e = ground arith

-- What the arguments must satisfy for the fees to be computed.
pub record Computable (m : ExpressRelayMetadata) (referral platform amount : ℕ) : Type 0 where
  pub referral_within : referral ≤ fee_split_precision_ppm
  pub referral_fits : amount * referral < u64_limit
  pub platform_fits : amount * platform < u64_limit
  pub relayer_fits : share_ppm amount platform * m.split_relayer < u64_limit
  pub affordable : share_ppm amount referral + share_ppm amount platform ≤ amount
  pub relayer_within : share (share_ppm amount platform) m.split_relayer ≤ share_ppm amount platform

-- compute_swap_fees succeeds exactly when the referral fee is at most one million ppm, the three
-- products fit in a u64, the two ppm shares together are at most the amount, and the relayer's share
-- is at most the platform's.
pub compute_swap_fees_iff :
    (m : ExpressRelayMetadata) (referral platform amount : ℕ)
    → ((r : SwapFeesWithRemainingAmount) × (compute_swap_fees m referral platform amount ≡ ok r))
      ↔ Computable m referral platform amount
unfolding compute_swap_fees
compute_swap_fees_iff m referral platform amount =
    (λ h. computable h.0 h.1, λ c. (result, ground arith))
  where
    computable :
        (r : SwapFeesWithRemainingAmount)
        → compute_swap_fees m referral platform amount ≡ ok r
        → Computable m referral platform amount
    computable r e = ground arith

    result : SwapFeesWithRemainingAmount
    result = record {
      fees = record {
        router_fee = share_ppm amount referral;
        relayer_fee = share (share_ppm amount platform) m.split_relayer;
        express_relay_fee =
            share_ppm amount platform - share (share_ppm amount platform) m.split_relayer;
      };
      remaining_amount = amount - share_ppm amount referral - share_ppm amount platform;
    }
