-- ===== src/Relay/Fees/Splits.antt =====
-- The split of a bid between the router, the relayer and the protocol (utils.rs).
use per.Prelude.{
  ℕ, ◌+◌, ◌-◌, ◌*◌, ◌/◌, ◌≤◌, ◌<◌, ◌≡◌, ◌≢◌, arith, ltb, ok, err, u64_limit, if◌then◌else◌,
}
use per.Relay.State.{fee_split_precision, code, fees_higher_than_bid, arithmetic_overflow}
use per.Relay.Fees.{perform_fee_split_router, perform_fee_splits}

abbrev pub share : ℕ → ℕ → ℕ
share amount split = amount * split / fee_split_precision

pub share-le : (amount split : ℕ) → split ≤ fee_split_precision → share amount split ≤ amount
share-le amount split h = omega (arith, bound)
  where
    bound : amount * split ≤ amount * 10000
    bound = grind arith

-- With a validated split the router's fee is its share, and the only error is an overflow.
pub perform_fee_split_router_exact :
    (bid split : ℕ)
    → split ≤ fee_split_precision
    → perform_fee_split_router bid split
      ≡ (if ltb (bid * split) u64_limit then ok (share bid split) else err arithmetic_overflow)
unfolding perform_fee_split_router
perform_fee_split_router_exact bid split h = ground (arith, share-le bid split h)

-- For a u64 bid and splits within the precision, perform_fee_splits returns the router's share of
-- the bid and the relayer's share of what the router leaves, whose sum is at most the bid, or it
-- fails with an arithmetic overflow, which happens exactly when one of the two products does not
-- fit in a u64.
pub perform_fee_splits_exact :
    (bid split_router split_relayer : ℕ)
    → bid < u64_limit
    → split_router ≤ fee_split_precision
    → split_relayer ≤ fee_split_precision
    → let fee_router = share bid split_router in
      let fee_relayer = share (bid - fee_router) split_relayer in
      (perform_fee_splits bid split_router split_relayer ≡ (
        if ltb (bid * split_router) u64_limit
        then if ltb ((bid - fee_router) * split_relayer) u64_limit
          then ok (fee_router, fee_relayer)
          else err arithmetic_overflow
        else err arithmetic_overflow))
      × (fee_router + fee_relayer ≤ bid)
unfolding perform_fee_splits
perform_fee_splits_exact bid split_router split_relayer u64 hr hl = ground (
  arith,
  perform_fee_split_router_exact bid split_router hr,
  share-le bid split_router hr,
  share-le (bid - share bid split_router) split_relayer hl,
)

-- With splits within the precision, the defensive FeesHigherThanBid error of perform_fee_splits is
-- never returned, whatever the u64 bid.
pub perform_fee_splits-ne-fees_higher :
    (bid split_router split_relayer : ℕ)
    → bid < u64_limit
    → split_router ≤ fee_split_precision
    → split_relayer ≤ fee_split_precision
    → perform_fee_splits bid split_router split_relayer ≢ err (code fees_higher_than_bid)
perform_fee_splits-ne-fees_higher bid split_router split_relayer u64 hr hl =
    ground (arith, perform_fee_splits_exact bid split_router split_relayer u64 hr hl)

-- Inversion, with the bound that the callers need; the splits need not be validated here.
pub perform_fee_splits-le :
    (bid split_router split_relayer : ℕ) {fee_router fee_relayer : ℕ}
    → perform_fee_splits bid split_router split_relayer ≡ ok (fee_router, fee_relayer)
    → fee_router + fee_relayer ≤ bid
unfolding perform_fee_splits
perform_fee_splits-le bid split_router split_relayer e = ground arith

-- A bid of at most a ten-thousandth of the u64 range is always split.
pub perform_fee_splits_small :
    (bid split_router split_relayer : ℕ)
    → bid * fee_split_precision < u64_limit
    → split_router ≤ fee_split_precision
    → split_relayer ≤ fee_split_precision
    → perform_fee_splits bid split_router split_relayer
      ≡ ok (share bid split_router, share (bid - share bid split_router) split_relayer)
perform_fee_splits_small bid split_router split_relayer small hr hl = ground (
  arith,
  router_fits,
  relayer_fits,
  perform_fee_splits_exact bid split_router split_relayer (omega arith) hr hl,
)
  where
    router_fits : bid * split_router < u64_limit
    router_fits = grind arith

    relayer_fits : (bid - share bid split_router) * split_relayer < u64_limit
    relayer_fits = omega (arith, below)
      where
        below : (bid - share bid split_router) * split_relayer ≤ bid * 10000
        below = grind arith
