-- ===== src/Relay/Payment.antt =====
-- The payment of a bid (utils.rs: check_fee_hits_min_rent, handle_bid_payment), over the runtime that
-- it calls.
pub mod Conservation
pub mod Totality
use per.Prelude.{
  ℕ, ◌+◌, ok, err, ◌>>=◌, ◌>>◌, fail_if, ok_or, ltb, ◌==◌, checked_add, saturating_sub,
  if◌then◌else◌,
}
use per.Relay.State.{
  Pubkey, ExpressRelayMetadata, ConfigRouter, Outcome, code, anchor, arithmetic_overflow,
  account_did_not_deserialize, insufficient_searcher_funds, insufficient_rent,
}
use per.Relay.Runtime.{Bank, Runtime, transfer_lamports}
use per.Relay.Fees.{perform_fee_splits}

-- The data of the account passed as config_router, which may not be initialised.
pub data ConfigData : Type 0 where
  no_data garbage : ConfigData
  config : ConfigRouter → ConfigData

-- The accounts of SubmitBid that the payment reads, with what was deserialised of them.
pub record Payment : Type 0 where
  pub searcher : Pubkey
  pub router : Pubkey
  pub config_router : ConfigData
  pub express_relay_metadata_key : Pubkey
  pub express_relay_metadata : ExpressRelayMetadata
  pub fee_receiver_relayer : Pubkey

-- The split of the router's own config account if it has data, else the default.
unfoldable pub paid_split : ConfigData → ExpressRelayMetadata → Outcome ℕ
paid_split no_data m = ok m.split_router_default
paid_split garbage m = err (anchor account_did_not_deserialize)
paid_split (config c) m = ok c.split

module _ (r : Runtime) where
  unfoldable pub check_fee_hits_min_rent : Bank → Pubkey → ℕ → Outcome (Unit {0})
  check_fee_hits_min_rent b account fee = do
    total ← ok_or (checked_add (b.lamports account) fee) arithmetic_overflow
    fail_if (ltb total (r.minimum_balance (b.data_len account))) (code insufficient_rent)

  -- `if fee > 0 { check_fee_hits_min_rent(..)?; transfer_lamports_cpi(..)?; }`
  unfoldable pub pay_fee : Bank → Pubkey → Pubkey → ℕ → Outcome Bank
  unfolding check_fee_hits_min_rent
  pay_fee b searcher receiver fee =
      if ltb 0 fee
      then (check_fee_hits_min_rent b receiver fee >> r.system_transfer b searcher receiver fee)
      else ok b

  unfoldable pub handle_bid_payment : Bank → Payment → ℕ → Outcome Bank
  handle_bid_payment b ctx bid_amount = do
    needed ←
        ok_or (checked_add bid_amount (r.minimum_balance (b.data_len ctx.searcher)))
          arithmetic_overflow
    fail_if (ltb (b.lamports ctx.searcher) needed) (code insufficient_searcher_funds)
    split_router ← paid_split ctx.config_router ctx.express_relay_metadata
    (fee_router, fee_relayer) ←
        perform_fee_splits bid_amount split_router ctx.express_relay_metadata.split_relayer
    b1 ← pay_fee b ctx.searcher ctx.router fee_router
    b2 ← pay_fee b1 ctx.searcher ctx.fee_receiver_relayer fee_relayer
    r.system_transfer b2 ctx.searcher ctx.express_relay_metadata_key
        (saturating_sub (saturating_sub bid_amount fee_router) fee_relayer)
