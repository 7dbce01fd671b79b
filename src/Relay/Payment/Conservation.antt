-- ===== src/Relay/Payment/Conservation.antt =====
-- Where the lamports of a bid go.
use per.Prelude.{ℕ, ◌≤◌, ◌≡◌, ok, arith, ◌-◌, ◌+◌, Result-cases, inl, inr, ◌≢◌, ap, sym, ◌∙◌}
use per.Relay.State.{Pubkey}
use per.Relay.Runtime.{Bank, Runtime, RuntimeLaws, moved}
use per.Relay.Payment.{pay_fee, handle_bid_payment, Payment, paid_split}
use per.Relay.Fees.{perform_fee_splits}
use per.Relay.Fees.Splits.{perform_fee_splits-le}

-- One transfer between two accounts, as the three balances that it settles.
pub record Transferred (b c : Bank) (f t : Pubkey) (n : ℕ) : Type 0 where
  pub from_pays : f ≢ t → c.lamports f + n ≡ b.lamports f
  pub to_gets : f ≢ t → c.lamports t ≡ b.lamports t + n
  pub other_keeps : (k : Pubkey) → k ≢ f → k ≢ t → c.lamports k ≡ b.lamports k

pub moved-Transferred :
    (b c : Bank) (f t : Pubkey) (n : ℕ)
    → n ≤ b.lamports f
    → ((k : Pubkey) → c.lamports k ≡ (moved b f t n).lamports k)
    → Transferred b c f t n
unfolding moved
moved-Transferred b c f t n h same = record {
  from_pays = λ d. ground (arith, same f);
  to_gets = λ d. ground (arith, same t);
  other_keeps = λ k d1 d2. ground (arith, same k);
}

-- The four accounts that a payment touches are different.
pub record Distinct (ctx : Payment) : Type 0 where
  pub searcher_router : ctx.searcher ≢ ctx.router
  pub searcher_receiver : ctx.searcher ≢ ctx.fee_receiver_relayer
  pub searcher_metadata : ctx.searcher ≢ ctx.express_relay_metadata_key
  pub router_receiver : ctx.router ≢ ctx.fee_receiver_relayer
  pub router_metadata : ctx.router ≢ ctx.express_relay_metadata_key
  pub receiver_metadata : ctx.fee_receiver_relayer ≢ ctx.express_relay_metadata_key

-- What each account holds after a bid was paid with these fees.
pub record Distributed (r : Runtime) (b c : Bank) (ctx : Payment) (bid fee_router fee_relayer : ℕ)
    : Type 0 where
  pub searcher_pays : c.lamports ctx.searcher + bid ≡ b.lamports ctx.searcher
  pub searcher_keeps_rent : r.minimum_balance (b.data_len ctx.searcher) ≤ c.lamports ctx.searcher
  pub router_gets : c.lamports ctx.router ≡ b.lamports ctx.router + fee_router
  pub relayer_gets :
      c.lamports ctx.fee_receiver_relayer ≡ b.lamports ctx.fee_receiver_relayer + fee_relayer
  pub protocol_gets :
      c.lamports ctx.express_relay_metadata_key + fee_router + fee_relayer
      ≡ b.lamports ctx.express_relay_metadata_key + bid
  pub others_keep :
      (k : Pubkey)
      → k ≢ ctx.searcher
      → k ≢ ctx.router
      → k ≢ ctx.fee_receiver_relayer
      → k ≢ ctx.express_relay_metadata_key
      → c.lamports k ≡ b.lamports k

module _ (r : Runtime) where
  -- The intermediate values of a payment that succeeded.
  pub record Steps (b c : Bank) (ctx : Payment) (bid : ℕ) : Type 0 where
    pub split_router : ℕ
    pub fee_router : ℕ
    pub fee_relayer : ℕ
    pub b1 : Bank
    pub b2 : Bank
    pub split : paid_split ctx.config_router ctx.express_relay_metadata ≡ ok split_router
    pub fees :
        perform_fee_splits bid split_router ctx.express_relay_metadata.split_relayer
        ≡ ok (fee_router, fee_relayer)
    pub first : pay_fee r b ctx.searcher ctx.router fee_router ≡ ok b1
    pub second : pay_fee r b1 ctx.searcher ctx.fee_receiver_relayer fee_relayer ≡ ok b2
    pub third :
        r.system_transfer b2 ctx.searcher ctx.express_relay_metadata_key
          (bid - fee_router - fee_relayer)
        ≡ ok c
    pub funded : bid + r.minimum_balance (b.data_len ctx.searcher) ≤ b.lamports ctx.searcher

  pub handle_bid_payment-Steps :
      (b c : Bank) (ctx : Payment) (bid : ℕ)
      → handle_bid_payment r b ctx bid ≡ ok c
      → Steps b c ctx bid
  unfolding handle_bid_payment
  handle_bid_payment-Steps b c ctx bid e =
      elim (Result-cases (paid_split ctx.config_router ctx.express_relay_metadata)) [
        | inl (x, failed) ↦ absurd (ground arith)
        | inr (split_router, split) ↦
            elim (Result-cases
              (perform_fee_splits bid split_router ctx.express_relay_metadata.split_relayer)) [
                | inl (x, failed) ↦ absurd (ground arith)
                | inr (fees, split_fees) ↦ paid split_router fees.0 fees.1 split split_fees
              ]
      ]
    where
      paid :
          (split_router fee_router fee_relayer : ℕ)
          → paid_split ctx.config_router ctx.express_relay_metadata ≡ ok split_router
          → perform_fee_splits bid split_router ctx.express_relay_metadata.split_relayer
            ≡ ok (fee_router, fee_relayer)
          → Steps b c ctx bid
      paid split_router fee_router fee_relayer split split_fees =
          elim (Result-cases (pay_fee r b ctx.searcher ctx.router fee_router)) [
            | inl (x, failed) ↦ absurd (ground arith)
            | inr (b1, first) ↦
                elim (Result-cases
                  (pay_fee r b1 ctx.searcher ctx.fee_receiver_relayer fee_relayer)) [
                    | inl (x, failed) ↦ absurd (ground arith)
                    | inr (b2, second) ↦ record {
                      split_router = split_router;
                      fee_router = fee_router;
                      fee_relayer = fee_relayer;
                      b1 = b1;
                      b2 = b2;
                      split = split;
                      fees = split_fees;
                      first = first;
                      second = second;
                      third = ground arith;
                      funded = ground arith;
                    }
                  ]
          ]

module _ (r : Runtime) (laws : RuntimeLaws r) where
  -- A fee that is paid leaves the searcher and reaches the receiver, whether it is 0 or not.
  pay_fee-moved :
      (b c : Bank) (searcher receiver : Pubkey) (fee : ℕ)
      → pay_fee r b searcher receiver fee ≡ ok c
      → Transferred b c searcher receiver fee
  unfolding pay_fee moved
  pay_fee-moved b c searcher receiver fee e =
      moved-Transferred b c searcher receiver fee
        (ground (arith, laws.transfer_moves b c searcher receiver fee))
        λ k. ground (arith, laws.transfer_moves b c searcher receiver fee)

  Steps-Distributed :
      (b c : Bank) (ctx : Payment) (bid : ℕ)
      → Distinct ctx
      → (s : Steps r b c ctx bid) → Distributed r b c ctx bid s.fee_router s.fee_relayer
  Steps-Distributed b c ctx bid d s = record {
    searcher_pays = omega (
      arith,
      le,
      t1.from_pays d.searcher_router,
      t2.from_pays d.searcher_receiver,
      t3.from_pays d.searcher_metadata,
    );
    searcher_keeps_rent = omega (
      arith,
      s.funded,
      le,
      t1.from_pays d.searcher_router,
      t2.from_pays d.searcher_receiver,
      t3.from_pays d.searcher_metadata,
    );
    router_gets = omega (
      arith,
      t1.to_gets d.searcher_router,
      t2.other_keeps ctx.router (λ e. d.searcher_router (sym e)) d.router_receiver,
      t3.other_keeps ctx.router (λ e. d.searcher_router (sym e)) d.router_metadata,
    );
    relayer_gets = omega (
      arith,
      t2.to_gets d.searcher_receiver,
      t1.other_keeps ctx.fee_receiver_relayer (λ e. d.searcher_receiver (sym e))
          (λ e. d.router_receiver (sym e)),
      t3.other_keeps ctx.fee_receiver_relayer (λ e. d.searcher_receiver (sym e))
          d.receiver_metadata,
    );
    protocol_gets = omega (
      arith,
      le,
      t3.to_gets d.searcher_metadata,
      t1.other_keeps ctx.express_relay_metadata_key (λ e. d.searcher_metadata (sym e))
          (λ e. d.router_metadata (sym e)),
      t2.other_keeps ctx.express_relay_metadata_key (λ e. d.searcher_metadata (sym e))
          (λ e. d.receiver_metadata (sym e)),
    );
    others_keep =
        λ k h1 h2 h3 h4. t3.other_keeps k h1 h4 ∙ t2.other_keeps k h1 h3 ∙ t1.other_keeps k h1 h2;
  }
    where
      le : s.fee_router + s.fee_relayer ≤ bid
      le = perform_fee_splits-le bid s.split_router ctx.express_relay_metadata.split_relayer s.fees

      t1 : Transferred b s.b1 ctx.searcher ctx.router s.fee_router
      t1 = pay_fee-moved b s.b1 ctx.searcher ctx.router s.fee_router s.first

      t2 : Transferred s.b1 s.b2 ctx.searcher ctx.fee_receiver_relayer s.fee_relayer
      t2 = pay_fee-moved s.b1 s.b2 ctx.searcher ctx.fee_receiver_relayer s.fee_relayer s.second

      rest : ℕ
      rest = bid - s.fee_router - s.fee_relayer

      last :
          (rest ≤ s.b2.lamports ctx.searcher)
          × (c ≡ moved s.b2 ctx.searcher ctx.express_relay_metadata_key rest)
      last = laws.transfer_moves s.b2 c ctx.searcher ctx.express_relay_metadata_key rest s.third

      t3 : Transferred s.b2 c ctx.searcher ctx.express_relay_metadata_key rest
      t3 =
          moved-Transferred s.b2 c ctx.searcher ctx.express_relay_metadata_key rest last.0
            λ k. ap (λ (x : Bank). x.lamports k) last.1

  -- When a bid is paid between four different accounts, the fees are those that perform_fee_splits
  -- computes for the router's split; the searcher loses exactly the bid and keeps at least the
  -- minimum balance, the router and the relayer's receiver gain their fees, the protocol's metadata
  -- account gains the rest of the bid, and every other account keeps its lamports.
  pub handle_bid_payment-Distributed :
      (b c : Bank) (ctx : Payment) (bid : ℕ)
      → Distinct ctx
      → handle_bid_payment r b ctx bid ≡ ok c
      → (split_router : ℕ) × (fee_router : ℕ) × (fee_relayer : ℕ) × (paid_split ctx.config_router
            ctx.express_relay_metadata
          ≡ ok split_router)
        × (perform_fee_splits bid split_router ctx.express_relay_metadata.split_relayer
            ≡ ok (fee_router, fee_relayer))
        × Distributed r b c ctx bid fee_router fee_relayer
  handle_bid_payment-Distributed b c ctx bid d e =
      let s = handle_bid_payment-Steps r b c ctx bid e in
      (
        s.split_router,
        s.fee_router,
        s.fee_relayer,
        s.split,
        s.fees,
        Steps-Distributed b c ctx bid d s,
      )
