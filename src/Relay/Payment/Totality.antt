-- ===== src/Relay/Payment/Totality.antt =====
-- When a bid can be paid (utils.rs).
use per.Prelude.{
  ℕ, ◌+◌, ◌-◌, ◌*◌, ◌≤◌, ◌<◌, ◌≡◌, refl, sym, ◌∙◌, inl, inr, arith, ltb, if◌then◌else◌, Bool-cases,
  ok, u64_limit,
}
use per.Relay.State.{Pubkey, fee_split_precision}
use per.Relay.Runtime.{Bank, Runtime, RuntimeLaws, moved}
use per.Relay.Fees.Splits.{share, share-le, perform_fee_splits_small}
use per.Relay.Payment.{Payment, paid_split, pay_fee, handle_bid_payment}
use per.Relay.Payment.Conservation.{Transferred, moved-Transferred, Distinct}

-- The bank after a fee that may be 0.
paid : Bank → Pubkey → Pubkey → ℕ → Bank
paid b f t n = if ltb 0 n then moved b f t n else b

paid-Transferred :
    (b : Bank) (f t : Pubkey) (n : ℕ) → n ≤ b.lamports f → Transferred b (paid b f t n) f t n
unfolding paid
paid-Transferred b f t n h = elim (Bool-cases (ltb 0 n)) [
  | inl p ↦ rw p (moved-Transferred b (moved b f t n) f t n h (λ k. refl))
  | inr z ↦ rw z (record {
    from_pays = λ d. ground arith;
    to_gets = λ d. ground arith;
    other_keeps = λ k d1 d2. refl;
  })
]

paid-data_len :
    (b : Bank) (f t : Pubkey) (n : ℕ) (k : Pubkey) → (paid b f t n).data_len k ≡ b.data_len k
unfolding paid moved
paid-data_len b f t n k = ground arith

module _ (r : Runtime) (laws : RuntimeLaws r) where
  -- A receiver that can take `n` more lamports and has its rent already.
  abbrev pub CanReceive : Bank → Pubkey → ℕ → Type 0
  CanReceive b k n =
      (r.minimum_balance (b.data_len k) ≤ b.lamports k) × (b.lamports k + n < u64_limit)

  pay_fee_total :
      (b : Bank) (f t : Pubkey) (n : ℕ)
      → b.data_len f ≡ 0
      → n ≤ b.lamports f
      → CanReceive b t n
      → pay_fee r b f t n ≡ ok (paid b f t n)
  unfolding pay_fee paid
  pay_fee_total b f t n wallet h c = ground (arith, laws.transfer_funded b f t n wallet h)

  -- The three transfers of a payment, for fees that are already computed.
  record Settled (b : Bank) (ctx : Payment) (fee_router fee_relayer rest : ℕ) : Type 0 where
    b1 : Bank
    b2 : Bank
    first : pay_fee r b ctx.searcher ctx.router fee_router ≡ ok b1
    second : pay_fee r b1 ctx.searcher ctx.fee_receiver_relayer fee_relayer ≡ ok b2
    third :
        r.system_transfer b2 ctx.searcher ctx.express_relay_metadata_key rest
        ≡ ok (moved b2 ctx.searcher ctx.express_relay_metadata_key rest)

  settle :
      (b : Bank) (ctx : Payment) (fee_router fee_relayer rest : ℕ)
      → Distinct ctx
      → b.data_len ctx.searcher ≡ 0
      → fee_router + fee_relayer + rest ≤ b.lamports ctx.searcher
      → CanReceive b ctx.router fee_router
      → CanReceive b ctx.fee_receiver_relayer fee_relayer
      → CanReceive b ctx.express_relay_metadata_key rest
      → Settled b ctx fee_router fee_relayer rest
  settle b ctx fr fl rest d wallet funded rr rf rm = record {
    b1 = b1;
    b2 = b2;
    first = pay_fee_total b ctx.searcher ctx.router fr wallet (omega arith) rr;
    second =
        pay_fee_total b1 ctx.searcher ctx.fee_receiver_relayer fl (l1 ctx.searcher ∙ wallet)
          (omega (arith, t1.from_pays d.searcher_router))
          (rw
            (
              l1 ctx.fee_receiver_relayer,
              t1.other_keeps ctx.fee_receiver_relayer (λ e. d.searcher_receiver (sym e))
                  (λ e. d.router_receiver (sym e)),
            )
            rf);
    third =
        laws.transfer_funded b2 ctx.searcher ctx.express_relay_metadata_key rest
          (paid-data_len b1 ctx.searcher ctx.fee_receiver_relayer fl ctx.searcher
            ∙ l1 ctx.searcher
            ∙ wallet)
          (omega (arith, t1.from_pays d.searcher_router, t2.from_pays d.searcher_receiver))
          (omega (
            arith,
            rm.1,
            t1.other_keeps ctx.express_relay_metadata_key (λ e. d.searcher_metadata (sym e))
                (λ e. d.router_metadata (sym e)),
            t2.other_keeps ctx.express_relay_metadata_key (λ e. d.searcher_metadata (sym e))
                (λ e. d.receiver_metadata (sym e)),
          ));
  }
    where
      b1 : Bank
      b1 = paid b ctx.searcher ctx.router fr

      b2 : Bank
      b2 = paid b1 ctx.searcher ctx.fee_receiver_relayer fl

      l1 : (k : Pubkey) → b1.data_len k ≡ b.data_len k
      l1 = paid-data_len b ctx.searcher ctx.router fr

      t1 : Transferred b b1 ctx.searcher ctx.router fr
      t1 = paid-Transferred b ctx.searcher ctx.router fr (omega arith)

      t2 : Transferred b1 b2 ctx.searcher ctx.fee_receiver_relayer fl
      t2 =
          paid-Transferred b1 ctx.searcher ctx.fee_receiver_relayer fl
            (omega (arith, t1.from_pays d.searcher_router))

  -- A bid is paid whenever the splits are within the precision, the bid is at most a
  -- ten-thousandth of the u64 range, the config account is empty or holds a config, the searcher is
  -- a wallet without data that holds the bid and the minimum balance, and the three receivers, all
  -- different from it and from each other, hold their rent and have room for the bid.
  pub handle_bid_payment_total :
      (b : Bank) (ctx : Payment) (bid split_router : ℕ)
      → Distinct ctx
      → paid_split ctx.config_router ctx.express_relay_metadata ≡ ok split_router
      → split_router ≤ fee_split_precision
      → ctx.express_relay_metadata.split_relayer ≤ fee_split_precision
      → bid * fee_split_precision < u64_limit
      → b.data_len ctx.searcher ≡ 0
      → bid + r.minimum_balance (b.data_len ctx.searcher) ≤ b.lamports ctx.searcher
      → b.lamports ctx.searcher < u64_limit
      → CanReceive b ctx.router bid
      → CanReceive b ctx.fee_receiver_relayer bid
      → CanReceive b ctx.express_relay_metadata_key bid
      → (c : Bank) × (handle_bid_payment r b ctx bid ≡ ok c)
  unfolding handle_bid_payment
  handle_bid_payment_total b ctx bid split_router d es hr hl small wallet funded held rr rf rm = (
    moved s.b2 ctx.searcher ctx.express_relay_metadata_key (bid - fee_router - fee_relayer),
    ground (
      arith,
      es,
      perform_fee_splits_small bid split_router ctx.express_relay_metadata.split_relayer small hr
          hl,
      s.first,
      s.second,
      s.third,
    ),
  )
    where
      fee_router : ℕ
      fee_router = share bid split_router

      fee_relayer : ℕ
      fee_relayer = share (bid - fee_router) ctx.express_relay_metadata.split_relayer

      router_le : fee_router ≤ bid
      router_le = share-le bid split_router hr

      relayer_le : fee_relayer ≤ bid - fee_router
      relayer_le = share-le (bid - fee_router) ctx.express_relay_metadata.split_relayer hl

      s : Settled b ctx fee_router fee_relayer (bid - fee_router - fee_relayer)
      s =
          settle b ctx fee_router fee_relayer (bid - fee_router - fee_relayer) d wallet
            (omega (arith, router_le, relayer_le)) (omega (arith, rr, router_le))
            (omega (arith, rf, relayer_le)) (omega (arith, rm))
