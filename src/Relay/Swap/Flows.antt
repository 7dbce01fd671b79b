-- ===== src/Relay/Swap/Flows.antt =====
-- Which tokens a swap moves.
use per.Prelude.{
  ℕ, ◌+◌, ◌≤◌, ◌≡◌, refl, inl, inr, Option, none, some, List, [], ◌∷◌, ◌++◌, arith, drop, first, ok,
  err, ◌>>=◌, Result-cases, take,
}
use per.Relay.State.{Pubkey, Outcome}
use per.Relay.Tokens.{
  Tokens, TokenRuntime, TokenLaws, Transfer, amount_in, outflow, inflow, transfer_token_if_needed,
}
use per.Relay.Tokens.Flows.{Flows, transfer_token_if_needed-Flows, check_receiver-Flows}
use per.Relay.Swap.{
  Swap, SwapV2Args, TransferSwapFeeArgs, PostFeeSwapArgs, swap_fees, swap_internal,
  transfer_swap_fee_cpi, transfer_swap_fees_cpi, exchange, check_enough_balances, from_searcher,
  from_user, searcher_authority, user_authority,
}

-- The five transfers of a swap, in order.
abbrev pub transfers : Swap → TransferSwapFeeArgs → PostFeeSwapArgs → List Transfer
transfers ctx args post =
    record {
      source = args.source;
      target = ctx.router_fee_receiver_ta;
      amount = args.fees.router_fee;
    }
    ∷ record {
      source = args.source;
      target = ctx.relayer_fee_receiver_ata;
      amount = args.fees.relayer_fee;
    }
    ∷ record {
      source = args.source;
      target = ctx.express_relay_fee_receiver_ata;
      amount = args.fees.express_relay_fee;
    }
    ∷ from_searcher ctx post
    ∷ from_user ctx post
    ∷ []

abbrev pub total_out : List Transfer → Pubkey → ℕ
total_out [] k = 0
total_out (t ∷ ts) k = outflow k t + total_out ts k

abbrev pub total_in : List Transfer → Pubkey → ℕ
total_in [] k = 0
total_in (t ∷ ts) k = inflow k t + total_in ts k

-- Every balance has changed by what the transfers took from it and gave to it.
abbrev pub Moves : Tokens → Tokens → List Transfer → Type 0
Moves s s' ts = Flows s s' (total_out ts) (total_in ts)

Moves-one :
    (s s' : Tokens) (t : Transfer)
    → Flows s s' (λ k. outflow k t) (λ k. inflow k t)
    → Moves s s' (t ∷ [])
Moves-one s s' t h k = omega (arith, h k)

total_out-append :
    (ts us : List Transfer) (k : Pubkey) → total_out (ts ++ us) k ≡ total_out ts k + total_out us k
total_out-append [] us k = omega arith
total_out-append (t ∷ ts) us k = omega (arith, total_out-append ts us k)

total_in-append :
    (ts us : List Transfer) (k : Pubkey) → total_in (ts ++ us) k ≡ total_in ts k + total_in us k
total_in-append [] us k = omega arith
total_in-append (t ∷ ts) us k = omega (arith, total_in-append ts us k)

-- Two actions in a row move what both move.
bind-Moves :
    (s s' : Tokens) (m : Outcome Tokens) (f : Tokens → Outcome Tokens) (ts us : List Transfer)
    → ((s1 : Tokens) → m ≡ ok s1 → Moves s s1 ts)
    → ((s1 : Tokens) → f s1 ≡ ok s' → Moves s1 s' us)
    → (m >>= f) ≡ ok s'
    → Moves s s' (ts ++ us)
bind-Moves s s' (err x) f ts us first second e k = absurd (ground arith)
bind-Moves s s' (ok s1) f ts us first second e k =
    omega (arith, total_out-append ts us k, total_in-append ts us k, first s1 refl k, second s1 e k)

module _ (r : TokenRuntime) (laws : TokenLaws r) where
  fee-Moves :
      (s s' : Tokens) (ctx : Swap) (fee : ℕ) (ta : Pubkey) (receiver : Option Pubkey)
      (args : TransferSwapFeeArgs)
      → transfer_swap_fee_cpi r s ctx fee ta receiver args ≡ ok s'
      → Moves s s' (record { source = args.source; target = ta; amount = fee } ∷ [])
  unfolding transfer_swap_fee_cpi
  fee-Moves s s' ctx fee ta receiver args e =
      Moves-one s s' _ (check_receiver-Flows r laws s s' _ receiver _ e)

  exchange-Moves :
      (s s' : Tokens) (ctx : Swap) (args : TransferSwapFeeArgs) (post : PostFeeSwapArgs)
      → exchange r s ctx post ≡ ok s'
      → Moves s s' (drop 3 (transfers ctx args post))
  unfolding exchange
  exchange-Moves s s' ctx args post =
      bind-Moves s s'
        (transfer_token_if_needed r s (searcher_authority ctx) (from_searcher ctx post))
        (λ s1. transfer_token_if_needed r s1 (user_authority ctx) (from_user ctx post))
        (from_searcher ctx post ∷ []) (from_user ctx post ∷ [])
        (λ s1 h. Moves-one s s1 (from_searcher ctx post) (
          transfer_token_if_needed-Flows r laws s s1 (searcher_authority ctx)
            (from_searcher ctx post) h))
        (λ s1 h.
          Moves-one s1 s' (from_user ctx post) (
            transfer_token_if_needed-Flows r laws s1 s' (user_authority ctx) (from_user ctx post)
              h))

  transfer_swap_fees_cpi-Moves :
      (s s' : Tokens) (ctx : Swap) (args : TransferSwapFeeArgs) (post : PostFeeSwapArgs)
      → transfer_swap_fees_cpi r s ctx args ≡ ok s'
      → Moves s s' (take 3 (transfers ctx args post))
  unfolding transfer_swap_fees_cpi
  transfer_swap_fees_cpi-Moves s s' ctx args post =
      bind-Moves s s' (to_router s) (λ s1. to_relayer s1 >>= to_protocol) (_ ∷ []) (_ ∷ _ ∷ [])
        (λ s1. fee-Moves s s1 ctx args.fees.router_fee ctx.router_fee_receiver_ta none args)
        (λ s1.
          bind-Moves s1 s' (to_relayer s1) to_protocol (_ ∷ []) (_ ∷ [])
            (λ s2. fee-Moves s1 s2 ctx args.fees.relayer_fee ctx.relayer_fee_receiver_ata _ args)
            (λ s2.
              fee-Moves s2 s' ctx args.fees.express_relay_fee ctx.express_relay_fee_receiver_ata _
                args))
    where
      to_router : Tokens → Outcome Tokens
      to_router s1 =
          transfer_swap_fee_cpi r s1 ctx args.fees.router_fee ctx.router_fee_receiver_ta none args

      to_relayer : Tokens → Outcome Tokens
      to_relayer s1 =
          transfer_swap_fee_cpi r s1 ctx args.fees.relayer_fee ctx.relayer_fee_receiver_ata
            (some ctx.express_relay_metadata.fee_receiver_relayer) args

      to_protocol : Tokens → Outcome Tokens
      to_protocol s1 =
          transfer_swap_fee_cpi r s1 ctx args.fees.express_relay_fee
            ctx.express_relay_fee_receiver_ata (some ctx.express_relay_metadata_key) args

  fees-Moves :
      (s s' : Tokens) (ctx : Swap) (args : TransferSwapFeeArgs) (post : PostFeeSwapArgs)
      → (transfer_swap_fees_cpi r s ctx args >>= λ s1. exchange r s1 ctx post) ≡ ok s'
      → Moves s s' (transfers ctx args post)
  fees-Moves s s' ctx args post =
      bind-Moves s s' (transfer_swap_fees_cpi r s ctx args) (λ s1. exchange r s1 ctx post)
        (take 3 (transfers ctx args post)) (drop 3 (transfers ctx args post))
        (λ s1. transfer_swap_fees_cpi-Moves s s1 ctx args post)
        (λ s1. exchange-Moves s1 s' ctx args post)

  -- A swap that succeeds has computed its fees, the searcher and the user held the amounts, and
  -- every token balance has changed by exactly what the five transfers (three fees, then the two
  -- remaining amounts) take from it and give to it; so a balance outside them is unchanged.
  pub swap_internal-Flows :
      (now : ℕ) (s s' : Tokens) (ctx : Swap) (args : SwapV2Args)
      → swap_internal r now s ctx args ≡ ok s'
      → (fees : TransferSwapFeeArgs) × (post : PostFeeSwapArgs) × (swap_fees ctx args args.fee_token
          ≡ ok (fees, post))
        × (args.amount_searcher ≤ amount_in (s ctx.searcher_ta_mint_searcher))
        × (args.amount_user ≤ amount_in (s ctx.user_ata_mint_user))
        × Moves s s' (transfers ctx fees post)
  unfolding swap_internal check_enough_balances
  swap_internal-Flows now s s' ctx args e =
      elim (Result-cases (swap_fees ctx args args.fee_token)) [
        | inl (_, failed) ↦ absurd (ground arith)
        | inr ((fees, post), computed) ↦ (
          fees,
          post,
          computed,
          ground arith,
          ground arith,
          fees-Moves s s' ctx fees post (ground arith),
        )
      ]
