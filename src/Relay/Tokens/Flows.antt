-- ===== src/Relay/Tokens/Flows.antt =====
-- What a conditional transfer moves.
use per.Prelude.{ℕ, ◌+◌, ◌≡◌, Option, arith, ok}
use per.Relay.State.{Pubkey}
use per.Relay.Tokens.{
  Tokens, TokenRuntime, TokenLaws, Transfer, Authority, amount_in, outflow, inflow,
  transfer_token_if_needed, check_receiver_and_transfer_token_if_needed,
}

-- Every balance has changed by what the transfers took from it and gave to it.
abbrev pub Flows : Tokens → Tokens → (Pubkey → ℕ) → (Pubkey → ℕ) → Type 0
Flows s s' out into = (k : Pubkey) → amount_in (s' k) + out k ≡ amount_in (s k) + into k

module _ (r : TokenRuntime) (laws : TokenLaws r) where
  pub transfer_token_if_needed-Flows :
      (s s' : Tokens) (a : Authority) (t : Transfer)
      → transfer_token_if_needed r s a t ≡ ok s'
      → Flows s s' (λ k. outflow k t) (λ k. inflow k t)
  unfolding transfer_token_if_needed
  transfer_token_if_needed-Flows s s' a t e k =
      ground
        (arith, laws.transfer_flows s s' a.token_program a.mint a.authority t (r.decimals a.mint) k)

  -- The checks of the receiver only refuse.
  pub check_receiver-Flows :
      (s s' : Tokens) (a : Authority) (recipient : Option Pubkey) (t : Transfer)
      → check_receiver_and_transfer_token_if_needed r s a recipient t ≡ ok s'
      → Flows s s' (λ k. outflow k t) (λ k. inflow k t)
  unfolding check_receiver_and_transfer_token_if_needed
  check_receiver-Flows s s' a recipient t e k = ground (
    arith,
    λ (h : transfer_token_if_needed r s a t ≡ ok s'). transfer_token_if_needed-Flows s s' a t h k,
  )
