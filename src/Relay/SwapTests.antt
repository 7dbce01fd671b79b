-- ===== src/Relay/SwapTests.antt =====
-- A token program and a swap on which the theorems about swaps are applied.
use mathlib.Core.Option
use per.Prelude.{
  ℕ, ◌+◌, ◌-◌, ◌*◌, ◌/◌, ◌≤◌, ◌≡◌, refl, subst, ◌∙◌, Bool, true, false, ◌&&◌, ◌||◌, Option, none,
  some, arith, leb, ◌==◌, if◌then◌else◌, ok, err, IsOk,
}
use per.Relay.State.{
  Pubkey, Outcome, code, anchor, cpi, insufficient_user_funds, account_not_initialized,
}
use per.Relay.Tests.{test_metadata}
use per.Relay.Tokens.{
  Tokens, TokenAccount, TokenRuntime, TokenLaws, Transfer, RawAccount, amount_in, outflow, inflow,
}
use per.Relay.Swap.{
  Swap, SwapV2Args, TransferSwapFeeArgs, PostFeeSwapArgs, swap_fees, swap_internal, searcher_token,
  check_raw_constraints,
}
use per.Relay.Swap.Flows.{Moves, transfers, swap_internal-Flows}
use per.Relay.Swap.Checks.{Passes, insufficient_user_funds_masks_receiver}

abbrev with_amount : RawAccount → ℕ → RawAccount
with_amount a n = record a {
  token = Option.map (λ (t : TokenAccount). record t { amount = n }) a.token;
}

unfoldable put : Tokens → Pubkey → ℕ → Tokens
put s k n j = if j == k then with_amount (s j) n else s j

abbrev is_some {ℓ} : {A : Type ℓ} → Option A → Bool
is_some none = false
is_some (some a) = true

-- The tokens after a transfer.
abbrev sent_tokens : Tokens → Transfer → Tokens
sent_tokens s t =
    let debited = put s t.source (amount_in (s t.source) - t.amount) in
    put debited t.target (amount_in (debited t.target) + t.amount)

abbrev sendable : Tokens → Transfer → Bool
sendable s t =
    is_some (s t.source).token
    && (is_some (s t.target).token && leb t.amount (amount_in (s t.source)))

abbrev test_transfer : Tokens → Transfer → Outcome Tokens
test_transfer s t = if sendable s t then ok (sent_tokens s t) else err (cpi 1)

abbrev test_tokens : TokenRuntime
test_tokens = record {
  transfer_checked = λ s program mint authority t decimals. test_transfer s t;
  associated = λ wallet mint program. wallet * 1000 + mint;
  decimals = λ mint. 6;
}

put-is_some :
    (s : Tokens) (j k : Pubkey) (n : ℕ) → is_some (put s j n k).token ≡ is_some (s k).token
unfolding put
put-is_some s j k n = ground arith

put-amount :
    (s : Tokens) (j k : Pubkey) (n : ℕ)
    → is_some (s j).token ≡ true
    → amount_in (put s j n k) ≡ (if k == j then n else amount_in (s k))
unfolding put
put-amount s j k n h = ground arith

sent-amount :
    (s : Tokens) (t : Transfer) (k : Pubkey)
    → is_some (s t.source).token ≡ true
    → is_some (s t.target).token ≡ true
    → t.amount ≤ amount_in (s t.source)
    → amount_in (sent_tokens s t k) + outflow k t ≡ amount_in (s k) + inflow k t
sent-amount s t k hs ht le =
    let n = amount_in (s t.source) - t.amount in
    let debited = put s t.source n in
    let at_target = put-amount s t.source t.target n hs in
    let at_k = put-amount s t.source k n hs in
    let final =
      put-amount debited t.target k (amount_in (debited t.target) + t.amount)
        (put-is_some s t.source t.target n ∙ ht) in
    ground (arith, at_target, at_k, final)

if_ok : (b : Bool) (x y : Tokens) → (if b then ok x else err (cpi 1)) ≡ ok y → (b ≡ true) × (x ≡ y)
if_ok true x y e = (refl, cc)
if_ok false x y e = absurd cc

test_transfer_flows :
    (s s' : Tokens) (t : Transfer) (k : Pubkey)
    → test_transfer s t ≡ ok s'
    → amount_in (s' k) + outflow k t ≡ amount_in (s k) + inflow k t
test_transfer_flows s s' t k e =
    let (fine, same) = if_ok (sendable s t) (sent_tokens s t) s' e in
    subst (λ (x : Tokens). amount_in (x k) + outflow k t ≡ amount_in (s k) + inflow k t) same
      (sent-amount s t k (ground arith) (ground arith) (ground arith))

test_tokens_laws : TokenLaws test_tokens
test_tokens_laws = record {
  transfer_flows = λ s s' program mint authority t decimals k e. test_transfer_flows s s' t k e;
  transfer_funded = λ s s' program mint authority t decimals e. ground arith;
}

abbrev test_swap : Swap
test_swap = record {
  searcher = record { key = 40; is_signer = true };
  user = record { key = 41; is_signer = true };
  searcher_ta_mint_searcher = 50;
  searcher_ta_mint_user = 51;
  user_ata_mint_searcher = 52;
  user_ata_mint_user = 53;
  router_fee_receiver_ta = 54;
  relayer_fee_receiver_ata = 3060;
  express_relay_fee_receiver_ata = 12060;
  mint_searcher = 60;
  mint_user = 61;
  mint_fee = 60;
  token_program_searcher = 70;
  token_program_user = 70;
  token_program_fee = 70;
  express_relay_metadata_key = 12;
  express_relay_metadata = test_metadata;
  relayer_signer = record { key = 2; is_signer = true };
}

abbrev test_swap_args : SwapV2Args
test_swap_args = record {
  deadline = 50;
  amount_searcher = 10000;
  amount_user = 5000;
  referral_fee_ppm = 10000;
  fee_token = searcher_token;
  swap_platform_fee_ppm = 5000;
}

abbrev test_account : ℕ → ℕ → Pubkey → RawAccount
test_account len amount k = record {
  data_len = len;
  program = 70;
  token = some (record {
    mint = if k == 51 || k == 53 then 61 else 60;
    owner = k / 1000;
    amount = amount;
    is_frozen = false;
  });
}

abbrev test_balances : Tokens
test_balances k = test_account 165 20000 k

abbrev or_start : Outcome Tokens → Tokens
or_start (ok s) = s
or_start (err e) = test_balances

IsOk-or_start : (m : Outcome Tokens) → IsOk m → m ≡ ok (or_start m)
IsOk-or_start (ok s) h = refl
IsOk-or_start (err e) h = absurd h

abbrev test_swap_result : Outcome Tokens
test_swap_result = swap_internal test_tokens 40 test_balances test_swap test_swap_args

test_swap_succeeds : IsOk test_swap_result
unfolding swap_internal check_raw_constraints per.Relay.Permission.check_deadline
    per.Relay.Permission.check_relayer_signer swap_fees per.Relay.Fees.compute_swap_fees
    per.Relay.Swap.check_enough_balances per.Relay.Swap.transfer_swap_fees_cpi
    per.Relay.Swap.transfer_swap_fee_cpi
    per.Relay.Tokens.check_receiver_and_transfer_token_if_needed
    per.Relay.Tokens.transfer_token_if_needed put per.Relay.Swap.exchange
test_swap_succeeds = tt

swap_internal-Flows_example :
    (fees : TransferSwapFeeArgs) × (post : PostFeeSwapArgs) × (swap_fees test_swap test_swap_args
        searcher_token
      ≡ ok (fees, post))
    × (10000 ≤ 20000)
    × (5000 ≤ 20000)
    × Moves test_balances (or_start test_swap_result) (transfers test_swap fees post)
swap_internal-Flows_example =
    swap_internal-Flows test_tokens test_tokens_laws 40 test_balances (or_start test_swap_result)
      test_swap test_swap_args (IsOk-or_start test_swap_result test_swap_succeeds)

-- The user holds too little.
abbrev short_balances : Tokens
short_balances k = test_account 165 (if k == 53 then 100 else 20000) k

-- The router's receiver account is not initialised.
abbrev missing_receiver : Tokens
missing_receiver k = test_account (if k == 54 then 0 else 165) 20000 k

abbrev test_swap_fees : TransferSwapFeeArgs
test_swap_fees = record {
  fees = record { router_fee = 100; relayer_fee = 10; express_relay_fee = 40 };
  source = 50;
  authority = 40;
}

abbrev test_post_fee : PostFeeSwapArgs
test_post_fee = record { amount_searcher_after_fees = 9850; amount_user_after_fees = 5000 }

test_swap-Passes : Passes 40 test_swap test_swap_args test_swap_fees test_post_fee
unfolding check_raw_constraints per.Relay.Permission.check_deadline
    per.Relay.Permission.check_relayer_signer swap_fees per.Relay.Fees.compute_swap_fees
test_swap-Passes = record { raw = refl; deadline = refl; signer = refl; computed = refl }

insufficient_user_funds_masks_receiver_example :
    (swap_internal test_tokens 40 short_balances test_swap test_swap_args
      ≡ err (code insufficient_user_funds))
    × (swap_internal test_tokens 40 missing_receiver test_swap test_swap_args
        ≡ err (anchor account_not_initialized))
insufficient_user_funds_masks_receiver_example =
    insufficient_user_funds_masks_receiver test_tokens 40 short_balances missing_receiver test_swap
      test_swap_args test_swap_fees test_post_fee test_swap-Passes (omega arith) (omega arith)
      (omega arith) (omega arith) (omega arith) refl
