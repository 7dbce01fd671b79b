-- ===== src/Relay/Withdrawal.antt =====
-- withdraw_fees of lib.rs, with the constraints of its accounts.
use mathlib.Core.Option
use per.Prelude.{
  ℕ, ◌+◌, ◌≡◌, ◌≢◌, true, some, arith, ◌==◌, not, ◌!=◌, if◌then◌else◌, ok, ◌>>=◌, ◌>>◌, fail_if,
  ok_or, saturating_sub,
}
use per.Relay.State.{
  Pubkey, ExpressRelayMetadata, Outcome, anchor, account_not_signer, account_not_initialized,
  constraint_seeds, constraint_has_one,
}
use per.Relay.Runtime.{Bank, Runtime, transfer_lamports}
use per.Relay.Admin.{Signer, Program}
use per.Relay.Permission.{Crate}

-- The accounts of the WithdrawFees struct.
pub record WithdrawFees : Type 0 where
  pub admin : Signer
  pub fee_receiver_admin : Pubkey
  pub express_relay_metadata : Pubkey

module _ (crate : Crate) (r : Runtime) where
  -- What the metadata account holds above the balance that keeps it alive.
  unfoldable pub surplus : Bank → Pubkey → ℕ
  surplus b account = saturating_sub (b.lamports account) (r.minimum_balance (b.data_len account))

  unfoldable pub check_withdraw_accounts : Program → WithdrawFees → Outcome (Unit {0})
  check_withdraw_accounts p ctx = do
    fail_if (not ctx.admin.is_signer) (anchor account_not_signer)
    m ← ok_or p.metadata (anchor account_not_initialized)
    fail_if (ctx.express_relay_metadata != crate.metadata_address) (anchor constraint_seeds)
    fail_if (m.admin != ctx.admin.key) (anchor constraint_has_one)

  unfoldable pub withdraw_fees : Program → Bank → WithdrawFees → Outcome Bank
  withdraw_fees p b ctx = do
    check_withdraw_accounts p ctx
    let amount = surplus b ctx.express_relay_metadata
    if amount == 0
        then ok b
        else transfer_lamports b ctx.express_relay_metadata ctx.fee_receiver_admin amount

  -- Only the stored admin withdraws fees: a withdrawal that succeeds was signed by it. What the
  -- metadata account holds above its minimum balance goes to the receiver, when that is another
  -- account, and an account `k` that is neither of them keeps its lamports.
  pub withdraw_fees_exact :
      (p : Program) (b c : Bank) (ctx : WithdrawFees) (k : Pubkey)
      → ctx.express_relay_metadata ≢ ctx.fee_receiver_admin
      → k ≢ ctx.express_relay_metadata
      → k ≢ ctx.fee_receiver_admin
      → withdraw_fees p b ctx ≡ ok c
      → (ctx.admin.is_signer ≡ true)
        × (ctx.express_relay_metadata ≡ crate.metadata_address)
        × (Option.map (λ (m : ExpressRelayMetadata). m.admin) p.metadata ≡ some ctx.admin.key)
        × (c.lamports ctx.express_relay_metadata + surplus b ctx.express_relay_metadata
            ≡ b.lamports ctx.express_relay_metadata)
        × (c.lamports ctx.fee_receiver_admin
            ≡ b.lamports ctx.fee_receiver_admin + surplus b ctx.express_relay_metadata)
        × (c.lamports k ≡ b.lamports k)
  unfolding withdraw_fees check_withdraw_accounts transfer_lamports surplus
  withdraw_fees_exact p b c ctx k other k1 k2 e =
      (ground arith, ground arith, ground arith, ground arith, ground arith, ground arith)
