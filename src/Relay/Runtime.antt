-- ===== src/Relay/Runtime.antt =====
-- What the program calls of Solana's runtime and of the system program, which are not part of the
-- repository: rent, and the transfer of lamports between accounts.
use per.Prelude.{
  ℕ, ◌+◌, ◌-◌, ◌≤◌, ◌<◌, ◌≡◌, ok, ◌>>=◌, ok_or, checked_add, checked_sub, u64_limit, ◌==◌,
  if◌then◌else◌,
}
use per.Relay.State.{Pubkey, Outcome, panic}

-- The lamports and the data size of every account.
pub record Bank : Type 0 where
  pub lamports : Pubkey → ℕ
  pub data_len : Pubkey → ℕ

abbrev pub set_lamports : Bank → Pubkey → ℕ → Bank
set_lamports b k n = record b { lamports = λ j. if j == k then n else b.lamports j }

-- The bank after `n` lamports went from `f` to `t`, which may be one account.
unfoldable pub moved : Bank → Pubkey → Pubkey → ℕ → Bank
moved b f t n = let c = set_lamports b f (b.lamports f - n) in set_lamports c t (c.lamports t + n)

pub record Runtime : Type 0 where
  pub minimum_balance : ℕ → ℕ
  pub system_transfer : Bank → Pubkey → Pubkey → ℕ → Outcome Bank

-- The documented behaviour of the system program's transfer: it debits what the source holds, and
-- succeeds from an account without data that holds the amount.
pub record RuntimeLaws (r : Runtime) : Type 0 where
  pub transfer_moves :
      (b c : Bank) (f t : Pubkey) (n : ℕ)
      → r.system_transfer b f t n ≡ ok c
      → (n ≤ b.lamports f) × (c ≡ moved b f t n)
  pub transfer_funded :
      (b : Bank) (f t : Pubkey) (n : ℕ)
      → b.data_len f ≡ 0
      → n ≤ b.lamports f
      → b.lamports t + n < u64_limit
      → r.system_transfer b f t n ≡ ok (moved b f t n)

-- transfer_lamports of utils.rs. The two assignments are checked: the program panics on a wrap.
unfoldable pub transfer_lamports : Bank → Pubkey → Pubkey → ℕ → Outcome Bank
transfer_lamports b f t amount = do
  debited ← ok_or (checked_sub (b.lamports f) amount) panic
  let c = set_lamports b f debited
  credited ← ok_or (checked_add (c.lamports t) amount) panic
  ok (set_lamports c t credited)
