-- ===== src/Relay/Tokens.antt =====
-- token.rs of the program: the checked token account, and the conditional transfers. The token
-- program and the derivation of associated addresses are parameters.
pub mod Flows
use per.Prelude.{
  ℕ, zero, suc, ◌+◌, ◌-◌, ◌*◌, ◌/◌, ◌%◌, ◌^◌, ◌≤◌, ◌<◌, ◌≡◌, refl, sym, ap, subst, ◌∙◌, ◌≢◌, ◌↔◌,
  ◌⊎◌, inl, inr, Bool, true, false, ◌&&◌, ◌||◌, Option, none, some, List, [], ◌∷◌, ◌++◌, map, arith,
  ltb, leb, ◌==◌, not, ◌!=◌, if◌then◌else◌, ==_refl, Bool-cases, Option-cases, length, drop,
  get_elem?, keep, find, any, all, is_empty, first, All, Result, ok, err, ◌>>=◌, ◌>>◌, fail_if,
  ok_or, Result-cases, OnSome, u64_limit, checked_add, checked_sub, checked_mul, saturating_sub,
}
use per.Relay.State.{
  Pubkey, Outcome, anchor, account_not_initialized, account_did_not_deserialize,
  account_not_associated_token_account, constraint_token_token_program, constraint_token_owner,
  constraint_token_mint,
}

pub record TokenAccount : Type 0 where
  pub mint : Pubkey
  pub owner : Pubkey
  pub amount : ℕ
  pub is_frozen : Bool

-- An account as the runtime holds it; `token` is what its data deserialises to.
pub record RawAccount : Type 0 where
  pub data_len : ℕ
  pub program : Pubkey
  pub token : Option TokenAccount

abbrev pub Tokens : Type 0
Tokens = Pubkey → RawAccount

abbrev pub amount_in : RawAccount → ℕ
amount_in a = elim a.token [ none ↦ 0 | some t ↦ t.amount ]

pub record Transfer : Type 0 where
  pub source : Pubkey
  pub target : Pubkey
  pub amount : ℕ

-- What `k` pays and what it gets in one transfer.
abbrev pub outflow : Pubkey → Transfer → ℕ
outflow k t = if t.source == k then t.amount else 0

abbrev pub inflow : Pubkey → Transfer → ℕ
inflow k t = if t.target == k then t.amount else 0

-- transfer_checked moves the amount; `associated` is get_associated_token_address_with_program_id
-- on a wallet, a mint and a token program.
pub record TokenRuntime : Type 0 where
  pub transfer_checked :
      Tokens → (program mint authority : Pubkey) → Transfer → (decimals : ℕ) → Outcome Tokens
  pub associated : Pubkey → Pubkey → Pubkey → Pubkey
  pub decimals : Pubkey → ℕ

-- The documented effect of a transfer that succeeds, for mints without the transfer fee extension:
-- the source held the amount, each balance changes by what it pays and gets, and no account changes
-- its mint, owner or program.
pub record TokenLaws (r : TokenRuntime) : Type 0 where
  pub transfer_flows :
      (s s' : Tokens) (program mint authority : Pubkey) (t : Transfer) (decimals : ℕ) (k : Pubkey)
      → r.transfer_checked s program mint authority t decimals ≡ ok s'
      → amount_in (s' k) + outflow k t ≡ amount_in (s k) + inflow k t
  pub transfer_funded :
      (s s' : Tokens) (program mint authority : Pubkey) (t : Transfer) (decimals : ℕ)
      → r.transfer_checked s program mint authority t decimals ≡ ok s'
      → t.amount ≤ amount_in (s t.source)

unfoldable pub get_token_account_checked : RawAccount → Pubkey → Outcome TokenAccount
get_token_account_checked account expected_program_id = do
  fail_if (account.data_len == 0) (anchor account_not_initialized)
  fail_if (account.program != expected_program_id) (anchor constraint_token_token_program)
  ok_or account.token (anchor account_did_not_deserialize)

-- The mint and token program of a transfer, and who authorises it.
pub record Authority : Type 0 where
  pub token_program : Pubkey
  pub mint : Pubkey
  pub authority : Pubkey

module _ (r : TokenRuntime) where
  unfoldable pub transfer_token_if_needed : Tokens → Authority → Transfer → Outcome Tokens
  transfer_token_if_needed s a t =
      if ltb 0 t.amount
      then r.transfer_checked s a.token_program a.mint a.authority t (r.decimals a.mint)
      else ok s

  -- `if let Some(recipient) = recipient { .. }`
  unfoldable pub check_recipient :
      Option Pubkey → TokenAccount → Authority → Pubkey → Outcome (Unit {0})
  check_recipient none account a key = ok tt
  check_recipient (some recipient) account a key = do
    fail_if (account.owner != recipient) (anchor constraint_token_owner)
    fail_if (r.associated recipient a.mint a.token_program != key)
        (anchor account_not_associated_token_account)

  unfoldable pub check_receiver_and_transfer_token_if_needed :
      Tokens → Authority → Option Pubkey → Transfer → Outcome Tokens
  unfolding get_token_account_checked check_recipient
  check_receiver_and_transfer_token_if_needed s a recipient t =
      if ltb 0 t.amount
      then (do
        account ← get_token_account_checked (s t.target) a.token_program
        check_recipient recipient account a t.target
        fail_if (account.mint != a.mint) (anchor constraint_token_mint)
        transfer_token_if_needed s a t)
      else ok s
