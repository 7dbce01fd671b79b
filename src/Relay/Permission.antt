-- ===== src/Relay/Permission.antt =====
-- Permissioning: submit_bid and check_permission (lib.rs), check_deadline (clock.rs), the
-- introspection functions of utils.rs and check_relayer_signer of swap.rs. The instructions sysvar is
-- the list of the transaction's instructions. Anchor's discriminator and Borsh's decoding of
-- SubmitBidArgs are parameters.
pub mod Consistency
use per.Prelude.{
  ℕ, zero, suc, ◌+◌, ◌-◌, ◌*◌, ◌/◌, ◌%◌, ◌^◌, ◌≤◌, ◌<◌, ◌≡◌, refl, sym, ap, subst, ◌∙◌, ◌≢◌, ◌↔◌,
  ◌⊎◌, inl, inr, Bool, true, false, ◌&&◌, ◌||◌, Option, none, some, List, [], ◌∷◌, ◌++◌, map, arith,
  ltb, leb, ◌==◌, not, ◌!=◌, if◌then◌else◌, ==_refl, Bool-cases, Option-cases, length, drop,
  get_elem?, keep, find, any, all, is_empty, first, All, Result, ok, err, ◌>>=◌, ◌>>◌, fail_if,
  ok_or, Result-cases, OnSome, u64_limit, checked_add, checked_sub, checked_mul, saturating_sub,
  bytes_eq,
}
use per.Relay.State.{
  Pubkey, ExpressRelayMetadata, ConfigRouter, Outcome, code, anchor, constraint_has_one,
  constraint_seeds, constraint_address, invalid_program_id, account_not_signer, deadline_passed,
  invalid_cpi_submit_bid, multiple_permissions, missing_permission, panic, borsh_io_error,
  arithmetic_overflow,
}
use per.Relay.Runtime.{Bank, Runtime}
use per.Relay.Admin.{Signer}
use per.Relay.Fees.{perform_fee_split_router}
use per.Relay.Payment.{ConfigData, no_data, garbage, config, Payment, handle_bid_payment}

-- A deadline and the clock's reading are i64 values t, kept as t + 2 ^ 63: they are only compared.
unfoldable pub check_deadline : ℕ → ℕ → Outcome (Unit {0})
check_deadline now deadline = fail_if (ltb deadline now) (code deadline_passed)

unfoldable pub check_relayer_signer : ExpressRelayMetadata → Pubkey → Outcome (Unit {0})
check_relayer_signer m relayer_signer =
    fail_if
      (not (m.relayer_signer == relayer_signer)
        && not (m.secondary_relayer_signer == relayer_signer))
      (anchor constraint_has_one)

pub record Instruction : Type 0 where
  pub program_id : Pubkey
  pub accounts : List Pubkey
  pub bytes : List ℕ

pub record SubmitBidArgs : Type 0 where
  pub deadline : ℕ
  pub bid_amount : ℕ

pub record PermissionInfo : Type 0 where
  pub permission : Pubkey
  pub router : Pubkey
  pub config_router : Pubkey
  pub express_relay_metadata : Pubkey

-- The first `n` bytes of a slice; a shorter slice makes the index panic.
abbrev pub prefix : ℕ → List ℕ → Option (List ℕ)
prefix zero xs = some []
prefix (suc n) [] = none
prefix (suc n) (x ∷ xs) = elim (prefix n xs) [ none ↦ none | some ys ↦ some (x ∷ ys) ]

-- `&ix.accounts[i].pubkey == expected`, where the index panics out of bounds.
unfoldable pub account_is : Instruction → ℕ → Pubkey → Outcome Bool
account_is ix i expected = do
  account ← ok_or (get_elem? ix.accounts i) panic
  ok (account == expected)

-- `if test { k } else { continue }`, as the value of the loop's verdict on one instruction.
abbrev pub and_then : Outcome Bool → Outcome Bool → Outcome Bool
and_then m k = m >>= λ b. elim b [ true ↦ k | false ↦ ok false ]

-- The four account checks for a given permission.
unfoldable pub matches_permission : Instruction → PermissionInfo → Outcome Bool
unfolding account_is
matches_permission ix info = and_then (account_is ix 2 info.permission) (
    and_then (account_is ix 3 info.router)
      (and_then (account_is ix 4 info.config_router) (account_is ix 5 info.express_relay_metadata)))

-- What Anchor and Borsh generate for the crate, the addresses that the seeds derive, and the addresses
-- of the instructions sysvar and the system program.
pub record Crate : Type 0 where
  pub id : Pubkey
  pub discriminator : List ℕ
  pub decode : List ℕ → Option SubmitBidArgs
  pub metadata_address : Pubkey
  pub config_address : Pubkey → Pubkey
  pub sysvar_instructions_id : Pubkey
  pub system_program_id : Pubkey

pub record SubmitBid : Type 0 where
  pub payment : Payment
  pub searcher_signs : Bool
  pub relayer_signer : Signer
  pub permission : Pubkey
  pub config_router_key : Pubkey
  pub system_program : Pubkey
  pub sysvar_instructions_key : Pubkey

pub record CheckPermission : Type 0 where
  pub sysvar_instructions_key : Pubkey
  pub info : PermissionInfo
  pub config_router : ConfigData
  pub express_relay_metadata : ExpressRelayMetadata

abbrev pub transaction_level_stack_height : ℕ
transaction_level_stack_height = 1

module _ (crate : Crate) where
  -- Whether the loop of get_matching_submit_bid_instructions pushes an instruction.
  unfoldable pub is_matching : Instruction → Option PermissionInfo → Outcome Bool
  is_matching ix permission_info = if ix.program_id != crate.id then ok false else do
    head ← ok_or (prefix 8 ix.bytes) panic
    if bytes_eq head crate.discriminator
        then elim permission_info [ none ↦ ok true | some info ↦ matches_permission ix info ]
        else ok false

  unfoldable pub get_matching_submit_bid_instructions :
      List Instruction → Option PermissionInfo → Outcome (List Instruction)
  get_matching_submit_bid_instructions [] permission_info = ok []
  get_matching_submit_bid_instructions (ix ∷ ixs) permission_info = do
    matching ← is_matching ix permission_info
    rest ← get_matching_submit_bid_instructions ixs permission_info
    ok (if matching then ix ∷ rest else rest)

  unfoldable pub extract_bid_from_submit_bid_ix : Instruction → Outcome ℕ
  extract_bid_from_submit_bid_ix ix = do
    args ← ok_or (crate.decode (drop 8 ix.bytes)) borsh_io_error
    ok args.bid_amount

  -- The split that inspect_permissions_in_tx uses: the default also where the data is garbage.
  unfoldable pub inspected_split : ConfigData → ExpressRelayMetadata → ℕ
  inspected_split (config c) m = c.split
  inspected_split no_data m = m.split_router_default
  inspected_split garbage m = m.split_router_default

  unfoldable pub sum_router_fees : ℕ → ℕ → List Instruction → Outcome ℕ
  sum_router_fees split_router total_fees [] = ok total_fees
  sum_router_fees split_router total_fees (ix ∷ ixs) = do
    bid ← extract_bid_from_submit_bid_ix ix
    fee ← perform_fee_split_router bid split_router
    total ← ok_or (checked_add total_fees fee) arithmetic_overflow
    sum_router_fees split_router total ixs

  -- The accounts passed in are taken as validated, as the source says.
  unfoldable pub inspect_permissions_in_tx : List Instruction → CheckPermission → Outcome (ℕ × ℕ)
  inspect_permissions_in_tx sysvar_instructions ctx = do
    matching_ixs ← get_matching_submit_bid_instructions sysvar_instructions (some ctx.info)
    let n_ixs = length matching_ixs % 2 ^ 16
    total_fees ←
        sum_router_fees (inspected_split ctx.config_router ctx.express_relay_metadata) 0
          matching_ixs
    ok (n_ixs, total_fees)

  -- The `address` constraint of both instructions.
  abbrev pub check_sysvar_instructions : Pubkey → Outcome (Unit {0})
  check_sysvar_instructions key =
      fail_if (key != crate.sysvar_instructions_id) (anchor constraint_address)

  -- The `seeds` constraints of both instructions.
  unfoldable pub check_seeds : Pubkey → Pubkey → Pubkey → Outcome (Unit {0})
  check_seeds router config_router metadata = do
    fail_if (config_router != crate.config_address router) (anchor constraint_seeds)
    fail_if (metadata != crate.metadata_address) (anchor constraint_seeds)

  unfoldable pub check_permission : List Instruction → CheckPermission → Outcome ℕ
  unfolding check_seeds
  check_permission sysvar_instructions ctx = do
    check_sysvar_instructions ctx.sysvar_instructions_key
    check_seeds ctx.info.router ctx.info.config_router ctx.info.express_relay_metadata
    (num_permissions, total_router_fees) ← inspect_permissions_in_tx sysvar_instructions ctx
    fail_if (num_permissions == 0) (code missing_permission)
    ok total_router_fees

  -- The constraints of the SubmitBid struct, but for `mut` and the decoding of the metadata account.
  unfoldable pub check_submit_bid_accounts : SubmitBid → Outcome (Unit {0})
  unfolding check_seeds
  check_submit_bid_accounts ctx = do
    fail_if (not ctx.searcher_signs) (anchor account_not_signer)
    fail_if (not ctx.relayer_signer.is_signer) (anchor account_not_signer)
    fail_if (ctx.system_program != crate.system_program_id) (anchor invalid_program_id)
    check_seeds ctx.payment.router ctx.config_router_key ctx.payment.express_relay_metadata_key
    fail_if
        (ctx.payment.express_relay_metadata.fee_receiver_relayer
          != ctx.payment.fee_receiver_relayer)
        (anchor constraint_has_one)
    check_sysvar_instructions ctx.sysvar_instructions_key

  unfoldable pub submit_bid :
      Runtime → ℕ → ℕ → List Instruction → Bank → SubmitBid → SubmitBidArgs → Outcome Bank
  submit_bid r now stack_height sysvar_instructions b ctx args = do
    check_submit_bid_accounts ctx
    check_deadline now args.deadline
    check_relayer_signer ctx.payment.express_relay_metadata ctx.relayer_signer.key
    fail_if (ltb transaction_level_stack_height stack_height) (code invalid_cpi_submit_bid)
    matching_ixs ← get_matching_submit_bid_instructions sysvar_instructions none
    fail_if (ltb 1 (length matching_ixs)) (code multiple_permissions)
    handle_bid_payment r b ctx.payment args.bid_amount
