-- ===== src/Relay/Permission/Consistency.antt =====
-- What check_permission reports of the bid that submit_bid charges in the same transaction.
use per.Prelude.{
  ◌!=◌, false, ℕ, ◌≤◌, ◌<◌, ◌≡◌, refl, inl, inr, true, false, none, some, List, [], ◌∷◌, ◌++◌,
  arith, length, drop, get_elem?, ok, Result-cases, u64_limit, bytes_eq_refl,
}
use per.Relay.State.{ExpressRelayMetadata}
use per.Relay.Permission.{
  Crate, Instruction, PermissionInfo, SubmitBidArgs, is_matching,
  get_matching_submit_bid_instructions, matches_permission, inspected_split, check_permission,
  submit_bid, SubmitBid, prefix, check_submit_bid_accounts, CheckPermission,
  inspect_permissions_in_tx, sum_router_fees, extract_bid_from_submit_bid_ix, check_seeds,
}
use per.Relay.Payment.{paid_split, ConfigData, config, no_data, garbage, handle_bid_payment}
use per.Relay.Fees.{perform_fee_splits, perform_fee_split_router}
use per.Relay.Runtime.{Runtime, Bank}
use per.Relay.Payment.Conservation.{Steps, handle_bid_payment-Steps}

module _ (crate : Crate) where
  is_matching-some :
      (ix : Instruction) (info : PermissionInfo)
      → is_matching crate ix none ≡ ok false
      → is_matching crate ix (some info) ≡ ok false
  unfolding is_matching
  is_matching-some ix info e = ground arith

  get_matching_none :
      (ixs : List Instruction) (info : PermissionInfo)
      → get_matching_submit_bid_instructions crate ixs none ≡ ok []
      → get_matching_submit_bid_instructions crate ixs (some info) ≡ ok []
  unfolding get_matching_submit_bid_instructions
  get_matching_none [] info e = refl
  get_matching_none (ix ∷ ixs) info e =
      ground (arith, is_matching-some ix info, get_matching_none ixs info)

  get_matching_nonempty :
      (before after : List Instruction) (ix : Instruction) (ms : List Instruction)
      → is_matching crate ix none ≡ ok true
      → get_matching_submit_bid_instructions crate (before ++ ix ∷ after) none ≡ ok ms
      → 1 ≤ length ms
  unfolding get_matching_submit_bid_instructions
  get_matching_nonempty [] after ix ms h e = ground arith
  get_matching_nonempty (x ∷ before) after ix ms h e =
      elim (Result-cases (get_matching_submit_bid_instructions crate (before ++ ix ∷ after) none)) [
        | inl (_, failed) ↦ absurd (ground arith)
        | inr (rest, found) ↦ ground (arith, get_matching_nonempty before after ix rest h found)
      ]

  -- With one SubmitBid instruction in the transaction, the introspection finds just that one.
  get_matching_single :
      (before after : List Instruction) (ix : Instruction) (info : PermissionInfo)
      (ms : List Instruction)
      → is_matching crate ix none ≡ ok true
      → is_matching crate ix (some info) ≡ ok true
      → get_matching_submit_bid_instructions crate (before ++ ix ∷ after) none ≡ ok ms
      → length ms ≤ 1
      → get_matching_submit_bid_instructions crate (before ++ ix ∷ after) (some info) ≡ ok (ix ∷ [])
  unfolding get_matching_submit_bid_instructions
  get_matching_single [] after ix info ms h1 h2 e le = ground (arith, get_matching_none after info)
  get_matching_single (x ∷ before) after ix info ms h1 h2 e le =
      elim (Result-cases (get_matching_submit_bid_instructions crate (before ++ ix ∷ after) none)) [
        | inl (_, failed) ↦ absurd (ground arith)
        | inr (rest, found) ↦ ground (
          arith,
          is_matching-some x info,
          get_matching_nonempty before after ix rest h1 found,
          get_matching_single before after ix info rest h1 h2 found,
        )
      ]

  -- The two readings of the config account agree whenever the payment could read it.
  inspected_split-paid_split :
      (c : ConfigData) (m : ExpressRelayMetadata) (split : ℕ)
      → paid_split c m ≡ ok split
      → inspected_split crate c m ≡ split
  unfolding paid_split inspected_split
  inspected_split-paid_split no_data m split e = ground arith
  inspected_split-paid_split garbage m split e = ground arith
  inspected_split-paid_split (config c) m split e = ground arith

  -- An instruction of the transaction that carries a SubmitBid call with these accounts and data.
  pub record Encodes (ix : Instruction) (ctx : SubmitBid) (args : SubmitBidArgs) : Type 0 where
    pub of_program : ix.program_id ≡ crate.id
    pub tagged : prefix 8 ix.bytes ≡ some crate.discriminator
    pub decoded : crate.decode (drop 8 ix.bytes) ≡ some args
    pub permission_at : get_elem? ix.accounts 2 ≡ some ctx.permission
    pub router_at : get_elem? ix.accounts 3 ≡ some ctx.payment.router
    pub config_at : get_elem? ix.accounts 4 ≡ some ctx.config_router_key
    pub metadata_at : get_elem? ix.accounts 5 ≡ some ctx.payment.express_relay_metadata_key

  -- check_permission is asked about the permission, router and accounts of the bid.
  abbrev pub asks : SubmitBid → CheckPermission
  asks ctx = record {
    sysvar_instructions_key = ctx.sysvar_instructions_key;
    info = record {
      permission = ctx.permission;
      router = ctx.payment.router;
      config_router = ctx.config_router_key;
      express_relay_metadata = ctx.payment.express_relay_metadata_key;
    };
    config_router = ctx.payment.config_router;
    express_relay_metadata = ctx.payment.express_relay_metadata;
  }

  Encodes-is_matching :
      (ix : Instruction) (ctx : SubmitBid) (args : SubmitBidArgs)
      → Encodes ix ctx args
      → (is_matching crate ix none ≡ ok true)
        × (is_matching crate ix (some (asks ctx).info) ≡ ok true)
  unfolding is_matching matches_permission
  Encodes-is_matching ix ctx args e = (
    ground (arith, bytes_eq_refl crate.discriminator),
    ground (arith, bytes_eq_refl crate.discriminator),
  )

  perform_fee_splits-router :
      (bid split_router split_relayer fee_router fee_relayer : ℕ)
      → perform_fee_splits bid split_router split_relayer ≡ ok (fee_router, fee_relayer)
      → (perform_fee_split_router bid split_router ≡ ok fee_router) × (fee_router < u64_limit)
  unfolding perform_fee_splits
  perform_fee_splits-router bid split_router split_relayer fee_router fee_relayer e = ground arith

  -- What a successful submit_bid has checked of the other instructions, and that it paid.
  submit_bid_inversion :
      (r : Runtime) (now stack_height : ℕ) (ixs : List Instruction) (b c : Bank) (ctx : SubmitBid)
      (args : SubmitBidArgs)
      → submit_bid crate r now stack_height ixs b ctx args ≡ ok c
      → (ms : List Instruction) × (get_matching_submit_bid_instructions crate ixs none ≡ ok ms)
        × (length ms ≤ 1)
        × (check_seeds crate ctx.payment.router ctx.config_router_key
              ctx.payment.express_relay_metadata_key
            ≡ ok tt)
        × (handle_bid_payment r b ctx.payment args.bid_amount ≡ ok c)
        × ((ctx.sysvar_instructions_key != crate.sysvar_instructions_id) ≡ false)
  unfolding submit_bid check_submit_bid_accounts
  submit_bid_inversion r now stack_height ixs b c ctx args e =
      elim (Result-cases (get_matching_submit_bid_instructions crate ixs none)) [
        | inl (_, failed) ↦ absurd (ground arith)
        | inr (ms, found) ↦ (ms, found, ground arith, ground arith, ground arith, ground arith)
      ]

  -- In a transaction whose submit_bid succeeded, check_permission for the bid's permission and
  -- router, over the same accounts, succeeds and returns exactly the router fee that the payment of
  -- the bid used, wherever in the transaction the SubmitBid instruction stands.
  pub check_permission-submit_bid :
      (r : Runtime) (now stack_height : ℕ) (before after : List Instruction) (ix : Instruction)
      (b c : Bank) (ctx : SubmitBid) (args : SubmitBidArgs)
      → Encodes ix ctx args
      → submit_bid crate r now stack_height (before ++ ix ∷ after) b ctx args ≡ ok c
      → (s : Steps r b c ctx.payment args.bid_amount) × (check_permission crate
            (before ++ ix ∷ after)
            (asks ctx)
          ≡ ok s.fee_router)
  unfolding check_permission inspect_permissions_in_tx sum_router_fees
      extract_bid_from_submit_bid_ix
  check_permission-submit_bid r now stack_height before after ix b c ctx args enc e =
      (s, ground (arith, inv.5, inv.3, enc.decoded, single, split, router))
    where
      inv :
          (ms : List Instruction) × (get_matching_submit_bid_instructions crate
              (before ++ ix ∷ after)
              none
            ≡ ok ms)
          × (length ms ≤ 1)
          × (check_seeds crate ctx.payment.router ctx.config_router_key
                ctx.payment.express_relay_metadata_key
              ≡ ok tt)
          × (handle_bid_payment r b ctx.payment args.bid_amount ≡ ok c)
          × ((ctx.sysvar_instructions_key != crate.sysvar_instructions_id) ≡ false)
      inv = submit_bid_inversion r now stack_height (before ++ ix ∷ after) b c ctx args e

      s : Steps r b c ctx.payment args.bid_amount
      s = handle_bid_payment-Steps r b c ctx.payment args.bid_amount inv.4

      single :
          get_matching_submit_bid_instructions crate (before ++ ix ∷ after) (some (asks ctx).info)
          ≡ ok (ix ∷ [])
      single =
          get_matching_single before after ix (asks ctx).info inv.0
            (Encodes-is_matching ix ctx args enc).0 (Encodes-is_matching ix ctx args enc).1 inv.1
            inv.2

      split :
          inspected_split crate ctx.payment.config_router ctx.payment.express_relay_metadata
          ≡ s.split_router
      split =
          inspected_split-paid_split ctx.payment.config_router ctx.payment.express_relay_metadata
            s.split_router s.split

      router :
          (perform_fee_split_router args.bid_amount s.split_router ≡ ok s.fee_router)
          × (s.fee_router < u64_limit)
      router =
          perform_fee_splits-router args.bid_amount s.split_router _ s.fee_router s.fee_relayer
            s.fees
