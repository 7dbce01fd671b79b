-- ===== src/Opportunity/Entities.antt =====
-- auction-server/src/opportunity/entities/opportunity.rs: opportunities, how a new one compares with
-- a known one, and what the verification of a bid reads of a swap opportunity. Ids and chain ids are
-- numbers; a time is a number of milliseconds.
use per.Prelude.{
  ℕ, ◌+◌, ◌*◌, ◌%◌, Bool, true, false, ◌||◌, Option, List, [], ◌∷◌, ◌++◌, ltb, ◌==◌, if◌then◌else◌,
  bytes_eq, first, Result, ok, err, ◌>>=◌, fail_if, ok_or, u64_limit, saturating_sub,
}
use per.Auction.Entities.{Time, KeyBytes, ProfileId, BidPaymentInstructionType}
use per.Auction.Entities.PermissionKey.{PermissionKeySvm, to_u8}
use per.Auction.Errors.{Reply, handler_panic}
use per.Relay.Swap.{FeeToken}

abbrev pub OpportunityId : Type 0
OpportunityId = ℕ

abbrev pub ChainId : Type 0
ChainId = ℕ

pub record OpportunityKey : Type 0 where
  pub chain_id : ChainId
  pub permission_key : PermissionKeySvm

pub data OpportunityComparison : Type 0 where
  new_opportunity duplicate needs_refresh : OpportunityComparison

pub record OpportunitySvmProgramLimo : Type 0 where
  pub order : List ℕ
  pub order_address : KeyBytes
  pub slot : ℕ

pub data TokenAccountInitializationConfig : Type 0 where
  unneeded searcher_payer user_payer : TokenAccountInitializationConfig

pub record TokenAccountInitializationConfigs : Type 0 where
  pub user_ata_mint_searcher : TokenAccountInitializationConfig
  pub user_ata_mint_user : TokenAccountInitializationConfig
  pub router_fee_receiver_ta : TokenAccountInitializationConfig
  pub relayer_fee_receiver_ata : TokenAccountInitializationConfig
  pub express_relay_fee_receiver_ata : TokenAccountInitializationConfig

pub record OpportunitySvmProgramSwap : Type 0 where
  pub user_wallet_address : KeyBytes
  pub user_mint_user_balance : ℕ
  pub fee_token : FeeToken
  pub referral_fee_bps : ℕ
  pub referral_fee_ppm : ℕ
  pub platform_fee_bps : ℕ
  pub platform_fee_ppm : ℕ
  pub token_program_user : KeyBytes
  pub token_program_searcher : KeyBytes
  pub token_account_initialization_configs : TokenAccountInitializationConfigs
  pub memo : Option (List ℕ)
  pub cancellable : Bool
  pub minimum_lifetime : Option ℕ
  pub minimum_deadline : Time

pub data OpportunitySvmProgram : Type 0 where
  limo : OpportunitySvmProgramLimo → OpportunitySvmProgram
  swap_program : OpportunitySvmProgramSwap → OpportunitySvmProgram

pub record TokenAmountSvm : Type 0 where
  pub token : KeyBytes
  pub amount : ℕ

pub record OpportunityCreateSvm : Type 0 where
  pub permission_key : PermissionKeySvm
  pub chain_id : ChainId
  pub sell_tokens : List TokenAmountSvm
  pub buy_tokens : List TokenAmountSvm
  pub router : KeyBytes
  pub permission_account : KeyBytes
  pub program : OpportunitySvmProgram
  pub profile_id : Option ProfileId

-- The source repeats the fields of OpportunityCreateSvm, and its conversion copies them.
pub record OpportunitySvm : Type 0 where
  pub id : OpportunityId
  pub creation_time : Time
  pub refresh_time : Time
  pub create : OpportunityCreateSvm

unfoldable pub get_key : OpportunityCreateSvm → OpportunityKey
get_key o = record { chain_id = o.chain_id; permission_key = o.permission_key }

-- `id` is the new random id.
unfoldable pub new_with_current_time : OpportunityId → Time → OpportunityCreateSvm → OpportunitySvm
new_with_current_time id now val = record {
  id = id;
  creation_time = now;
  refresh_time = now;
  create = val;
}

-- The first 65 bytes are the key: the type, the router and the permission account.
unfoldable pub opportunity_permission_key :
    BidPaymentInstructionType → KeyBytes → KeyBytes → PermissionKeySvm
opportunity_permission_key bid_type router permission_account =
    to_u8 bid_type ∷ (router ++ permission_account)

pub data QuoteTokens : Type 0 where
  user_token_specified : (user_token : TokenAmountSvm) → (searcher_token : KeyBytes) → QuoteTokens
  searcher_token_specified :
      (user_token : KeyBytes) → (searcher_token : TokenAmountSvm) → QuoteTokens

unfoldable pub get_opportunity_swap_data : OpportunitySvm → Reply OpportunitySvmProgramSwap
get_opportunity_swap_data opp = elim opp.create.program [
  | limo order ↦ err handler_panic
  | swap_program swap ↦ ok swap
]

-- The `match` on the two amounts.
unfoldable pub quote_tokens_of : TokenAmountSvm → TokenAmountSvm → Reply QuoteTokens
quote_tokens_of buy sell =
    if sell.amount == 0
    then ok (user_token_specified buy sell.token)
    else if buy.amount == 0
    then ok (searcher_token_specified buy.token sell)
    else err handler_panic

unfoldable pub get_swap_quote_tokens : OpportunitySvm → Reply QuoteTokens
get_swap_quote_tokens opp = do
  swap ← get_opportunity_swap_data opp
  sell ← ok_or (first opp.create.sell_tokens) handler_panic
  buy ← ok_or (first opp.create.buy_tokens) handler_panic
  quote_tokens_of buy sell

abbrev pub is_user_payer : TokenAccountInitializationConfig → Bool
is_user_payer user_payer = true
is_user_payer _ = false

abbrev pub count_user_payer : TokenAccountInitializationConfig → ℕ
count_user_payer user_payer = 1
count_user_payer _ = 0

-- `rent` is what the Solana SDK gives for the length of a token account.
unfoldable pub get_user_sol_amount_paid_for_token_account_initializations :
    ℕ → OpportunitySvmProgramSwap → ℕ
get_user_sol_amount_paid_for_token_account_initializations rent opp =
    let configs = opp.token_account_initialization_configs in
    (count_user_payer configs.user_ata_mint_user + count_user_payer configs.user_ata_mint_searcher)
    * rent
    % u64_limit

abbrev pub min : ℕ → ℕ → ℕ
min a b = if ltb b a then b else a

unfoldable pub get_user_amount_to_wrap : ℕ → OpportunitySvmProgramSwap → ℕ → ℕ
get_user_amount_to_wrap rent opp amount_user = min amount_user (
    saturating_sub opp.user_mint_user_balance
      (get_user_sol_amount_paid_for_token_account_initializations rent opp))

-- The errors are only put into a text, so they are one.
unfoldable pub check_fee_payer :
    OpportunitySvm → List KeyBytes → KeyBytes → Result (Unit {0}) (Unit {0})
check_fee_payer opp signers relayer_signer = do
  fee_payer ← ok_or (first signers) tt
  elim opp.create.program [
    | swap_program swap ↦
        fail_if (bytes_eq swap.user_wallet_address fee_payer || bytes_eq relayer_signer fee_payer)
          tt
    | limo order ↦ ok tt
  ]

unfoldable pub get_missing_signers : OpportunitySvm → List KeyBytes
get_missing_signers opp = elim opp.create.program [
  | swap_program swap ↦ swap.user_wallet_address ∷ []
  | limo order ↦ []
]
