-- ===== src/Opportunity/Equality.antt =====
-- The derived equality of opportunities (`#[derive(PartialEq)]` in entities/opportunity.rs), and
-- OpportunitySvm::compare. A test answers yes on the same opportunity.
pub mod Laws
use per.Prelude.{
  bytes_eq_iff, ℕ, ◌+◌, ◌≡◌, refl, Bool, true, false, ◌&&◌, Option, none, some, List, [], ◌∷◌, ltb,
  ◌==◌, not, if◌then◌else◌, ==_refl, bytes_eq, bytes_eq_refl, subst, sym, arith,
}
use per.Auction.Entities.{Time}
use per.Relay.Swap.{FeeToken, searcher_token, user_token}
use per.Opportunity.Entities.{
  get_key, OpportunityKey, OpportunityComparison, new_opportunity, duplicate, needs_refresh,
  OpportunitySvmProgramLimo, TokenAccountInitializationConfig, unneeded, searcher_payer, user_payer,
  TokenAccountInitializationConfigs, OpportunitySvmProgramSwap, OpportunitySvmProgram, limo,
  swap_program, TokenAmountSvm, OpportunityCreateSvm, OpportunitySvm,
}

unfoldable pub key_eq : OpportunityKey → OpportunityKey → Bool
key_eq k k' = k.chain_id == k'.chain_id && bytes_eq k.permission_key k'.permission_key

abbrev pub option_eq {ℓ} : {A : Type ℓ} → (A → A → Bool) → Option A → Option A → Bool
option_eq eq none none = true
option_eq eq (some a) (some b) = eq a b
option_eq eq _ _ = false

abbrev pub list_eq {ℓ} : {A : Type ℓ} → (A → A → Bool) → List A → List A → Bool
list_eq eq [] [] = true
list_eq eq (x ∷ xs) (y ∷ ys) = eq x y && list_eq eq xs ys
list_eq eq _ _ = false

abbrev pub nat_eq : ℕ → ℕ → Bool
nat_eq m n = m == n

abbrev pub bool_eq : Bool → Bool → Bool
bool_eq true b = b
bool_eq false b = not b

abbrev pub fee_token_eq : FeeToken → FeeToken → Bool
fee_token_eq searcher_token searcher_token = true
fee_token_eq user_token user_token = true
fee_token_eq _ _ = false

abbrev pub config_eq : TokenAccountInitializationConfig → TokenAccountInitializationConfig → Bool
config_eq unneeded unneeded = true
config_eq searcher_payer searcher_payer = true
config_eq user_payer user_payer = true
config_eq _ _ = false

unfoldable pub configs_eq :
    TokenAccountInitializationConfigs → TokenAccountInitializationConfigs → Bool
configs_eq c d =
    config_eq c.user_ata_mint_searcher d.user_ata_mint_searcher
    && (config_eq c.user_ata_mint_user d.user_ata_mint_user
        && (config_eq c.router_fee_receiver_ta d.router_fee_receiver_ta
            && (config_eq c.relayer_fee_receiver_ata d.relayer_fee_receiver_ata
                && config_eq c.express_relay_fee_receiver_ata d.express_relay_fee_receiver_ata)))

unfoldable pub limo_eq : OpportunitySvmProgramLimo → OpportunitySvmProgramLimo → Bool
limo_eq p q =
    bytes_eq p.order q.order && (bytes_eq p.order_address q.order_address && p.slot == q.slot)

unfoldable pub swap_eq : OpportunitySvmProgramSwap → OpportunitySvmProgramSwap → Bool
swap_eq p q =
    bytes_eq p.user_wallet_address q.user_wallet_address
    && (p.user_mint_user_balance == q.user_mint_user_balance
        && (fee_token_eq p.fee_token q.fee_token
            && (p.referral_fee_bps == q.referral_fee_bps
                && (p.referral_fee_ppm == q.referral_fee_ppm
                    && (p.platform_fee_bps == q.platform_fee_bps
                        && (p.platform_fee_ppm == q.platform_fee_ppm
                            && (bytes_eq p.token_program_user q.token_program_user
                                && (bytes_eq p.token_program_searcher q.token_program_searcher
                                    && (configs_eq p.token_account_initialization_configs
                                          q.token_account_initialization_configs
                                        && (option_eq bytes_eq p.memo q.memo
                                            && (bool_eq p.cancellable q.cancellable
                                                && (option_eq nat_eq p.minimum_lifetime
                                                      q.minimum_lifetime
                                                    && p.minimum_deadline
                                                      == q.minimum_deadline))))))))))))

unfoldable pub program_eq : OpportunitySvmProgram → OpportunitySvmProgram → Bool
program_eq (limo p) (limo q) = limo_eq p q
program_eq (swap_program p) (swap_program q) = swap_eq p q
program_eq _ _ = false

abbrev pub token_eq : TokenAmountSvm → TokenAmountSvm → Bool
token_eq t u = bytes_eq t.token u.token && t.amount == u.amount

unfoldable pub create_eq : OpportunityCreateSvm → OpportunityCreateSvm → Bool
create_eq o p =
    bytes_eq o.permission_key p.permission_key
    && (o.chain_id == p.chain_id
        && (list_eq token_eq o.sell_tokens p.sell_tokens
            && (list_eq token_eq o.buy_tokens p.buy_tokens
                && (bytes_eq o.router p.router
                    && (bytes_eq o.permission_account p.permission_account
                        && (program_eq o.program p.program
                            && option_eq nat_eq o.profile_id p.profile_id))))))

unfoldable pub opportunity_eq : OpportunitySvm → OpportunitySvm → Bool
opportunity_eq o p =
    o.id == p.id
    && (o.creation_time == p.creation_time
        && (o.refresh_time == p.refresh_time && create_eq o.create p.create))

-- Times are in milliseconds.
abbrev pub min_refresh_time : Time
min_refresh_time = 30000

-- A limo program takes the slot of the other limo program.
unfoldable pub with_slot_of : OpportunitySvmProgram → OpportunitySvmProgram → OpportunitySvmProgram
with_slot_of (limo other) (limo p) = limo (record p { slot = other.slot })
with_slot_of other p = p

-- The two are the same, but for the slot of a limo program.
unfoldable pub is_same : OpportunitySvm → OpportunityCreateSvm → Bool
is_same self other =
    create_eq other
      (record self.create { program = with_slot_of other.program self.create.program })

unfoldable pub compare : Time → OpportunitySvm → OpportunityCreateSvm → OpportunityComparison
compare now self other =
    if is_same self other
    then (if ltb (self.refresh_time + min_refresh_time) now then needs_refresh else duplicate)
    else new_opportunity
