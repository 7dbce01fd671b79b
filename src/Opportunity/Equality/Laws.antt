-- ===== src/Opportunity/Equality/Laws.antt =====
-- The equality of opportunities is reflexive, and equal opportunities agree in their keys.
use per.Prelude.{
  bytes_eq_iff, ℕ, ◌≡◌, refl, Bool, true, false, ◌&&◌, Option, none, some, List, [], ◌∷◌, ◌==◌,
  ==_refl, bytes_eq, bytes_eq_refl, subst, sym, arith,
}
use per.Relay.Swap.{FeeToken, searcher_token, user_token}
use per.Opportunity.Entities.{
  get_key, OpportunityKey, TokenAccountInitializationConfig, unneeded, searcher_payer, user_payer,
  TokenAccountInitializationConfigs, OpportunitySvmProgramSwap, OpportunitySvmProgram, limo,
  swap_program, TokenAmountSvm, OpportunityCreateSvm, OpportunitySvm,
}
use per.Opportunity.Equality.{
  key_eq, option_eq, list_eq, nat_eq, bool_eq, fee_token_eq, config_eq, configs_eq, limo_eq,
  swap_eq, program_eq, token_eq, create_eq, opportunity_eq, with_slot_of, is_same,
}

nat_eq_refl : (n : ℕ) → (n == n) ≡ true
nat_eq_refl n = ==_refl n

option_eq_refl {ℓ} :
    {A : Type ℓ} (eq : A → A → Bool)
    → ((a : A) → eq a a ≡ true)
    → (o : Option A) → option_eq eq o o ≡ true
option_eq_refl eq same none = refl
option_eq_refl eq same (some a) = same a

and_intro : (a b : Bool) → a ≡ true → b ≡ true → a && b ≡ true
and_intro a b p q = rw (p, q) refl

list_eq_refl {ℓ} :
    {A : Type ℓ} (eq : A → A → Bool)
    → ((a : A) → eq a a ≡ true)
    → (xs : List A) → list_eq eq xs xs ≡ true
list_eq_refl eq same [] = refl
list_eq_refl eq same (x ∷ xs) =
    and_intro (eq x x) (list_eq eq xs xs) (same x) (list_eq_refl eq same xs)

bool_eq_refl : (b : Bool) → bool_eq b b ≡ true
bool_eq_refl true = refl
bool_eq_refl false = refl

fee_token_eq_refl : (t : FeeToken) → fee_token_eq t t ≡ true
fee_token_eq_refl searcher_token = refl
fee_token_eq_refl user_token = refl

config_eq_refl : (c : TokenAccountInitializationConfig) → config_eq c c ≡ true
config_eq_refl unneeded = refl
config_eq_refl searcher_payer = refl
config_eq_refl user_payer = refl

token_eq_refl : (t : TokenAmountSvm) → token_eq t t ≡ true
token_eq_refl t = and_intro _ _ (bytes_eq_refl t.token) (==_refl t.amount)

configs_eq_refl : (c : TokenAccountInitializationConfigs) → configs_eq c c ≡ true
unfolding configs_eq
configs_eq_refl c =
    rw
      (
        config_eq_refl c.user_ata_mint_searcher,
        config_eq_refl c.user_ata_mint_user,
        config_eq_refl c.router_fee_receiver_ta,
        config_eq_refl c.relayer_fee_receiver_ata,
        config_eq_refl c.express_relay_fee_receiver_ata,
      )
      refl

swap_eq_refl : (p : OpportunitySvmProgramSwap) → swap_eq p p ≡ true
unfolding swap_eq
swap_eq_refl p = and_intro _ _ (bytes_eq_refl p.user_wallet_address) (
    and_intro _ _ (==_refl p.user_mint_user_balance) (
      and_intro _ _ (fee_token_eq_refl p.fee_token) (
        and_intro _ _ (==_refl p.referral_fee_bps) (
          and_intro _ _ (==_refl p.referral_fee_ppm) (
            and_intro _ _ (==_refl p.platform_fee_bps) (
              and_intro _ _ (==_refl p.platform_fee_ppm) (
                and_intro _ _ (bytes_eq_refl p.token_program_user) (
                  and_intro _ _ (bytes_eq_refl p.token_program_searcher) (
                    and_intro _ _ (configs_eq_refl p.token_account_initialization_configs) (
                      and_intro _ _ (option_eq_refl bytes_eq bytes_eq_refl p.memo) (
                        and_intro _ _ (bool_eq_refl p.cancellable) (
                          and_intro _ _ (option_eq_refl nat_eq nat_eq_refl p.minimum_lifetime)
                            (==_refl p.minimum_deadline)))))))))))))

program_eq_refl : (p : OpportunitySvmProgram) → program_eq p p ≡ true
unfolding program_eq limo_eq
program_eq_refl (limo p) =
    rw (bytes_eq_refl p.order, bytes_eq_refl p.order_address, ==_refl p.slot) refl
program_eq_refl (swap_program p) = swap_eq_refl p

pub create_eq_refl : (o : OpportunityCreateSvm) → create_eq o o ≡ true
unfolding create_eq
create_eq_refl o = and_intro _ _ (bytes_eq_refl o.permission_key) (
    and_intro _ _ (==_refl o.chain_id) (
      and_intro _ _ (list_eq_refl token_eq token_eq_refl o.sell_tokens) (
        and_intro _ _ (list_eq_refl token_eq token_eq_refl o.buy_tokens) (
          and_intro _ _ (bytes_eq_refl o.router) (
            and_intro _ _ (bytes_eq_refl o.permission_account) (
              and_intro _ _ (program_eq_refl o.program)
                (option_eq_refl nat_eq nat_eq_refl o.profile_id)))))))

pub and_elim : (a b : Bool) → a && b ≡ true → (a ≡ true) × (b ≡ true)
and_elim true b p = (refl, p)
and_elim false b p = absurd cc

pub opportunity_eq_refl : (o : OpportunitySvm) → opportunity_eq o o ≡ true
unfolding opportunity_eq
opportunity_eq_refl o = and_intro _ _ (==_refl o.id) (
    and_intro _ _ (==_refl o.creation_time)
      (and_intro _ _ (==_refl o.refresh_time) (create_eq_refl o.create)))

-- Equal opportunities have one id.
pub opportunity_eq_id : (o p : OpportunitySvm) → opportunity_eq o p ≡ true → (o.id == p.id) ≡ true
unfolding opportunity_eq
opportunity_eq_id o p h = (and_elim _ _ h).0

with_own_slot : (p : OpportunitySvmProgram) → with_slot_of p p ≡ p
unfolding with_slot_of
with_own_slot (limo p) = refl
with_own_slot (swap_program p) = refl

-- An opportunity is the same as what it was made of.
pub is_same_refl : (o : OpportunitySvm) → is_same o o.create ≡ true
unfolding is_same
is_same_refl o =
    subst (λ p. create_eq o.create (record o.create { program = p }) ≡ true)
      (sym (with_own_slot o.create.program)) (create_eq_refl o.create)

pub eq_of : (m n : ℕ) → (m == n) ≡ true → m ≡ n
eq_of m n h = ground arith

-- What is the same has one key.
pub is_same_key :
    (o : OpportunitySvm) (create : OpportunityCreateSvm)
    → is_same o create ≡ true
    → get_key o.create ≡ get_key create
unfolding is_same create_eq get_key
is_same_key o create h =
    let (permission, rest) = and_elim _ _ h in
    let (chain, others) = and_elim _ _ rest in
    let keys = (bytes_eq_iff create.permission_key o.create.permission_key).0 permission in
    let chains = eq_of create.chain_id o.create.chain_id chain in cc

pub key_eq_refl : (k : OpportunityKey) → key_eq k k ≡ true
unfolding key_eq
key_eq_refl k = and_intro _ _ (==_refl k.chain_id) (bytes_eq_refl k.permission_key)

create_eq_key : (o p : OpportunityCreateSvm) → create_eq o p ≡ true → get_key o ≡ get_key p
unfolding create_eq get_key
create_eq_key o p h =
    let (permission, rest) = and_elim (bytes_eq o.permission_key p.permission_key) _ h in
    let chain = (and_elim (o.chain_id == p.chain_id) _ rest).0 in
    let keys = (bytes_eq_iff o.permission_key p.permission_key).0 permission in
    let chains = eq_of o.chain_id p.chain_id chain in cc

-- Equal opportunities have one key and were refreshed at one time.
pub opportunity_eq_key :
    (o p : OpportunitySvm) → opportunity_eq o p ≡ true → get_key o.create ≡ get_key p.create
unfolding opportunity_eq
opportunity_eq_key o p h =
    let times = (and_elim (o.id == p.id) _ h).1 in
    let refreshed = (and_elim (o.creation_time == p.creation_time) _ times).1 in
    create_eq_key o.create p.create (and_elim (o.refresh_time == p.refresh_time) _ refreshed).1

pub opportunity_eq_refresh_time :
    (o p : OpportunitySvm) → opportunity_eq o p ≡ true → o.refresh_time ≡ p.refresh_time
unfolding opportunity_eq
opportunity_eq_refresh_time o p h =
    let times = (and_elim (o.id == p.id) _ h).1 in
    let refreshed = (and_elim (o.creation_time == p.creation_time) _ times).1 in
    eq_of o.refresh_time p.refresh_time (and_elim (o.refresh_time == p.refresh_time) _ refreshed).0
