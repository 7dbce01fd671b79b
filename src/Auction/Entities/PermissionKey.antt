-- ===== src/Auction/Entities/PermissionKey.antt =====
-- The 65 bytes of a permission key: get_permission_key, get_bid_payment_instruction_type, get_router
-- and get_permission_account of entities/bid.rs, and the decoding of a stored key in
-- get_chain_data_entity of repository/models.rs.
use per.Prelude.{
  ℕ, ◌≡◌, sym, ap, ◌∙◌, Option, none, some, List, [], ◌∷◌, ◌++◌, arith, ◌==◌, if◌then◌else◌,
  take-append, drop-append, length, take, drop, length-append,
}
use per.Auction.Entities.{
  KeyBytes, Transaction, BidPaymentInstructionType, submit_bid_type, swap_type, BidChainDataSvm,
}

abbrev pub PermissionKeySvm : Type 0
PermissionKeySvm = List ℕ

abbrev pub to_u8 : BidPaymentInstructionType → ℕ
to_u8 submit_bid_type = 0
to_u8 swap_type = 1

-- BidPaymentInstructionType::from_repr
abbrev pub from_repr : ℕ → Option BidPaymentInstructionType
from_repr n = if n == 0 then some submit_bid_type else if n == 1 then some swap_type else none

unfoldable pub get_permission_key : BidChainDataSvm → PermissionKeySvm
get_permission_key d = to_u8 d.bid_payment_instruction_type ∷ (d.router ++ d.permission_account)

-- The source indexes an array of 65 bytes; here a shorter key has no type.
unfoldable pub get_bid_payment_instruction_type :
    PermissionKeySvm → Option BidPaymentInstructionType
get_bid_payment_instruction_type [] = none
get_bid_payment_instruction_type (b ∷ rest) = from_repr b

unfoldable pub get_router : PermissionKeySvm → KeyBytes
get_router k = take 32 (drop 1 k)

unfoldable pub get_permission_account : PermissionKeySvm → KeyBytes
get_permission_account k = drop 33 k

-- Both parts have the 32 bytes of a key.
pub record IsSized (d : BidChainDataSvm) : Type 0 where
  pub router_sized : length d.router ≡ 32
  pub permission_sized : length d.permission_account ≡ 32

-- A permission key has 65 bytes, and its type, router and permission account are read back from it,
-- when the router and the permission account have 32 bytes each.
pub get_permission_key-roundtrip :
    (d : BidChainDataSvm)
    → IsSized d
    → (length (get_permission_key d) ≡ 65)
      × (get_bid_payment_instruction_type (get_permission_key d)
          ≡ some d.bid_payment_instruction_type)
      × (get_router (get_permission_key d) ≡ d.router)
      × (get_permission_account (get_permission_key d) ≡ d.permission_account)
unfolding get_permission_key get_bid_payment_instruction_type get_router get_permission_account
get_permission_key-roundtrip d v = (
  omega (arith, length-append d.router d.permission_account, v.router_sized, v.permission_sized),
  ground arith,
  take-append 32 d.router d.permission_account v.router_sized,
  drop-append 32 d.router d.permission_account v.router_sized,
)

-- Two bids have one permission key exactly when their types, routers and permission accounts agree.
get_permission_key-injective :
    (d e : BidChainDataSvm)
    → IsSized d
    → IsSized e
    → get_permission_key d ≡ get_permission_key e
    → (d.bid_payment_instruction_type ≡ e.bid_payment_instruction_type)
      × (d.router ≡ e.router)
      × (d.permission_account ≡ e.permission_account)
get_permission_key-injective d e v w same =
    let rd = get_permission_key-roundtrip d v in
    let re = get_permission_key-roundtrip e w in
    (cc, sym rd.2 ∙ ap get_router same ∙ re.2, sym rd.3 ∙ ap get_permission_account same ∙ re.3)

-- The key of a stored bid: one of 64 bytes is from before the type was added, and is a SubmitBid
-- key; one of any other length but 65 does not convert.
unfoldable pub stored_key : List ℕ → Option PermissionKeySvm
stored_key bytes =
    if length bytes == 64
    then some (to_u8 submit_bid_type ∷ bytes)
    else if length bytes == 65
    then some bytes
    else none

unfoldable pub get_chain_data_entity : Transaction → List ℕ → Option BidChainDataSvm
get_chain_data_entity transaction bytes = elim (stored_key bytes) [
  | none ↦ none
  | some key ↦ elim (get_bid_payment_instruction_type key) [
    | none ↦ none
    | some instruction_type ↦ some (record {
      transaction = transaction;
      bid_payment_instruction_type = instruction_type;
      router = get_router key;
      permission_account = get_permission_account key;
    })
  ]
]

legacy_key :
    (d : BidChainDataSvm)
    → d.bid_payment_instruction_type ≡ submit_bid_type
    → 0 ∷ (d.router ++ d.permission_account) ≡ get_permission_key d
unfolding get_permission_key
legacy_key d old = ground arith

-- The chain data of a bid is read back from its transaction and its stored permission key.
pub get_chain_data_entity-roundtrip :
    (d : BidChainDataSvm)
    → IsSized d
    → get_chain_data_entity d.transaction (get_permission_key d) ≡ some d
unfolding get_chain_data_entity stored_key
get_chain_data_entity-roundtrip d v = ground (arith, get_permission_key-roundtrip d v)

-- The chain data of a SubmitBid bid is read back also from the 64 bytes of its router and permission
-- account, which were stored for it before the type was added to the key.
pub get_chain_data_entity_legacy :
    (d : BidChainDataSvm)
    → IsSized d
    → d.bid_payment_instruction_type ≡ submit_bid_type
    → get_chain_data_entity d.transaction (d.router ++ d.permission_account) ≡ some d
unfolding get_chain_data_entity stored_key
get_chain_data_entity_legacy d v old = ground (
  arith,
  get_permission_key-roundtrip d v,
  legacy_key d old,
  length-append d.router d.permission_account,
  v.router_sized,
  v.permission_sized,
)
