-- ===== src/Auction/Service/Handling.antt =====
-- handle_auction.rs, with get_winner_bids, submit_bids, get_submission_state and get_new_status of
-- auction_manager.rs. The simulation that optimises the bids and the relayer's signing are
-- arguments. A panic, on a bid without a signature or without the relayer among its keys, ends the
-- task: it leaves the service as it is at that point.
use per.Prelude.{
  ℕ, Bool, Option, none, some, List, [], ◌∷◌, ◌++◌, map, ltb, ◌==◌, not, if◌then◌else◌, bytes_eq,
  keep, any, is_empty, first,
}
use mathlib.Core.Option
use per.Auction.Entities.{
  AuctionId, Time, Signature, BidStatusSvm, Bid, KeyBytes, BidStatusAuction, first_signature,
  new_lost, is_pending, submitted, lost, swap_type, submit_bid_type,
}
use per.Auction.Entities.Auction.{Auction, is_ready, try_new}
use per.Auction.Service.{Service, update_all}
use per.Auction.Repository.{
  submit_auction, add_auction, get_in_memory_pending_bids_by_permission_key,
}
use per.Auction.Entities.PermissionKey.{PermissionKeySvm, get_bid_payment_instruction_type}

pub data SubmitType : Type 0 where
  by_server by_other invalid : SubmitType

-- get_submission_state: whether the permission key has live opportunities is an argument.
unfoldable pub get_submission_state : Bool → PermissionKeySvm → SubmitType
get_submission_state has_opportunities permission_key =
    elim (get_bid_payment_instruction_type permission_key) [
      | some swap_type ↦ if has_opportunities then by_other else invalid
      | some submit_bid_type ↦ by_server
      | none ↦ invalid
    ]

-- `sort_by(|a, b| b.amount.cmp(&a.amount))`, a stable sort: equal bids keep their order.
unfoldable pub insert_by_amount : Bid → List Bid → List Bid
insert_by_amount b [] = b ∷ []
insert_by_amount b (c ∷ bids) =
    let others = insert_by_amount b bids in
    if ltb b.amount c.amount then c ∷ others else b ∷ c ∷ bids

unfoldable pub sort_by_amount : List Bid → List Bid
sort_by_amount [] = []
sort_by_amount (b ∷ bids) = insert_by_amount b (sort_by_amount bids)

-- `optimize_bids` is `none` when the simulation fails.
unfoldable pub get_winner_bids : (List Bid → Option (List Bid)) → Auction → List Bid
get_winner_bids optimize_bids auction =
    let bids = sort_by_amount auction.bids in
    elim (optimize_bids bids) [
      | some winners ↦ winners
      | none ↦ elim (first bids) [ none ↦ [] | some b ↦ b ∷ [] ]
    ]

-- The relayer's key and its signature of a message.
pub record Relayer : Type 0 where
  pub pubkey : KeyBytes
  pub sign_message : List ℕ → Signature

-- The signatures with the one at the position of the relayer's key set; `none` is a panic.
unfoldable pub sign_at :
    KeyBytes → Signature → List KeyBytes → List Signature → Option (List Signature)
sign_at pubkey signature (k ∷ keys) (s ∷ signatures) =
    let others = sign_at pubkey signature keys signatures in
    if bytes_eq k pubkey then some (signature ∷ signatures) else Option.map (◌∷◌ s) others
sign_at pubkey signature _ _ = none

unfoldable pub add_relayer_signature : Relayer → Bid → Option Bid
add_relayer_signature relayer bid =
    let tx = bid.chain_data.transaction in
    elim (sign_at relayer.pubkey (relayer.sign_message tx.message) tx.static_account_keys
      tx.signatures) [
        | none ↦ none
        | some signatures ↦ some (record bid {
          chain_data = record bid.chain_data {
            transaction = record tx { signatures = signatures };
          };
        })
      ]

unfoldable pub sign_all : Relayer → List Bid → Option (List Bid)
sign_all relayer [] = some []
sign_all relayer (b ∷ bids) = elim (add_relayer_signature relayer b) [
  | none ↦ none
  | some signed ↦ Option.map (◌∷◌ signed) (sign_all relayer bids)
]

-- submit_bids: the service after the transactions are sent and the hash of the first one. Sending
-- to the network is retried in a task of its own, so it does not fail here. `none` is the error of an
-- empty list, or a panic.
unfoldable pub submit_bids : Relayer → List Bid → Service → Option (Service × Signature)
submit_bids relayer bids service = elim (sign_all relayer bids) [
  | none ↦ none
  | some [] ↦ none
  | some (signed ∷ rest) ↦ elim (first_signature signed) [
    | none ↦ none
    | some tx_hash ↦ some (
      record service { sent = service.sent ++ map (λ b. b.chain_data.transaction) (signed ∷ rest) },
      tx_hash,
    )
  ]
]

-- `none` is the panic on a winner without a signature.
unfoldable pub get_new_status : Bid → List Bid → BidStatusAuction → Option BidStatusSvm
get_new_status bid winner_bids bid_status_auction =
    if any (λ b. b.id == bid.id) winner_bids
    then elim (first_signature bid) [
      | none ↦ none
      | some tx_hash ↦ some (submitted (record { id = bid_status_auction.id; tx_hash = tx_hash }))
    ]
    else some (lost (some bid_status_auction))

unfoldable pub get_new_statuses :
    List Bid → List Bid → BidStatusAuction → Option (List (BidStatusSvm × Bid))
get_new_statuses [] winner_bids auction = some []
get_new_statuses (b ∷ bids) winner_bids auction = elim (get_new_status b winner_bids auction) [
  | none ↦ none
  | some new_status ↦ Option.map (◌∷◌ (new_status, b)) (get_new_statuses bids winner_bids auction)
]

abbrev pub auction_minimum_lifetime : Time
auction_minimum_lifetime = 400

abbrev pub lose_all : Time → List Bid → Service → Service
lose_all now bids service = update_all now (map (λ b. (new_lost, b)) bids) service

-- What is set when the transactions were sent.
unfoldable pub record_submission : Time → Auction → List Bid → Signature → Service → Service
record_submission now auction winner_bids tx_hash service =
    let (repo, stored) =
      submit_auction now auction tx_hash (map (λ b. b.id) winner_bids) service.repo in
    let after = record service { repo = repo } in
    elim (get_new_statuses stored.bids winner_bids (record { id = stored.id; tx_hash = tx_hash })) [
      | none ↦ after
      | some updates ↦ update_all now updates after
    ]

-- Service::submit_auction, with Service::add_auction.
unfoldable pub submit_new_auction :
    (List Bid → Option (List Bid)) → Relayer → Time → Auction → Service → Service
submit_new_auction optimize_bids relayer now auction service =
    let winner_bids = get_winner_bids optimize_bids auction in
    let added = record service { repo = add_auction auction service.repo } in
    if not (is_ready auction auction_minimum_lifetime)
    then service
    else if is_empty winner_bids
    then lose_all now auction.bids service
    else elim (submit_bids relayer winner_bids added) [
      | none ↦ added
      | some (sent, tx_hash) ↦ record_submission now auction winner_bids tx_hash sent
    ]

-- submit_auction_for_lock: `id` is the id of the new auction.
unfoldable pub submit_auction_for_lock :
    (List Bid → Option (List Bid))
    → Relayer
    → AuctionId
    → Time
    → PermissionKeySvm
    → Service
    → Service
submit_auction_for_lock optimize_bids relayer id now permission_key service =
    elim (try_new id now
      (get_in_memory_pending_bids_by_permission_key permission_key service.repo.pending_bids) now) [
        | none ↦ service
        | some auction ↦ submit_new_auction optimize_bids relayer now auction service
      ]

unfoldable pub handle_auction :
    Bool
    → (List Bid → Option (List Bid))
    → Relayer
    → AuctionId
    → Time
    → PermissionKeySvm
    → Service
    → Service
handle_auction has_opportunities optimize_bids relayer id now permission_key service =
    elim (get_submission_state has_opportunities permission_key) [
      | by_other ↦ service
      | by_server ↦ submit_auction_for_lock optimize_bids relayer id now permission_key service
      | invalid ↦
          lose_all now
            (keep (λ b. is_pending b.status)
              (get_in_memory_pending_bids_by_permission_key permission_key
                service.repo.pending_bids))
            service
    ]
