-- ===== src/Auction/Service.antt =====
-- auction-server/src/auction/service: the state of the service, update_bid_status, and the
-- conclusion of auctions (conclude_auction.rs and the results of auction_manager.rs). What the
-- service awaits is an argument: the time `now`, the answers of the RPC node. Updates that are
-- joined are made one after another in the order of their list.
pub mod Handling
pub mod Quotes
pub mod Conclusion
pub mod Winners
use mathlib.Core.Option
use per.Prelude.{
  ℕ, zero, suc, ◌+◌, ◌-◌, ◌*◌, ◌/◌, ◌%◌, ◌^◌, ◌≤◌, ◌<◌, ◌≡◌, refl, sym, ap, subst, ◌∙◌, ◌≢◌, ◌↔◌,
  ◌⊎◌, inl, inr, Bool, true, false, ◌&&◌, ◌||◌, Option, none, some, List, [], ◌∷◌, ◌++◌, map, arith,
  ltb, leb, ◌==◌, not, ◌!=◌, if◌then◌else◌, ==_refl, Bool-cases, Option-cases, bytes_eq,
  bytes_eq_refl, bytes_eq_iff, take-append, drop-append, length, take, drop, get_elem?,
  length-append, keep, find, any, all, is_empty, first, All, Result, ok, err, ◌>>=◌, ◌>>◌, fail_if,
  ok_or, Result-cases, OnSome, u64_limit, checked_add, checked_sub, checked_mul, saturating_sub,
}
use per.Auction.Entities.{
  BidId, AuctionId, Time, Signature, BidStatusSvm, Bid, TransactionError, new_lost, failed,
  Transaction, is_submitted, first_signature, is_sent_to_user_for_submission, is_concluded,
  get_failed_reason_from_transaction_error, won, expired,
}
use per.Auction.Entities.Auction.{Auction}
use per.Auction.Errors.{RestError, Message, temporarily_unavailable}
use per.Auction.Repository.{
  Repository, update_bid_status, get_in_memory_auction_by_id, conclude_auction,
}

-- The repository, the status events that were sent, and the transactions that were sent.
pub record Service : Type 0 where
  pub repo : Repository
  pub events : List (BidId × BidStatusSvm)
  pub sent : List Transaction

-- Service::update_bid_status, without the analytics: an event is sent for an update that is made.
unfoldable pub update_status : Time → Bid → BidStatusSvm → Service → Service × Result RestError Bool
update_status now bid new_status service =
    elim (update_bid_status now bid new_status service.repo) [
      | none ↦ (service, err temporarily_unavailable)
      | some (repo, is_updated, conclusion_time) ↦ (
        record service {
          repo = repo;
          events =
              if is_updated then service.events ++ (bid.id, new_status) ∷ [] else service.events;
        },
        ok is_updated,
      )
    ]

-- `join_all` of the updates; their results are dropped.
unfoldable pub update_all : Time → List (BidStatusSvm × Bid) → Service → Service
update_all now [] service = service
update_all now ((new_status, bid) ∷ updates) service =
    update_all now updates (update_status now bid new_status service).0

-- Times are in milliseconds.
abbrev pub bid_maximum_life_time_svm : Time
bid_maximum_life_time_svm = 120000

unfoldable pub is_auction_expired : Time → Auction → Bool
is_auction_expired now auction = ltb (auction.creation_time + bid_maximum_life_time_svm * 2) now

-- The status of a confirmed transaction: its error, if it failed.
abbrev pub SignatureStatus : Type 0
SignatureStatus = Option TransactionError

-- One bid of get_bid_results, whose first signature is `tx_hash`.
unfoldable pub bid_result :
    Time → AuctionId → Signature → Time → Option SignatureStatus → Option BidStatusSvm
bid_result now id tx_hash initiation_time (some (some error)) = some (
    failed (record { id = id; tx_hash = tx_hash })
      (some (get_failed_reason_from_transaction_error error)))
bid_result now id tx_hash initiation_time (some none) =
    some (won (record { id = id; tx_hash = tx_hash }))
bid_result now id tx_hash initiation_time none =
    if ltb (initiation_time + bid_maximum_life_time_svm) now
    then some (expired (record { id = id; tx_hash = tx_hash }))
    else none

-- The answer of get_signature_statuses for one signature, kept when it is confirmed; `none` when
-- the call fails.
abbrev pub Rpc : Type 0
Rpc = Option (Signature → Option SignatureStatus)

abbrev pub needs_rpc : List Bid → Bool
needs_rpc bids = any (λ b. is_submitted b.status || is_sent_to_user_for_submission b.status) bids

abbrev pub no_statuses : Signature → Option SignatureStatus
no_statuses tx_hash = none

-- `none` is the panic on a bid without a signature.
unfoldable pub bid_results :
    (Signature → Option SignatureStatus)
    → Time
    → AuctionId
    → List Bid
    → Option (List (Option BidStatusSvm))
bid_results statuses now id [] = some []
bid_results statuses now id (b ∷ bids) = elim (first_signature b) [
  | none ↦ none
  | some sig ↦
      Option.map (◌∷◌ (bid_result now id sig b.initiation_time (statuses sig)))
        (bid_results statuses now id bids)
]

unfoldable pub get_bid_results :
    Rpc → Time → AuctionId → List Bid → Option (List (Option BidStatusSvm))
get_bid_results rpc now id bids =
    if needs_rpc bids
    then elim rpc [ none ↦ none | some statuses ↦ bid_results statuses now id bids ]
    else bid_results no_statuses now id bids

-- `zip` and `filter_map`
unfoldable pub known_results : List (Option BidStatusSvm) → List Bid → List (BidStatusSvm × Bid)
known_results (some status ∷ results) (b ∷ bids) = (status, b) ∷ known_results results bids
known_results (none ∷ results) (b ∷ bids) = known_results results bids
known_results _ _ = []

abbrev pub conclude : Time → AuctionId → Service → Service
conclude now id service = record service { repo = conclude_auction now id service.repo }

-- The auction is fetched again after the updates.
abbrev pub conclude_if_done : Time → AuctionId → Service → Service
conclude_if_done now id service = elim (get_in_memory_auction_by_id id service.repo.auctions) [
  | none ↦ service
  | some a ↦
      if all (λ b. is_concluded b.status) a.bids
      then conclude now a.id service
      else if is_auction_expired now a
      then conclude now a.id service
      else service
]

unfoldable pub conclude_auction_with_statuses :
    Time → Auction → List (BidStatusSvm × Bid) → Service → Service
conclude_auction_with_statuses now auction bid_statuses service =
    conclude_if_done now auction.id (update_all now bid_statuses service)

-- Service::conclude_auction; a failed RPC call changes nothing.
unfoldable pub conclude_auction_by_chain : Rpc → Time → Auction → Service → Service
conclude_auction_by_chain rpc now auction service = elim auction.tx_hash [
  | none ↦
      if is_auction_expired now auction
      then conclude_auction_with_statuses now auction (map (λ b. (new_lost, b)) auction.bids)
          service
      else service
  | some tx_hash ↦
      let bids = keep (λ b. not (is_concluded b.status)) auction.bids in
      elim (get_bid_results rpc now auction.id bids) [
        | none ↦ service
        | some results ↦
            conclude_auction_with_statuses now auction (known_results results bids) service
      ]
]

-- One turn of conclude_auction_loop: it goes on while the auction is in memory.
unfoldable pub conclude_auction_turn : Rpc → Time → AuctionId → Service → Option Service
conclude_auction_turn rpc now id service =
    elim (get_in_memory_auction_by_id id service.repo.auctions) [
      | none ↦ none
      | some auction ↦ some (conclude_auction_by_chain rpc now auction service)
    ]
