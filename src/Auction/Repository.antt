-- ===== src/Auction/Repository.antt =====
-- auction-server/src/auction/repository: the bids and auctions kept in memory beside the database,
-- and the operations that change both. A hash map is a list of its entries, one for each key. An
-- operation of the database that fails for an outside reason changes nothing and is not modelled.
pub mod Pending
pub mod Operations
pub mod Staying
pub mod Collection
use per.Prelude.{
  ℕ, zero, suc, ◌+◌, ◌-◌, ◌*◌, ◌/◌, ◌%◌, ◌^◌, ◌≤◌, ◌<◌, ◌≡◌, refl, sym, ap, subst, ◌∙◌, ◌≢◌, ◌↔◌,
  ◌⊎◌, inl, inr, Bool, true, false, ◌&&◌, ◌||◌, Option, none, some, List, [], ◌∷◌, ◌++◌, map, arith,
  ltb, leb, ◌==◌, not, ◌!=◌, if◌then◌else◌, ==_refl, Bool-cases, Option-cases, bytes_eq,
  bytes_eq_refl, bytes_eq_iff, take-append, drop-append, length, take, drop, get_elem?,
  length-append, keep, find, any, all, is_empty, first, All, Result, ok, err, ◌>>=◌, ◌>>◌, fail_if,
  ok_or, Result-cases, OnSome, u64_limit, checked_add, checked_sub, checked_mul, saturating_sub,
}
use per.Auction.Entities.{
  BidId, AuctionId, Time, Signature, BidStatusSvm, Bid, is_pending, get_auction_id, ProfileId,
  BidChainDataSvm,
}
use per.Auction.Entities.PermissionKey.{PermissionKeySvm, get_permission_key, get_chain_data_entity}
use per.Auction.Database.{Row, update_bid_status_db, BidStatus, or_else, get_bid_status_entity}
use per.Auction.Entities.Auction.{Auction}

abbrev pub PendingBids : Type 0
PendingBids = List (PermissionKeySvm × List Bid)

-- A row of the auction table.
pub record AuctionTableRow : Type 0 where
  pub id : AuctionId
  pub submission_time : Option Time
  pub tx_hash : Option Signature
  pub conclusion_time : Option Time

-- InMemoryStore, without its locks and fee samples, and the two tables.
pub record Repository : Type 0 where
  pub pending_bids : PendingBids
  pub auctions : List Auction
  pub bid_rows : List Row
  pub auction_rows : List AuctionTableRow

-- `entry(key).or_insert_with(Vec::new).push(bid)`
unfoldable pub push_pending : PermissionKeySvm → Bid → PendingBids → PendingBids
push_pending key b [] = (key, b ∷ []) ∷ []
push_pending key b ((k, bids) ∷ entries) =
    let others = push_pending key b entries in
    if bytes_eq k key then (k, bids ++ b ∷ []) ∷ entries else (k, bids) ∷ others

-- One turn of the loop of remove_in_memory_pending_bids: an entry left empty is removed.
unfoldable pub remove_pending_bid : Bid → PendingBids → PendingBids
remove_pending_bid bid [] = []
remove_pending_bid bid ((k, bids) ∷ entries) =
    let others = remove_pending_bid bid entries in
    let kept = keep (λ b. b.id != bid.id) bids in
    if bytes_eq k (get_permission_key bid.chain_data)
    then (if is_empty kept then others else (k, kept) ∷ others)
    else (k, bids) ∷ others

unfoldable pub remove_in_memory_pending_bids : List Bid → PendingBids → PendingBids
remove_in_memory_pending_bids [] entries = entries
remove_in_memory_pending_bids (bid ∷ bids) entries =
    remove_in_memory_pending_bids bids (remove_pending_bid bid entries)

unfoldable pub get_in_memory_pending_bids_by_permission_key :
    PermissionKeySvm → PendingBids → List Bid
get_in_memory_pending_bids_by_permission_key key [] = []
get_in_memory_pending_bids_by_permission_key key ((k, bids) ∷ entries) =
    let others = get_in_memory_pending_bids_by_permission_key key entries in
    if bytes_eq k key then bids else others

-- BidCreate, without its chain data, which the verification has turned into a BidChainDataSvm.
pub record BidCreate : Type 0 where
  pub chain_id : ℕ
  pub initiation_time : Time
  pub profile_id : Option ProfileId
  pub opportunity_id : Option ℕ

-- Bid::new: `id` is the new random id.
unfoldable pub new_row : BidId → BidCreate → ℕ → BidChainDataSvm → Row
new_row id bid amount chain_data = record {
  id = id;
  permission_key = get_permission_key chain_data;
  bid_amount = amount;
  status = BidStatus.pending;
  auction_id = none;
  initiation_time = bid.initiation_time;
  conclusion_time = none;
  transaction = chain_data.transaction;
  status_reason = none;
}

-- Bid::get_bid_entity, on a row made from `bid` at time `now`, whose auction is missing.
unfoldable pub get_bid_entity : Time → BidCreate → Row → Option Bid
get_bid_entity now bid row = elim (get_bid_status_entity row none) [
  | none ↦ none
  | some status ↦ elim (get_chain_data_entity row.transaction row.permission_key) [
    | none ↦ none
    | some chain_data ↦ some (record {
      id = row.id;
      chain_id = bid.chain_id;
      initiation_time = row.initiation_time;
      profile_id = bid.profile_id;
      opportunity_id = bid.opportunity_id;
      creation_time = now;
      conclusion_time = row.conclusion_time;
      submission_time = none;
      amount = row.bid_amount;
      status = status;
      chain_data = chain_data;
    })
  ]
]

-- Repository::add_bid; `none` is the error of a row that is no entity.
unfoldable pub add_bid :
    BidId → Time → BidCreate → BidChainDataSvm → ℕ → Repository → Option (Repository × Bid)
add_bid id now bid_create chain_data amount repo =
    let row = new_row id bid_create amount chain_data in
    elim (get_bid_entity now bid_create row) [
      | none ↦ none
      | some bid ↦ some (
        record repo {
          bid_rows = row ∷ repo.bid_rows;
          pending_bids = push_pending (get_permission_key bid.chain_data) bid repo.pending_bids;
        },
        bid,
      )
    ]

-- `DashMap::insert`
abbrev pub insert_auction : Auction → List Auction → List Auction
insert_auction auction auctions = auction ∷ keep (λ a. a.id != auction.id) auctions

unfoldable pub add_auction : Auction → Repository → Repository
add_auction auction repo = record repo {
  auction_rows =
      record {
        id = auction.id;
        submission_time = auction.submission_time;
        tx_hash = auction.tx_hash;
        conclusion_time = none;
      }
      ∷ repo.auction_rows;
  pending_bids = remove_in_memory_pending_bids auction.bids repo.pending_bids;
  auctions = insert_auction auction repo.auctions;
}

unfoldable pub get_in_memory_auction_by_id : AuctionId → List Auction → Option Auction
get_in_memory_auction_by_id id auctions = find (λ a. a.id == id) auctions

unfoldable pub get_in_memory_auction_bid_by_bid_id : BidId → List Auction → Option Bid
get_in_memory_auction_bid_by_bid_id id [] = none
get_in_memory_auction_bid_by_bid_id id (a ∷ auctions) =
    or_else (find (λ b. b.id == id) a.bids) (get_in_memory_auction_bid_by_bid_id id auctions)

-- `get_mut` of an entry that is there, and nothing otherwise.
unfoldable pub update_in_memory_auction : Auction → List Auction → List Auction
update_in_memory_auction auction [] = []
update_in_memory_auction auction (a ∷ auctions) =
    (if a.id == auction.id then auction else a) ∷ update_in_memory_auction auction auctions

-- The status of the first bid with the id is set.
unfoldable pub set_bid_status : BidId → BidStatusSvm → List Bid → List Bid
set_bid_status id new_status [] = []
set_bid_status id new_status (b ∷ bids) =
    let others = set_bid_status id new_status bids in
    if b.id == id then record b { status = new_status } ∷ bids else b ∷ others

abbrev pub with_bid_status : AuctionId → BidId → BidStatusSvm → Auction → Auction
with_bid_status auction_id id new_status a =
    if a.id == auction_id then record a { bids = set_bid_status id new_status a.bids } else a

unfoldable pub update_in_memory_auction_bid : Bid → BidStatusSvm → List Auction → List Auction
update_in_memory_auction_bid bid new_status auctions = elim (get_auction_id new_status) [
  | none ↦ auctions
  | some auction_id ↦ map (with_bid_status auction_id bid.id new_status) auctions
]

-- Repository::update_bid_status; `none` is the refusal to update to pending.
unfoldable pub update_bid_status :
    Time → Bid → BidStatusSvm → Repository → Option (Repository × Bool × Option Time)
update_bid_status now bid new_status repo =
    elim (update_bid_status_db now bid.id new_status repo.bid_rows) [
      | none ↦ none
      | some (rows, is_updated, conclusion_time) ↦
          let stored = record repo { bid_rows = rows } in
          some (
            (if is_updated && not (is_pending new_status)
                then record stored {
                  pending_bids = remove_in_memory_pending_bids (bid ∷ []) repo.pending_bids;
                  auctions = update_in_memory_auction_bid bid new_status repo.auctions;
                }
                else stored),
            is_updated,
            conclusion_time,
          )
    ]

-- The row of an auction that is not yet submitted.
abbrev pub unsubmitted : AuctionId → AuctionTableRow → Bool
unsubmitted id row = elim row.submission_time [ none ↦ row.id == id | some t ↦ false ]

abbrev pub mark_submitted : Time → AuctionId → Signature → AuctionTableRow → AuctionTableRow
mark_submitted now id tx_hash row =
    if unsubmitted id row
    then record row { submission_time = some now; tx_hash = some tx_hash }
    else row

abbrev pub with_submission_time : Time → List BidId → Bid → Bid
with_submission_time now winner_bid_ids b =
    if any (λ id. id == b.id) winner_bid_ids then record b { submission_time = some now } else b

-- Database::submit_auction and Repository::submit_auction: the auction as it is now stored.
unfoldable pub submit_auction :
    Time → Auction → Signature → List BidId → Repository → Repository × Auction
submit_auction now auction tx_hash winner_bid_ids repo =
    let updated = record auction {
      tx_hash = some tx_hash;
      submission_time = some now;
      bids = map (with_submission_time now winner_bid_ids) auction.bids;
    } in
    if any (unsubmitted auction.id) repo.auction_rows
    then (
      record repo {
        auction_rows = map (mark_submitted now auction.id tx_hash) repo.auction_rows;
        auctions = update_in_memory_auction updated repo.auctions;
      },
      updated,
    )
    else (repo, auction)

abbrev pub mark_concluded : Time → AuctionId → AuctionTableRow → AuctionTableRow
mark_concluded now id row = elim row.conclusion_time [
  | none ↦ (if row.id == id then record row { conclusion_time = some now } else row)
  | some t ↦ row
]

-- Repository::conclude_auction, with remove_in_memory_auction.
unfoldable pub conclude_auction : Time → AuctionId → Repository → Repository
conclude_auction now id repo = record repo {
  auction_rows = map (mark_concluded now id) repo.auction_rows;
  auctions = keep (λ a. a.id != id) repo.auctions;
}
