-- ===== src/Auction/Entities/Auction.antt =====
-- Auction of auction-server/src/auction/entities/auction.rs.
use per.Prelude.{◌+◌, Bool, Option, none, some, List, [], ◌∷◌, ltb, keep, any}
use per.Auction.Entities.{Time, AuctionId, Bid, is_pending, Signature}
use per.Auction.Entities.PermissionKey.{PermissionKeySvm, get_permission_key}

-- The chain is the server's own.
pub record Auction : Type 0 where
  pub id : AuctionId
  pub permission_key : PermissionKeySvm
  pub creation_time : Time
  pub bid_collection_time : Time
  pub submission_time : Option Time
  pub tx_hash : Option Signature
  pub bids : List Bid

-- Auction::try_new: `id` is the new random id and `now` the time.
unfoldable pub try_new : AuctionId → Time → List Bid → Time → Option Auction
try_new id now bids bid_collection_time =
    let pending_bids = keep (λ b. is_pending b.status) bids in
    elim pending_bids [
      | [] ↦ none
      | b ∷ rest ↦ some (record {
        id = id;
        permission_key = get_permission_key b.chain_data;
        creation_time = now;
        bid_collection_time = bid_collection_time;
        submission_time = none;
        tx_hash = none;
        bids = b ∷ rest;
      })
    ]

-- `a - b > d` on times is `b + d < a`.
unfoldable pub is_ready : Auction → Time → Bool
is_ready auction auction_minimum_lifetime =
    any (λ b. ltb (b.initiation_time + auction_minimum_lifetime) auction.bid_collection_time)
      auction.bids
