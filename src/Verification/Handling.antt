-- ===== src/Verification/Handling.antt =====
-- handle_bid of auction/service/handle_bid.rs: a bid that is verified is added to the repository.
-- The opportunity_id of a BidCreate is the one that its chain data names.
pub mod Again
use per.Prelude.{Option, none, some, ok, err, ℕ}
use per.Auction.Entities.{BidId, Time, Bid, BidChainDataSvm}
use per.Auction.Repository.{Repository, BidCreate, add_bid}
use per.Auction.Errors.{Reply, temporarily_unavailable}
use per.Verification.Instructions.{Verifier}
use per.Verification.Extraction.{World, BidChainDataCreateSvm}
use per.Verification.Bid.{verify_bid}

-- The call of add_bid; a row that is no entity makes the service temporarily unavailable.
unfoldable pub store_bid :
    BidId → Time → BidCreate → Repository → BidChainDataSvm × ℕ → Reply Bid × Repository
store_bid id now create repo (chain_data, amount) =
    elim (add_bid id now create chain_data amount repo) [
      | none ↦ (err temporarily_unavailable, repo)
      | some (after, bid) ↦ (ok bid, after)
    ]

-- The pending bids that verify_bid looks at are those of the repository.
unfoldable pub handle_bid :
    Verifier
    → World
    → BidId
    → Time
    → BidCreate
    → BidChainDataCreateSvm
    → Repository
    → Option (Reply Bid × Repository)
handle_bid v world id now create chain_data repo =
    elim (verify_bid v (record world { pending_bids = repo.pending_bids }) create.chain_id
      chain_data) [
        | none ↦ none
        | some (err e) ↦ some (err e, repo)
        | some (ok accepted) ↦ some (store_bid id now create repo accepted)
      ]
