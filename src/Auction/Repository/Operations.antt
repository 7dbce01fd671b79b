-- ===== src/Auction/Repository/Operations.antt =====
-- The invariant of the pending bids is kept by every operation of the repository.
use per.Prelude.{
  ℕ, ◌≡◌, refl, inl, inr, true, false, none, some, List, [], ◌∷◌, arith, ==_refl, Bool-cases,
  Option-cases, any,
}
use per.Auction.Entities.{
  BidId, Time, BidStatusSvm, Bid, BidChainDataSvm, is_pending, Signature, AuctionId,
}
use per.Auction.Database.{
  get_update_bid_query, BidUpdate, update_bid_status_db, Row, affects, execute,
}
use per.Auction.Repository.Pending.{
  IsValid, Agrees, waiting, push_pending-IsValid, remove_pending_bid-IsValid, IsValid-cons,
  remove_all-IsValid, execute-Keeps, execute_unaffected,
}
use per.Auction.Repository.{
  Repository, add_bid, add_auction, get_bid_entity, BidCreate, new_row, update_bid_status,
  submit_auction, remove_in_memory_pending_bids, conclude_auction, unsubmitted,
}
use per.Auction.Entities.Auction.{Auction}

-- The operations of the repository, with what each is given.
pub data Operation : Type 0 where
  add_bid_of : BidId → Time → BidCreate → BidChainDataSvm → ℕ → Operation
  add_auction_of : Auction → Operation
  update_bid_status_of : Time → Bid → BidStatusSvm → Operation
  submit_auction_of : Time → Auction → Signature → List BidId → Operation
  conclude_auction_of : Time → AuctionId → Operation

abbrev pub perform : Operation → Repository → Repository
perform (add_bid_of id now create chain_data amount) repo =
    elim (add_bid id now create chain_data amount repo) [ none ↦ repo | some (after, bid) ↦ after ]
perform (add_auction_of auction) repo = add_auction auction repo
perform (update_bid_status_of now bid status) repo = elim (update_bid_status now bid status repo) [
  | none ↦ repo
  | some (after, updated, time) ↦ after
]
perform (submit_auction_of now auction tx_hash ids) repo =
    (submit_auction now auction tx_hash ids repo).0
perform (conclude_auction_of now id) repo = conclude_auction now id repo

-- The bid of an update has the permission key of the pending bid with its id.
abbrev pub Sound : Operation → Repository → Type 0
Sound (update_bid_status_of now bid status) repo = Agrees bid repo.pending_bids
Sound _ repo = Unit

query-not_pending :
    (now : Time) (status : BidStatusSvm) (u : BidUpdate)
    → get_update_bid_query now status ≡ some u
    → is_pending status ≡ false
unfolding get_update_bid_query
query-not_pending now status u e = ground arith

entity-id :
    (now : Time) (create : BidCreate) (row : Row) (bid : Bid)
    → get_bid_entity now create row ≡ some bid
    → bid.id ≡ row.id
unfolding get_bid_entity
entity-id now create row bid e = ground arith

new_row-waiting :
    (id : BidId) (create : BidCreate) (chain_data : BidChainDataSvm) (amount : ℕ) (bid : Bid)
    (now : Time) (rows : List Row)
    → get_bid_entity now create (new_row id create amount chain_data) ≡ some bid
    → waiting bid.id (new_row id create amount chain_data ∷ rows) ≡ true
unfolding new_row
new_row-waiting id create chain_data amount bid now rows e =
    rw (entity-id now create (new_row id create amount chain_data) bid e, ==_refl id) refl

update_bid_status-IsValid :
    (now : Time) (bid : Bid) (status : BidStatusSvm) (repo : Repository)
    → Agrees bid repo.pending_bids
    → IsValid repo.bid_rows repo.pending_bids
    → IsValid
        (perform (update_bid_status_of now bid status) repo).bid_rows
        (perform (update_bid_status_of now bid status) repo).pending_bids
unfolding update_bid_status update_bid_status_db remove_in_memory_pending_bids
update_bid_status-IsValid now bid status repo agrees v =
    elim (Option-cases (get_update_bid_query now status)) [
      | inl refused ↦ rw (perform, refused) v
      | inr (u, e) ↦ elim (Bool-cases (affects bid.id u repo.bid_rows)) [
        | inl hit ↦
            rw (perform, e, hit, query-not_pending now status u e)
              (remove_pending_bid-IsValid bid repo.bid_rows (execute bid.id u repo.bid_rows)
                repo.pending_bids (execute-Keeps bid.id u repo.bid_rows) agrees v)
        | inr miss ↦ rw (perform, e, miss, execute_unaffected bid.id u repo.bid_rows miss) v
      ]
    ]

pub perform-IsValid :
    (op : Operation) (repo : Repository)
    → Sound op repo
    → IsValid repo.bid_rows repo.pending_bids
    → IsValid (perform op repo).bid_rows (perform op repo).pending_bids
unfolding add_bid add_auction submit_auction conclude_auction
perform-IsValid (add_bid_of id now create chain_data amount) repo s v =
    let row = new_row id create amount chain_data in
    elim (Option-cases (get_bid_entity now create row)) [
      | inl refused ↦ rw (perform, refused) v
      | inr (bid, e) ↦
          rw (perform, e)
            (push_pending-IsValid (row ∷ repo.bid_rows) bid repo.pending_bids
              (new_row-waiting id create chain_data amount bid now repo.bid_rows e)
              (IsValid-cons row repo.bid_rows repo.pending_bids v))
    ]
perform-IsValid (add_auction_of auction) repo s v =
    remove_all-IsValid auction.bids repo.bid_rows repo.pending_bids v
perform-IsValid (update_bid_status_of now bid status) repo s v =
    update_bid_status-IsValid now bid status repo s v
perform-IsValid (submit_auction_of now auction tx_hash ids) repo s v =
    elim (Bool-cases (any (unsubmitted auction.id) repo.auction_rows)) [
      | inl hit ↦ rw (perform, hit) v
      | inr miss ↦ rw (perform, miss) v
    ]
perform-IsValid (conclude_auction_of now id) repo s v = v

-- The invariant in a repository.
abbrev pub PendingIsValid : Repository → Type 0
PendingIsValid repo = IsValid repo.bid_rows repo.pending_bids

abbrev pub perform_all : List Operation → Repository → Repository
perform_all [] repo = repo
perform_all (op ∷ ops) repo = perform_all ops (perform op repo)

abbrev pub SoundAll : List Operation → Repository → Type 0
SoundAll [] repo = Unit
SoundAll (op ∷ ops) repo = Sound op repo × SoundAll ops (perform op repo)

-- Repository::new
abbrev pub empty_repository : Repository
empty_repository = record { pending_bids = []; auctions = []; bid_rows = []; auction_rows = [] }

keeps-IsValid :
    (ops : List Operation) (repo : Repository)
    → SoundAll ops repo
    → PendingIsValid repo
    → PendingIsValid (perform_all ops repo)
keeps-IsValid [] repo s v = v
keeps-IsValid (op ∷ ops) repo (s, ss) v =
    keeps-IsValid ops (perform op repo) ss (perform-IsValid op repo s v)

-- From an empty repository, after any operations in any order, every bid that is pending in memory
-- stands in a non-empty entry under its own permission key and has a row with status pending, when
-- each update names a bid with the permission key of the pending bid that has its id.
pub perform_all-IsValid :
    (ops : List Operation)
    → SoundAll ops empty_repository
    → PendingIsValid (perform_all ops empty_repository)
perform_all-IsValid ops s = keeps-IsValid ops empty_repository s tt
