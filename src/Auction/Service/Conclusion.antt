-- ===== src/Auction/Service/Conclusion.antt =====
-- An auction does not stay in memory for ever: the loop of conclude_auction.rs ends.
use per.Prelude.{
  ◌≡◌, refl, ◌∙◌, ◌≢◌, inl, inr, Bool, true, Option, none, some, List, [], ◌∷◌, map, arith, ◌==◌,
  not, ◌!=◌, Bool-cases, Option-cases, keep, find, All,
}
use per.Auction.Entities.{
  AuctionId, Time, Signature, BidStatusSvm, Bid, get_auction_id, first_signature, BidId,
  is_concluded, new_lost,
}
use per.Auction.Entities.Auction.{Auction}
use per.Auction.Repository.{
  update_bid_status, get_in_memory_auction_by_id, update_in_memory_auction_bid, conclude_auction,
  with_bid_status,
}
use per.Auction.Service.{
  Service, update_status, update_all, is_auction_expired, SignatureStatus, Rpc, bid_results,
  get_bid_results, known_results, conclude_if_done, conclude_auction_with_statuses,
  conclude_auction_by_chain, conclude_auction_turn, conclude, no_statuses,
}

-- When an auction in memory was created.
abbrev pub created : AuctionId → List Auction → Option Time
created id auctions = elim (get_in_memory_auction_by_id id auctions) [
  | none ↦ none
  | some a ↦ some a.creation_time
]

with_bid_status-created :
    (auction_id : AuctionId) (bid_id : BidId) (s : BidStatusSvm) (id : AuctionId)
    (auctions : List Auction)
    → created id (map (with_bid_status auction_id bid_id s) auctions) ≡ created id auctions
unfolding get_in_memory_auction_by_id
with_bid_status-created auction_id bid_id s id [] = refl
with_bid_status-created auction_id bid_id s id (a ∷ auctions) =
    ground (arith, with_bid_status-created auction_id bid_id s id auctions)

update_bid-created :
    (bid : Bid) (s : BidStatusSvm) (id : AuctionId) (auctions : List Auction)
    → created id (update_in_memory_auction_bid bid s auctions) ≡ created id auctions
unfolding update_in_memory_auction_bid
update_bid-created bid s id auctions = elim (Option-cases (get_auction_id s)) [
  | inl none_named ↦ rw (update_in_memory_auction_bid, none_named) refl
  | inr (auction_id, e) ↦
      rw (update_in_memory_auction_bid, e) (with_bid_status-created auction_id bid.id s id auctions)
]

-- An update changes no auction's time of creation and removes no auction.
update_status-created :
    (now : Time) (bid : Bid) (s : BidStatusSvm) (id : AuctionId) (service : Service)
    → created id (update_status now bid s service).0.repo.auctions
      ≡ created id service.repo.auctions
unfolding update_status update_bid_status
update_status-created now bid s id service =
    ground (arith, update_bid-created bid s id service.repo.auctions)

update_all-created :
    (now : Time) (updates : List (BidStatusSvm × Bid)) (id : AuctionId) (service : Service)
    → created id (update_all now updates service).repo.auctions ≡ created id service.repo.auctions
unfolding update_all
update_all-created now [] id service = refl
update_all-created now ((s, bid) ∷ updates) id service =
    update_all-created now updates id (update_status now bid s service).0
    ∙ update_status-created now bid s id service

removed :
    (id : AuctionId) (auctions : List Auction)
    → find (λ a. a.id == id) (keep (λ a. a.id != id) auctions) ≡ none
removed id [] = refl
removed id (a ∷ auctions) = ground (arith, removed id auctions)

-- The auction with this id is not in memory.
abbrev pub Gone : AuctionId → Service → Type 0
Gone id service = get_in_memory_auction_by_id id service.repo.auctions ≡ none

found-id :
    (id : AuctionId) (auctions : List Auction) (a : Auction)
    → get_in_memory_auction_by_id id auctions ≡ some a
    → a.id ≡ id
unfolding get_in_memory_auction_by_id
found-id id [] a e = cc
found-id id (b ∷ auctions) a e = ground (arith, found-id id auctions a)

conclude-Gone :
    (now : Time) (id : AuctionId) (service : Service) → Gone id (conclude now id service)
unfolding get_in_memory_auction_by_id conclude_auction
conclude-Gone now id service = removed id service.repo.auctions

conclude_if_done-Gone :
    (now : Time) (id : AuctionId) (service : Service)
    → ((a : Auction)
        → get_in_memory_auction_by_id id service.repo.auctions ≡ some a
        → is_auction_expired now a ≡ true)
    → Gone id (conclude_if_done now id service)
conclude_if_done-Gone now id service old =
    elim (Option-cases (get_in_memory_auction_by_id id service.repo.auctions)) [
      | inl gone ↦ rw (conclude_if_done, gone) gone
      | inr (a, e) ↦
          ground
            (arith, old a e, found-id id service.repo.auctions a e, conclude-Gone now id service)
    ]

conclude_with-Gone :
    (now : Time) (auction : Auction) (updates : List (BidStatusSvm × Bid)) (service : Service)
    → get_in_memory_auction_by_id auction.id service.repo.auctions ≡ some auction
    → is_auction_expired now auction ≡ true
    → Gone auction.id (conclude_auction_with_statuses now auction updates service)
unfolding conclude_auction_with_statuses is_auction_expired
conclude_with-Gone now auction updates service e old =
    conclude_if_done-Gone now auction.id (update_all now updates service)
      λ a f. ground (arith, update_all-created now updates auction.id service)

abbrev pub HasSignature : Bid → Type 0
HasSignature b = first_signature b ≢ none

bid_results_answers :
    (statuses : Signature → Option SignatureStatus) (now : Time) (id : AuctionId) (bids : List Bid)
    → All HasSignature bids
    → bid_results statuses now id bids ≢ none
unfolding bid_results
bid_results_answers statuses now id [] h = λ e. cc
bid_results_answers statuses now id (b ∷ bids) (h, hs) =
    ground (arith, bid_results_answers statuses now id bids hs)

get_bid_results_answers :
    (statuses : Signature → Option SignatureStatus) (now : Time) (id : AuctionId) (bids : List Bid)
    → All HasSignature bids
    → get_bid_results (some statuses) now id bids ≢ none
unfolding get_bid_results
get_bid_results_answers statuses now id bids h = ground (
  arith,
  bid_results_answers statuses now id bids h,
  bid_results_answers no_statuses now id bids h,
)

All-keep {ℓ κ} :
    {A : Type ℓ} (P : A → Type κ) (p : A → Bool) (xs : List A) → All P xs → All P (keep p xs)
All-keep P p [] h = tt
All-keep P p (x ∷ xs) (h, hs) = elim (Bool-cases (p x)) [
  | inl hit ↦ rw hit (h, All-keep P p xs hs)
  | inr miss ↦ rw miss (All-keep P p xs hs)
]

conclude_by_chain-Gone :
    (statuses : Signature → Option SignatureStatus) (now : Time) (auction : Auction)
    (service : Service)
    → get_in_memory_auction_by_id auction.id service.repo.auctions ≡ some auction
    → is_auction_expired now auction ≡ true
    → All HasSignature auction.bids
    → Gone auction.id (conclude_auction_by_chain (some statuses) now auction service)
unfolding conclude_auction_by_chain
conclude_by_chain-Gone statuses now auction service e old h =
    let bids = keep (λ b. not (is_concluded b.status)) auction.bids in
    elim (Option-cases auction.tx_hash) [
      | inl unsent ↦
          rw (conclude_auction_by_chain, unsent, old)
            (conclude_with-Gone now auction (map (λ b. (new_lost, b)) auction.bids) service e old)
      | inr (tx_hash, sent) ↦
          elim (Option-cases (get_bid_results (some statuses) now auction.id bids)) [
            | inl failed ↦ absurd (
                get_bid_results_answers statuses now auction.id bids
                  (All-keep HasSignature (λ b. not (is_concluded b.status)) auction.bids h) failed)
            | inr (results, got) ↦
                rw (conclude_auction_by_chain, sent, got)
                  (conclude_with-Gone now auction (known_results results bids) service e old)
          ]
    ]

-- When an auction in memory is past its time of expiry, its bids have signatures and the RPC node
-- answers, whatever it answers, the turn of the conclusion loop removes the auction from memory, and
-- the loop ends at its next turn, at whatever time and with whatever answer.
pub conclude_auction_turn-terminates :
    (statuses : Signature → Option SignatureStatus) (now : Time) (auction : Auction)
    (service : Service)
    → get_in_memory_auction_by_id auction.id service.repo.auctions ≡ some auction
    → is_auction_expired now auction ≡ true
    → All HasSignature auction.bids
    → (after : Service) × (conclude_auction_turn (some statuses) now auction.id service
        ≡ some after)
      × ((rpc : Rpc) (later : Time) → conclude_auction_turn rpc later auction.id after ≡ none)
unfolding conclude_auction_turn
conclude_auction_turn-terminates statuses now auction service e old h = (
  conclude_auction_by_chain (some statuses) now auction service,
  rw (conclude_auction_turn, e) refl,
  λ rpc later.
      rw (conclude_auction_turn, conclude_by_chain-Gone statuses now auction service e old h) refl,
)
