-- ===== src/Auction/Database/Reading/Columns.antt =====
-- What the update queries write into a bid's row, and what is read of it.
use per.Prelude.{◌≡◌, refl, ap, true, false, Option, none, some, arith, any}
use per.Auction.Entities.{
  AuctionId, Time, BidStatusSvm, BidStatusAuction, BidFailedReason, BidSubmissionFailedReason,
  Signature,
}
use per.Auction.Database.{
  BidStatusReason, reason_entity, reason_model, get_bid_status_reason, convert_bid_status,
  AuctionRow, status_entity, get_bid_status_auction_entity, BidStatus, pending, awaiting_signature,
  sent_to_user_for_submission, submitted, cancelled, Row, BidUpdate, status_eq,
  get_update_bid_query, or_else,
}
use per.Auction.Database.Lifecycle.{Step, await_signature}

pub reason_model-inverse : (r : BidFailedReason) → reason_entity (reason_model r) ≡ r
unfolding reason_model reason_entity
reason_model-inverse r = ground arith

pub reason_entity-inverse : (r : BidStatusReason) → reason_model (reason_entity r) ≡ r
unfolding reason_model reason_entity
reason_entity-inverse r = ground arith

-- A request names the auction of the bid: its id with the bid's own signature, except that a lost bid
-- names no auction, or the auction with the signature of the auction's transaction.
abbrev pub Names : BidStatusSvm → Signature → AuctionRow → Type 0
Names BidStatusSvm.pending sig auction = Unit
Names (BidStatusSvm.lost none) sig auction = Unit
Names (BidStatusSvm.lost (some a)) sig auction =
    get_bid_status_auction_entity (some auction) ≡ some a
Names (BidStatusSvm.awaiting_signature a) sig auction =
    a ≡ record { id = auction.id; tx_hash = sig }
Names (BidStatusSvm.sent_to_user_for_submission a) sig auction =
    a ≡ record { id = auction.id; tx_hash = sig }
Names (BidStatusSvm.submitted a) sig auction = a ≡ record { id = auction.id; tx_hash = sig }
Names (BidStatusSvm.won a) sig auction = a ≡ record { id = auction.id; tx_hash = sig }
Names (BidStatusSvm.failed a reason) sig auction = a ≡ record { id = auction.id; tx_hash = sig }
Names (BidStatusSvm.expired a) sig auction = a ≡ record { id = auction.id; tx_hash = sig }
Names (BidStatusSvm.cancelled a) sig auction = a ≡ record { id = auction.id; tx_hash = sig }
Names (BidStatusSvm.submission_failed a reason) sig auction =
    a ≡ record { id = auction.id; tx_hash = sig }

-- The auction and the reason of a row, by its status: a pending row has neither, and the rows that
-- can still change name the auction and have no reason.
abbrev pub Links : AuctionId → BidStatus → Option AuctionId → Option BidStatusReason → Type 0
Links id pending auction_id reason = (auction_id ≡ none) × (reason ≡ none)
Links id awaiting_signature auction_id reason = (auction_id ≡ some id) × (reason ≡ none)
Links id sent_to_user_for_submission auction_id reason = (auction_id ≡ some id) × (reason ≡ none)
Links id submitted auction_id reason = (auction_id ≡ some id) × (reason ≡ none)
Links id cancelled auction_id reason = (auction_id ≡ some id) × (reason ≡ none)
Links id _ auction_id reason = Unit

abbrev pub IsLinked : AuctionId → Row → Type 0
IsLinked id row = Links id row.status row.auction_id row.status_reason

-- The auction that the row of a status names.
abbrev pub stored_auction : AuctionId → BidStatusSvm → Option AuctionId
stored_auction id (BidStatusSvm.lost none) = none
stored_auction id _ = some id

-- The columns after an update that a row accepts.
abbrev pub Writes :
    AuctionId
    → BidStatusSvm
    → BidStatus
    → Option AuctionId
    → Option BidStatusReason
    → Option BidUpdate
    → Type 0
Writes id s status auction_id reason none = Unit
Writes id s status auction_id reason (some u) =
    any (status_eq status) u.accepts ≡ true
    → (u.status ≡ convert_bid_status s)
      × (or_else u.auction_id auction_id ≡ stored_auction id s)
      × (or_else u.status_reason reason ≡ get_bid_status_reason s)

lost_id :
    (a : BidStatusAuction) (auction : AuctionRow)
    → get_bid_status_auction_entity (some auction) ≡ some a
    → some a.id ≡ some auction.id
unfolding get_bid_status_auction_entity
lost_id a auction e = ground arith

pub columns :
    (now : Time) (s : BidStatusSvm) (status : BidStatus) (sig : Signature) (auction : AuctionRow)
    (auction_id : Option AuctionId) (reason : Option BidStatusReason)
    → Names s sig auction
    → Links auction.id status auction_id reason
    → Writes auction.id s status auction_id reason (get_update_bid_query now s)
unfolding get_update_bid_query convert_bid_status get_bid_status_reason
columns now BidStatusSvm.pending status sig auction auction_id reason n l = tt
columns now (BidStatusSvm.awaiting_signature x) pending sig auction auction_id reason n l =
    λ h. (refl, ap (λ a. some a.id) n, l.1)
columns now (BidStatusSvm.sent_to_user_for_submission x) pending sig auction auction_id reason n l =
    λ h. (refl, ap (λ a. some a.id) n, l.1)
columns now (BidStatusSvm.submitted x) pending sig auction auction_id reason n l =
    λ h. (refl, ap (λ a. some a.id) n, l.1)
columns now (BidStatusSvm.submitted x) awaiting_signature sig auction auction_id reason n l =
    λ h. (refl, ap (λ a. some a.id) n, l.1)
columns now (BidStatusSvm.submitted x) sent_to_user_for_submission sig auction auction_id reason n
      l =
    λ h. (refl, ap (λ a. some a.id) n, l.1)
columns now (BidStatusSvm.lost none) pending sig auction auction_id reason n l =
    λ h. (refl, l.0, l.1)
columns now (BidStatusSvm.lost (some x)) pending sig auction auction_id reason n l =
    λ h. (refl, lost_id x auction n, l.1)
columns now (BidStatusSvm.won x) submitted sig auction auction_id reason n l = λ h. (refl, l.0, l.1)
columns now (BidStatusSvm.failed x none) submitted sig auction auction_id reason n l =
    λ h. (refl, l.0, l.1)
columns now (BidStatusSvm.failed x (some y)) submitted sig auction auction_id reason n l =
    λ h. (refl, l.0, refl)
columns now (BidStatusSvm.won x) sent_to_user_for_submission sig auction auction_id reason n l =
    λ h. (refl, l.0, l.1)
columns now (BidStatusSvm.failed x none) sent_to_user_for_submission sig auction auction_id reason n
      l =
    λ h. (refl, l.0, l.1)
columns now (BidStatusSvm.failed x (some y)) sent_to_user_for_submission sig auction auction_id
      reason n l =
    λ h. (refl, l.0, refl)
columns now (BidStatusSvm.expired x) pending sig auction auction_id reason n l =
    λ h. (refl, ap (λ a. some a.id) n, l.1)
columns now (BidStatusSvm.expired x) submitted sig auction auction_id reason n l =
    λ h. (refl, ap (λ a. some a.id) n, l.1)
columns now (BidStatusSvm.expired x) awaiting_signature sig auction auction_id reason n l =
    λ h. (refl, ap (λ a. some a.id) n, l.1)
columns now (BidStatusSvm.expired x) sent_to_user_for_submission sig auction auction_id reason n l =
    λ h. (refl, ap (λ a. some a.id) n, l.1)
columns now (BidStatusSvm.cancelled x) awaiting_signature sig auction auction_id reason n l =
    λ h. (refl, ap (λ a. some a.id) n, l.1)
columns now (BidStatusSvm.submission_failed x BidSubmissionFailedReason.was_cancelled) cancelled sig
      auction auction_id reason n l =
    λ h. (refl, ap (λ a. some a.id) n, l.1)
columns now (BidStatusSvm.submission_failed x BidSubmissionFailedReason.deadline_missed)
      awaiting_signature sig auction auction_id reason n l =
    λ h. (refl, ap (λ a. some a.id) n, l.1)
columns now (BidStatusSvm.submission_failed x BidSubmissionFailedReason.deadline_missed)
      sent_to_user_for_submission sig auction auction_id reason n l =
    λ h. (refl, ap (λ a. some a.id) n, l.1)
columns now (BidStatusSvm.submission_failed x BidSubmissionFailedReason.deadline_missed) cancelled
      sig auction auction_id reason n l =
    λ h. (refl, ap (λ a. some a.id) n, l.1)
columns now _ _ sig auction auction_id reason n l = λ h. absurd cc

pub linked :
    (id : AuctionId) (s : BidStatusSvm)
    → ¬ (s ≡ BidStatusSvm.pending)
    → Links id (convert_bid_status s) (stored_auction id s) (get_bid_status_reason s)
unfolding convert_bid_status get_bid_status_reason
linked id BidStatusSvm.pending asked = absurd (asked refl)
linked id (BidStatusSvm.lost none) asked = tt
linked id (BidStatusSvm.lost (some x)) asked = tt
linked id (BidStatusSvm.failed x none) asked = tt
linked id (BidStatusSvm.failed x (some y)) asked = tt
linked id (BidStatusSvm.won x) asked = tt
linked id (BidStatusSvm.expired x) asked = tt
linked id (BidStatusSvm.awaiting_signature x) asked = (refl, refl)
linked id (BidStatusSvm.sent_to_user_for_submission x) asked = (refl, refl)
linked id (BidStatusSvm.submitted x) asked = (refl, refl)
linked id (BidStatusSvm.cancelled x) asked = (refl, refl)
linked id (BidStatusSvm.submission_failed x BidSubmissionFailedReason.was_cancelled) asked = tt
linked id (BidStatusSvm.submission_failed x BidSubmissionFailedReason.deadline_missed) asked = tt

-- The row of an auction where the stored id names it.
abbrev pub joined : Option AuctionId → AuctionRow → Option AuctionRow
joined none auction = none
joined (some id) auction = some auction

pub read_back :
    (s : BidStatusSvm) (sig : Signature) (auction : AuctionRow)
    → Names s sig auction
    → status_entity
        (convert_bid_status s)
        (get_bid_status_reason s)
        sig
        (joined (stored_auction auction.id s) auction)
      ≡ some s
unfolding status_entity convert_bid_status get_bid_status_reason get_bid_status_auction_entity
read_back BidStatusSvm.pending sig auction n = refl
read_back (BidStatusSvm.lost none) sig auction n = refl
read_back (BidStatusSvm.lost (some a)) sig auction n = ap (λ x. some (BidStatusSvm.lost x)) n
read_back (BidStatusSvm.failed a none) sig auction n = rw n refl
read_back (BidStatusSvm.failed a (some reason)) sig auction n =
    rw (n, reason_model-inverse reason) refl
read_back (BidStatusSvm.submission_failed a BidSubmissionFailedReason.was_cancelled) sig auction n =
    rw n refl
read_back (BidStatusSvm.submission_failed a BidSubmissionFailedReason.deadline_missed) sig auction
      n =
    rw n refl
read_back (BidStatusSvm.awaiting_signature a) sig auction n = rw n refl
read_back (BidStatusSvm.sent_to_user_for_submission a) sig auction n = rw n refl
read_back (BidStatusSvm.submitted a) sig auction n = rw n refl
read_back (BidStatusSvm.won a) sig auction n = rw n refl
read_back (BidStatusSvm.expired a) sig auction n = rw n refl
read_back (BidStatusSvm.cancelled a) sig auction n = rw n refl

pub asked :
    (now : Time) (s : BidStatusSvm) (u : BidUpdate)
    → get_update_bid_query now s ≡ some u
    → ¬ (s ≡ BidStatusSvm.pending)
unfolding get_update_bid_query
asked now s u e p = absurd (let q = ap (get_update_bid_query now) p in ground arith)

pub Step-differs : {a b : BidStatus} → Step a b → status_eq a b ≡ false
Step-differs await_signature = refl
Step-differs _ = refl
