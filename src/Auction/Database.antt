-- ===== src/Auction/Database.antt =====
-- The bid table of auction-server/src/auction/repository/models.rs: its statuses, the conversions
-- between rows and entities, and the update queries with their `WHERE status IN (..)` guards.
-- A query is the record of what it sets and of the statuses that it accepts.
pub mod Lifecycle
pub mod Exclusion
pub mod Concluded
pub mod Reading
use per.Prelude.{
  ℕ, zero, suc, ◌+◌, ◌-◌, ◌*◌, ◌/◌, ◌%◌, ◌^◌, ◌≤◌, ◌<◌, ◌≡◌, refl, sym, ap, subst, ◌∙◌, ◌≢◌, ◌↔◌,
  ◌⊎◌, inl, inr, Bool, true, false, ◌&&◌, ◌||◌, Option, none, some, List, [], ◌∷◌, ◌++◌, map, arith,
  ltb, leb, ◌==◌, not, ◌!=◌, if◌then◌else◌, ==_refl, Bool-cases, Option-cases, bytes_eq,
  bytes_eq_refl, bytes_eq_iff, take-append, drop-append, length, take, drop, get_elem?,
  length-append, keep, find, any, all, is_empty, first, All, Result, ok, err, ◌>>=◌, ◌>>◌, fail_if,
  ok_or, Result-cases, OnSome, u64_limit, checked_add, checked_sub, checked_mul, saturating_sub,
}
use mathlib.Core.Option
use per.Auction.Entities.{
  BidId, AuctionId, Time, Signature, BidStatusSvm, BidStatusAuction, BidFailedReason,
  BidSubmissionFailedReason, Transaction,
}

pub data BidStatus : Type 0 where
  pending awaiting_signature sent_to_user_for_submission submitted : BidStatus
  lost won failed expired cancelled : BidStatus
  submission_failed_cancelled submission_failed_deadline_passed : BidStatus

-- `==` on statuses compares their positions.
abbrev pub position : BidStatus → ℕ
position pending = 0
position awaiting_signature = 1
position sent_to_user_for_submission = 2
position submitted = 3
position lost = 4
position won = 5
position failed = 6
position expired = 7
position cancelled = 8
position submission_failed_cancelled = 9
position submission_failed_deadline_passed = 10

abbrev pub status_eq : BidStatus → BidStatus → Bool
status_eq a b = position a == position b

pub data BidStatusReason : Type 0 where
  insufficient_user_funds insufficient_searcher_funds : BidStatusReason
  insufficient_funds_sol_transfer deadline_passed other_reason : BidStatusReason

-- The two `From` conversions between the reasons.
unfoldable pub reason_entity : BidStatusReason → BidFailedReason
reason_entity deadline_passed = BidFailedReason.deadline_passed
reason_entity insufficient_user_funds = BidFailedReason.insufficient_user_funds
reason_entity insufficient_searcher_funds = BidFailedReason.insufficient_searcher_funds
reason_entity insufficient_funds_sol_transfer = BidFailedReason.insufficient_funds_sol_transfer
reason_entity other_reason = BidFailedReason.other_reason

unfoldable pub reason_model : BidFailedReason → BidStatusReason
reason_model BidFailedReason.deadline_passed = deadline_passed
reason_model BidFailedReason.insufficient_user_funds = insufficient_user_funds
reason_model BidFailedReason.insufficient_searcher_funds = insufficient_searcher_funds
reason_model BidFailedReason.insufficient_funds_sol_transfer = insufficient_funds_sol_transfer
reason_model BidFailedReason.other_reason = other_reason

unfoldable pub get_bid_status_reason : BidStatusSvm → Option BidStatusReason
get_bid_status_reason (BidStatusSvm.failed auction (some reason)) = some (reason_model reason)
get_bid_status_reason _ = none

unfoldable pub convert_bid_status : BidStatusSvm → BidStatus
convert_bid_status BidStatusSvm.pending = pending
convert_bid_status (BidStatusSvm.awaiting_signature auction) = awaiting_signature
convert_bid_status (BidStatusSvm.sent_to_user_for_submission auction) = sent_to_user_for_submission
convert_bid_status (BidStatusSvm.submitted auction) = submitted
convert_bid_status (BidStatusSvm.lost auction) = lost
convert_bid_status (BidStatusSvm.won auction) = won
convert_bid_status (BidStatusSvm.failed auction reason) = failed
convert_bid_status (BidStatusSvm.expired auction) = expired
convert_bid_status (BidStatusSvm.cancelled auction) = cancelled
convert_bid_status
      (BidStatusSvm.submission_failed auction BidSubmissionFailedReason.was_cancelled) =
    submission_failed_cancelled
convert_bid_status
      (BidStatusSvm.submission_failed auction BidSubmissionFailedReason.deadline_missed) =
    submission_failed_deadline_passed

-- The columns of a row of the bid table that the queries read or write.
pub record Row : Type 0 where
  pub id : BidId
  pub permission_key : List ℕ
  pub bid_amount : ℕ
  pub status : BidStatus
  pub auction_id : Option AuctionId
  pub initiation_time : Time
  pub conclusion_time : Option Time
  pub transaction : Transaction
  pub status_reason : Option BidStatusReason

-- `UPDATE bid SET .. WHERE id = .. AND status IN (..)`. A column that is `none` here is not set.
pub record BidUpdate : Type 0 where
  pub status : BidStatus
  pub auction_id : Option AuctionId
  pub conclusion_time : Option Time
  pub status_reason : Option BidStatusReason
  pub accepts : List BidStatus

-- `none` is the error "Cannot update bid status to pending".
unfoldable pub get_update_bid_query : Time → BidStatusSvm → Option BidUpdate
get_update_bid_query now BidStatusSvm.pending = none
get_update_bid_query now (BidStatusSvm.awaiting_signature auction) = some (record {
  status = awaiting_signature;
  auction_id = some auction.id;
  conclusion_time = none;
  status_reason = none;
  accepts = pending ∷ [];
})
get_update_bid_query now (BidStatusSvm.sent_to_user_for_submission auction) = some (record {
  status = sent_to_user_for_submission;
  auction_id = some auction.id;
  conclusion_time = none;
  status_reason = none;
  accepts = pending ∷ [];
})
get_update_bid_query now (BidStatusSvm.submitted auction) = some (record {
  status = submitted;
  auction_id = some auction.id;
  conclusion_time = none;
  status_reason = none;
  accepts = pending ∷ awaiting_signature ∷ sent_to_user_for_submission ∷ [];
})
get_update_bid_query now (BidStatusSvm.lost (some auction)) = some (record {
  status = lost;
  auction_id = some auction.id;
  conclusion_time = some now;
  status_reason = none;
  accepts = pending ∷ [];
})
get_update_bid_query now (BidStatusSvm.lost none) = some (record {
  status = lost;
  auction_id = none;
  conclusion_time = some now;
  status_reason = none;
  accepts = pending ∷ [];
})
get_update_bid_query now (BidStatusSvm.won auction) = some (record {
  status = won;
  auction_id = none;
  conclusion_time = some now;
  status_reason = none;
  accepts = submitted ∷ sent_to_user_for_submission ∷ [];
})
get_update_bid_query now (BidStatusSvm.failed auction none) = some (record {
  status = failed;
  auction_id = none;
  conclusion_time = some now;
  status_reason = none;
  accepts = submitted ∷ sent_to_user_for_submission ∷ [];
})
get_update_bid_query now (BidStatusSvm.failed auction (some reason)) = some (record {
  status = failed;
  auction_id = none;
  conclusion_time = some now;
  status_reason = some (reason_model reason);
  accepts = submitted ∷ sent_to_user_for_submission ∷ [];
})
get_update_bid_query now (BidStatusSvm.expired auction) = some (record {
  status = expired;
  auction_id = some auction.id;
  conclusion_time = some now;
  status_reason = none;
  accepts = pending ∷ submitted ∷ awaiting_signature ∷ sent_to_user_for_submission ∷ [];
})
get_update_bid_query now (BidStatusSvm.cancelled auction) = some (record {
  status = cancelled;
  auction_id = some auction.id;
  conclusion_time = some now;
  status_reason = none;
  accepts = awaiting_signature ∷ [];
})
get_update_bid_query now
      (BidStatusSvm.submission_failed auction BidSubmissionFailedReason.was_cancelled) =
    some (record {
      status = submission_failed_cancelled;
      auction_id = some auction.id;
      conclusion_time = some now;
      status_reason = none;
      accepts = cancelled ∷ [];
    })
get_update_bid_query now
      (BidStatusSvm.submission_failed auction BidSubmissionFailedReason.deadline_missed) =
    some (record {
      status = submission_failed_deadline_passed;
      auction_id = some auction.id;
      conclusion_time = some now;
      status_reason = none;
      accepts = awaiting_signature ∷ sent_to_user_for_submission ∷ cancelled ∷ [];
    })

abbrev pub or_else {ℓ} : {A : Type ℓ} → Option A → Option A → Option A
or_else none d = d
or_else (some a) d = some a

-- Whether the `WHERE` clause holds of a row.
abbrev pub selects : BidId → BidUpdate → Row → Bool
selects id u row = row.id == id && any (status_eq row.status) u.accepts

abbrev pub set_columns : BidUpdate → Row → Row
set_columns u row = record row {
  status = u.status;
  auction_id = or_else u.auction_id row.auction_id;
  conclusion_time = or_else u.conclusion_time row.conclusion_time;
  status_reason = or_else u.status_reason row.status_reason;
}

unfoldable pub execute : BidId → BidUpdate → List Row → List Row
execute id u [] = []
execute id u (row ∷ rows) =
    (if selects id u row then set_columns u row else row) ∷ execute id u rows

-- `result.rows_affected() > 0`
unfoldable pub affects : BidId → BidUpdate → List Row → Bool
affects id u rows = any (selects id u) rows

-- Database::update_bid_status: the new table, whether a row changed, and the time it would conclude.
unfoldable pub update_bid_status_db :
    Time → BidId → BidStatusSvm → List Row → Option (List Row × Bool × Option Time)
update_bid_status_db now id new_status rows = elim (get_update_bid_query now new_status) [
  | none ↦ none
  | some u ↦ some (execute id u rows, affects id u rows, u.conclusion_time)
]

-- An auction's row, as far as a bid's status needs it.
pub record AuctionRow : Type 0 where
  pub id : AuctionId
  pub tx_hash : Option Signature
  pub submission_time : Option Time

unfoldable pub get_bid_status_auction_entity : Option AuctionRow → Option BidStatusAuction
get_bid_status_auction_entity none = none
get_bid_status_auction_entity (some auction) = elim auction.tx_hash [
  | none ↦ none
  | some tx_hash ↦ some (record { id = auction.id; tx_hash = tx_hash })
]

-- The match of get_bid_status_entity, on the row's status and auction and the signature of its bid.
unfoldable pub status_entity :
    BidStatus → Option BidStatusReason → Signature → Option AuctionRow → Option BidStatusSvm
status_entity pending reason sig auction = some BidStatusSvm.pending
status_entity lost reason sig auction =
    some (BidStatusSvm.lost (get_bid_status_auction_entity auction))
status_entity awaiting_signature reason sig none = none
status_entity sent_to_user_for_submission reason sig none = none
status_entity submitted reason sig none = none
status_entity won reason sig none = none
status_entity expired reason sig none = none
status_entity failed reason sig none = none
status_entity cancelled reason sig none = none
status_entity submission_failed_cancelled reason sig none = none
status_entity submission_failed_deadline_passed reason sig none = none
status_entity awaiting_signature reason sig (some auction) =
    some (BidStatusSvm.awaiting_signature (record { id = auction.id; tx_hash = sig }))
status_entity sent_to_user_for_submission reason sig (some auction) =
    some (BidStatusSvm.sent_to_user_for_submission (record { id = auction.id; tx_hash = sig }))
status_entity submitted reason sig (some auction) =
    some (BidStatusSvm.submitted (record { id = auction.id; tx_hash = sig }))
status_entity won reason sig (some auction) =
    some (BidStatusSvm.won (record { id = auction.id; tx_hash = sig }))
status_entity expired reason sig (some auction) =
    some (BidStatusSvm.expired (record { id = auction.id; tx_hash = sig }))
status_entity failed reason sig (some auction) = some (
    BidStatusSvm.failed (record { id = auction.id; tx_hash = sig })
      (Option.map reason_entity reason))
status_entity cancelled reason sig (some auction) =
    some (BidStatusSvm.cancelled (record { id = auction.id; tx_hash = sig }))
status_entity submission_failed_cancelled reason sig (some auction) = some (
    BidStatusSvm.submission_failed (record { id = auction.id; tx_hash = sig })
      BidSubmissionFailedReason.was_cancelled)
status_entity submission_failed_deadline_passed reason sig (some auction) = some (
    BidStatusSvm.submission_failed (record { id = auction.id; tx_hash = sig })
      BidSubmissionFailedReason.deadline_missed)

-- `none` is an error: the transaction has no signature, or the auction is missing.
unfoldable pub get_bid_status_entity : Row → Option AuctionRow → Option BidStatusSvm
get_bid_status_entity row auction = elim (first row.transaction.signatures) [
  | none ↦ none
  | some sig ↦ status_entity row.status row.status_reason sig auction
]
