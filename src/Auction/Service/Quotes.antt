-- ===== src/Auction/Service/Quotes.antt =====
-- submit_quote.rs and cancel_bid.rs, as they run under the bid's lock.
pub mod Sending
use per.Prelude.{
  ℕ, zero, suc, ◌+◌, ◌-◌, ◌*◌, ◌/◌, ◌%◌, ◌^◌, ◌≤◌, ◌<◌, ◌≡◌, refl, sym, ap, subst, ◌∙◌, ◌≢◌, ◌↔◌,
  ◌⊎◌, inl, inr, Bool, true, false, ◌&&◌, ◌||◌, Option, none, some, List, [], ◌∷◌, ◌++◌, map, arith,
  ltb, leb, ◌==◌, not, ◌!=◌, if◌then◌else◌, ==_refl, Bool-cases, Option-cases, bytes_eq,
  bytes_eq_refl, bytes_eq_iff, take-append, drop-append, length, take, drop, get_elem?,
  length-append, keep, find, any, all, is_empty, first, All, Result, ok, err, ◌>>=◌, ◌>>◌, fail_if,
  ok_or, Result-cases, OnSome, u64_limit, checked_add, checked_sub, checked_mul, saturating_sub,
}
use per.Auction.Entities.{
  AuctionId, BidId, ProfileId, Time, Signature, BidStatusSvm, Bid, awaiting_signature, is_submitted,
  is_awaiting_signature, BidSubmissionFailedReason, is_sent_to_user_for_submission, first_signature,
  submitted, cancelled, is_cancelled, submission_failed, sent_to_user_for_submission, Transaction,
}
use per.Auction.Entities.Auction.{Auction}
use per.Auction.Service.{Service, update_status}
use per.Auction.Errors.{
  RestError, Message, bad_parameters, not_awaiting_signature, quote_is_expired, quote_not_found,
  quote_is_finalized, quote_is_cancelled, forbidden, cancel_quote_access_revoked, not_cancellable,
}
use per.Auction.Repository.{
  get_in_memory_auction_bid_by_bid_id, submit_auction, get_in_memory_auction_by_id,
}

abbrev pub is_submittable : Bid → Bool
is_submittable b =
    is_awaiting_signature b.status
    || (is_sent_to_user_for_submission b.status || (is_submitted b.status || is_cancelled b.status))

unfoldable pub get_winner_bid_for_submission :
    AuctionId → Service → Result RestError (Auction × Bid)
get_winner_bid_for_submission id service =
    elim (get_in_memory_auction_by_id id service.repo.auctions) [
      | none ↦ err (bad_parameters quote_not_found)
      | some auction ↦ elim (find is_submittable auction.bids) [
        | none ↦ err quote_is_finalized
        | some winner_bid ↦ ok (auction, winner_bid)
      ]
    ]

-- `update_bid_status(..).await?` followed by an error or a result.
abbrev pub then_return {ℓ} :
    {A : Type ℓ}
    → Service × Result RestError Bool
    → Result RestError A
    → Service × Result RestError A
then_return (service, ok updated) r = (service, r)
then_return (service, err e) r = (service, err e)

abbrev pub min_deadline_buffer_secs : ℕ
min_deadline_buffer_secs = 2

-- `deadline - now >= MIN_DEADLINE_BUFFER_SECS` in seconds, the deadline being after 1970.
abbrev pub is_within_deadline_buffer : ℕ → ℕ → Bool
is_within_deadline_buffer now_secs deadline = leb (now_secs + min_deadline_buffer_secs) deadline

-- The two updates to a failed submission, which name the bid's own signature; `none` is a panic.
abbrev pub fail_submission :
    Time
    → Auction
    → Bid
    → BidSubmissionFailedReason
    → RestError
    → Service
    → Option (Service × Result RestError (Unit {0}))
fail_submission now auction bid reason error service = elim (first_signature bid) [
  | none ↦ none
  | some tx_hash ↦ some (
      then_return
        (update_status now bid
          (submission_failed (record { id = auction.id; tx_hash = tx_hash }) reason) service)
        (err error))
]

-- Once the status is updated, the transaction is sent.
abbrev pub send_transaction :
    Transaction → Service × Result RestError Bool → Service × Result RestError (Unit {0})
send_transaction tx (service, ok is_updated) =
    (record service { sent = service.sent ++ tx ∷ [] }, ok tt)
send_transaction tx (service, err e) = (service, err e)

-- The end of submit_auction_bid_for_lock: the auction and the status are stored, and then the
-- transaction is sent.
unfoldable pub submit_signed_bid :
    Time → Auction → Bid → Signature → Service → Service × Result RestError (Unit {0})
submit_signed_bid now auction signed_bid tx_hash service =
    let (repo, stored) = submit_auction now auction tx_hash (signed_bid.id ∷ []) service.repo in
    send_transaction signed_bid.chain_data.transaction (
      update_status now signed_bid (submitted (record { id = stored.id; tx_hash = tx_hash }))
        (record service { repo = repo }))

-- submit_auction_bid_for_lock: `now_secs` is the time in seconds and `deadline` the one of the swap.
-- `none` is the panic on a bid without a signature.
unfoldable pub submit_auction_bid_for_lock :
    Time → ℕ → ℕ → Bid → AuctionId → Service → Option (Service × Result RestError (Unit {0}))
submit_auction_bid_for_lock now now_secs deadline signed_bid auction_id service =
    elim (get_winner_bid_for_submission auction_id service) [
      | err e ↦ some (service, err e)
      | ok (auction, latest) ↦
          if is_submitted latest.status
          then some (service, ok tt)
          else if not (is_within_deadline_buffer now_secs deadline)
          then (if is_sent_to_user_for_submission latest.status
              then some (service, err quote_is_expired)
              else fail_submission now auction latest BidSubmissionFailedReason.deadline_missed
                  quote_is_expired service)
          else if is_cancelled latest.status
          then fail_submission now auction latest BidSubmissionFailedReason.was_cancelled
              quote_is_cancelled service
          else elim (first_signature signed_bid) [
            | none ↦ none
            | some tx_hash ↦ some (submit_signed_bid now auction signed_bid tx_hash service)
          ]
    ]

-- The match on the status at the end of cancel_bid_for_lock.
unfoldable pub cancel_by_status :
    Time → Bid → BidStatusSvm → Service → Option (Service × Result RestError (Unit {0}))
cancel_by_status now bid (awaiting_signature auction) service = elim (first_signature bid) [
  | none ↦ none
  | some tx_hash ↦ some (
      then_return
        (update_status now bid (cancelled (record { id = auction.id; tx_hash = tx_hash })) service)
        (ok tt))
]
cancel_by_status now bid (sent_to_user_for_submission auction) service =
    some (service, err (bad_parameters not_cancellable))
cancel_by_status now bid _ service = some (service, err (bad_parameters not_awaiting_signature))

-- cancel_bid_for_lock: `profile_id` asks, and `has_privilege` is the answer of the store.
unfoldable pub cancel_bid_for_lock :
    Time
    → ProfileId
    → Result RestError Bool
    → BidId
    → Service
    → Option (Service × Result RestError (Unit {0}))
cancel_bid_for_lock now profile_id has_privilege bid_id service =
    elim (get_in_memory_auction_bid_by_bid_id bid_id service.repo.auctions) [
      | none ↦ some (service, err (bad_parameters not_awaiting_signature))
      | some bid ↦ elim bid.profile_id [
        | none ↦ some (service, err forbidden)
        | some owner ↦
            if owner != profile_id then some (service, err forbidden) else elim has_privilege [
              | err e ↦ some (service, err e)
              | ok false ↦ some (service, err cancel_quote_access_revoked)
              | ok true ↦ cancel_by_status now bid bid.status service
            ]
      ]
    ]
