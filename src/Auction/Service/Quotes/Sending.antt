-- ===== src/Auction/Service/Quotes/Sending.antt =====
-- When submit_quote sends a transaction.
use per.Prelude.{
  ℕ, ◌+◌, ◌≤◌, ◌≡◌, refl, ap, ◌∙◌, ◌⊎◌, inl, inr, Bool, true, ◌||◌, Option, none, some, List, [],
  ◌∷◌, ◌++◌, arith, Bool-cases, Option-cases, find, Result, ok, err, Result-cases, OnSome,
}
use per.Auction.Entities.{
  AuctionId, Bid, Time, BidStatusSvm, Signature, BidSubmissionFailedReason, Transaction,
  is_awaiting_signature, first_signature, is_submitted, submitted, submission_failed,
  is_sent_to_user_for_submission, is_cancelled,
}
use per.Auction.Service.{Service, update_status}
use per.Auction.Errors.{RestError, quote_is_expired, quote_is_cancelled}
use per.Auction.Service.Quotes.{
  submit_auction_bid_for_lock, get_winner_bid_for_submission, submit_signed_bid, is_submittable,
  fail_submission, send_transaction, then_return, is_within_deadline_buffer,
  min_deadline_buffer_secs,
}
use per.Auction.Entities.Auction.{Auction}
use per.Auction.Repository.{get_in_memory_auction_by_id, submit_auction}

update_status-sent :
    (now : Time) (bid : Bid) (s : BidStatusSvm) (service : Service)
    → (update_status now bid s service).0.sent ≡ service.sent
unfolding update_status
update_status-sent now bid s service = ground arith

find_holds {ℓ} : {A : Type ℓ} (p : A → Bool) (xs : List A) (a : A) → find p xs ≡ some a → p a ≡ true
find_holds p [] a e = cc
find_holds p (x ∷ xs) a e = ground (arith, find_holds p xs a)

winner-submittable :
    (id : AuctionId) (service : Service) (auction : Auction) (latest : Bid)
    → get_winner_bid_for_submission id service ≡ ok (auction, latest)
    → is_submittable latest ≡ true
unfolding get_winner_bid_for_submission
winner-submittable id service auction latest e =
    elim (Option-cases (get_in_memory_auction_by_id id service.repo.auctions)) [
      | inl gone ↦ absurd (ground arith)
      | inr (a, found) ↦ elim (Option-cases (find is_submittable a.bids)) [
        | inl final ↦ absurd (ground arith)
        | inr (b, hit) ↦ ground (arith, find_holds is_submittable a.bids b hit)
      ]
    ]

-- What an operation sends: one transaction on success, or nothing.
abbrev pub Sends : Transaction → Service → Service × Result RestError (Unit {0}) → Type 0
Sends tx service (after, r) =
    ((r ≡ ok tt) × (after.sent ≡ service.sent ++ tx ∷ [])) ⊎ (after.sent ≡ service.sent)

then_return-service {ℓ} :
    {A : Type ℓ} (u : Service × Result RestError Bool) (r : Result RestError A)
    → (then_return u r).0 ≡ u.0
then_return-service (service, ok updated) r = refl
then_return-service (service, err e) r = refl

fail_submission-sent :
    (now : Time) (auction : Auction) (bid : Bid) (reason : BidSubmissionFailedReason)
    (error : RestError) (service : Service)
    → OnSome (λ r. r.0.sent ≡ service.sent) (fail_submission now auction bid reason error service)
fail_submission-sent now auction bid reason error service =
    elim (Option-cases (first_signature bid)) [
      | inl unsigned ↦ rw (fail_submission, unsigned) tt
      | inr (tx_hash, signed) ↦
          rw (fail_submission, signed)
            (ap (λ s. s.sent)
                (then_return-service
                  (update_status now bid
                    (submission_failed (record { id = auction.id; tx_hash = tx_hash }) reason)
                    service)
                  (err error))
              ∙ update_status-sent now bid
                  (submission_failed (record { id = auction.id; tx_hash = tx_hash }) reason)
                  service)
    ]

send-Sends :
    (tx : Transaction) (service : Service) (u : Service × Result RestError Bool)
    → u.0.sent ≡ service.sent
    → Sends tx service (send_transaction tx u)
send-Sends tx service (after, ok is_updated) h = inl (refl, rw h refl)
send-Sends tx service (after, err e) h = inr h

submit_signed_bid-Sends :
    (now : Time) (auction : Auction) (signed_bid : Bid) (tx_hash : Signature) (service : Service)
    → Sends signed_bid.chain_data.transaction service
        (submit_signed_bid now auction signed_bid tx_hash service)
unfolding submit_signed_bid
submit_signed_bid-Sends now auction signed_bid tx_hash service =
    let (repo, stored) = submit_auction now auction tx_hash (signed_bid.id ∷ []) service.repo in
    let new_status = submitted (record { id = stored.id; tx_hash = tx_hash }) in
    send-Sends signed_bid.chain_data.transaction service
      (update_status now signed_bid new_status (record service { repo = repo }))
      (update_status-sent now signed_bid new_status (record service { repo = repo }))

-- The latest version of the bid is not cancelled and not submitted, and the deadline is not near.
abbrev pub MaySend : ℕ → ℕ → AuctionId → Service → Type 0
MaySend now_secs deadline auction_id service =
    (auction : Auction) × (latest : Bid) × (get_winner_bid_for_submission auction_id service
      ≡ ok (auction, latest))
    × ((is_awaiting_signature latest.status || is_sent_to_user_for_submission latest.status) ≡ true)
    × (now_secs + min_deadline_buffer_secs ≤ deadline)

abbrev pub SendsOnlyIf :
    Type 0 → Transaction → Service → Service × Result RestError (Unit {0}) → Type 0
SendsOnlyIf P tx service (after, r) =
    (P × (r ≡ ok tt) × (after.sent ≡ service.sent ++ tx ∷ [])) ⊎ (after.sent ≡ service.sent)

quiet-SendsOnlyIf :
    (P : Type 0) (tx : Transaction) (service : Service)
    (o : Option (Service × Result RestError (Unit {0})))
    → OnSome (λ r. r.0.sent ≡ service.sent) o
    → OnSome (SendsOnlyIf P tx service) o
quiet-SendsOnlyIf P tx service none h = tt
quiet-SendsOnlyIf P tx service (some (after, r)) h = inr h

loud-SendsOnlyIf :
    (P : Type 0) (tx : Transaction) (service : Service) (r : Service × Result RestError (Unit {0}))
    → P
    → Sends tx service r
    → SendsOnlyIf P tx service r
loud-SendsOnlyIf P tx service (after, r) p (inl (fine, sent)) = inl (p, fine, sent)
loud-SendsOnlyIf P tx service (after, r) p (inr quiet) = inr quiet

-- submit_quote sends a transaction only when the bid's latest version awaits its signature or was
-- sent to the user, and its deadline is at least two seconds away; it then sends the signed
-- transaction once and returns Ok. In every other case, also when it returns Ok for a bid that is
-- already submitted, it sends nothing.
pub submit_auction_bid_for_lock_sends :
    (now : Time) (now_secs deadline : ℕ) (signed_bid : Bid) (auction_id : AuctionId)
    (service : Service)
    → OnSome
        (SendsOnlyIf
          (MaySend now_secs deadline auction_id service)
          signed_bid.chain_data.transaction
          service)
        (submit_auction_bid_for_lock now now_secs deadline signed_bid auction_id service)
unfolding submit_auction_bid_for_lock
submit_auction_bid_for_lock_sends now now_secs deadline signed_bid auction_id service =
    elim (Result-cases (get_winner_bid_for_submission auction_id service)) [
      | inl (e, refused) ↦ rw (submit_auction_bid_for_lock, refused) (inr refl)
      | inr ((auction, latest), found) ↦ elim (Bool-cases (is_submitted latest.status)) [
        | inl done ↦ rw (submit_auction_bid_for_lock, found, done) (inr refl)
        | inr open_bid ↦ elim (Bool-cases (is_within_deadline_buffer now_secs deadline)) [
          | inr late ↦ elim (Bool-cases (is_sent_to_user_for_submission latest.status)) [
            | inl user ↦ rw (submit_auction_bid_for_lock, found, open_bid, late, user) (inr refl)
            | inr ours ↦
                rw (submit_auction_bid_for_lock, found, open_bid, late, ours)
                  (quiet-SendsOnlyIf _ _ service _ (
                    fail_submission-sent now auction latest
                      BidSubmissionFailedReason.deadline_missed quote_is_expired service))
          ]
          | inl in_time ↦ elim (Bool-cases (is_cancelled latest.status)) [
            | inl stopped ↦
                rw (submit_auction_bid_for_lock, found, open_bid, in_time, stopped)
                  (quiet-SendsOnlyIf _ _ service _ (
                    fail_submission-sent now auction latest BidSubmissionFailedReason.was_cancelled
                      quote_is_cancelled service))
            | inr live ↦ elim (Option-cases (first_signature signed_bid)) [
              | inl unsigned ↦
                  rw (submit_auction_bid_for_lock, found, open_bid, in_time, live, unsigned) tt
              | inr (tx_hash, signed) ↦
                  rw (submit_auction_bid_for_lock, found, open_bid, in_time, live, signed)
                    (loud-SendsOnlyIf _ signed_bid.chain_data.transaction service
                      (submit_signed_bid now auction signed_bid tx_hash service)
                      (
                        auction,
                        latest,
                        refl,
                        ground (arith, winner-submittable auction_id service auction latest found),
                        ground arith,
                      )
                      (submit_signed_bid-Sends now auction signed_bid tx_hash service))
            ]
          ]
        ]
      ]
    ]
