-- ===== src/Auction/Database/Exclusion.antt =====
-- Cancelling and submitting a bid exclude each other.
use per.Prelude.{◌≡◌, refl, ◌⊎◌, inl, inr, arith}
use per.Auction.Database.{
  BidStatus, cancelled, submitted, Row, submission_failed_cancelled, won, failed,
  submission_failed_deadline_passed, expired,
}
use per.Auction.Database.Lifecycle.{
  Step, Reach, here, next, History, run, run-Reach, win, refuse_cancelled, fail, miss_cancelled,
  await_signature, expire_submitted,
}

-- What a cancelled bid can still become.
abbrev pub IsCancelledOrRefused : BidStatus → Type 0
IsCancelledOrRefused b =
    (b ≡ cancelled) ⊎ ((b ≡ submission_failed_cancelled) ⊎ (b ≡ submission_failed_deadline_passed))

-- What a submitted bid can still become.
abbrev pub IsSubmittedOrLanded : BidStatus → Type 0
IsSubmittedOrLanded b = (b ≡ submitted) ⊎ ((b ≡ won) ⊎ ((b ≡ failed) ⊎ (b ≡ expired)))

cancelled-Step : {a b : BidStatus} → Step a b → IsCancelledOrRefused a → IsCancelledOrRefused b
cancelled-Step refuse_cancelled h = inr (inl refl)
cancelled-Step miss_cancelled h = inr (inr refl)
cancelled-Step await_signature h = absurd (ground arith)
cancelled-Step _ h = absurd (ground arith)

submitted-Step : {a b : BidStatus} → Step a b → IsSubmittedOrLanded a → IsSubmittedOrLanded b
submitted-Step win h = inr (inl refl)
submitted-Step fail h = inr (inr (inl refl))
submitted-Step expire_submitted h = inr (inr (inr refl))
submitted-Step await_signature h = absurd (ground arith)
submitted-Step _ h = absurd (ground arith)

Reach-cancelled : {a b : BidStatus} → Reach a b → IsCancelledOrRefused a → IsCancelledOrRefused b
Reach-cancelled here h = h
Reach-cancelled (next r st) h = cancelled-Step st (Reach-cancelled r h)

Reach-submitted : {a b : BidStatus} → Reach a b → IsSubmittedOrLanded a → IsSubmittedOrLanded b
Reach-submitted here h = h
Reach-submitted (next r st) h = submitted-Step st (Reach-submitted r h)

-- After any history of requests a bid that was cancelled is cancelled or has failed to be submitted.
pub run_cancelled :
    (h : History) (row : Row) → row.status ≡ cancelled → IsCancelledOrRefused (run h row).status
run_cancelled h row e = Reach-cancelled (run-Reach h row) (inl e)

-- After any history of requests a bid that was submitted is submitted, won, failed or expired.
pub run_submitted :
    (h : History) (row : Row) → row.status ≡ submitted → IsSubmittedOrLanded (run h row).status
run_submitted h row e = Reach-submitted (run-Reach h row) (inl e)
