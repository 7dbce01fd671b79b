-- ===== src/Auction/Database/Concluded.antt =====
-- What can still happen to a bid whose status is_concluded (entities/bid.rs).
use per.Prelude.{◌≡◌, refl, sym, ap, subst, ◌∙◌, ◌⊎◌, inl, inr, true, [], ◌∷◌, arith}
use per.Auction.Entities.{BidStatusSvm, is_concluded}
use per.Auction.Database.{
  BidStatus, cancelled, submission_failed_cancelled, submission_failed_deadline_passed, Row,
  convert_bid_status,
}
use per.Auction.Database.Lifecycle.{
  Step, History, run, updated, updated-Step, run_final, rank, refuse_cancelled, miss_cancelled,
  await_signature,
}

abbrev pub IsRefused : BidStatus → Type 0
IsRefused b = (b ≡ submission_failed_cancelled) ⊎ (b ≡ submission_failed_deadline_passed)

refused : {a b : BidStatus} → Step a b → a ≡ cancelled → IsRefused b
refused refuse_cancelled e = inl refl
refused miss_cancelled e = inr refl
refused await_signature e = absurd cc
refused _ e = absurd cc

IsRefused-rank : (b : BidStatus) → IsRefused b → rank b ≡ 3
IsRefused-rank b (inl e) = rw e refl
IsRefused-rank b (inr e) = rw e refl

cancelled_once :
    (h : History) (row : Row)
    → row.status ≡ cancelled
    → (run h row ≡ row) ⊎ IsRefused (run h row).status
unfolding run
cancelled_once [] row e = inl refl
cancelled_once ((now, id, s) ∷ h) row e = elim (updated-Step now id s row) [
  | inl same ↦
      subst (λ r. (run h r ≡ row) ⊎ IsRefused (run h r).status) (sym same) (cancelled_once h row e)
  | inr (step, _, _) ↦
      let row' = updated now id s row in
      let end = refused step e in
      inr (
        subst (λ r. IsRefused r.status) (sym (run_final h row' (IsRefused-rank row'.status end)))
          end)
]

concluded_rank :
    (s : BidStatusSvm)
    → is_concluded s ≡ true
    → (rank (convert_bid_status s) ≡ 3) ⊎ (convert_bid_status s ≡ cancelled)
unfolding convert_bid_status
concluded_rank s concluded = ground arith

-- After any history of requests a row whose status is concluded is as it was, except that a
-- cancelled one may have become one of the two failures of a submission.
pub run_concluded :
    (h : History) (row : Row) (s : BidStatusSvm)
    → row.status ≡ convert_bid_status s
    → is_concluded s ≡ true
    → (run h row ≡ row) ⊎ ((row.status ≡ cancelled) × IsRefused (run h row).status)
run_concluded h row s e concluded = elim (concluded_rank s concluded) [
  | inl final ↦ inl (run_final h row (ap rank e ∙ final))
  | inr is_cancelled ↦ elim (cancelled_once h row (e ∙ is_cancelled)) [
    | inl same ↦ inl same
    | inr end ↦ inr (e ∙ is_cancelled, end)
  ]
]
