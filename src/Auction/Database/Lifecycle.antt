-- ===== src/Auction/Database/Lifecycle.antt =====
-- The lifecycle of a bid, as the guards of the update queries enforce it.
use per.Prelude.{
  ℕ, ◌+◌, ◌≤◌, ◌<◌, ◌≡◌, refl, sym, ap, subst, ◌∙◌, ◌⊎◌, inl, inr, true, Option, none, some, List,
  [], ◌∷◌, arith, if◌then◌else◌, Bool-cases, any,
}
use per.Auction.Entities.{BidId, Time, BidStatusSvm, BidSubmissionFailedReason}
use per.Auction.Database.{
  BidStatus, pending, awaiting_signature, sent_to_user_for_submission, submitted, lost, won, failed,
  expired, cancelled, submission_failed_cancelled, submission_failed_deadline_passed, Row,
  BidUpdate, get_update_bid_query, convert_bid_status, status_eq, selects, set_columns,
}

-- The changes of a bid's status that are meant to be possible.
pub data Step : BidStatus → BidStatus → Type 0 where
  await_signature : Step pending awaiting_signature
  send_to_user : Step pending sent_to_user_for_submission
  submit_pending : Step pending submitted
  submit_awaited : Step awaiting_signature submitted
  submit_sent : Step sent_to_user_for_submission submitted
  lose : Step pending lost
  win : Step submitted won
  win_sent : Step sent_to_user_for_submission won
  fail : Step submitted failed
  fail_sent : Step sent_to_user_for_submission failed
  expire_pending : Step pending expired
  expire_awaited : Step awaiting_signature expired
  expire_sent : Step sent_to_user_for_submission expired
  expire_submitted : Step submitted expired
  cancel : Step awaiting_signature cancelled
  refuse_cancelled : Step cancelled submission_failed_cancelled
  miss_awaited : Step awaiting_signature submission_failed_deadline_passed
  miss_sent : Step sent_to_user_for_submission submission_failed_deadline_passed
  miss_cancelled : Step cancelled submission_failed_deadline_passed

pub data Reach (a : BidStatus) : BidStatus → Type 0 where
  here : Reach a a
  next : {b c : BidStatus} → Reach a b → Step b c → Reach a c

-- What one update does to one row: `s` is the requested status.
abbrev pub apply : BidId → Option BidUpdate → Row → Row
apply id none row = row
apply id (some u) row = if selects id u row then set_columns u row else row

abbrev pub updated : Time → BidId → BidStatusSvm → Row → Row
updated now id s row = apply id (get_update_bid_query now s) row

-- A row at status `a` that the guard of a query accepts takes a step of the lifecycle.
abbrev pub Accepted : BidStatus → Option BidUpdate → Type 0
Accepted a none = Unit
Accepted a (some u) = any (status_eq a) u.accepts ≡ true → Step a u.status

pub accepted :
    (now : Time) (s : BidStatusSvm) (a : BidStatus) → Accepted a (get_update_bid_query now s)
unfolding get_update_bid_query
accepted now BidStatusSvm.pending a = tt
accepted now (BidStatusSvm.awaiting_signature x) pending = λ h. await_signature
accepted now (BidStatusSvm.sent_to_user_for_submission x) pending = λ h. send_to_user
accepted now (BidStatusSvm.submitted x) pending = λ h. submit_pending
accepted now (BidStatusSvm.submitted x) awaiting_signature = λ h. submit_awaited
accepted now (BidStatusSvm.submitted x) sent_to_user_for_submission = λ h. submit_sent
accepted now (BidStatusSvm.lost none) pending = λ h. lose
accepted now (BidStatusSvm.lost (some x)) pending = λ h. lose
accepted now (BidStatusSvm.won x) submitted = λ h. win
accepted now (BidStatusSvm.won x) sent_to_user_for_submission = λ h. win_sent
accepted now (BidStatusSvm.failed x none) submitted = λ h. fail
accepted now (BidStatusSvm.failed x none) sent_to_user_for_submission = λ h. fail_sent
accepted now (BidStatusSvm.failed x (some y)) submitted = λ h. fail
accepted now (BidStatusSvm.failed x (some y)) sent_to_user_for_submission = λ h. fail_sent
accepted now (BidStatusSvm.expired x) pending = λ h. expire_pending
accepted now (BidStatusSvm.expired x) submitted = λ h. expire_submitted
accepted now (BidStatusSvm.expired x) awaiting_signature = λ h. expire_awaited
accepted now (BidStatusSvm.expired x) sent_to_user_for_submission = λ h. expire_sent
accepted now (BidStatusSvm.cancelled x) awaiting_signature = λ h. cancel
accepted now (BidStatusSvm.submission_failed x BidSubmissionFailedReason.was_cancelled) cancelled =
    λ h. refuse_cancelled
accepted now (BidStatusSvm.submission_failed x BidSubmissionFailedReason.deadline_missed)
      awaiting_signature =
    λ h. miss_awaited
accepted now (BidStatusSvm.submission_failed x BidSubmissionFailedReason.deadline_missed)
      sent_to_user_for_submission =
    λ h. miss_sent
accepted now (BidStatusSvm.submission_failed x BidSubmissionFailedReason.deadline_missed)
      cancelled =
    λ h. miss_cancelled
accepted now _ _ = λ h. cc

query-status :
    (now : Time) (s : BidStatusSvm) (u : BidUpdate)
    → get_update_bid_query now s ≡ some u
    → u.status ≡ convert_bid_status s
unfolding get_update_bid_query convert_bid_status
query-status now s u e = ground arith

pub apply-Step :
    (id : BidId) (q : Option BidUpdate) (row : Row)
    → Accepted row.status q
    → (apply id q row ≡ row)
      ⊎ ((u : BidUpdate) × (q ≡ some u)
          × (apply id q row ≡ set_columns u row)
          × Step row.status u.status
          × (row.id ≡ id)
          × (any (status_eq row.status) u.accepts ≡ true))
apply-Step id none row h = inl refl
apply-Step id (some u) row h = elim (Bool-cases (selects id u row)) [
  | inl hit ↦ inr (u, refl, rw hit, h (ground arith), ground arith, ground arith)
  | inr miss ↦ inl (rw miss)
]

-- Any update, whatever bid and status it names, leaves a row as it is, or it concerns the row's own
-- bid and takes one step of the lifecycle, to the status that was requested.
pub updated-Step :
    (now : Time) (id : BidId) (s : BidStatusSvm) (row : Row)
    → (updated now id s row ≡ row)
      ⊎ (Step row.status (updated now id s row).status
          × ((updated now id s row).status ≡ convert_bid_status s)
          × (row.id ≡ id))
updated-Step now id s row =
    elim (apply-Step id (get_update_bid_query now s) row (accepted now s row.status)) [
      | inl same ↦ inl same
      | inr (u, e, new, step, own, guarded) ↦
          inr (rw new step, rw new (query-status now s u e), own)
    ]

Reach-trans : {a b c : BidStatus} → Reach a b → Reach b c → Reach a c
Reach-trans r here = r
Reach-trans r (next q st) = next (Reach-trans r q) st

-- A history of update requests, oldest first.
abbrev pub History : Type 0
History = List (Time × BidId × BidStatusSvm)

unfoldable pub run : History → Row → Row
run [] row = row
run ((now, id, s) ∷ h) row = run h (updated now id s row)

-- How many of the requests changed the row: by its status, since every step changes it.
pub changes : History → Row → ℕ
changes [] row = 0
changes ((now, id, s) ∷ h) row =
    let row' = updated now id s row in
    (if status_eq row.status row'.status then 0 else 1) + changes h row'

abbrev pub rank : BidStatus → ℕ
rank pending = 0
rank awaiting_signature = 1
rank sent_to_user_for_submission = 1
rank submitted = 2
rank cancelled = 2
rank _ = 3

rank-le : (a : BidStatus) → rank a ≤ 3
rank-le pending = omega arith
rank-le awaiting_signature = omega arith
rank-le sent_to_user_for_submission = omega arith
rank-le submitted = omega arith
rank-le cancelled = omega arith
rank-le _ = omega arith

pub Step-rank : {a b : BidStatus} → Step a b → rank a < rank b
Step-rank await_signature = omega arith
Step-rank _ = omega arith

pub status_eq_refl : (a : BidStatus) → status_eq a a ≡ true
status_eq_refl a = ground arith

-- After any history of requests, from any tasks and in any order, the status of a row is reachable
-- from its first one by steps of the lifecycle.
pub run-Reach : (h : History) (row : Row) → Reach row.status (run h row).status
unfolding run
run-Reach [] row = here
run-Reach ((now, id, s) ∷ h) row = elim (updated-Step now id s row) [
  | inl same ↦ subst (λ r. Reach row.status (run h r).status) (sym same) (run-Reach h row)
  | inr (step, _, _) ↦ Reach-trans (next here step) (run-Reach h (updated now id s row))
]

-- No history changes the status of one bid more than three times.
pub changes-le-three : (h : History) (row : Row) → changes h row + rank row.status ≤ 3
unfolding changes
changes-le-three [] row = omega (arith, rank-le row.status)
changes-le-three ((now, id, s) ∷ h) row = elim (updated-Step now id s row) [
  | inl same ↦
      subst
        (λ r. (if status_eq row.status r.status then 0 else 1) + changes h r + rank row.status ≤ 3)
        (sym same) (ground (arith, status_eq_refl row.status, changes-le-three h row))
  | inr (step, _, _) ↦ ground (arith, Step-rank step, changes-le-three h (updated now id s row))
]

-- A row that is lost, won, failed, expired or failed to submit is never changed again.
pub run_final : (h : History) (row : Row) → rank row.status ≡ 3 → run h row ≡ row
unfolding run
run_final [] row f = refl
run_final ((now, id, s) ∷ h) row f = elim (updated-Step now id s row) [
  | inl same ↦ ap (run h) same ∙ run_final h row f
  | inr (step, _, _) ↦ absurd (omega (arith, Step-rank step, rank-le (updated now id s row).status))
]
