-- ===== src/Verification/Bid/Acceptance.antt =====
-- What a bid that verify_bid accepts is known to be.
use per.Prelude.{
  ℕ, ◌≤◌, ◌≡◌, refl, subst, inl, inr, false, Option, none, some, arith, Bool-cases, ok, err,
  Result-cases,
}
use per.Auction.Entities.{BidChainDataSvm, BidPaymentInstructionType}
use per.Auction.Entities.PermissionKey.{get_permission_key}
use per.Auction.Errors.{Reply}
use per.Opportunity.Entities.{ChainId}
use per.Verification.Instructions.{Verifier}
use per.Verification.Checks.{
  not_below, seq_ok, fail_if_ok, bind_ok, err_not_ok, then_ok, ok_injective,
}
use per.Verification.Budget.{check_compute_budget, check_tx_size}
use per.Verification.Bid.{
  payment_type_of, check_deadlines, live_opportunities, check_bid, simulate, is_duplicate,
  verify_bid, check_new, chain_data_of, check_extracted, after_simulation,
}
use per.Verification.Extraction.{
  BidChainDataCreateSvm, get_transaction, BidDataSvm, World, rounded_with_offset,
  bid_maximum_life_time_svm, extract_bid_data,
}
use per.Verification.Bid.Passing.{
  Fits, Pays, Simulated, IsNew, check_tx_size-Fits, check_compute_budget-Pays, simulate-Simulated,
  is_duplicate-IsNew,
}
use per.Verification.Bid.Reading.{Says, extract_bid_data-Says}
use per.Verification.Signatures.Signed.{
  IsWellSigned, verify_signatures-IsWellSigned, may_be_missing,
}

-- What is promised of an accepted bid: `d` is what its transaction says, and `bid_chain_data` and
-- `amount` are what the server goes on with.
pub record IsAcceptable (v : Verifier) (world : World) (chain_id : ChainId)
    (chain_data : BidChainDataCreateSvm) (d : BidDataSvm) (bid_chain_data : BidChainDataSvm)
    (amount : ℕ) : Type 0 where
  pub says : Says v world chain_data d
  pub fits : Fits v (get_transaction chain_data)
  pub pays : Pays v world (get_transaction chain_data)
  pub same_transaction : bid_chain_data.transaction ≡ get_transaction chain_data
  pub same_router : bid_chain_data.router ≡ d.router
  pub same_permission : bid_chain_data.permission_account ≡ d.permission_account
  pub same_type : payment_type_of d.submit_type ≡ ok bid_chain_data.bid_payment_instruction_type
  pub same_amount : amount ≡ d.amount
  pub not_too_early : d.minimum_deadline ≤ d.deadline
  pub not_too_late :
      d.deadline ≤ rounded_with_offset world.rounded_at_check bid_maximum_life_time_svm
  pub well_signed : IsWellSigned v (get_transaction chain_data) (
      may_be_missing v
        (live_opportunities world chain_id (get_permission_key bid_chain_data))
        d.submit_type)
  pub simulated : Simulated world d bid_chain_data.bid_payment_instruction_type
  pub is_new : IsNew world chain_id bid_chain_data

checked_deadlines :
    (world : World) (d : BidDataSvm)
    → check_deadlines world d ≡ ok tt
    → (d.minimum_deadline ≤ d.deadline)
      × (d.deadline ≤ rounded_with_offset world.rounded_at_check bid_maximum_life_time_svm)
unfolding check_deadlines
checked_deadlines world d h =
    let (early, late) = (seq_ok _ _).0 h in
    (
      not_below d.deadline d.minimum_deadline ((fail_if_ok _ _).0 early),
      not_below (rounded_with_offset world.rounded_at_check bid_maximum_life_time_svm) d.deadline
          ((fail_if_ok _ _).0 late),
    )

module _ (v : Verifier) (world : World) (chain_id : ChainId)
    (chain_data : BidChainDataCreateSvm) where
  newly :
      (d : BidDataSvm) (bid_chain_data stored : BidChainDataSvm) (amount : ℕ)
      → check_new world chain_id d bid_chain_data ≡ ok (stored, amount)
      → (is_duplicate world chain_id bid_chain_data ≡ false)
        × (bid_chain_data ≡ stored)
        × (d.amount ≡ amount)
  unfolding check_new
  newly d bid_chain_data stored amount h =
      elim (Bool-cases (is_duplicate world chain_id bid_chain_data)) [
        | inl duplicate ↦ absurd (ground arith)
        | inr new ↦ (new, ground arith, ground arith)
      ]

  abbrev Accepts : BidDataSvm × BidChainDataSvm → Type 0
  Accepts (d, bid_chain_data) =
      simulate world chain_data d bid_chain_data.bid_payment_instruction_type ≡ some (ok tt)
      → is_duplicate world chain_id bid_chain_data ≡ false
      → IsAcceptable v world chain_id chain_data d bid_chain_data d.amount

  passed :
      (d : BidDataSvm) (payment_type : BidPaymentInstructionType)
      → check_tx_size v (get_transaction chain_data) ≡ ok tt
      → check_compute_budget v world.now world.samples (get_transaction chain_data) ≡ ok tt
      → extract_bid_data v world chain_data ≡ ok d
      → payment_type_of d.submit_type ≡ ok payment_type
      → check_extracted v world chain_id d
          (chain_data_of (get_transaction chain_data) d payment_type)
        ≡ ok tt
      → Accepts (d, chain_data_of (get_transaction chain_data) d payment_type)
  unfolding check_extracted chain_data_of
  passed d payment_type fits pays extracted typed checks simulated new =
      let (deadlines, signatures) = (seq_ok (check_deadlines world d) _).0 checks in
      let (early, late) = checked_deadlines world d deadlines in
      record {
        says = extract_bid_data-Says v world chain_data d extracted;
        fits = check_tx_size-Fits v (get_transaction chain_data) fits;
        pays = check_compute_budget-Pays v world (get_transaction chain_data) pays;
        same_transaction = refl;
        same_router = refl;
        same_permission = refl;
        same_type = typed;
        same_amount = refl;
        not_too_early = early;
        not_too_late = late;
        well_signed = verify_signatures-IsWellSigned v _ _ d.submit_type signatures;
        simulated = simulate-Simulated world chain_data d payment_type simulated;
        is_new =
            is_duplicate-IsNew world chain_id
              (chain_data_of (get_transaction chain_data) d payment_type) new;
      }

  checked :
      (d : BidDataSvm) (bid_chain_data : BidChainDataSvm)
      → check_bid v world chain_id chain_data ≡ ok (d, bid_chain_data)
      → Accepts (d, bid_chain_data)
  unfolding check_bid
  checked d bid_chain_data h =
      let tx = get_transaction chain_data in
      let (fits, h1) = then_ok (check_tx_size v tx) _ _ h in
      let (pays, h2) = then_ok (check_compute_budget v world.now world.samples tx) _ _ h1 in
      let (d', extracted, h3) = bind_ok (extract_bid_data v world chain_data) _ _ h2 in
      let (payment_type, paid, h4) = bind_ok (payment_type_of d'.submit_type) _ _ h3 in
      let data_now = chain_data_of tx d' payment_type in
      let (checks, same) = then_ok (check_extracted v world chain_id d' data_now) _ _ h4 in
      subst Accepts (ok_injective _ _ same) (passed d' payment_type fits pays extracted paid checks)

simulated_ok {ℓ} :
    {A : Type ℓ} (simulated : Option (Reply (Unit {0}))) (next : Reply A) (a : A)
    → after_simulation simulated next ≡ some (ok a)
    → (simulated ≡ some (ok tt)) × (next ≡ ok a)
unfolding after_simulation
simulated_ok none next a h = absurd cc
simulated_ok (some (err e)) next a h = absurd (err_not_ok e a cc)
simulated_ok (some (ok done)) next a h = (refl, cc)

pub verify_bid-IsAcceptable :
    (v : Verifier) (world : World) (chain_id : ChainId) (chain_data : BidChainDataCreateSvm)
    (bid_chain_data : BidChainDataSvm) (amount : ℕ)
    → verify_bid v world chain_id chain_data ≡ some (ok (bid_chain_data, amount))
    → (d : BidDataSvm) × IsAcceptable v world chain_id chain_data d bid_chain_data amount
unfolding verify_bid
verify_bid-IsAcceptable v world chain_id chain_data bid_chain_data amount h =
    elim (Result-cases (check_bid v world chain_id chain_data)) [
      | inl (e, failed) ↦ absurd (ground arith)
      | inr ((d, stored), found) ↦
          let (simulated, new) =
            simulated_ok (simulate world chain_data d stored.bid_payment_instruction_type)
              (check_new world chain_id d stored) (bid_chain_data, amount) (ground arith) in
          let (is_new, same, same_amount) =
            newly v world chain_id chain_data d stored bid_chain_data amount new in
          (
            d,
            subst (IsAcceptable v world chain_id chain_data d bid_chain_data) same_amount (
                subst (λ b. IsAcceptable v world chain_id chain_data d b d.amount) same
                  (checked v world chain_id chain_data d stored found simulated is_new)),
          )
    ]
