-- ===== src/Verification/Bid/Passing.antt =====
-- What it means that each of the last checks of verify_bid passes.
use per.Prelude.{
  ℕ, ◌-◌, ◌≤◌, ◌≡◌, refl, ◌⊎◌, inl, inr, true, false, none, some, List, [], ◌∷◌, arith, Bool-cases,
  Option-cases, ==_refl, bytes_eq_iff, length, any, All, ok,
}
use per.Auction.Entities.{
  Transaction, Bid, BidChainDataSvm, BidPaymentInstructionType, submit_bid_type, swap_type,
  TransactionError,
}
use per.Auction.Entities.PermissionKey.{get_permission_key}
use per.Auction.Repository.{get_in_memory_pending_bids_by_permission_key}
use per.Opportunity.Entities.{ChainId}
use per.Verification.Instructions.{Verifier, Numbered, extract_program_instructions}
use per.Verification.Checks.{bind_ok}
use per.Verification.Budget.{
  check_compute_budget, check_tx_size, budgets_of, get_priority_fees, recent_fees_period,
}
use per.Verification.Budget.Price.{IsEnough, offered, check_compute_budget_iff}
use per.Verification.Simulation.{
  simulate_swap_bid, Attempt, succeeded, failed_at, unavailable, SwapSimulation, simulated,
  simulation_unavailable, is_insufficient_funds_error, retry_limit,
}
use per.Verification.Simulation.Retrying.{simulate_bid-Settles, outcome}
use per.Verification.Extraction.{BidChainDataCreateSvm, BidDataSvm, World}
use per.Verification.Bid.{
  simulate, is_indicative, slot_of, is_duplicate, is_same_bid, same_transaction,
}

-- The transaction fits into a packet.
abbrev pub Fits : Verifier → Transaction → Type 0
Fits v tx =
    (size : ℕ) × (v.solana.serialized_size tx ≡ some size) × (size ≤ v.solana.packet_data_size)

pub check_tx_size-Fits : (v : Verifier) (tx : Transaction) → check_tx_size v tx ≡ ok tt → Fits v tx
unfolding check_tx_size
check_tx_size-Fits v tx h = elim (Option-cases (v.solana.serialized_size tx)) [
  | inl unknown ↦ absurd (ground arith)
  | inr (size, e) ↦ (size, e, ground arith)
]

-- The instructions set at most one price, which reaches one of the recent fees, if there are any.
abbrev pub Pays : Verifier → World → Transaction → Type 0
Pays v world tx =
    (instructions : List Numbered) × (extract_program_instructions tx v.solana.compute_budget
      ≡ ok instructions)
    × (length (budgets_of v instructions) ≤ 1)
    × IsEnough (offered (budgets_of v instructions))
        (get_priority_fees (world.now - recent_fees_period) world.samples)

pub check_compute_budget-Pays :
    (v : Verifier) (world : World) (tx : Transaction)
    → check_compute_budget v world.now world.samples tx ≡ ok tt
    → Pays v world tx
unfolding check_compute_budget
check_compute_budget-Pays v world tx h =
    let (instructions, selected, rest) =
      bind_ok (extract_program_instructions tx v.solana.compute_budget) _ _ h in
    let paid = (check_compute_budget_iff v world.now world.samples tx instructions selected).0 h in
    (instructions, selected, paid.0, paid.1)

-- A SubmitBid succeeded in one of the first six attempts. A swap was not simulated, since its user is
-- the indicative price taker, or it succeeded, or failed only for the user's lack of funds.
abbrev pub Simulated : World → BidDataSvm → BidPaymentInstructionType → Type 0
Simulated world d submit_bid_type =
    (last : ℕ) × (last ≤ retry_limit) × (world.attempts last ≡ succeeded)
Simulated world d swap_type =
    (is_indicative d ≡ true)
    ⊎ ((world.swap_simulation ≡ simulated none)
        ⊎ ((error : TransactionError) × (world.swap_simulation ≡ simulated (some error))
            × (is_insufficient_funds_error d.express_relay_instruction_index error ≡ true)))

outcome_ok : (a : Attempt) → outcome a ≡ ok tt → a ≡ succeeded
outcome_ok succeeded h = refl
outcome_ok unavailable h = absurd cc
outcome_ok (failed_at slot) h = absurd cc

swap_simulated :
    (simulation : SwapSimulation) (index : ℕ)
    → simulate_swap_bid simulation index ≡ ok tt
    → (simulation ≡ simulated none)
      ⊎ ((error : TransactionError) × (simulation ≡ simulated (some error))
          × (is_insufficient_funds_error index error ≡ true))
unfolding simulate_swap_bid
swap_simulated simulation_unavailable index h = absurd cc
swap_simulated (simulated none) index h = inl refl
swap_simulated (simulated (some error)) index h = inr (error, refl, ground arith)

pub simulate-Simulated :
    (world : World) (chain_data : BidChainDataCreateSvm) (d : BidDataSvm)
    (instruction_type : BidPaymentInstructionType)
    → simulate world chain_data d instruction_type ≡ some (ok tt)
    → Simulated world d instruction_type
unfolding simulate
simulate-Simulated world chain_data d submit_bid_type h =
    let (last, answered, settles) = simulate_bid-Settles world.attempts (slot_of chain_data) in
    (last, settles.within_limit, outcome_ok (world.attempts last) cc)
simulate-Simulated world chain_data d swap_type h = elim (Bool-cases (is_indicative d)) [
  | inl indicative ↦ inl indicative
  | inr other ↦
      inr (swap_simulated world.swap_simulation d.express_relay_instruction_index (ground arith))
]

-- A pending bid with the chain, the signatures and the message of a transaction.
abbrev pub Repeats : ChainId → Transaction → Bid → Type 0
Repeats chain_id tx b =
    (tx.signatures ≡ b.chain_data.transaction.signatures)
    × (tx.message ≡ b.chain_data.transaction.message)
    × (chain_id ≡ b.chain_id)

-- No pending bid of the permission key repeats the transaction.
abbrev pub IsNew : World → ChainId → BidChainDataSvm → Type 0
IsNew world chain_id d =
    All (λ b. ¬ Repeats chain_id d.transaction b)
      (get_in_memory_pending_bids_by_permission_key (get_permission_key d) world.pending_bids)

none_same :
    (chain_id : ChainId) (tx : Transaction) (bids : List Bid)
    → any (is_same_bid chain_id tx) bids ≡ false
    → All (λ b. ¬ Repeats chain_id tx b) bids
unfolding is_same_bid same_transaction
none_same chain_id tx [] h = tt
none_same chain_id tx (b ∷ bids) h = (
  λ r.
      let signatures = (bytes_eq_iff tx.signatures b.chain_data.transaction.signatures).1 r.0 in
      let message = (bytes_eq_iff tx.message b.chain_data.transaction.message).1 r.1 in
      let chain = ==_refl chain_id in absurd (ground arith),
  none_same chain_id tx bids (ground arith),
)

pub is_duplicate-IsNew :
    (world : World) (chain_id : ChainId) (d : BidChainDataSvm)
    → is_duplicate world chain_id d ≡ false
    → IsNew world chain_id d
unfolding is_duplicate
is_duplicate-IsNew world chain_id d h = none_same chain_id d.transaction _ h
