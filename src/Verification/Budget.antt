-- ===== src/Verification/Budget.antt =====
-- check_compute_budget of verification.rs and check_tx_size of kernel/entities.rs, with the window of
-- recent prioritization fees of the repository.
pub mod Price
use per.Prelude.{
  ℕ, ◌-◌, Option, none, some, List, [], ◌∷◌, ◌++◌, ltb, if◌then◌else◌, length, drop, keep, err,
  ◌>>=◌, fail_if, ok_or, ◌≡◌, All, ◌≤◌, ok, arith, ◌↔◌, ◌⊎◌, inl, inr,
}
use per.Auction.Entities.{Time, Transaction}
use per.Verification.Solana.{ComputeBudgetInstruction, set_compute_unit_price}
use per.Verification.Instructions.{Verifier, Numbered, extract_program_instructions}
use per.Auction.Errors.{
  Reply, bad_parameters, set_compute_unit_price_instruction_not_found, low_compute_unit_price,
  transaction_not_serialized, multiple_set_compute_unit_price_instructions,
  transaction_size_too_large,
}

pub record PrioritizationFeeSample : Type 0 where
  pub fee : ℕ
  pub sample_time : Time

abbrev pub recent_fees_slot_window : ℕ
recent_fees_slot_window = 12

-- `push_back`, and `pop_front` when the window is exceeded.
unfoldable pub add_recent_prioritization_fee :
    Time → ℕ → List PrioritizationFeeSample → List PrioritizationFeeSample
add_recent_prioritization_fee now fee samples =
    let pushed = samples ++ record { fee = fee; sample_time = now } ∷ [] in
    if ltb recent_fees_slot_window (length pushed) then drop 1 pushed else pushed

unfoldable pub get_priority_fees :
    Time → List PrioritizationFeeSample → List PrioritizationFeeSample
get_priority_fees after samples = keep (λ s. ltb after s.sample_time) samples

-- `min().unwrap_or(0)`
unfoldable pub min_fee : List PrioritizationFeeSample → ℕ
min_fee [] = 0
min_fee (s ∷ []) = s.fee
min_fee (s ∷ s' ∷ samples) =
    let rest = min_fee (s' ∷ samples) in if ltb rest s.fee then rest else s.fee

-- Times are in milliseconds.
abbrev pub recent_fees_period : Time
recent_fees_period = 15000

abbrev pub price_of : Option ComputeBudgetInstruction → Option ℕ
price_of (some (set_compute_unit_price price)) = some price
price_of _ = none

unfoldable pub budgets_of : Verifier → List Numbered → List ℕ
budgets_of v [] = []
budgets_of v ((index, instruction) ∷ instructions) =
    let rest = budgets_of v instructions in
    elim (price_of (v.solana.compute_budget_instruction instruction.bytes)) [
      | some price ↦ price ∷ rest
      | none ↦ rest
    ]

unfoldable pub check_budgets : ℕ → List ℕ → Reply (Unit {0})
check_budgets compute_unit_price [] =
    fail_if (ltb 0 compute_unit_price)
      (set_compute_unit_price_instruction_not_found compute_unit_price)
check_budgets compute_unit_price (budget ∷ []) =
    fail_if (ltb budget compute_unit_price) (low_compute_unit_price compute_unit_price)
check_budgets compute_unit_price (budget ∷ budget' ∷ budgets) =
    err multiple_set_compute_unit_price_instructions

-- The fees are those of the last 15 seconds; the clock is past its first 15 seconds.
unfoldable pub check_compute_budget :
    Verifier → Time → List PrioritizationFeeSample → Transaction → Reply (Unit {0})
check_compute_budget v now samples tx = do
  let compute_unit_price = min_fee (get_priority_fees (now - recent_fees_period) samples)
  instructions ← extract_program_instructions tx v.solana.compute_budget
  check_budgets compute_unit_price (budgets_of v instructions)

unfoldable pub check_tx_size : Verifier → Transaction → Reply (Unit {0})
check_tx_size v tx = do
  size ← ok_or (v.solana.serialized_size tx) (bad_parameters transaction_not_serialized)
  fail_if (ltb v.solana.packet_data_size size)
      (transaction_size_too_large size v.solana.packet_data_size)
