-- ===== src/Verification/Simulation.antt =====
-- simulate_swap_bid and simulate_bid of verification.rs. What the chain and the simulator answer is an
-- argument; for the loop of simulate_bid it is the answer to each attempt.
pub mod Retrying
use per.Prelude.{
  ℕ, zero, suc, ◌+◌, ◌-◌, ◌*◌, ◌/◌, ◌%◌, ◌^◌, ◌≤◌, ◌<◌, ◌≡◌, refl, sym, ap, subst, ◌∙◌, ◌≢◌, ◌↔◌,
  ◌⊎◌, inl, inr, Bool, true, false, ◌&&◌, ◌||◌, Option, none, some, List, [], ◌∷◌, ◌++◌, map, arith,
  ltb, leb, ◌==◌, not, ◌!=◌, if◌then◌else◌, ==_refl, Bool-cases, Option-cases, bytes_eq,
  bytes_eq_refl, bytes_eq_iff, take-append, drop-append, length, take, drop, get_elem?,
  length-append, keep, find, any, all, is_empty, first, All, Result, ok, err, ◌>>=◌, ◌>>◌, fail_if,
  ok_or, Result-cases, OnSome, u64_limit, checked_add, checked_sub, checked_mul, saturating_sub,
}
use per.Auction.Entities.{TransactionError, custom_error, other_error, insufficient_user_funds_code}
use per.Auction.Errors.{Reply, temporarily_unavailable, simulation_error}

-- The call may fail; a simulation gives the transaction's error, if there is one.
pub data SwapSimulation : Type 0 where
  simulation_unavailable : SwapSimulation
  simulated : Option TransactionError → SwapSimulation

-- The program itself refuses the swap for the user's lack of funds.
unfoldable pub is_insufficient_funds_error : ℕ → TransactionError → Bool
is_insufficient_funds_error swap_instruction_index (custom_error index code) =
    index == swap_instruction_index && code == insufficient_user_funds_code
is_insufficient_funds_error swap_instruction_index other_error = false

unfoldable pub simulate_swap_bid : SwapSimulation → ℕ → Reply (Unit {0})
simulate_swap_bid simulation_unavailable swap_instruction_index = err temporarily_unavailable
simulate_swap_bid (simulated none) swap_instruction_index = ok tt
simulate_swap_bid (simulated (some error)) swap_instruction_index =
    if is_insufficient_funds_error swap_instruction_index error then ok tt else err simulation_error

-- The simulator's answer to one attempt: whether the transaction succeeds, and for a failure the slot
-- it ran in.
pub data Attempt : Type 0 where
  unavailable succeeded : Attempt
  failed_at : (slot : ℕ) → Attempt

abbrev pub retry_limit : ℕ
retry_limit = 5

unfoldable pub should_retry : ℕ → ℕ → ℕ → Bool
should_retry bid_slot result_slot retry_count =
    ltb result_slot bid_slot && ltb retry_count retry_limit

-- One turn of the loop: `again` is what the next turn gives.
unfoldable pub simulate_turn :
    ℕ → ℕ → Option (Reply (Unit {0})) → Attempt → Option (Reply (Unit {0}))
simulate_turn bid_slot retry_count again unavailable = some (err temporarily_unavailable)
simulate_turn bid_slot retry_count again succeeded = some (ok tt)
simulate_turn bid_slot retry_count again (failed_at slot) =
    if should_retry bid_slot slot retry_count then again else some (err simulation_error)

-- The loop, on fuel: `none` is running out of it.
unfoldable pub simulate_loop : ℕ → (ℕ → Attempt) → ℕ → ℕ → Option (Reply (Unit {0}))
simulate_loop zero answers bid_slot retry_count = none
simulate_loop (suc fuel) answers bid_slot retry_count =
    simulate_turn bid_slot retry_count (simulate_loop fuel answers bid_slot (suc retry_count))
      (answers retry_count)

-- One run and at most five more.
abbrev pub simulate_fuel : ℕ
simulate_fuel = 6

-- A bid that names no slot has slot 0.
abbrev pub bid_slot_of : Option ℕ → ℕ
bid_slot_of none = 0
bid_slot_of (some slot) = slot

unfoldable pub simulate_bid : (ℕ → Attempt) → Option ℕ → Option (Reply (Unit {0}))
simulate_bid answers slot = simulate_loop simulate_fuel answers (bid_slot_of slot) 0
