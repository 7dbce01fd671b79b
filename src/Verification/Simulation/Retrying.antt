-- ===== src/Verification/Simulation/Retrying.antt =====
-- The loop of simulate_bid: it makes at most six attempts, and answers with the first that is no stale
-- failure, or with the sixth.
use per.Prelude.{
  ℕ, zero, suc, ◌+◌, ◌≤◌, ◌<◌, ◌≡◌, refl, sym, subst, ◌⊎◌, inl, inr, Bool, true, false, ◌&&◌,
  Option, some, arith, ltb, Bool-cases, ok, err,
}
use per.Auction.Errors.{Reply, temporarily_unavailable, simulation_error}
use per.Verification.Simulation.{
  Attempt, unavailable, succeeded, failed_at, retry_limit, should_retry, simulate_loop,
  simulate_fuel, bid_slot_of, simulate_bid, simulate_turn,
}

-- A failure in a slot before that of the bid.
abbrev pub is_stale_failure : ℕ → Attempt → Bool
is_stale_failure bid_slot (failed_at slot) = ltb slot bid_slot
is_stale_failure bid_slot _ = false

-- The first n attempts all failed in stale slots.
unfoldable pub all_stale : ℕ → (ℕ → Attempt) → ℕ → Bool
all_stale bid_slot answers zero = true
all_stale bid_slot answers (suc n) =
    is_stale_failure bid_slot (answers n) && all_stale bid_slot answers n

abbrev pub outcome : Attempt → Reply (Unit {0})
outcome unavailable = err temporarily_unavailable
outcome succeeded = ok tt
outcome (failed_at slot) = err simulation_error

-- Attempt `last` settles the bid: the attempts before it are stale failures, and it is not one itself
-- or it is the last that is allowed.
pub record Settles (bid_slot : ℕ) (answers : ℕ → Attempt) (last : ℕ) : Type 0 where
  pub within_limit : last ≤ retry_limit
  pub stale_before : all_stale bid_slot answers last ≡ true
  pub settled : (last ≡ retry_limit) ⊎ (is_stale_failure bid_slot (answers last) ≡ false)

-- A turn that is a stale failure below the limit goes on, and any other one ends the loop.
turn_again :
    (bid_slot retry_count : ℕ) (again : Option (Reply (Unit {0}))) (a : Attempt)
    → is_stale_failure bid_slot a ≡ true
    → ltb retry_count retry_limit ≡ true
    → simulate_turn bid_slot retry_count again a ≡ again
unfolding simulate_turn should_retry
turn_again bid_slot retry_count again unavailable stale below = cc
turn_again bid_slot retry_count again succeeded stale below = cc
turn_again bid_slot retry_count again (failed_at slot) stale below = rw (stale, below) refl

turn_ends :
    (bid_slot retry_count : ℕ) (again : Option (Reply (Unit {0}))) (a : Attempt)
    → (is_stale_failure bid_slot a && ltb retry_count retry_limit) ≡ false
    → simulate_turn bid_slot retry_count again a ≡ some (outcome a)
unfolding simulate_turn should_retry
turn_ends bid_slot retry_count again unavailable ends = refl
turn_ends bid_slot retry_count again succeeded ends = refl
turn_ends bid_slot retry_count again (failed_at slot) ends = rw ends refl

module _ (answers : ℕ → Attempt) (bid_slot : ℕ) where
  abbrev Answered : Option (Reply (Unit {0})) → Type 0
  Answered r = (last : ℕ) × (r ≡ some (outcome (answers last))) × Settles bid_slot answers last

  answered :
      (fuel retry_count : ℕ)
      → retry_count + fuel ≡ 6
      → retry_count < 6
      → all_stale bid_slot answers retry_count ≡ true
      → Answered (simulate_loop fuel answers bid_slot retry_count)
  unfolding simulate_loop all_stale
  answered zero retry_count left below stale = absurd (omega arith)
  answered (suc fuel) retry_count left below stale =
      elim (Bool-cases (is_stale_failure bid_slot (answers retry_count))) [
        | inl failed ↦ elim (Bool-cases (ltb retry_count retry_limit)) [
          | inl more ↦
              subst Answered
                (sym (turn_again bid_slot retry_count _ (answers retry_count) failed more))
                (answered fuel (suc retry_count) (omega arith) (ground arith)
                  (rw (failed, stale) refl))
          | inr at_limit ↦ (
            retry_count,
            turn_ends bid_slot retry_count _ (answers retry_count) (rw (failed, at_limit) refl),
            record {
              within_limit = omega arith;
              stale_before = stale;
              settled = inl (ground arith);
            },
          )
        ]
        | inr done ↦ (
          retry_count,
          turn_ends bid_slot retry_count _ (answers retry_count) (rw done refl),
          record { within_limit = omega arith; stale_before = stale; settled = inr done },
        )
      ]

-- The simulation of a bid ends: it answers with the outcome of one of its first six attempts, before
-- which every attempt failed in a slot older than the bid's, and which did not itself or was the
-- sixth.
pub simulate_bid-Settles :
    (answers : ℕ → Attempt) (slot : Option ℕ)
    → (last : ℕ) × (simulate_bid answers slot ≡ some (outcome (answers last)))
      × Settles (bid_slot_of slot) answers last
unfolding simulate_bid all_stale
simulate_bid-Settles answers slot =
    answered answers (bid_slot_of slot) simulate_fuel 0 (omega arith) (omega arith) refl
